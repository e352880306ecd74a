-- ===== src/Middleware/Auth/ClientIp.antt =====
-- internal/middleware/auth.go: what of the context comes from the peer and what from headers.
use mathlib.Core.List.{reverse, reverse-append}
use text.Mathlib.TextLemmas.{nil-append, cons-append, append-ne-nil_of_right_ne-nil, cons-ne-nil}
use swayrider_api.Base.{
  Char, String, append, ◌≡◌, refl, sym, ap, ◌∙◌, ◌≢◌, ◌⊎◌, inl, inr, true, false, not, some, List,
  [], ◌∷◌, ◌++◌, arith, ◌==◌, eq_iff, if◌then◌else◌, contains_char, trim_space, split, code,
  Bool-cases, subst, onto_head, eqb, if-true, if-false,
}
use swayrider_api.Http.{Request, Headers, Claims, header_get}
use swayrider_api.Middleware.Auth.{
  Env, peer_ip, is_trusted_proxy, is_skipped, client_from, client_ip, token_of, verified,
  authenticate,
}

-- A text without commas is one part.
split-one : (x : String) → contains_char x b',' ≡ false → split x b',' ≡ x ∷ []
unfolding split contains_char
split-one String.[] h = refl
split-one (String.◌∷◌ c x) h = ground (arith, split-one x)

onto_head-ne-nil : (c : Char) (l : List String) → onto_head c l ≢ []
onto_head-ne-nil c [] e = cc
onto_head-ne-nil c (x ∷ l) e = cc

onto_head-append :
    (c : Char) (l ys : List String) → l ≢ [] → onto_head c (l ++ ys) ≡ onto_head c l ++ ys
onto_head-append c [] ys ne = absurd (ne refl)
onto_head-append c (x ∷ l) ys ne = refl

split-ne-nil : (x : String) → split x b',' ≢ []
unfolding split
split-ne-nil String.[] e = cc
split-ne-nil (String.◌∷◌ c x) e = ground (arith, e, onto_head-ne-nil c (split x b','))

split-cons :
    (c : Char) (s : String) (parts : List String)
    → split s b',' ≡ parts
    → split (String.◌∷◌ c s) b','
      ≡ (if eqb (code c) b',' then String.[] ∷ parts else onto_head c parts)
unfolding split
split-cons c s parts e = rw e

-- The last part of a list of proxies is what the last proxy appended.
split-append :
    (h x : String)
    → contains_char x b',' ≡ false
    → split (append h (append "," x)) b',' ≡ split h b',' ++ x ∷ []
split-append String.[] x n =
    rw (nil-append, cons-append, nil-append) (unfold split in rw (split-one x n))
split-append (String.◌∷◌ c h) x n = rw cons-append (
    split-cons c (append h (append "," x)) _ (split-append h x n)
    ∙ rw (split-cons c h _ refl)
        (ground (arith, onto_head-append c (split h b',') (x ∷ []), split-ne-nil h)))

module _ {Ip Net : Type 0} (env : Env Ip Net) (trusted : List Net) where
  -- A proxy in front of the gateway appends the address it saw to the header. Where that address is
  -- no trusted proxy and not blank, it is the client IP, whatever stood in the header before.
  client_ip-append :
      (headers : Headers) (peer forged seen : String)
      → is_trusted_proxy env peer trusted ≡ true
      → header_get headers "X-Forwarded-For" ≡ append forged (append "," seen)
      → contains_char seen b',' ≡ false
      → is_skipped env trusted (trim_space seen) ≡ false
      → client_ip env headers peer trusted ≡ trim_space seen
  unfolding client_ip client_from
  client_ip-append headers peer forged seen t e n s =
      if-false (not (is_trusted_proxy env peer trusted)) _ _ (ap not t)
      ∙ if-false (header_get headers "X-Forwarded-For" == "") _ _
          (ground (arith, eq_iff (header_get headers "X-Forwarded-For") "", nonempty))
      ∙ rw (e, split-append forged seen n, reverse-append)
          (if-false (is_skipped env trusted (trim_space seen)) _ _ s)
    where
      nonempty : header_get headers "X-Forwarded-For" ≢ ""
      nonempty z =
          append-ne-nil_of_right_ne-nil forged
            (λ k. cons-ne-nil "," seen (rw (cons-append, nil-append) at k)) (sym e ∙ z)

  -- The loop answers the peer or an entry that is not skipped.
  client_from-cases :
      (peer : String) (entries : List String)
      → (client_from env trusted peer entries ≡ peer)
        ⊎ (is_skipped env trusted (client_from env trusted peer entries) ≡ false)
  unfolding client_from
  client_from-cases peer [] = inl refl
  client_from-cases peer (x ∷ entries) = elim (Bool-cases (is_skipped env trusted (trim_space x))) [
    | inl skip ↦ rw (skip, client_from) (client_from-cases peer entries)
    | inr keep ↦ inr (rw (keep, client_from) keep)
  ]

  abbrev IsClient : String → String → Type 0
  IsClient peer ip = (ip ≡ peer) ⊎ (is_skipped env trusted ip ≡ false)

  client_ip-IsClient :
      (headers : Headers) (peer : String) → IsClient peer (client_ip env headers peer trusted)
  unfolding client_ip
  client_ip-IsClient headers peer = elim (Bool-cases (is_trusted_proxy env peer trusted)) [
    | inr off ↦ inl (if-true (not (is_trusted_proxy env peer trusted)) _ _ (ap not off))
    | inl on ↦
        let start = if-false (not (is_trusted_proxy env peer trusted)) _ _ (ap not on) in
        elim (Bool-cases (header_get headers "X-Forwarded-For" == "")) [
          | inl blank ↦ inl (start ∙ if-true (header_get headers "X-Forwarded-For" == "") _ _ blank)
          | inr some_text ↦
              subst (IsClient peer)
                (sym (start ∙ if-false (header_get headers "X-Forwarded-For" == "") _ _ some_text))
                (client_from-cases peer
                  (reverse (split (header_get headers "X-Forwarded-For") b',')))
        ]
  ]

-- Behind a trusted proxy that appended the address `seen`, the client IP is that address, whatever
-- the client wrote into X-Forwarded-For before it, if the address is not blank and not itself a
-- trusted proxy.
pub orig_ip-append :
    {Ip Net : Type 0} (env : Env Ip Net) (trusted : List Net) (r : Request) (forged seen : String)
    → is_trusted_proxy env (peer_ip env r) trusted ≡ true
    → header_get r.headers "X-Forwarded-For" ≡ append forged (append "," seen)
    → contains_char seen b',' ≡ false
    → is_skipped env trusted (trim_space seen) ≡ false
    → (authenticate env trusted r).orig_ip ≡ trim_space seen
unfolding authenticate
orig_ip-append env trusted r forged seen t e n s =
    client_ip-append env trusted r.headers (peer_ip env r) forged seen t e n s

-- A request whose peer is no trusted proxy gets the peer as its IP and the TLS state as its secure
-- flag: no header changes them.
pub untrusted_peer :
    {Ip Net : Type 0} (env : Env Ip Net) (trusted : List Net) (r : Request)
    → is_trusted_proxy env (peer_ip env r) trusted ≡ false
    → ((authenticate env trusted r).orig_ip ≡ peer_ip env r)
      × ((authenticate env trusted r).secure ≡ r.tls)
unfolding authenticate client_ip
untrusted_peer env trusted r h =
    (if-true (not (is_trusted_proxy env (peer_ip env r) trusted)) _ _ (ap not h), ground (arith, h))

-- The client IP is the peer, or an address that is neither blank nor a trusted proxy.
orig_ip-cases :
    {Ip Net : Type 0} (env : Env Ip Net) (trusted : List Net) (r : Request)
    → ((authenticate env trusted r).orig_ip ≡ peer_ip env r)
      ⊎ (is_skipped env trusted (authenticate env trusted r).orig_ip ≡ false)
unfolding authenticate
orig_ip-cases env trusted r = client_ip-IsClient env trusted r.headers (peer_ip env r)

-- Claims in the context are what the key cache answered for the token that is stored beside them,
-- and that token is not empty.
claims_verified :
    {Ip Net : Type 0} (env : Env Ip Net) (trusted : List Net) (r : Request) (c : Claims)
    → (authenticate env trusted r).claims ≡ some c
    → (env.verify (token_of env r) ≡ some c)
      × (token_of env r ≢ "")
      × ((authenticate env trusted r).jwt ≡ some (token_of env r))
unfolding authenticate verified
claims_verified env trusted r c h = (
  ground (arith, eq_iff (token_of env r) ""),
  ground (arith, eq_iff (token_of env r) ""),
  ground (arith, eq_iff (token_of env r) ""),
)
