-- ===== src/Handlers/Cookies/Stripped.antt =====
-- What of the browser's cookies reaches the downstream services.
use text.Mathlib.Text.{◌==◌}
use swayrider_api.Base.{
  String, append, ◌≡◌, sym, ap, ◌∙◌, ◌⊎◌, inl, inr, ◌≢◌, true, List, [], ◌∷◌, ◌++◌, eq_iff, All,
  join, Bool-cases, true_not_false, trim_space, Bool, ℕ, Char, false, refl, contains_char,
  before_char, is_space, trim_left, onto_head, code, eqb, In, arith, split, trim_prefix,
  trim_right_by,
}
use swayrider_api.Base.Prefix.{has_prefix-append, eq-append_of_has_prefix}
use swayrider_api.Http.{Headers, Request, header_del, header_set, header_values, header_values-del}
use swayrider_api.Handlers.Cookies.{
  cookie_name, is_kept, kept_of, kept_from, strip_cookies, set_kept, tiles_request, map_web_path,
  web_request,
}

-- A pair that the header may carry downstream: one cookie, without the separator ';', whose name, which
-- is the trimmed text before the first '=', is in the list.
abbrev pub IsAllowed : List String → String → Type 0
IsAllowed keep pair =
    (pair ≢ "") × (contains_char pair b';' ≡ false) × In (trim_space (before_char pair b'=')) keep

abbrev IsSingle : String → Type 0
IsSingle pair = contains_char pair b';' ≡ false

trim_left-Single : (s : String) → IsSingle s → IsSingle (trim_left s)
unfolding trim_left contains_char
trim_left-Single String.[] h = refl
trim_left-Single (String.◌∷◌ c s) h = ground (arith, h, trim_left-Single s)

trim_right_by-Single : (p : ℕ → Bool) (s : String) → IsSingle s → IsSingle (trim_right_by p s)
unfolding trim_right_by contains_char
trim_right_by-Single p String.[] h = refl
trim_right_by-Single p (String.◌∷◌ c s) h = ground (arith, h, trim_right_by-Single p s)

trim_space-Single : (s : String) → IsSingle s → IsSingle (trim_space s)
unfolding trim_space
trim_space-Single s h = trim_right_by-Single is_space (trim_left s) (trim_left-Single s h)

onto_head-Single :
    (c : Char) (parts : List String)
    → eqb (code c) b';' ≡ false
    → All IsSingle parts
    → All IsSingle (onto_head c parts)
unfolding contains_char
onto_head-Single c [] e h = (ground (arith, e), tt)
onto_head-Single c (part ∷ parts) e (h, k) = (ground (arith, e, h), k)

split-Single : (s : String) → All IsSingle (split s b';')
unfolding split contains_char
split-Single String.[] = (refl, tt)
split-Single (String.◌∷◌ c s) = elim (Bool-cases (eqb (code c) b';')) [
  | inl e ↦ rw e (refl, split-Single s)
  | inr n ↦ rw n (onto_head-Single c (split s b';') n (split-Single s))
]

is_kept-In : (keep : List String) (name : String) → is_kept keep name ≡ true → In name keep
is_kept-In [] name e = cc
is_kept-In (k ∷ keep) name e = elim (Bool-cases (k == name)) [
  | inl same ↦ inl (sym ((eq_iff k name).0 same))
  | inr other ↦ inr (is_kept-In keep name (ground (arith, e, other)))
]

IsAllowed-append :
    (keep xs ys : List String)
    → All (IsAllowed keep) xs
    → All (IsAllowed keep) ys
    → All (IsAllowed keep) (xs ++ ys)
IsAllowed-append keep [] ys h k = k
IsAllowed-append keep (x ∷ xs) ys h k = (h.0, IsAllowed-append keep xs ys h.1 k)

kept_of-Allowed :
    (keep pairs : List String) → All IsSingle pairs → All (IsAllowed keep) (kept_of keep pairs)
unfolding kept_of cookie_name
kept_of-Allowed keep [] h = tt
kept_of-Allowed keep (pair ∷ pairs) h =
    let rest = kept_of-Allowed keep pairs h.1 in
    elim (Bool-cases (trim_space pair == "")) [
      | inl empty ↦ rw empty rest
      | inr full ↦ elim (Bool-cases (is_kept keep (cookie_name (trim_space pair)))) [
        | inl named ↦
            rw (full, named)
              (
                (
                  λ e. true_not_false (sym ((eq_iff _ _).1 e) ∙ full),
                  trim_space-Single pair h.0,
                  is_kept-In keep _ named,
                ),
                rest,
              )
        | inr other ↦ rw (full, other) rest
      ]
    ]

kept_from-Allowed : (keep lines : List String) → All (IsAllowed keep) (kept_from keep lines)
unfolding kept_from
kept_from-Allowed keep [] = tt
kept_from-Allowed keep (line ∷ lines) =
    IsAllowed-append keep _ _ (kept_of-Allowed keep (split line b';') (split-Single line))
      (kept_from-Allowed keep lines)

from_kept :
    (headers : Headers) (keep kept : List String)
    → All (IsAllowed keep) kept
    → let sent = set_kept headers kept in
      (header_values sent "Cookie" ≡ [])
      ⊎ ((kept : List String) × (header_values sent "Cookie" ≡ join kept "; " ∷ [])
          × All (IsAllowed keep) kept)
unfolding header_set header_values
from_kept headers keep [] h = inl (header_values-del headers "Cookie" "Cookie")
from_kept headers keep (p ∷ kept) h = inr (
  p ∷ kept,
  ap (λ (vs : List String). join (p ∷ kept) "; " ∷ vs)
      (header_values-del headers "Cookie" "Cookie"),
  h,
)

-- The web proxy sends no Cookie header, or one that joins single cookies, with no ';' inside, which
-- each have a name, after trimming, that is the access token's cookie name.
pub web_request-cookies :
    (access_token prefix : String) (r : Request)
    → let sent = (web_request access_token prefix r).headers in
      (header_values sent "Cookie" ≡ [])
      ⊎ ((kept : List String) × (header_values sent "Cookie" ≡ join kept "; " ∷ [])
          × All (IsAllowed (access_token ∷ [])) kept)
unfolding web_request strip_cookies
web_request-cookies access_token prefix r =
    let keep : List String = access_token ∷ [] in
    from_kept r.headers keep (kept_from keep (header_values r.headers "Cookie"))
      (kept_from-Allowed keep (header_values r.headers "Cookie"))

-- The tiles proxy sends no cookie at all, and the gateway's own token as the only authorization,
-- whatever the request carried.
tiles_request-headers :
    (token : String) (r : Request)
    → (header_values (tiles_request token r).headers "Cookie" ≡ [])
      × (header_values (tiles_request token r).headers "Authorization"
          ≡ append "Bearer " token ∷ [])
unfolding tiles_request strip_cookies header_set header_values
tiles_request-headers token r = (
  header_values-del (header_del r.headers "Cookie") "Authorization" "Cookie"
      ∙ header_values-del r.headers "Cookie" "Cookie",
  ap (λ (vs : List String). append "Bearer " token ∷ vs)
      (header_values-del (header_del r.headers "Cookie") "Authorization" "Authorization"),
)

-- With authservice's default prefix the path of a request below /web is passed on as it came.
map_web_path-default :
    (rest : String) → map_web_path (append "/web" rest) "/web" ≡ append "/web" rest
unfolding map_web_path trim_prefix trim_right_by
map_web_path-default rest =
    let h = has_prefix-append "/web" rest in
    rw h (sym (eq-append_of_has_prefix (append "/web" rest) "/web" h))
