-- ===== src/Sse/Subscription/Left.antt =====
-- What the steps of a request and of the worker of its job leave (internal/sse, internal/queue).
use swayrider_api.Base.{
  String, ◌≡◌, refl, ap, ◌⊎◌, inl, inr, Bool, true, false, not, Option, none, some, List, [], ◌∷◌,
  ◌++◌, if◌then◌else◌, Bool-cases,
}
use swayrider_api.Queue.{Codec}
use swayrider_api.Sse.{timeout_event, delivery}
use swayrider_api.Sse.Subscription.{
  Phase, asking, waiting, ended, Duty, to_set, to_publish, finished, looked,
}

module _ (codec : Codec) (result : String) (user : String) where
  -- What the worker's steps so far have left: the key's value, the messages, and whether PUBLISH was
  -- missed.
  abbrev pub Left : Duty → Option String → List String → Bool → Type 0
  Left to_set value inbox missed = (value ≡ none) × (inbox ≡ []) × (missed ≡ false)
  Left to_publish value inbox missed = (value ≡ some result) × (inbox ≡ []) × (missed ≡ false)
  Left finished value inbox missed =
      (value ≡ some result)
      × ((missed ≡ true) × (inbox ≡ []) ⊎ (missed ≡ false) × (inbox ≡ result ∷ []))

  -- What the request knows while it waits, and what it wrote.
  abbrev pub Known : Phase → Bool → Bool → Bool → Type 0
  Known asking ready active missed = Unit
  Known waiting ready active missed = (ready ≡ false) ⊎ (active ≡ true) × (missed ≡ false)
  Known (ended es) ready active missed =
      (es ≡ delivery codec result user ∷ []) ⊎ (es ≡ timeout_event ∷ []) ⊎ (es ≡ [])

  Left-none :
      (d : Duty) (value : Option String) (inbox : List String) (missed : Bool)
      → Left d value inbox missed
      → value ≡ none
      → missed ≡ false
  Left-none to_set value inbox missed (v, i, m) e = m
  Left-none to_publish value inbox missed (v, i, m) e = m
  Left-none finished value inbox missed (v, i) e = cc

  Left-some :
      (d : Duty) (value : Option String) (inbox : List String) (missed : Bool)
      → Left d value inbox missed
      → (x : String) → value ≡ some x
      → x ≡ result
  Left-some to_set value inbox missed (v, i, m) x e = cc
  Left-some to_publish value inbox missed (v, i, m) x e = cc
  Left-some finished value inbox missed (v, i) x e = cc

  pub Left-message :
      (d : Duty) (value : Option String) (inbox : List String) (missed : Bool)
      → Left d value inbox missed
      → (x : String) (rest : List String) → inbox ≡ x ∷ rest
      → x ≡ result
  Left-message to_set value inbox missed (v, i, m) x rest e = cc
  Left-message to_publish value inbox missed (v, i, m) x rest e = cc
  Left-message finished value inbox missed (v, inl (m, i)) x rest e = cc
  Left-message finished value inbox missed (v, inr (m, i)) x rest e = cc

  -- PUBLISH reaches the subscription where it is active.
  pub Left-publish :
      (active : Bool) (value : Option String) (inbox : List String) (missed : Bool)
      → Left to_publish value inbox missed
      → Left finished value (if active then inbox ++ result ∷ [] else inbox) (not active)
  Left-publish true value inbox missed (v, i, m) = (v, inr (refl, rw (i) refl))
  Left-publish false value inbox missed (v, i, m) = (v, inl (refl, i))

  pub Known-publish :
      (p : Phase) (ready active missed : Bool)
      → Known p ready active missed
      → Known p ready active (not active)
  Known-publish asking ready active missed k = tt
  Known-publish waiting ready active missed (inl r) = inl r
  Known-publish waiting ready active missed (inr (a, m)) = inr (a, rw (a) refl)
  Known-publish (ended es) ready active missed k = k

  pub Known-activate :
      (p : Phase) (ready active missed : Bool)
      → Known p ready active missed
      → Known p ready true missed
  Known-activate asking ready active missed k = tt
  Known-activate waiting ready active missed (inl r) = inl r
  Known-activate waiting ready active missed (inr (a, m)) = inr (refl, m)
  Known-activate (ended es) ready active missed k = k

  -- GET finds the result, or no message was missed so far.
  pub Known-looked :
      (value : Option String) (d : Duty) (inbox : List String) (active missed : Bool)
      → Left d value inbox missed
      → Known (looked codec user value) active active missed
  Known-looked none d inbox active missed l = elim (Bool-cases active) [
    | inl on ↦ inr (on, Left-none d none inbox missed l refl)
    | inr off ↦ inl off
  ]
  Known-looked (some x) d inbox active missed l =
      inl (ap (λ y. delivery codec y user ∷ []) (Left-some d (some x) inbox missed l x refl))
