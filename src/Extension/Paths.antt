-- ===== src/Extension/Paths.antt =====
-- The paths that validatePath accepts.
use text.Mathlib.TextLemmas.{append-nil, append_cancel_left}
use swayrider_api.Base.{
  String, append, ◌≡◌, refl, sym, ap, ◌∙◌, ◌≢◌, ◌↔◌, inl, inr, true, false, List, [], ◌∷◌, arith,
  eq_iff, any, All, Bool-cases, has_prefix, contains, contains_any, len, drop_text,
}
use swayrider_api.Base.Prefix.{
  has_prefix-append, eq-append_of_has_prefix, eq_of_has_prefix, has_prefix_refl,
}
use swayrider_api.Extension.{base, reserved_prefixes, is_under, validate_path, ok}

-- `p` is neither the prefix `r` itself nor below it.
abbrev pub IsOutside : String → String → Type 0
IsOutside p r = (p ≢ r) × ((t : String) → p ≢ append (append r "/") t)

pub is_under-eq-false : (p r : String) → is_under p r ≡ false ↔ IsOutside p r
is_under-eq-false p r = (
  λ h. (
    λ e. ground (arith, eq_iff p r),
    λ t e.
        let hit : has_prefix p (append r "/") ≡ true = rw e (has_prefix-append _ t) in
        ground (arith, hit),
  ),
  λ h. elim (Bool-cases (has_prefix p (append r "/"))) [
    | inl hit ↦ absurd (h.1 _ (eq-append_of_has_prefix p _ hit))
    | inr miss ↦ ground (arith, eq_iff p r, h.0)
  ],
)

any-eq-false :
    (p : String) (rs : List String) → (any (is_under p) rs ≡ false) ↔ All (IsOutside p) rs
any-eq-false p [] = (λ h. tt, λ h. refl)
any-eq-false p (r ∷ rs) =
    let (to, from) = is_under-eq-false p r in
    let (tos, froms) = any-eq-false p rs in
    (λ h. (to (ground arith), tos (ground arith)), λ h. ground (arith, from h.0, froms h.1))

abbrev pub IsClean : String → Type 0
IsClean p =
    (contains_any p " ?#{}*" ≡ false) × (contains p ".." ≡ false) × (contains p "//" ≡ false)

-- A path below /api/v1/ with a name, without the characters that the mux reads, and outside every
-- reserved prefix.
pub record IsResource (p : String) : Type 0 where
  pub below : (t : String) × (t ≢ "") × (p ≡ append base t)
  pub clean : IsClean p
  pub free : All (IsOutside p) reserved_prefixes

below_base :
    (p : String)
    → has_prefix p base ≡ true
    → len p ≢ len base
    → (t : String) × (t ≢ "") × (p ≡ append base t)
below_base p h ne =
    let e = eq-append_of_has_prefix p base h in
    (drop_text p base, λ z. ne (ap len (e ∙ ap (append base) z ∙ append-nil base)), e)

nil_of_len :
    {p t : String} → p ≡ append base t → has_prefix p base ≡ true → len p ≡ len base → t ≡ ""
nil_of_len {p} {t} e h l =
    append_cancel_left base t ""
      (sym e ∙ eq_of_has_prefix p p base (has_prefix_refl p) h l ∙ sym (append-nil base))

pub validate_path_iff : (p : String) → (validate_path p ≡ ok tt) ↔ IsResource p
unfolding validate_path
validate_path_iff p = (
  λ h. record {
    below = below_base p (ground arith) (ground arith);
    clean = ground arith;
    free = (any-eq-false p reserved_prefixes).0 (ground arith);
  },
  λ r.
      let prefixed : has_prefix p base ≡ true = rw r.below.2 (has_prefix-append base _) in
      let longer : len p ≢ len base = λ e. r.below.1 (nil_of_len r.below.2 prefixed e) in
      ground (arith, prefixed, longer, (any-eq-false p reserved_prefixes).1 r.free),
)
