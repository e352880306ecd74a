-- ===== src/Circuit/Tripping.antt =====
-- internal/circuitbreaker/registry.go: when a breaker opens.
use native.Mathlib.Nat.{le-div_iff_mul-le}
use swayrider_api.Base.{
  ℕ, ◌*◌, ◌/◌, ◌%◌, ◌^◌, ◌≤◌, ◌<◌, ◌≡◌, refl, ◌⊎◌, inl, inr, ◌↔◌, true, ltb, leb, ltb→lt, arith,
  Bool-cases,
}
use swayrider_api.Circuit.{Counts, ready_to_trip}

-- Counts as gobreaker keeps them, of so few requests that the percentage does not overflow.
pub record IsCounted (c : Counts) : Type 0 where
  pub consecutive : c.consecutive_failures ≤ c.total_failures
  pub failed : c.total_failures ≤ c.requests
  pub few : c.requests < 42949673

unwrapped : (n : ℕ) → n < 42949673 → (n * 100) % 2 ^ 32 ≡ n * 100
unwrapped n h = omega (arith, h)

share : (f n : ℕ) → 10 ≤ n → (ltb 50 (f * 100 / n) ≡ true) ↔ (51 * n ≤ 100 * f)
share f n h =
    let (to, from) = le-div_iff_mul-le {k = n} {x = 51} {y = f * 100} (omega (arith, h)) in
    (
      λ e. let q = ltb→lt 50 (f * 100 / n) e in let r = to (omega (arith, q)) in omega (arith, r),
      λ l. let r = from (omega (arith, l)) in ground (arith, r),
    )

-- For counts whose failures in a row are failures, whose failures are requests, and of fewer than
-- 42949673 requests: a breaker opens exactly after five failures in a row, or once at least 51 %
-- of at least ten requests failed.
pub ready_to_trip_iff :
    (c : Counts)
    → IsCounted c
    → (ready_to_trip c ≡ true) ↔ (
        (5 ≤ c.consecutive_failures)
        ⊎ (10 ≤ c.requests) × (51 * c.requests ≤ 100 * c.total_failures))
unfolding ready_to_trip
ready_to_trip_iff c h = elim (Bool-cases (leb 5 c.consecutive_failures)) [
  | inl row ↦ rw row (λ e. inl (ground (arith, row)), λ d. refl)
  | inr no_row ↦ elim (Bool-cases (leb 10 c.requests)) [
    | inr too_few ↦ rw (no_row, too_few) (λ e. cc, λ d. ground (arith, no_row, too_few, d))
    | inl enough ↦
        let (to, from) = share c.total_failures c.requests (ground (arith, enough)) in
        rw (no_row, enough, unwrapped c.total_failures (omega (arith, h.failed, h.few)))
          (
            λ e. inr (ground (arith, enough), to e),
            λ d. elim d [ inl row ↦ ground (arith, no_row, row) | inr (n, l) ↦ from l ],
          )
  ]
]
