-- ===== src/RateLimit/Limiter/Threads/Paced.antt =====
-- Probes at work, and the time between two of them (internal/ratelimit/limiter.go).
use swayrider_api.Base.{
  ℕ, suc, ◌+◌, ◌-◌, ◌*◌, ◌≤◌, ◌≡◌, refl, sym, ap, ◌∙◌, false, Option, none, some, List, [], ◌∷◌,
  ◌++◌, arith,
}
use swayrider_api.RateLimit.Limiter.{probed_since}
use swayrider_api.RateLimit.Limiter.Threads.{
  Arguments, Place, asked, at_redis, failed, probing, pinging, recovering, refusing, answered,
}

-- A call with a probe that has not yet reset the limiter
abbrev pub with_due : Place → ℕ → ℕ
with_due pinging n = suc n
with_due recovering n = suc n
with_due asked n = n
with_due at_redis n = n
with_due failed n = n
with_due probing n = n
with_due refusing n = n
with_due (answered v) n = n

abbrev pub all_due : List (Arguments × Place) → ℕ
all_due [] = 0
all_due ((a, p) ∷ calls) = with_due p (all_due calls)

with_due-suc : (p : Place) (n : ℕ) → with_due p (suc n) ≡ suc (with_due p n)
with_due-suc pinging n = refl
with_due-suc recovering n = refl
with_due-suc asked n = refl
with_due-suc at_redis n = refl
with_due-suc failed n = refl
with_due-suc probing n = refl
with_due-suc refusing n = refl
with_due-suc (answered v) n = refl

with_due_comm : (p q : Place) (n : ℕ) → with_due p (with_due q n) ≡ with_due q (with_due p n)
with_due_comm pinging q n = sym (with_due-suc q n)
with_due_comm recovering q n = sym (with_due-suc q n)
with_due_comm asked q n = refl
with_due_comm at_redis q n = refl
with_due_comm failed q n = refl
with_due_comm probing q n = refl
with_due_comm refusing q n = refl
with_due_comm (answered v) q n = refl

pub all_due-++ :
    (before after : List (Arguments × Place)) (a : Arguments) (p : Place)
    → all_due (before ++ (a, p) ∷ after) ≡ with_due p (all_due (before ++ after))
all_due-++ [] after a p = refl
all_due-++ ((b, q) ∷ before) after a p =
    ap (with_due q) (all_due-++ before after a p) ∙ with_due_comm q p (all_due (before ++ after))

-- The last probe's time, where `start` is the limiter's first and `n` probes were made
abbrev pub Paced : Option ℕ → ℕ → ℕ → ℕ → ℕ → Type 0
Paced none n interval start clock = (n ≡ 0) × (start ≤ clock)
Paced (some last) n interval start clock = (n * interval + start ≤ last + interval) × (last ≤ clock)

pub Paced-pass :
    (last : Option ℕ) (n interval start clock t : ℕ)
    → Paced last n interval start clock
    → clock ≤ t
    → Paced last n interval start t
Paced-pass none n interval start clock t (z, s) le = (z, omega arith)
Paced-pass (some last) n interval start clock t (b, s) le = (b, omega arith)

pub Paced-probe :
    (last : Option ℕ) (n interval start clock t : ℕ)
    → Paced last n interval start clock
    → probed_since last clock interval ≡ false
    → clock ≤ t
    → Paced (some t) (suc n) interval start t
Paced-probe none n interval start clock t (z, s) e le = (rw (z) (omega arith), omega arith)
Paced-probe (some last) n interval start clock t (b, s) e le =
    let far : interval ≤ clock - last = ground (arith, e) in (omega arith, omega arith)

pub Paced-bound :
    (last : Option ℕ) (n interval start clock : ℕ)
    → Paced last n interval start clock
    → n * interval + start ≤ clock + interval
Paced-bound none n interval start clock (z, s) = rw (z) (omega arith)
Paced-bound (some last) n interval start clock (b, s) = omega arith
