-- ===== src/ServiceToken/Episode.antt =====
-- internal/servicetoken/manager.go: what holds between two rounds of the loop.
use swayrider_api.Base.{
  ℕ, ◌+◌, ◌≤◌, ◌<◌, ◌≡◌, refl, sym, ◌∙◌, ◌⊎◌, inl, inr, Bool, true, false, some, List, [], ◌∷◌,
  arith, if◌then◌else◌, ltb, Bool-cases, Option-cases, true_not_false, subst, ltb→lt,
}
use swayrider_api.ServiceToken.{
  Manager, Fetch, fetched, fetch_failed, timed_out, refresh, note_stale, hour_since, ttl, hour,
  three_minutes, new_manager,
}
use swayrider_api.ServiceToken.Loop.{World, round, Reach, started, later, start, refreshed}

-- Logged times at least an hour apart, the latest first.
abbrev pub IsSpaced : List ℕ → Type 0
IsSpaced [] = Unit
IsSpaced (t ∷ []) = Unit
IsSpaced (t ∷ u ∷ ts) = (u + hour ≤ t) × IsSpaced (u ∷ ts)

-- The manager remembers the last log of the episode.
abbrev pub Remembers : Manager → List ℕ → Type 0
Remembers m [] = m.stale_logged ≡ false
Remembers m (t ∷ ts) = (m.stale_logged ≡ true) × (m.last_stale_log ≡ some t)

pub record IsSound (w : World) : Type 0 where
  pub current : w.manager.token ≡ w.issued
  pub spaced : IsSpaced w.logs
  pub remembered : Remembers w.manager w.logs
  pub delay : w.manager.retry_delay ≡ 30000000000

start-IsSound : (t : ℕ) → IsSound (start t)
unfolding new_manager
start-IsSound t = record { current = refl; spaced = tt; remembered = refl; delay = refl }

note_stale-cases :
    (checked now : ℕ) (m : Manager)
    → (note_stale checked now m ≡ (m, false))
      ⊎ (note_stale checked now m
          ≡ (record m { stale_logged = true; last_stale_log = some now }, true))
        × ((m.stale_logged ≡ false) ⊎ (hour_since now m.last_stale_log ≡ true))
unfolding note_stale
note_stale-cases checked now m = ground arith

-- A log is an hour after the one that the manager remembers.
IsSpaced-log :
    (m : Manager) (now : ℕ) (logs : List ℕ)
    → Remembers m logs
    → IsSpaced logs
    → (m.stale_logged ≡ false) ⊎ (hour_since now m.last_stale_log ≡ true)
    → IsSpaced (now ∷ logs)
unfolding hour_since
IsSpaced-log m now [] r h d = tt
IsSpaced-log m now (t ∷ ts) (logged, last) h (inl fresh) =
    absurd (true_not_false (sym logged ∙ fresh))
IsSpaced-log m now (t ∷ ts) (logged, last) h (inr due) = (ground (arith, last, due), h)

abbrev noted : World → ℕ → Manager × Bool → World
noted w now r = record {
  manager = r.0;
  now = now;
  issued = w.issued;
  logs = if r.1 then now ∷ w.logs else w.logs;
}

stale-IsSound :
    (w : World) (checked now : ℕ)
    → IsSound w
    → IsSound (noted w now (note_stale checked now w.manager))
stale-IsSound w checked now h = elim (note_stale-cases checked now w.manager) [
  | inl e ↦
      subst (λ (r : Manager × Bool). IsSound (noted w now r)) (sym e)
        (record {
          current = h.current;
          spaced = h.spaced;
          remembered = h.remembered;
          delay = h.delay;
        })
  | inr (e, due) ↦
      subst (λ (r : Manager × Bool). IsSound (noted w now r)) (sym e)
        (record {
          current = h.current;
          spaced = IsSpaced-log w.manager now w.logs h.remembered h.spaced due;
          remembered = (refl, refl);
          delay = h.delay;
        })
]

refreshed-IsSound :
    (f : Fetch) (checked now : ℕ) (w : World) → IsSound w → IsSound (refreshed f checked now w)
unfolding refresh
refreshed-IsSound (fetched token valid_until) checked now w h = record {
  current = refl;
  spaced = tt;
  remembered = refl;
  delay = h.delay;
}
refreshed-IsSound fetch_failed checked now w h = stale-IsSound w checked now h
refreshed-IsSound timed_out checked now w h = stale-IsSound w checked now h

-- After any number of rounds, whatever the fetcher answers and however long it takes: the token that
-- Token returns is the last one that was issued, a failed or late fetch never takes it away, and the
-- stale-token errors logged since that token are at least an hour apart.
pub Reach-IsSound : (t : ℕ) (w : World) → Reach t w → IsSound w
Reach-IsSound t _ (started f checked now _ _) =
    refreshed-IsSound f checked now (start t) (start-IsSound t)
Reach-IsSound t _ (later r (round w f checked now _ _)) =
    refreshed-IsSound f checked now w (Reach-IsSound t w r)

-- In every reached world the next wait is positive. It ends three minutes before the token does where
-- that is still ahead, and is the retry delay of 30 s otherwise.
pub Reach-ttl :
    (t : ℕ) (w : World)
    → Reach t w
    → (0 < ttl w.now w.manager)
      × (((e : ℕ) × (w.manager.expiry ≡ some e) × (w.now + ttl w.now w.manager + three_minutes ≡ e))
          ⊎ (ttl w.now w.manager ≡ 30000000000)
            × ((e : ℕ) → w.manager.expiry ≡ some e → e ≤ w.now + three_minutes))
unfolding ttl
Reach-ttl t w r =
    let delay = (Reach-IsSound t w r).delay in
    elim (Option-cases w.manager.expiry) [
      | inl n ↦ rw (n, delay) (omega arith, inr (refl, λ e x. cc))
      | inr (e, x) ↦ elim (Bool-cases (ltb (w.now + three_minutes) e)) [
        | inl ahead ↦
            let lt = ltb→lt (w.now + three_minutes) e ahead in
            rw (x, ahead) (omega (arith, lt), inl (e, refl, omega (arith, lt)))
        | inr past ↦ rw (x, past, delay) (omega arith, inr (refl, λ e' y. ground (arith, past, y)))
      ]
    ]
