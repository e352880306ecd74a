-- ===== src/RateLimit/Redis/Refined.antt =====
-- internal/ratelimit/limiter.go: Allow over Redis as a sliding window of requests.
use swayrider_api.Base.{
  ℕ, suc, ◌+◌, ◌-◌, ◌/◌, ◌≤◌, ◌<◌, String, ◌≡◌, refl, sym, ap, ◌∙◌, ◌⊎◌, inl, inr, Bool, true,
  false, Option, some, List, [], ◌∷◌, ◌&&◌, ◌==◌, if◌then◌else◌, ltb, ℤ, within, arith, Bool-cases,
  All, if-true, if-false,
}
use swayrider_api.RateLimit.Memory.{Keys, milliseconds}
use swayrider_api.RateLimit.Limiter.{Limiter, Verdict, decided, allow, redis_allow}
use swayrider_api.RateLimit.Redis.{SortedSets, pipeline, backend_at, verdicts}

-- The specification: the history of all requests, the latest first, and how many of a key came after
-- a time.
unfoldable pub count_after : ℕ → String → List (String × ℕ) → ℕ
count_after s k [] = 0
count_after s k ((j, t) ∷ past) =
    let rest = count_after s k past in if j == k && ltb s t then suc rest else rest

-- Each request is decided by the requests of its key that came less than the window before it, and
-- itself.
unfoldable pub window_verdicts : ℕ → List (String × ℤ × ℕ) → List (String × ℕ) → List Verdict
window_verdicts window [] past = []
window_verdicts window ((key, limit, now) ∷ calls) past =
    let t = now / 1000000 in
    decided (within (suc (count_after (t - milliseconds window) key past)) limit)
    ∷ window_verdicts window calls ((key, t) ∷ past)

-- What Redis documents of the commands, for ZCOUNT above a score, the deadlines of keys, the members
-- and the server's time.
pub record SortedLaws {W : Type 0} (redis : SortedSets W) (elapse : ℕ → W → W) : Type 0 where
  pub zcount : String → ℕ → W → ℕ
  pub deadline : String → W → Option ℕ
  pub member : String → String → W → Bool
  pub time : W → ℕ
  pub new_id-member : (k : String) (w : W) → member k (redis.new_id w) w ≡ false
  pub zrem_zcard :
      (k : String) (m : ℕ) (w : W) → redis.zcard k (redis.zremrangebyscore k m w) ≡ zcount k m w
  pub zrem_zcount :
      (j k : String) (m s : ℕ) (w : W)
      → m ≤ s
      → zcount j s (redis.zremrangebyscore k m w) ≡ zcount j s w
  pub zrem_member :
      (k id : String) (m : ℕ) (w : W)
      → member k id w ≡ false
      → member k id (redis.zremrangebyscore k m w) ≡ false
  pub zrem_deadline :
      (j k : String) (m d : ℕ) (w : W)
      → deadline j (redis.zremrangebyscore k m w) ≡ some d
      → deadline j w ≡ some d
  pub zrem_time : (k : String) (m : ℕ) (w : W) → time (redis.zremrangebyscore k m w) ≡ time w
  pub zadd_zcard :
      (k id : String) (t : ℕ) (w : W)
      → member k id w ≡ false
      → redis.zcard k (redis.zadd k t id w) ≡ suc (redis.zcard k w)
  pub zadd_zcount :
      (j k id : String) (t s : ℕ) (w : W)
      → member k id w ≡ false
      → zcount j s (redis.zadd k t id w)
        ≡ (if k == j && ltb s t then suc (zcount j s w) else zcount j s w)
  pub zadd_deadline :
      (j k id : String) (t : ℕ) (w : W) → deadline j (redis.zadd k t id w) ≡ deadline j w
  pub zadd_time : (k id : String) (t : ℕ) (w : W) → time (redis.zadd k t id w) ≡ time w
  pub expire_zcount :
      (j k : String) (ms s : ℕ) (w : W) → zcount j s (redis.expire k ms w) ≡ zcount j s w
  pub expire_deadline :
      (j k : String) (ms : ℕ) (w : W)
      → 0 < redis.zcard k w
      → deadline j (redis.expire k ms w) ≡ (if k == j then some (time w + ms) else deadline j w)
  pub elapse_time : (t : ℕ) (w : W) → time (elapse t w) ≡ t
  pub elapse_deadline :
      (j : String) (t d : ℕ) (w : W) → deadline j (elapse t w) ≡ some d → deadline j w ≡ some d
  pub elapse_zcount :
      (j : String) (t s : ℕ) (w : W)
      → (zcount j s (elapse t w) ≡ zcount j s w)
        ⊎ ((d : ℕ) × (deadline j w ≡ some d) × (d ≤ t) × (zcount j s (elapse t w) ≡ 0))

-- No request of the history is later than `last`.
abbrev AreUntil : ℕ → List (String × ℕ) → Type 0
AreUntil last past = All (λ (e : String × ℕ). e.1 ≤ last) past

count_after-late :
    (s last : ℕ) (k : String) (past : List (String × ℕ))
    → AreUntil last past
    → last ≤ s
    → count_after s k past ≡ 0
unfolding count_after
count_after-late s last k [] h le = refl
count_after-late s last k ((j, t) ∷ past) (h, hs) le =
    ground (arith, count_after-late s last k past hs le, h, le)

AreUntil-later : (a b : ℕ) (past : List (String × ℕ)) → a ≤ b → AreUntil a past → AreUntil b past
AreUntil-later a b [] le h = tt
AreUntil-later a b (e ∷ past) le (h, hs) = (omega (arith, h, le), AreUntil-later a b past le hs)

-- Requests in the order of their times, none before `last`.
abbrev pub AreOrdered : ℕ → List (String × ℤ × ℕ) → Type 0
AreOrdered last [] = Unit
AreOrdered last ((key, limit, now) ∷ calls) =
    (last ≤ now / 1000000) × AreOrdered (now / 1000000) calls

module _ {W : Type 0} (redis : SortedSets W) (elapse : ℕ → W → W) (laws : SortedLaws redis elapse)
    (window : ℕ) where
  -- Redis counts the history from the window before `last` on, and a key's deadline is no earlier than
  -- the window after its last request.
  record Counts (past : List (String × ℕ)) (last : ℕ) (w : W) : Type 0 where
    until : AreUntil last past
    counted :
        (k : String) (s : ℕ)
        → last ≤ s + milliseconds window
        → laws.zcount k s w ≡ count_after s k past
    kept :
        (k : String) (d s : ℕ)
        → laws.deadline k w ≡ some d
        → d ≤ s + milliseconds window
        → count_after s k past ≡ 0

  elapse-Counts :
      (past : List (String × ℕ)) (last t : ℕ) (w : W)
      → last ≤ t
      → Counts past last w
      → Counts past t (elapse t w)
  elapse-Counts past last t w le h = record {
    until = AreUntil-later last t past le h.until;
    counted = λ k s e. elim (laws.elapse_zcount k t s w) [
      | inl same ↦ same ∙ h.counted k s (omega (arith, le, e))
      | inr (d, x, past_it, gone) ↦ gone ∙ sym (h.kept k d s x (omega (arith, past_it, e)))
    ];
    kept = λ k d s x e. h.kept k d s (laws.elapse_deadline k t d w x) e;
  }

  module _ (key : String) (t : ℕ) (w : W) where
    pruned : W
    pruned = redis.zremrangebyscore key (t - milliseconds window) w

    added : W
    added = redis.zadd key t (redis.new_id w) pruned

    new_member : laws.member key (redis.new_id w) pruned ≡ false
    unfolding pruned
    new_member =
        laws.zrem_member key (redis.new_id w) (t - milliseconds window) w (laws.new_id-member key w)

    added-zcard : redis.zcard key added ≡ suc (laws.zcount key (t - milliseconds window) w)
    unfolding added pruned
    added-zcard =
        laws.zadd_zcard key (redis.new_id w) t pruned new_member
        ∙ ap suc (laws.zrem_zcard key (t - milliseconds window) w)

    pipeline-count :
        (past : List (String × ℕ))
        → Counts past t w
        → (pipeline redis key t window w).0 ≡ suc (count_after (t - milliseconds window) key past)
    unfolding pipeline added pruned
    pipeline-count past h =
        added-zcard ∙ ap suc (h.counted key (t - milliseconds window) (omega arith))

    added-time : laws.time w ≡ t → laws.time added ≡ t
    unfolding added pruned
    added-time e =
        laws.zadd_time key (redis.new_id w) t pruned
        ∙ laws.zrem_time key (t - milliseconds window) w
        ∙ e

    pipeline-zcount :
        (k : String) (s : ℕ)
        → t ≤ s + milliseconds window
        → laws.zcount k s (pipeline redis key t window w).1
          ≡ (if key == k && ltb s t then suc (laws.zcount k s w) else laws.zcount k s w)
    unfolding pipeline added pruned
    pipeline-zcount k s e =
        laws.expire_zcount k key (milliseconds window + 1000) s added
        ∙ (laws.zadd_zcount k key (redis.new_id w) t s pruned new_member
            ∙ ap (λ n. if key == k && ltb s t then suc n else n)
                (laws.zrem_zcount k key (t - milliseconds window) s w (omega (arith, e))))

    pipeline-deadline :
        (k : String) (d : ℕ)
        → laws.time w ≡ t
        → laws.deadline k (pipeline redis key t window w).1 ≡ some d
        → ((key == k) ≡ true) × (d ≡ t + (milliseconds window + 1000))
          ⊎ ((key == k) ≡ false) × (laws.deadline k w ≡ some d)
    unfolding pipeline added pruned
    pipeline-deadline k d now x =
        let e =
          laws.expire_deadline k key (milliseconds window + 1000) added
            (rw added-zcard (omega arith)) in
        elim (Bool-cases (key == k)) [
          | inl same ↦
              let y = sym (e ∙ if-true _ _ _ same) ∙ x in inl (same, cc (y, added-time now))
          | inr other ↦ inr (
            other,
            laws.zrem_deadline k key (t - milliseconds window) d w (
                sym (laws.zadd_deadline k key (redis.new_id w) t pruned)
                ∙ sym (if-false _ _ _ other)
                ∙ sym e
                ∙ x),
          )
        ]

    pipeline-Counts :
        (past : List (String × ℕ))
        → laws.time w ≡ t
        → Counts past t w
        → Counts ((key, t) ∷ past) t (pipeline redis key t window w).1
    unfolding count_after
    pipeline-Counts past now h = record {
      until = (omega arith, h.until);
      counted = λ k s e.
          pipeline-zcount k s e
          ∙ ap (λ n. if key == k && ltb s t then suc n else n) (h.counted k s e);
      kept = λ k d s x e. elim (pipeline-deadline k d now x) [
        | inl (same, y) ↦
            count_after-late s t k ((key, t) ∷ past) (omega arith, h.until) (omega (arith, y, e))
        | inr (other, y) ↦ rw other (h.kept k d s y e)
      ];
    }

  -- A limiter that is not degraded decides by the pipeline's count, and does not change.
  allow-pipeline :
      (visit : Keys → Keys) (key : String) (limit : ℤ) (now : ℕ) (l : Limiter) (w : W)
      → l.degraded ≡ false
      → let r = pipeline redis key (now / 1000000) window w in
        (allow visit (backend_at redis now) key limit window 2 l w
          ≡ some (decided (within r.0 limit), l, r.1))
  unfolding allow redis_allow
  allow-pipeline visit key limit now l w healthy = if-false _ _ _ healthy

  verdicts-Counts :
      (visit : Keys → Keys) (calls : List (String × ℤ × ℕ)) (past : List (String × ℕ)) (last : ℕ)
      (l : Limiter) (w : W)
      → l.degraded ≡ false
      → AreOrdered last calls
      → Counts past last w
      → verdicts redis elapse visit window calls l w ≡ window_verdicts window calls past
  unfolding verdicts window_verdicts
  verdicts-Counts visit [] past last l w healthy o h = refl
  verdicts-Counts visit ((key, limit, now) ∷ calls) past last l w healthy (o, os) h =
      let t = now / 1000000 in
      let before = elapse t w in
      let at_t = elapse-Counts past last t w o h in
      let after = (pipeline redis key t window before).1 in
      let rest =
        verdicts-Counts visit calls ((key, t) ∷ past) t l after healthy os
          (pipeline-Counts key t before past (laws.elapse_time t w) at_t) in
      rw
        (
          verdicts,
          allow-pipeline visit key limit now l before healthy,
          pipeline-count key t before past at_t,
          rest,
        )
        refl

  -- Allow of a limiter that is not degraded, over a Redis that answers as documented, for
  -- requests with one window, in the order of their times and from an empty Redis on, gives
  -- exactly the verdicts of the specification: a request is allowed where the requests of its key
  -- later than a window before it, denied ones and itself included, are within its limit. The
  -- expiry of keys changes no verdict.
  pub verdicts-window_verdicts :
      (visit : Keys → Keys) (calls : List (String × ℤ × ℕ)) (l : Limiter) (w : W)
      → l.degraded ≡ false
      → AreOrdered 0 calls
      → ((k : String) (s : ℕ) → laws.zcount k s w ≡ 0)
      → verdicts redis elapse visit window calls l w ≡ window_verdicts window calls []
  unfolding count_after
  verdicts-window_verdicts visit calls l w healthy o empty =
      verdicts-Counts visit calls [] 0 l w healthy o
        (record { until = tt; counted = λ k s e. empty k s; kept = λ k d s x e. refl })
