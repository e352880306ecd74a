-- ===== src/Examples/Windows.antt =====
-- A Redis with sorted sets and deadlines, and three requests to the limiter
-- (internal/ratelimit/limiter.go). Members are all different here.
use swayrider_api.Base.{
  ℕ, suc, ◌+◌, ◌≤◌, String, ◌≡◌, refl, sym, ap, ◌∙◌, inl, inr, Bool, true, false, Option, none,
  some, List, [], ◌∷◌, ◌&&◌, ◌==◌, eq_iff, eq_refl, if◌then◌else◌, leb, ℤ, pos, arith, Bool-cases,
  Option-cases, if-true, if-false,
}
use swayrider_api.RateLimit.Limiter.{Limiter, decided, new_limiter}
use swayrider_api.RateLimit.Redis.{SortedSets, verdicts}
use swayrider_api.RateLimit.Redis.Refined.{
  count_after, window_verdicts, SortedLaws, verdicts-window_verdicts,
}

-- The scores with their keys, the deadlines and the time.
record Store : Type 0 where
  entries : List (String × ℕ)
  deadlines : String → Option ℕ
  clock : ℕ

abbrev card : String → List (String × ℕ) → ℕ
card k [] = 0
card k ((j, t) ∷ es) = let rest = card k es in if j == k then suc rest else rest

abbrev remove : String → ℕ → List (String × ℕ) → List (String × ℕ)
remove k m [] = []
remove k m ((j, t) ∷ es) =
    let rest = remove k m es in if j == k && leb t m then rest else (j, t) ∷ rest

abbrev is_expired : (String → Option ℕ) → ℕ → String → Bool
is_expired deadlines t k = elim (deadlines k) [ none ↦ false | some d ↦ leb d t ]

abbrev drop_expired : (String → Option ℕ) → ℕ → List (String × ℕ) → List (String × ℕ)
drop_expired deadlines t [] = []
drop_expired deadlines t ((j, u) ∷ es) =
    let rest = drop_expired deadlines t es in
    if is_expired deadlines t j then rest else (j, u) ∷ rest

abbrev redis : SortedSets Store
redis = record {
  zremrangebyscore = λ k m w. record w { entries = remove k m w.entries };
  zadd = λ k t id w. record w { entries = (k, t) ∷ w.entries };
  zcard = λ k w. card k w.entries;
  expire =
      λ k ms w. record w { deadlines = λ j. if k == j then some (w.clock + ms) else w.deadlines j };
  new_id = λ w. "id";
}

abbrev elapse : ℕ → Store → Store
elapse t w = record {
  entries = drop_expired w.deadlines t w.entries;
  deadlines = λ k. if is_expired w.deadlines t k then none else w.deadlines k;
  clock = t;
}

card-remove :
    (k : String) (m : ℕ) (es : List (String × ℕ)) → card k (remove k m es) ≡ count_after m k es
unfolding count_after
card-remove k m [] = refl
card-remove k m ((j, t) ∷ es) = ground (arith, card-remove k m es)

count_after-remove :
    (j k : String) (m s : ℕ) (es : List (String × ℕ))
    → m ≤ s
    → count_after s j (remove k m es) ≡ count_after s j es
unfolding count_after
count_after-remove j k m s [] le = refl
count_after-remove j k m s ((i, t) ∷ es) le = ground (arith, count_after-remove j k m s es le, le)

count_after-kept :
    (dl : String → Option ℕ) (t s : ℕ) (k : String) (es : List (String × ℕ))
    → is_expired dl t k ≡ false
    → count_after s k (drop_expired dl t es) ≡ count_after s k es
unfolding count_after
count_after-kept dl t s k [] e = refl
count_after-kept dl t s k ((j, u) ∷ es) e = elim (Bool-cases (j == k)) [
  | inl same ↦
      let alive = ap (is_expired dl t) ((eq_iff _ _).0 same) ∙ e in
      rw (alive, same, count_after-kept dl t s k es e) refl
  | inr other ↦ elim (Bool-cases (is_expired dl t j)) [
    | inl gone ↦ rw (gone, other) (count_after-kept dl t s k es e)
    | inr alive ↦ rw (alive, other) (count_after-kept dl t s k es e)
  ]
]

count_after-gone :
    (dl : String → Option ℕ) (t s : ℕ) (k : String) (es : List (String × ℕ))
    → is_expired dl t k ≡ true
    → count_after s k (drop_expired dl t es) ≡ 0
unfolding count_after
count_after-gone dl t s k [] e = refl
count_after-gone dl t s k ((j, u) ∷ es) e = elim (Bool-cases (j == k)) [
  | inl same ↦ rw (ap (is_expired dl t) ((eq_iff _ _).0 same) ∙ e) (count_after-gone dl t s k es e)
  | inr other ↦ elim (Bool-cases (is_expired dl t j)) [
    | inl gone ↦ rw gone (count_after-gone dl t s k es e)
    | inr alive ↦ rw (alive, other) (count_after-gone dl t s k es e)
  ]
]

expired-deadline :
    (dl : String → Option ℕ) (t : ℕ) (k : String)
    → is_expired dl t k ≡ true
    → (d : ℕ) × (dl k ≡ some d) × (d ≤ t)
expired-deadline dl t k e = elim (Option-cases (dl k)) [
  | inl n ↦ cc (e, n)
  | inr (d, x) ↦ (d, x, ground (arith, e, x))
]

redis-Laws : SortedLaws redis elapse
unfolding count_after
redis-Laws = record {
  zcount = λ k s w. count_after s k w.entries;
  deadline = λ k w. w.deadlines k;
  member = λ k id w. false;
  time = λ w. w.clock;
  new_id-member = λ k w. refl;
  zrem_zcard = λ k m w. card-remove k m w.entries;
  zrem_zcount = λ j k m s w le. count_after-remove j k m s w.entries le;
  zrem_member = λ k id m w e. refl;
  zrem_deadline = λ j k m d w e. e;
  zrem_time = λ k m w. refl;
  zadd_zcard = λ k id t w e. if-true _ _ _ (eq_refl k);
  zadd_zcount = λ j k id t s w e. refl;
  zadd_deadline = λ j k id t w. refl;
  zadd_time = λ k id t w. refl;
  expire_zcount = λ j k ms s w. refl;
  expire_deadline = λ j k ms w n. refl;
  elapse_time = λ t w. refl;
  elapse_deadline = λ j t d w e. elim (Bool-cases (is_expired w.deadlines t j)) [
    | inl gone ↦ cc (if-true _ none (w.deadlines j) gone, e)
    | inr alive ↦ sym (if-false _ _ _ alive) ∙ e
  ];
  elapse_zcount = λ j t s w. elim (Bool-cases (is_expired w.deadlines t j)) [
    | inl gone ↦
        let (d, x, le) = expired-deadline w.deadlines t j gone in
        inr (d, x, le, count_after-gone w.deadlines t s j w.entries gone)
    | inr alive ↦ inl (count_after-kept w.deadlines t s j w.entries alive)
  ];
}

-- One request a minute: the second comes after 30 s, the third a minute after the first.
abbrev calls : List (String × ℤ × ℕ)
calls =
    ("ip:a", pos 1, 100000000000)
    ∷ ("ip:a", pos 1, 130000000000)
    ∷ ("ip:a", pos 1, 160000000000)
    ∷ []

abbrev limiter : Limiter
limiter = new_limiter (record {
  degrade_mode = "";
  degrade_threshold = pos 0;
  probe_interval = pos 0;
  max_memory_keys = pos 0;
})

abbrev empty : Store
empty = record { entries = []; deadlines = λ k. none; clock = 0 }

healthy : limiter.degraded ≡ false
unfolding new_limiter
healthy = refl

nothing : (k : String) (s : ℕ) → redis-Laws.zcount k s empty ≡ 0
unfolding redis-Laws count_after
nothing k s = refl

verdicts-window_verdicts_example :
    verdicts redis elapse (λ keys. keys) 60000000000 calls limiter empty
    ≡ window_verdicts 60000000000 calls []
verdicts-window_verdicts_example =
    verdicts-window_verdicts redis elapse redis-Laws 60000000000 (λ keys. keys) calls limiter empty
      healthy (omega arith, (omega arith, (omega arith, tt))) nothing

-- The third request does not count the first, which came exactly a window before it.
window_verdicts-boundary :
    window_verdicts 60000000000
      (("ip:a", pos 1, 100000000000) ∷ ("ip:a", pos 1, 160000000000) ∷ [])
      []
    ≡ decided true ∷ decided true ∷ []
unfolding window_verdicts count_after
window_verdicts-boundary = refl
