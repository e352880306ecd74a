-- ===== src/RateLimit/Memory/Sliding.antt =====
-- internal/ratelimit/memory.go: the decisions of Allow over a history of requests.
use mathlib.Core.List.{append-nil, append_assoc}
use swayrider_api.Base.{
  ℕ, ◌+◌, ◌-◌, ◌/◌, ◌&&◌, leb, ◌≤◌, ◌<◌, String, ◌≡◌, refl, ◌∙◌, inl, inr, Option, none, some, List,
  [], ◌∷◌, ◌++◌, arith, ◌==◌, eq_iff, eq_refl, if◌then◌else◌, length, length-append, ℤ, within,
  Bool-cases, Option-cases,
}
use swayrider_api.RateLimit.Memory.{
  Window, Keys, Memory, find, put, milliseconds, recent, make_room, open_window, allow,
}

abbrev pub times_of : Option Window → List ℕ
times_of none = []
times_of (some w) = w.times

pub find-put :
    (k j : String) (w : Window) (l : Keys)
    → find j (put k w l) ≡ (if k == j then some w else find j l)
unfolding find put
find-put k j w [] = refl
find-put k j w ((i, u) ∷ l) = ground (arith, find-put k j w l, eq_iff k j, eq_iff i k, eq_iff i j)

pub length-put-le : (k : String) (w : Window) (l : Keys) → length (put k w l) ≤ length l + 1
unfolding put
length-put-le k w [] = omega arith
length-put-le k w ((i, u) ∷ l) = ground (arith, length-put-le k w l)

pub length-put-put :
    (k : String) (w u : Window) (l : Keys) → length (put k w (put k u l)) ≤ length l + 1
unfolding put
length-put-put k w u [] = ground (arith, eq_iff k k)
length-put-put k w u ((i, v) ∷ l) =
    ground (arith, length-put-put k w u l, length-put-le k w l, eq_iff i k)

recent-append :
    (start : ℕ) (xs ys : List ℕ) → recent start (xs ++ ys) ≡ recent start xs ++ recent start ys
unfolding recent
recent-append start [] ys = refl
recent-append start (x ∷ xs) ys = ground (arith, recent-append start xs ys)

-- Pruning at an earlier start is undone by pruning at a later one.
recent-recent : (a b : ℕ) (xs : List ℕ) → a ≤ b → recent b (recent a xs) ≡ recent b xs
unfolding recent
recent-recent a b [] h = refl
recent-recent a b (x ∷ xs) h = ground (arith, recent-recent a b xs h)

-- A request: its key and its time.
abbrev pub Event : Type 0
Event = String × ℕ

-- The times of the requests of one key.
unfoldable pub times_for : String → List Event → List ℕ
times_for k [] = []
times_for k ((j, t) ∷ es) = if j == k then t ∷ times_for k es else times_for k es

times_for-append :
    (k : String) (es fs : List Event) → times_for k (es ++ fs) ≡ times_for k es ++ times_for k fs
unfolding times_for
times_for-append k [] fs = refl
times_for-append k ((j, t) ∷ es) fs = ground (arith, times_for-append k es fs)

-- Requests in the order of their times, none before `last`.
abbrev pub InOrder : ℕ → List Event → Type 0
InOrder last [] = Unit
InOrder last ((k, t) ∷ es) = (last ≤ t) × InOrder t es

latest : ℕ → List Event → ℕ
latest last [] = last
latest last ((k, t) ∷ es) = latest t es

InOrder-latest :
    (last : ℕ) (es : List Event) (k : String) (t : ℕ)
    → InOrder last (es ++ (k, t) ∷ [])
    → InOrder last es × (latest last es ≤ t)
unfolding latest
InOrder-latest last [] k t o = (tt, o.0)
InOrder-latest last ((j, s) ∷ es) k t o = let (a, b) = InOrder-latest s es k t o.1 in ((o.0, a), b)

module _ (visit : Keys → Keys) (limit : ℤ) (window : ℕ) where
  -- The fallback after a sequence of requests, each with the same window.
  pub serve_all : Memory → List Event → Memory
  serve_all m [] = m
  serve_all m ((k, t) ∷ es) = serve_all (allow visit m k limit window t).1 es

  -- What is left of the recorded times is what is left of the real ones, at any later time.
  abbrev Agrees : List Event → ℕ → Memory → Type 0
  Agrees past last m =
      (k : String) (n : ℕ)
      → last ≤ n
      → recent (n - milliseconds window) (times_of (find k m.keys))
        ≡ recent (n - milliseconds window) (times_for k past)

  make_room_free : (m : Memory) → length m.keys < m.max_keys → make_room visit m ≡ m.keys
  unfolding make_room
  make_room_free m room = ground arith

  open_none :
      (m : Memory) (k : String) (t : ℕ)
      → length m.keys < m.max_keys
      → find k m.keys ≡ none
      → open_window visit m k t ≡ (
        put k (record { times = []; last_touch = t }) m.keys,
        record { times = []; last_touch = t },
      )
  unfolding open_window
  open_none m k t room e = rw (e, make_room_free m room, open_window)

  open_some :
      (m : Memory) (k : String) (t : ℕ) (w : Window)
      → find k m.keys ≡ some w
      → open_window visit m k t ≡ (m.keys, w)
  unfolding open_window
  open_some m k t w e = rw (e, open_window)

  -- With room, a request changes the entry of its own key only.
  find-allow :
      (m : Memory) (k j : String) (t : ℕ)
      → length m.keys < m.max_keys
      → find j (allow visit m k limit window t).1.keys ≡ (
          if k == j
          then some (record {
            times = recent (t - milliseconds window) (times_of (find k m.keys)) ++ t ∷ [];
            last_touch = t;
          })
          else find j m.keys)
  unfolding allow
  find-allow m k j t room = elim (Option-cases (find k m.keys)) [
    | inl e ↦ rw (open_none m k t room e, e, allow) (simp find-put (ground (arith, eq_iff k j)))
    | inr (w, e) ↦ rw (open_some m k t w e, e, allow) (simp find-put)
  ]

  length-allow :
      (m : Memory) (k : String) (t : ℕ)
      → length m.keys < m.max_keys
      → length (allow visit m k limit window t).1.keys ≤ length m.keys + 1
  unfolding allow
  length-allow m k t room = elim (Option-cases (find k m.keys)) [
    | inl e ↦ rw (open_none m k t room e, allow) (length-put-put k _ _ m.keys)
    | inr (w, e) ↦ rw (open_some m k t w e, allow) (length-put-le k _ m.keys)
  ]

  max_keys-allow :
      (m : Memory) (k : String) (t : ℕ) → (allow visit m k limit window t).1.max_keys ≡ m.max_keys
  unfolding allow
  max_keys-allow m k t = refl

  Agrees-allow :
      (past : List Event) (last : ℕ) (m : Memory) (k : String) (t : ℕ)
      → length m.keys < m.max_keys
      → last ≤ t
      → Agrees past last m
      → Agrees (past ++ (k, t) ∷ []) t (allow visit m k limit window t).1
  Agrees-allow past last m k t room le h j n later =
      rw (find-allow m k j t room, times_for-append)
        (elim (Bool-cases (k == j)) [
          | inr ne ↦ unfold times_for in rw (ne, append-nil) (h j n (omega arith))
          | inl e ↦ rw e (agrees_same (find k m.keys) ((eq_iff k j).0 e) (h k n (omega arith)))
        ])
    where
      agrees_same :
          (w : Option Window)
          → k ≡ j
          → recent (n - milliseconds window) (times_of w)
            ≡ recent (n - milliseconds window) (times_for k past)
          → recent
              (n - milliseconds window)
              (recent (t - milliseconds window) (times_of w) ++ t ∷ [])
            ≡ recent (n - milliseconds window) (times_for j past ++ times_for j ((k, t) ∷ []))
      agrees_same w same ih =
          rw
            (
              ← same,
              recent-append,
              recent-append,
              recent-recent (t - milliseconds window) (n - milliseconds window) (times_of w)
                  (omega arith),
              ih,
            )
            (unfold times_for in rw (eq_refl k))

  Agrees-serve_all :
      (past es : List Event) (last : ℕ) (m : Memory)
      → length m.keys + length es ≤ m.max_keys
      → InOrder last es
      → Agrees past last m
      → Agrees (past ++ es) (latest last es) (serve_all m es)
        × (length (serve_all m es).keys ≤ length m.keys + length es)
        × ((serve_all m es).max_keys ≡ m.max_keys)
  unfolding serve_all latest
  Agrees-serve_all past [] last m room o h = (rw append-nil h, omega arith, refl)
  Agrees-serve_all past ((k, t) ∷ es) last m room o h =
      let m' = (allow visit m k limit window t).1 in
      let grown = length-allow m k t (omega arith) in
      let same = max_keys-allow m k t in
      let (a, b, c) =
        Agrees-serve_all (past ++ (k, t) ∷ []) es t m' (omega (arith, grown, same)) o.1
          (Agrees-allow past last m k t (omega arith) o.0 h) in
      (rw append_assoc at a, omega (arith, b, grown), c ∙ same)

length-concat : (xs : List ℕ) (n : ℕ) → length (xs ++ n ∷ []) ≡ length xs + 1
length-concat xs n = omega (arith, length-append {0} xs (n ∷ []))

decision :
    (visit : Keys → Keys) (m : Memory) (k : String) (limit : ℤ) (window t : ℕ)
    → length m.keys < m.max_keys
    → (allow visit m k limit window t).0
      ≡ within (length (recent (t - milliseconds window) (times_of (find k m.keys))) + 1) limit
unfolding allow
decision visit m k limit window t room = elim (Option-cases (find k m.keys)) [
  | inl e ↦ rw (open_none visit limit window m k t room e, e, allow) (rw length-concat)
  | inr (w, e) ↦ rw (open_some visit limit window m k t w e, e, allow) (rw length-concat)
]

-- The number of the requests of a key at a time or after it.
unfoldable pub count_since : ℕ → String → List Event → ℕ
count_since start k [] = 0
count_since start k ((j, t) ∷ es) =
    (if j == k && leb start t then 1 else 0) + count_since start k es

length-recent-times_for :
    (start : ℕ) (k : String) (es : List Event)
    → length (recent start (times_for k es)) ≡ count_since start k es
unfolding recent times_for count_since
length-recent-times_for start k [] = refl
length-recent-times_for start k ((j, t) ∷ es) = ground (arith, length-recent-times_for start k es)

-- A fallback that starts empty and has room for all the requests decides each one by the number of
-- that key's requests in the sliding window, which are those no older than the window's milliseconds,
-- this one and denied ones included; requests of other keys do not count. The requests come in the
-- order of their times.
pub allow_sliding :
    (visit : Keys → Keys) (limit : ℤ) (window max_keys : ℕ) (past : List Event) (k : String) (t : ℕ)
    → length past < max_keys
    → InOrder 0 (past ++ (k, t) ∷ [])
    → (allow visit
        (serve_all visit limit window (record { keys = []; max_keys = max_keys }) past)
        k
        limit
        window
        t).0
      ≡ within (count_since (t - window / 1000000) k past + 1) limit
unfolding times_for find
allow_sliding visit limit window max_keys past k t room o =
    let empty : Memory = record { keys = []; max_keys = max_keys } in
    let (before, later) = InOrder-latest 0 past k t o in
    let (a, b, c) =
      Agrees-serve_all visit limit window [] past 0 empty (omega (arith, room)) before
        (λ j n h. refl) in
    rw
      (decision visit (serve_all visit limit window empty past) k limit window t
        (omega (arith, b, c, room)))
      (rw (a k t later, length-recent-times_for))
