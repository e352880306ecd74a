-- ===== src/Queue/Pool/Once.antt =====
-- internal/queue/worker.go: no message is lost or processed twice by a pool.
use swayrider_api.Base.{
  ℕ, suc, ◌+◌, ◌≤◌, String, ◌≡◌, sym, ap, ◌∙◌, Option, none, some, List, [], ◌∷◌, ◌++◌, ◌==◌,
  eq_iff, if-true, if-false, if◌then◌else◌, arith, Bool-cases, inl, inr, subst,
}
use swayrider_api.Queue.{Job, Message, Redis, Codec, Processed, process_message}
use swayrider_api.Queue.Pool.{Work, Pool, Step, read, idle, finish, others, Reach, started, later}

-- How many messages have an ID.
unfoldable pub count_id : String → List Message → ℕ
count_id k [] = 0
count_id k (m ∷ ms) = let rest = count_id k ms in if m.id == k then suc rest else rest

unfoldable pub count_work : String → List Work → ℕ
count_work k [] = 0
count_work k ((i, m) ∷ ws) = let rest = count_work k ws in if m.id == k then suc rest else rest

-- What Redis documents of consumer groups: ">" reads a message that the group never got. The number
-- of deliveries of an ID to the group, which no other command changes.
pub record GroupLaws {S : Type 0} (redis : Redis S) (xreadgroup : S → Option Message × S)
    (Others : S → S → Type 0) : Type 0 where
  pub delivered : String → S → ℕ
  pub read_new : (s s' : S) (m : Message) → xreadgroup s ≡ (some m, s') → delivered m.id s ≡ 0
  pub read_delivered :
      (s s' : S) (m : Message) (k : String)
      → xreadgroup s ≡ (some m, s')
      → delivered k s' ≡ (if m.id == k then suc (delivered k s) else delivered k s)
  pub read_none :
      (s s' : S) (k : String) → xreadgroup s ≡ (none, s') → delivered k s' ≡ delivered k s
  pub set_delivered : (j v k : String) (s : S) → delivered k (redis.set j v s) ≡ delivered k s
  pub publish_delivered :
      (c v k : String) (s : S) → delivered k (redis.publish c v s) ≡ delivered k s
  pub xack_delivered : (j g i k : String) (s : S) → delivered k (redis.xack j g i s) ≡ delivered k s
  pub others_delivered : (s s' : S) (k : String) → Others s s' → delivered k s' ≡ delivered k s

count_work-append :
    (k : String) (a b : List Work) → count_work k (a ++ b) ≡ count_work k a + count_work k b
unfolding count_work
count_work-append k [] b = omega arith
count_work-append k (w ∷ a) b = ground (arith, count_work-append k a b)

count_work-middle :
    (k : String) (a b : List Work) (i : ℕ) (m : Message)
    → count_work k (a ++ (i, m) ∷ b)
      ≡ (if m.id == k then suc (count_work k (a ++ b)) else count_work k (a ++ b))
unfolding count_work
count_work-middle k a b i m =
    rw (count_work-append k a ((i, m) ∷ b), count_work-append k a b) (ground arith)

module _ {S : Type 0} (redis : Redis S) (codec : Codec) (process : Job → Processed)
    (stream : String) (xreadgroup : S → Option Message × S) (count : ℕ) (Others : S → S → Type 0)
    (laws : GroupLaws redis xreadgroup Others) where
  -- The messages of an ID that were processed or are in work are those that the pool was given, at
  -- most one.
  pub record IsOnce (s : S) (p : Pool S) (k : String) : Type 0 where
    pub kept :
        count_id k p.finished + count_work k p.in_work + laws.delivered k s
        ≡ laws.delivered k p.server
    pub once : count_id k p.finished + count_work k p.in_work ≤ 1

  process_message-delivered :
      (msg : Message) (k : String) (s : S)
      → laws.delivered k (process_message codec process redis stream msg s) ≡ laws.delivered k s
  unfolding process_message
  process_message-delivered msg k s =
      laws.xack_delivered _ _ _ k _ ∙ (laws.publish_delivered _ _ k _ ∙ laws.set_delivered _ _ k s)

  Step-IsOnce :
      (s : S) (p q : Pool S) (k : String)
      → Step redis codec process stream xreadgroup count Others p q
      → IsOnce s p k
      → IsOnce s q k
  unfolding count_id count_work
  Step-IsOnce s _ _ k (read p i msg s' lt free e) h = elim (Bool-cases (msg.id == k)) [
    | inl same ↦
        let now = laws.read_delivered p.server s' msg k e ∙ if-true _ _ _ same in
        let before =
          subst (λ j. laws.delivered j p.server ≡ 0) ((eq_iff _ _).0 same)
            (laws.read_new p.server s' msg e) in
        record {
          kept = rw same (omega (arith, h.kept, now));
          once = rw same (omega (arith, h.kept, before));
        }
    | inr other ↦
        let now = laws.read_delivered p.server s' msg k e ∙ if-false _ _ _ other in
        record { kept = rw other (h.kept ∙ sym now); once = rw other h.once }
  ]
  Step-IsOnce s _ _ k (idle p i s' lt free e) h = record {
    kept = h.kept ∙ sym (laws.read_none _ _ k e);
    once = h.once;
  }
  Step-IsOnce s _ _ k (finish p before after i msg e) h =
      let same = process_message-delivered msg k p.server in
      let split = ap (count_work k) e ∙ count_work-middle k before after i msg in
      record { kept = ground (arith, h.kept, same, split); once = ground (arith, h.once, split) }
  Step-IsOnce s _ _ k (others p s' o) h = record {
    kept = h.kept ∙ sym (laws.others_delivered _ _ k o);
    once = h.once;
  }

  -- However the workers and the other clients of Redis take turns, where Redis gives each message
  -- to the group once: each message that a pool was given since its start is either in work with
  -- one worker or was processed once, and none is processed twice.
  pub Reach-IsOnce :
      (s : S) (p : Pool S) (k : String)
      → Reach redis codec process stream xreadgroup count Others s p
      → IsOnce s p k
  unfolding count_id count_work
  Reach-IsOnce s _ k started = record { kept = omega arith; once = omega arith }
  Reach-IsOnce s _ k (later {p} {q} r step) = Step-IsOnce s p q k step (Reach-IsOnce s p k r)
