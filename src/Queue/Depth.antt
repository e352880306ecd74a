-- ===== src/Queue/Depth.antt =====
-- internal/queue: the depth of a job stream and Enqueue's limit, where handlers and workers run at the
-- same time: Enqueue's XLEN and its XADD are two steps, and other calls may come between them. XLEN
-- counts every entry of a stream that was not deleted or trimmed, acknowledged or not.
use swayrider_api.Base.{
  ℕ, suc, ◌+◌, ◌-◌, ◌≤◌, ◌<◌, String, ◌≡◌, ap, ◌≢◌, ◌⊎◌, inl, inr, true, false, none, some, arith,
  pos, Option-cases, has_prefix,
}
use swayrider_api.Base.Prefix.{has_prefix-append}
use swayrider_api.Queue.{
  Job, Values, Message, Redis, Codec, Processed, Enqueued, check_depth, add_job, process_message,
  is_full, job_values, result_key, stream_routing, stream_search, stream_rerouting, done_channel,
  stored_payload, parse_job, group_name,
}

abbrev pub IsJobStream : String → Type 0
IsJobStream k = (k ≡ stream_routing) ⊎ (k ≡ stream_search) ⊎ (k ≡ stream_rerouting)

-- What Redis documents of the commands, for the number of entries of a stream: XLEN reads it, XADD
-- adds an entry, and the other commands leave it (SET would replace only its own key).
pub record DepthLaws {S : Type 0} (redis : Redis S) (depth : String → S → ℕ) : Type 0 where
  pub xlen_depth : (k : String) (s : S) (d : ℕ) → redis.xlen k s ≡ some d → d ≡ depth k s
  pub xadd_added :
      (k : String) (v : Values) (s : S)
      → (redis.xadd k v s).0 ≡ true
      → depth k (redis.xadd k v s).1 ≡ suc (depth k s)
  -- an error may still have added the entry
  pub xadd_depth : (k j : String) (v : Values) (s : S) → depth k s ≤ depth k (redis.xadd j v s).1
  pub xack_depth : (k j g i : String) (s : S) → depth k (redis.xack j g i s) ≡ depth k s
  pub set_depth : (k j v : String) (s : S) → j ≢ k → depth k (redis.set j v s) ≡ depth k s
  pub publish_depth : (k c v : String) (s : S) → depth k (redis.publish c v s) ≡ depth k s

not-result_key : (k : String) → IsJobStream k → has_prefix k "sw:result:" ≡ false
unfolding has_prefix
not-result_key k (inl e) = ap (λ j. has_prefix j "sw:result:") e
not-result_key k (inr (inl e)) = ap (λ j. has_prefix j "sw:result:") e
not-result_key k (inr (inr e)) = ap (λ j. has_prefix j "sw:result:") e

result_key-JobStream : (k id : String) → IsJobStream k → result_key id ≢ k
result_key-JobStream k id h e =
    let yes = has_prefix-append "sw:result:" id in
    let no = not-result_key k h in let same = ap (λ j. has_prefix j "sw:result:") e in cc

abbrev pub one_if_added : Enqueued → ℕ
one_if_added (Enqueued.added id) = 1
one_if_added Enqueued.queue_full = 0
one_if_added Enqueued.redis_error = 0

-- The server, and for one stream the handlers between Enqueue's XLEN and its XADD, and the number of
-- the jobs that Enqueue has accepted.
pub record Producers (S : Type 0) : Type 0 where
  pub server : S
  pub between : ℕ
  pub accepted : ℕ

module _ {S : Type 0} (redis : Redis S) (codec : Codec) (process : Job → Processed)
    (max_depth handlers : ℕ) (k : String) where
  -- A step of one of the handlers or workers. A check that refuses the job changes nothing.
  pub data Step : Producers S → Producers S → Type 0 where
    check :
        (p : Producers S)
        → p.between < handlers
        → check_depth redis (pos max_depth) k p.server ≡ none
        → Step p (record p { between = suc p.between })
    add :
        (p : Producers S) (n : ℕ) (job : Job) (job_id now : String)
        → p.between ≡ suc n
        → Step p (record {
          server = (add_job redis k job job_id now p.server).1;
          between = n;
          accepted = one_if_added (add_job redis k job job_id now p.server).0 + p.accepted;
        })
    -- XADD to another stream
    add_other :
        (p : Producers S) (j : String) (job : Job) (job_id now : String)
        → j ≢ k
        → Step p (record p { server = (add_job redis j job job_id now p.server).1 })
    work :
        (p : Producers S) (stream : String) (msg : Message)
        → Step p (record p { server = process_message codec process redis stream msg p.server })

  pub data Reach (s : S) : Producers S → Type 0 where
    begun : Reach s (record { server = s; between = 0; accepted = 0 })
    then_step : {p q : Producers S} → Reach s p → Step p q → Reach s q

module _ {S : Type 0} (redis : Redis S) (depth : String → S → ℕ)
    (laws : DepthLaws redis depth) where
  add_job-depth :
      (k j : String) (job : Job) (id now : String) (s : S)
      → depth k s ≤ depth k (add_job redis j job id now s).1
  unfolding add_job
  add_job-depth k j job id now s = laws.xadd_depth k j (job_values id job now) s

  add_job-added :
      (k : String) (job : Job) (id now : String) (s : S)
      → let r = add_job redis k job id now s in
        (one_if_added r.0 ≡ 0) ⊎ (one_if_added r.0 ≡ 1) × (depth k r.1 ≡ suc (depth k s))
  unfolding add_job
  add_job-added k job id now s =
      let more = laws.xadd_added k (job_values id job now) s in ground (arith, more)

  check_depth-below :
      (max_depth : ℕ) (k : String) (s : S)
      → check_depth redis (pos max_depth) k s ≡ none
      → depth k s < max_depth
  unfolding check_depth is_full
  check_depth-below max_depth k s e = elim (Option-cases (redis.xlen k s)) [
    | inl n ↦ ground (arith, e, n)
    | inr (d, x) ↦ let seen = laws.xlen_depth k s d x in ground (arith, e, x, seen)
  ]

  module _ (codec : Codec) (process : Job → Processed) (max_depth handlers : ℕ) (k : String)
      (j : IsJobStream k) (s : S) where
    process_message-depth :
        (stream : String) (msg : Message) (s : S)
        → depth k s ≤ depth k (process_message codec process redis stream msg s)
    unfolding process_message
    process_message-depth stream msg s =
        let job = parse_job msg.values in
        let payload = stored_payload codec process job in
        let s1 = redis.set (result_key job.job_id) payload s in
        let s2 = redis.publish (done_channel job.job_id) payload s1 in
        let a =
          laws.set_depth k (result_key job.job_id) payload s
            (result_key-JobStream k job.job_id j) in
        let b = laws.publish_depth k (done_channel job.job_id) payload s1 in
        let c = laws.xack_depth k stream group_name msg.id s2 in ground (arith, a, b, c)

    pub record IsBounded (p : Producers S) : Type 0 where
      pub grown : depth k s + p.accepted ≤ depth k p.server
      pub few : p.accepted + p.between ≤ (max_depth - depth k s) + (handlers - 1)

    Step-IsBounded :
        {p q : Producers S}
        → Step redis codec process max_depth handlers k p q
        → IsBounded p
        → IsBounded q
    Step-IsBounded (check p free e) h =
        let below = check_depth-below max_depth k p.server e in
        record { grown = h.grown; few = omega (arith, h.grown, free, below) }
    Step-IsBounded (add p n job id now e) h =
        let more = add_job-depth k k job id now p.server in
        elim (add_job-added k job id now p.server) [
          | inl none_added ↦ record {
            grown = omega (arith, h.grown, more, none_added);
            few = omega (arith, h.few, e, none_added);
          }
          | inr (one, deeper) ↦ record {
            grown = omega (arith, h.grown, one, deeper);
            few = omega (arith, h.few, e, one);
          }
        ]
    Step-IsBounded (add_other p i job id now other) h =
        let more = add_job-depth k i job id now p.server in
        record { grown = omega (arith, h.grown, more); few = h.few }
    Step-IsBounded (work p stream msg) h =
        let more = process_message-depth stream msg p.server in
        record { grown = omega (arith, h.grown, more); few = h.few }

    -- In every run in which at most the given number of handlers are between Enqueue's two calls for a
    -- job stream at the same time, the stream's depth grows at least by the jobs accepted: the work done
    -- never makes room. The jobs accepted and those about to be added are together at most the number
    -- missing to the limit at the start, plus one less than the number of handlers.
    pub Reach-IsBounded :
        (p : Producers S) → Reach redis codec process max_depth handlers k s p → IsBounded p
    Reach-IsBounded _ begun = record { grown = omega arith; few = omega arith }
    Reach-IsBounded q (then_step {p} r step) = Step-IsBounded step (Reach-IsBounded p r)
