-- ===== src/Queue/Pool.antt =====
-- internal/queue/worker.go: the goroutines of a WorkerPool, as a step relation. Each worker reads one
-- message and processes it before it reads again; workers and other clients of Redis take their steps
-- in any order. The commands at the end of processMessage are one step.
pub mod Once
use swayrider_api.Base.{
  ℕ, suc, String, ◌≡◌, ◌<◌, Option, none, some, List, [], ◌∷◌, ◌++◌, ◌==◌, if◌then◌else◌, ◌⊎◌,
}
use swayrider_api.Queue.{Job, Message, Redis, Codec, Processed, process_message}

-- A worker that works on a message.
abbrev pub Work : Type 0
Work = ℕ × Message

-- The server's state, the messages in work, and those whose processing ended, the last one first.
pub record Pool (S : Type 0) : Type 0 where
  pub server : S
  pub in_work : List Work
  pub finished : List Message

-- Whether a worker works.
abbrev pub IsBusy : ℕ → List Work → Type 0
IsBusy i [] = ⊥
IsBusy i ((j, msg) ∷ work) = (i ≡ j) ⊎ IsBusy i work

module _ {S : Type 0} (redis : Redis S) (codec : Codec) (process : Job → Processed)
    (stream : String)
    -- XREADGROUP with ">" and a count of 1: none for a timeout or an error; no reply is lost
    (xreadgroup : S → Option Message × S) (count : ℕ) where
  -- A step of the pool. Other clients change the server by `others`.
  pub data Step (Others : S → S → Type 0) : Pool S → Pool S → Type 0 where
    read :
        (p : Pool S) (i : ℕ) (msg : Message) (s : S)
        → i < count
        → (IsBusy i p.in_work → ⊥)
        → xreadgroup p.server ≡ (some msg, s)
        → Step Others p (record p { server = s; in_work = (i, msg) ∷ p.in_work })
    idle :
        (p : Pool S) (i : ℕ) (s : S)
        → i < count
        → (IsBusy i p.in_work → ⊥)
        → xreadgroup p.server ≡ (none, s)
        → Step Others p (record p { server = s })
    finish :
        (p : Pool S) (before after : List Work) (i : ℕ) (msg : Message)
        → p.in_work ≡ before ++ (i, msg) ∷ after
        → Step Others p (record {
          server = process_message codec process redis stream msg p.server;
          in_work = before ++ after;
          finished = msg ∷ p.finished;
        })
    others : (p : Pool S) (s : S) → Others p.server s → Step Others p (record p { server = s })

  pub data Reach (Others : S → S → Type 0) (s : S) : Pool S → Type 0 where
    started : Reach Others s (record { server = s; in_work = []; finished = [] })
    later : {p q : Pool S} → Reach Others s p → Step Others p q → Reach Others s q
