-- ===== src/Examples/Pools.antt =====
-- Two workers and two messages (internal/queue/worker.go). The server's state is the number of
-- messages that the group got.
use swayrider_api.Base.{
  ℕ, zero, suc, String, ◌≡◌, refl, subst, inl, inr, true, Option, none, some, List, [], ◌∷◌, ◌==◌,
  if◌then◌else◌, arith,
}
use swayrider_api.Queue.{Job, Message, Redis, Codec, Processed, done, process_message}
use swayrider_api.Queue.Pool.{Pool, read, finish, Reach, started, later}
use swayrider_api.Queue.Pool.Once.{count_id, GroupLaws, IsOnce, Reach-IsOnce}

abbrev server : Redis ℕ
server = record {
  xlen = λ k s. some 2;
  xadd = λ k v s. (true, s);
  xack = λ k g i s. s;
  set = λ k v s. s;
  get = λ k s. none;
  publish = λ c v s. s;
}

abbrev codec : Codec
codec = record { marshal_result = λ r. ""; marshal_stored = λ st. ""; unmarshal_stored = λ t. none }

abbrev process : Job → Processed
process job = done "{}"

abbrev message : String → Message
message id = record { id = id; values = [] }

abbrev next : ℕ → Option Message × ℕ
next zero = (some (message "1-0"), 1)
next (suc zero) = (some (message "2-0"), 2)
next (suc (suc n)) = (none, suc (suc n))

abbrev given : ℕ → List Message
given zero = []
given (suc zero) = message "1-0" ∷ []
given (suc (suc n)) = message "2-0" ∷ message "1-0" ∷ []

abbrev Nobody : ℕ → ℕ → Type 0
Nobody s s' = ⊥

-- A message that is read is new, and one more.
abbrev IsNew : ℕ → Option Message × ℕ → Type 0
IsNew s (none, s') = (k : String) → count_id k (given s') ≡ count_id k (given s)
IsNew s (some m, s') =
    (count_id m.id (given s) ≡ 0)
    × ((k : String)
        → count_id k (given s')
          ≡ (if m.id == k then suc (count_id k (given s)) else count_id k (given s)))

next-IsNew : (s : ℕ) → IsNew s (next s)
unfolding count_id
next-IsNew zero = (refl, λ k. refl)
next-IsNew (suc zero) = (refl, λ k. refl)
next-IsNew (suc (suc n)) = λ k. refl

server-Laws : GroupLaws server next Nobody
server-Laws = record {
  delivered = λ k s. count_id k (given s);
  read_new = λ s s' m e. (subst (IsNew s) e (next-IsNew s)).0;
  read_delivered = λ s s' m k e. (subst (IsNew s) e (next-IsNew s)).1 k;
  read_none = λ s s' k e. subst (IsNew s) e (next-IsNew s) k;
  set_delivered = λ j v k s. refl;
  publish_delivered = λ c v k s. refl;
  xack_delivered = λ j g i k s. refl;
  others_delivered = λ s s' k o. absurd o;
}

abbrev first_read : Pool ℕ
first_read = record { server = 1; in_work = (0, message "1-0") ∷ []; finished = [] }

abbrev both_read : Pool ℕ
both_read = record {
  server = 2;
  in_work = (1, message "2-0") ∷ (0, message "1-0") ∷ [];
  finished = [];
}

abbrev first_finished : Pool ℕ
first_finished = record {
  server = 2;
  in_work = (1, message "2-0") ∷ [];
  finished = message "1-0" ∷ [];
}

-- The first worker finishes while the second still works.
reached : Reach server codec process "sw:jobs:search" next 2 Nobody 0 first_finished
unfolding process_message
reached =
    later
      (later
        (later started (
          read (record { server = 0; in_work = []; finished = [] }) 0 (message "1-0") 1
            (omega arith) (λ b. b) refl))
        (read first_read 1 (message "2-0") 2 (omega arith)
          (λ b. elim b [ inl e ↦ omega (arith, e) | inr n ↦ n ]) refl))
      (finish both_read ((1, message "2-0") ∷ []) [] 0 (message "1-0") refl)

Reach-IsOnce_example :
    IsOnce server codec process "sw:jobs:search" next 2 Nobody server-Laws 0 first_finished "1-0"
Reach-IsOnce_example =
    Reach-IsOnce server codec process "sw:jobs:search" next 2 Nobody server-Laws 0 first_finished
      "1-0" reached
