-- ===== src/Examples/Jobs.antt =====
-- A server with one stream and one key for each job (internal/queue, internal/sse), and a codec
-- that joins the parts.
use swayrider_api.Base.{
  ℕ, suc, String, Char, ◌≡◌, refl, ap, inl, true, Option, none, some, List, [], ◌∷◌, ◌==◌, eq_refl,
  arith, if◌then◌else◌, if-true, eqb, code,
}
use swayrider_api.Http.{Claims}
use swayrider_api.Queue.{
  Job, StoredResult, Values, Message, Redis, Codec, Processed, done, job_values, process_message,
  check_depth, add_job, is_full,
}
use swayrider_api.Queue.Depth.{
  DepthLaws, Producers, check, add, Reach, begun, then_step, IsBounded, Reach-IsBounded,
}
use swayrider_api.Queue.Delivery.{StoreLaws, CodecLaws}
use swayrider_api.Sse.{timed_out}
use swayrider_api.Handlers.Stream.{Run, job_of}

-- The entries of the streams, the latest first, and the keys with their values, the latest first.
abbrev pub Server : Type 0
Server = List (String × Values) × List (String × String)

abbrev pub count : String → List (String × Values) → ℕ
count k [] = 0
count k ((j, v) ∷ es) = if j == k then suc (count k es) else count k es

abbrev pub lookup : String → List (String × String) → Option String
lookup k [] = none
lookup k ((j, v) ∷ kvs) = if j == k then some v else lookup k kvs

abbrev pub server : Redis Server
server = record {
  xlen = λ k s. some (count k s.0);
  xadd = λ k v s. (true, ((k, v) ∷ s.0, s.1));
  xack = λ k g i s. s;
  set = λ k v s. (s.0, (k, v) ∷ s.1);
  get = λ k s. lookup k s.1;
  publish = λ c v s. s;
}

depth : String → Server → ℕ
depth k s = count k s.0

server-Depth : DepthLaws server depth
unfolding depth
server-Depth = record {
  xlen_depth = λ k s d e. ground (arith, e);
  xadd_added = λ k v s e. if-true _ _ _ (eq_refl k);
  xadd_depth = λ k j v s. ground arith;
  xack_depth = λ k j g i s. refl;
  set_depth = λ k j v s n. refl;
  publish_depth = λ k c v s. refl;
}

pub server-Store : StoreLaws server
server-Store = record {
  get_set = λ k v s. if-true _ _ _ (eq_refl k);
  get_publish = λ k c v s. refl;
  get_xack = λ k j g i s. refl;
}

-- Each character of the user's ID after a 1, then a 0, then the result.
pub encode : String → String → String
encode String.[] r = String.◌∷◌ "0" r
encode (String.◌∷◌ c u) r = String.◌∷◌ "1" (String.◌∷◌ c (encode u r))

abbrev pub with_char : Char → Option StoredResult → Option StoredResult
with_char c none = none
with_char c (some st) = some (record st { user_id = String.◌∷◌ c st.user_id })

pub decode : String → Option StoredResult
decode String.[] = none
decode (String.◌∷◌ m String.[]) =
    if eqb (code m) b'0' then some (record { user_id = ""; result = "" }) else none
decode (String.◌∷◌ m (String.◌∷◌ c s)) =
    let rest = decode s in
    if eqb (code m) b'0'
    then some (record { user_id = ""; result = String.◌∷◌ c s })
    else with_char c rest

decode-encode : (u r : String) → decode (encode u r) ≡ some (record { user_id = u; result = r })
unfolding decode encode
decode-encode String.[] String.[] = refl
decode-encode String.[] (String.◌∷◌ c r) = refl
decode-encode (String.◌∷◌ c u) r = ap (with_char c) (decode-encode u r)

abbrev pub codec : Codec
codec = record {
  marshal_result = λ r. elim r.data_json [ none ↦ "failed" | some json ↦ json ];
  marshal_stored = λ st. encode st.user_id st.result;
  unmarshal_stored = decode;
}

pub codec-Laws : CodecLaws codec
codec-Laws = record { round_trip = λ u r. decode-encode u (codec.marshal_result r) }

-- A job's result is its payload.
abbrev pub process : Job → Processed
process job = done job.payload

abbrev pub claims : Claims
claims = record { subject = "u1"; email = none; email_verified = some true; user = none }

abbrev values : Values
values = job_values "j1" (job_of claims "{}") "0"

abbrev msg : Message
msg = record { id = "1-0"; values = values }

abbrev pub empty : Server
empty = ([], [])

-- Two handlers see the empty stream with its limit of one, and both add their job.
abbrev racing : Producers Server
racing = record {
  server = (
    ("sw:jobs:routing", job_values "j2" (job_of claims "{}") "1")
        ∷ ("sw:jobs:routing", values)
        ∷ [],
    [],
  );
  between = 0;
  accepted = 2;
}

race : Reach server codec process 1 2 "sw:jobs:routing" empty racing
unfolding check_depth is_full add_job job_values job_of
race =
    then_step
      (then_step
        (then_step (then_step begun (check _ (omega arith) refl)) (check _ (omega arith) refl))
        (add _ 1 (job_of claims "{}") "j1" "0" refl))
      (add _ 0 (job_of claims "{}") "j2" "1" refl)

Reach-IsBounded_example :
    IsBounded server depth server-Depth codec process 1 2 "sw:jobs:routing" (inl refl) empty racing
Reach-IsBounded_example =
    Reach-IsBounded server depth server-Depth codec process 1 2 "sw:jobs:routing" (inl refl) empty
      racing race

abbrev after_work : Server
after_work = process_message codec process server "sw:jobs:routing" msg empty

abbrev pub run : Run Server
run = record {
  job_id = "j1";
  now = "0";
  flushes = true;
  meanwhile = process_message codec process server "sw:jobs:routing" msg;
  signal = timed_out;
  quote = λ s. s;
  print = λ n. "1";
}

abbrev entered : Server
entered = (server.xadd "sw:jobs:routing" values empty).1
