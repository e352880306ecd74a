-- ===== src/Middleware/Logging/Recorded.antt =====
-- internal/middleware/logging.go: what the log line says, and what the client gets.
use swayrider_api.Base.{
  String, ℕ, ◌-◌, ◌/◌, ◌≡◌, refl, sym, ◌∙◌, ◌⊎◌, inl, inr, Bool, true, false, List, [], ◌∷◌, ◌++◌,
  if◌then◌else◌, if-true, if-false,
}
use swayrider_api.Http.{Request}
use swayrider_api.Middleware.Logging.{
  Call, write_header, write, flush, StatusRecorder, recorder, on_call, on_calls, is_informational,
  sent_status, LogLine, user_of, logging,
}
use mathlib.Core.List.{append_assoc, append-nil}

-- Calls without WriteHeader
pub data HasNoHeader : List Call → Type 0 where
  done : HasNoHeader []
  then_write : (text : String) (cs : List Call) → HasNoHeader cs → HasNoHeader (write text ∷ cs)
  then_flush : (cs : List Call) → HasNoHeader cs → HasNoHeader (flush ∷ cs)

-- Informational answers, then one WriteHeader with the status, then none.
pub data HasHeader : ℕ → List Call → Type 0 where
  final :
      (status : ℕ) (cs : List Call)
      → is_informational status ≡ false
      → HasNoHeader cs
      → HasHeader status (write_header status ∷ cs)
  early :
      (i status : ℕ) (cs : List Call)
      → is_informational i ≡ true
      → HasHeader status cs
      → HasHeader status (write_header i ∷ cs)

-- The calls of a handler that answers with a status, once.
abbrev pub IsAnswer : ℕ → List Call → Type 0
IsAnswer status cs = HasHeader status cs ⊎ (status ≡ 200) × HasNoHeader cs

-- The calls that a writer takes: one that is no Flusher takes no Flush.
unfoldable pub kept : Bool → List Call → List Call
kept flushes [] = []
kept flushes (write_header status ∷ cs) = write_header status ∷ kept flushes cs
kept flushes (write text ∷ cs) = write text ∷ kept flushes cs
kept true (flush ∷ cs) = flush ∷ kept true cs
kept false (flush ∷ cs) = kept false cs

kept_flush :
    (b : Bool) (xs cs : List Call)
    → (if b then xs ++ flush ∷ [] else xs) ++ kept b cs ≡ xs ++ kept b (flush ∷ cs)
unfolding kept
kept_flush true xs cs = append_assoc xs _ _
kept_flush false xs cs = refl

passed-on_calls :
    (cs : List Call) (r : StatusRecorder) → (on_calls cs r).passed ≡ r.passed ++ kept r.flushes cs
unfolding on_calls on_call kept
passed-on_calls [] r = sym (append-nil r.passed)
passed-on_calls (write_header status ∷ cs) r =
    passed-on_calls cs (on_call (write_header status) r) ∙ append_assoc r.passed _ _
passed-on_calls (write text ∷ cs) r =
    passed-on_calls cs (on_call (write text) r) ∙ append_assoc r.passed _ _
passed-on_calls (flush ∷ cs) r =
    passed-on_calls cs (on_call flush r) ∙ kept_flush r.flushes r.passed cs

status_no_header :
    (cs : List Call) (r : StatusRecorder) → HasNoHeader cs → (on_calls cs r).status ≡ r.status
unfolding on_calls on_call
status_no_header _ r done = refl
status_no_header _ r (then_write text cs h) = status_no_header cs (on_call (write text) r) h
status_no_header _ r (then_flush cs h) = status_no_header cs (on_call flush r) h

status_header :
    (status : ℕ) (cs : List Call) (r : StatusRecorder)
    → HasHeader status cs
    → (on_calls cs r).status ≡ status
unfolding on_calls on_call
status_header _ _ r (final status cs e h) = status_no_header cs (on_call (write_header status) r) h
status_header _ _ r (early i status cs e h) = status_header status cs (on_call (write_header i) r) h

sent_no_header :
    (flushes : Bool) (cs : List Call) → HasNoHeader cs → sent_status (kept flushes cs) ≡ 200
unfolding sent_status kept
sent_no_header flushes _ done = refl
sent_no_header flushes _ (then_write text cs h) = refl
sent_no_header true _ (then_flush cs h) = refl
sent_no_header false _ (then_flush cs h) = sent_no_header false cs h

sent_header :
    (flushes : Bool) (status : ℕ) (cs : List Call)
    → HasHeader status cs
    → sent_status (kept flushes cs) ≡ status
unfolding sent_status kept
sent_header flushes _ _ (final status cs e h) = if-false _ _ _ e
sent_header flushes _ _ (early i status cs e h) = if-true _ _ _ e ∙ sent_header flushes status cs h

recorded_status :
    (flushes : Bool) (status : ℕ) (cs : List Call)
    → IsAnswer status cs
    → (on_calls cs (recorder flushes)).status ≡ status
unfolding recorder
recorded_status flushes status cs (inl h) = status_header status cs (recorder flushes) h
recorded_status flushes status cs (inr (e, h)) = status_no_header cs (recorder flushes) h ∙ sym e

sent_answer :
    (flushes : Bool) (status : ℕ) (cs : List Call)
    → IsAnswer status cs
    → sent_status (kept flushes cs) ≡ status
sent_answer flushes status cs (inl h) = sent_header flushes status cs h
sent_answer flushes status cs (inr (e, h)) = sent_no_header flushes cs h ∙ sym e

-- Around a handler that answers a request once, with a status: the client's writer gets the handler's
-- calls, but for Flush where it is no Flusher, and sends that status; the state is the handler's; and
-- one line is added to the log, with the method, the path, that same status, the time that the handler
-- took, the client's IP and the user.
pub logging_lem :
    {S : Type 0} (now : S → ℕ) (next : Request → S → List Call × S) (flushes : Bool) (r : Request)
    (s : S) (log : List LogLine) (status : ℕ)
    → IsAnswer status (next r s).0
    → (sent_status (logging now next flushes r s log).0 ≡ status)
      × (logging now next flushes r s log ≡ (
        kept flushes (next r s).0,
        (next r s).1,
        log
            ++ record {
              method = r.method;
              path = r.path;
              status = status;
              milliseconds = (now (next r s).1 - now s) / 1000000;
              ip = r.ctx.orig_ip;
              user = user_of r.ctx.claims;
            }
              ∷ [],
      ))
unfolding logging recorder
logging_lem now next flushes r s log status h =
    let same : (on_calls (next r s).0 (recorder flushes)).passed ≡ kept flushes (next r s).0 =
      passed-on_calls (next r s).0 (recorder flushes) in
    let recorded = recorded_status flushes status (next r s).0 h in
    (rw (same) (sent_answer flushes status (next r s).0 h), rw (same, recorded) refl)
