-- ===== src/Sse/Subscription/Delivered.antt =====
-- internal/sse/hub.go: which results reach the request that waits for them.
use swayrider_api.Base.{
  String, ◌≡◌, refl, sym, ap, ◌∙◌, ◌⊎◌, inl, inr, Bool, true, false, Option, none, some, List, [],
  ◌∷◌, ◌==◌, eq_refl, if-true, subst,
}
use swayrider_api.Queue.{Job, Redis, Codec, Processed, result_key, job_result}
use swayrider_api.Queue.Delivery.{StoreLaws, CodecLaws}
use swayrider_api.Sse.{timeout_event, not_found_event, delivery}
use swayrider_api.Sse.Ownership.{delivery-stored}
use swayrider_api.Sse.Subscription.{
  Phase, asking, waiting, ended, finished, Race, payload, looked, Step, activate, look, set,
  publish, receive, time_out, cancel, others, start, Reach, started, later,
}
use swayrider_api.Sse.Subscription.Left.{
  Left, Known, Left-message, Left-publish, Known-publish, Known-activate, Known-looked,
}

module _ {S : Type 0} (redis : Redis S) (laws : StoreLaws redis) (codec : Codec)
    (process : Job → Processed) (job : Job) (user : String) where
  -- The state of the race, with what each side knows of it.
  pub record Holds (r : Race S) : Type 0 where
    pub left :
        Left codec
          (payload redis codec process job user)
          user
          r.worker
          (redis.get (result_key job.job_id) r.server)
          r.inbox
          r.missed
    pub known :
        Known codec (payload redis codec process job user) user r.request r.ready r.active r.missed

  Step-Holds : (r q : Race S) → Step redis codec process job user r q → Holds r → Holds q
  Step-Holds _ _ (activate r) h = record {
    left = h.left;
    known = Known-activate codec _ user r.request r.ready r.active r.missed h.known;
  }
  Step-Holds _ _ (look r e) h = record {
    left = h.left;
    known = Known-looked codec _ user _ r.worker r.inbox r.active r.missed h.left;
  }
  Step-Holds _ _ (set r e) h =
      let l =
        subst
          (λ d.
            Left codec (payload redis codec process job user) user d
              (redis.get (result_key job.job_id) r.server) r.inbox r.missed)
          e h.left in
      record { left = (laws.get_set _ _ _, l.1, l.2); known = h.known }
  Step-Holds _ _ (publish r e) h =
      let l =
        subst
          (λ d.
            Left codec (payload redis codec process job user) user d
              (redis.get (result_key job.job_id) r.server) r.inbox r.missed)
          e h.left in
      record {
        left =
            Left-publish codec _ user r.active _ r.inbox r.missed
              (laws.get_publish _ _ _ _ ∙ l.0, l.1, l.2);
        known = Known-publish codec _ user r.request r.ready r.active r.missed h.known;
      }
  Step-Holds _ _ (receive r m rest e f) h = record {
    left = h.left;
    known = inl (
        ap (λ y. delivery codec y user ∷ [])
          (Left-message codec _ user r.worker _ r.inbox r.missed h.left m rest f));
  }
  Step-Holds _ _ (time_out r e) h = record { left = h.left; known = inr (inl refl) }
  Step-Holds _ _ (cancel r e) h = record { left = h.left; known = inr (inr refl) }
  Step-Holds _ _ (others r s e) h = record {
    left =
        subst
          (λ v. Left codec (payload redis codec process job user) user r.worker v r.inbox r.missed)
          (sym e) h.left;
    known = h.known;
  }

  Reach-Holds :
      (s : S)
      → redis.get (result_key job.job_id) s ≡ none
      → (r : Race S) → Reach redis codec process job user s r
      → Holds r
  Reach-Holds s e _ started = record { left = (e, refl, refl); known = tt }
  Reach-Holds s e q (later c t) = Step-Holds _ q t (Reach-Holds s e _ c)

  -- What a request of the job's own user has, or will find, once its worker has finished: the result
  -- under its key before GET; in the select the message, or nothing where GET and PUBLISH both came
  -- before the subscription; and at the end the result alone, the timeout, or nothing.
  abbrev pub Outcome : Phase → Option String → List String → Bool → Bool → Type 0
  Outcome asking value inbox ready missed = value ≡ some (payload redis codec process job user)
  Outcome waiting value inbox ready missed =
      (inbox ≡ payload redis codec process job user ∷ []) ⊎ (ready ≡ false) × (missed ≡ true)
  Outcome (ended es) value inbox ready missed =
      (es ≡ ("result", codec.marshal_result (job_result (process job))) ∷ [])
      ⊎ (es ≡ timeout_event ∷ [])
      ⊎ (es ≡ [])

  delivered :
      CodecLaws codec
      → job.user_id ≡ user
      → delivery codec (payload redis codec process job user) user
        ≡ ("result", codec.marshal_result (job_result (process job)))
  delivered codes own =
      delivery-stored codec codes process job user
      ∙ if-true (job.user_id == user) _ not_found_event (rw (own) (eq_refl user))

  Outcome-Holds :
      CodecLaws codec
      → job.user_id ≡ user
      → (p : Phase) (value : Option String) (inbox : List String) (ready active missed : Bool)
      → Left codec (payload redis codec process job user) user finished value inbox missed
      → Known codec (payload redis codec process job user) user p ready active missed
      → Outcome p value inbox ready missed
  Outcome-Holds codes own asking value inbox ready active missed l k = l.0
  Outcome-Holds codes own waiting value inbox ready active missed (v, inr (m, i)) k = inl i
  Outcome-Holds codes own waiting value inbox ready active missed (v, inl (m, i)) (inl r) =
      inr (r, m)
  Outcome-Holds codes own waiting value inbox ready active missed (v, inl (m, i)) (inr (a, n)) = cc
  Outcome-Holds codes own (ended es) value inbox ready active missed l (inl e) =
      inl (e ∙ ap (λ x. x ∷ []) (delivered codes own))
  Outcome-Holds codes own (ended es) value inbox ready active missed l (inr e) = inr e

  -- Where GET reads the last SET and the envelope of a result reads back as it was: in every order of the
  -- steps of WaitForResult for the job's own user and of the job's worker, where the key is free at the
  -- start, and once the worker has finished, the request that has not yet looked will find the result
  -- under the key; the one that waits has the result in its channel, unless its subscription was inactive
  -- both when it looked and when the worker published; and the one that has ended wrote the result alone,
  -- the timeout, or nothing.
  pub finished-Outcome :
      CodecLaws codec
      → job.user_id ≡ user
      → (s : S) → redis.get (result_key job.job_id) s ≡ none
      → (r : Race S) → Reach redis codec process job user s r
      → r.worker ≡ finished
      → Outcome r.request (redis.get (result_key job.job_id) r.server) r.inbox r.ready r.missed
  finished-Outcome codes own s e r c f =
      let h = Reach-Holds s e r c in
      Outcome-Holds codes own r.request _ r.inbox r.ready r.active r.missed
        (subst
          (λ d.
            Left codec (payload redis codec process job user) user d
              (redis.get (result_key job.job_id) r.server) r.inbox r.missed)
          f h.left)
        h.known

  -- The run that loses the result: the request looks, the worker stores and publishes, and only then
  -- the subscription is active; the request waits for its timeout, though the key holds the result.
  lost :
      (s : S)
      → redis.get (result_key job.job_id) s ≡ none
      → (r : Race S) × Reach redis codec process job user s r
        × (redis.get (result_key job.job_id) r.server ≡ some (payload redis codec process job user))
        × (r.request ≡ ended (timeout_event ∷ []))
  lost s e =
      let looking = later started (look (start s) refl) in
      let stored = later looking (set _ refl) in
      let sent = later stored (publish _ refl) in
      let late = later sent (activate _) in
      (
        _,
        later late (time_out _ (ap (looked codec user) e)),
        laws.get_publish _ _ _ _ ∙ laws.get_set _ _ _,
        refl,
      )
