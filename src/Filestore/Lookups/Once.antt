-- ===== src/Filestore/Lookups/Once.antt =====
-- A submission key of corndogs/server/store/filestore/guards.go makes one task.
use corndogs.Prelude.{
  ℕ, ◌≡◌, refl, ap, sym, ◌∙◌, Bool, true, false, true≢false, Option, none, some, some-injective,
  if◌then◌else◌, Bool-cases, Option-cases, inl, inr,
}
use corndogs.Bytes.{Bytes, equal}
use corndogs.Bytes.Laws.{equal_refl}
use corndogs.Filestore.Task.{lt64, add64}
use corndogs.Filestore.Api.{
  SubmissionRecord, SubmitKeyedTaskRequest, SubmitKeyedTaskResponse, ReceiptOptions,
  submission_receipt,
}
use corndogs.Filestore.Bolt.{Env}
use corndogs.Filestore.Tx.{
  Db, Exec, Tx, Result, ok, err, pure, raise, gets, and_then, lift_option, ◌>>=◌, tx_put, cap_put,
  capture, record_audit, set_bucket, bucket_submissions, bucket_receipt_expiry,
  submission_key_conflict,
}
use corndogs.Filestore.Records.{put_bytes, put_task, put_payload}
use corndogs.Filestore.Guards.{
  submission_key, load_submission, put_submission, current_view, accept_keyed, answer_keyed,
  replay_keyed, submit_keyed_task, keyed_record, keyed_task,
}

module _ ⦃e : Env⦄ where
  abbrev is_ok : {A : Type 0} → Result A × Tx → Bool
  is_ok (ok a, s) = true
  is_ok (err c, s) = false

  abbrev returned : {A : Type 0} → Result A × Tx → Option A
  returned (ok a, s) = some a
  returned (err c, s) = none

  -- Both steps of a sequence that succeeds succeed.
  and_then-ok :
      {A B : Type 0} (x : Result A × Tx) (f : A → Exec B) (b : B) (s1 : Tx)
      → and_then x f ≡ (ok b, s1)
      → (a : A) × (s0 : Tx) × (x ≡ (ok a, s0)) × (f a s0 ≡ (ok b, s1))
  and_then-ok (ok a, s0) f b s1 h = (a, s0, refl, h)
  and_then-ok (err c, s0) f b s1 h = elim (true≢false (sym (ap is_ok h))) [ ]

  put_bytes-ok :
      (name k v : Bytes) (s s1 : Tx)
      → put_bytes name k v s ≡ (ok tt, s1)
      → (b : e.Bucket) × (e.put (s.db name) k v ≡ some b) × (s1.db ≡ set_bucket s.db name b)
  unfolding put_bytes ◌>>=◌ tx_put cap_put capture
  put_bytes-ok name k v s s1 h = elim (Option-cases (e.put (s.db name) k v)) [
    | inl t ↦ elim (true≢false (sym (ap is_ok h) ∙ rw t refl)) [ ]
    | inr (b, t) ↦ (
      b,
      t,
      ap (λ y. y.1.db) (sym h)
          ∙ elim (Bool-cases s.capturing) [ inl u ↦ rw (t, u) refl | inr u ↦ rw (t, u) refl ],
    )
  ]

  -- The record of a submission that was put is there.
  put_submission-get :
      (r : SubmissionRecord) (s s1 : Tx)
      → put_submission r s ≡ (ok tt, s1)
      → e.get (s1.db bucket_submissions) (submission_key r.queue r.key)
        ≡ some (e.submission_json.marshal r)
  unfolding put_submission ◌>>=◌ set_bucket
  put_submission-get r s s1 h =
      let k : Bytes = submission_key r.queue r.key in
      let (u, s0, p, q) =
        and_then-ok (put_bytes bucket_submissions k (e.submission_json.marshal r) s) _ tt s1 h in
      let (b, put, db) = put_bytes-ok bucket_submissions k (e.submission_json.marshal r) s s0 p in
      let (b', put', db') = put_bytes-ok bucket_receipt_expiry _ _ s0 s1 q in
      ap (λ (d : Db). e.get (d bucket_submissions) k) db'
      ∙ unfold equal in
        ap (λ (d : Db). e.get (d bucket_submissions) k) db
        ∙ e.get-put (s.db bucket_submissions) k (e.submission_json.marshal r) b k put
        ∙ rw (equal_refl k) refl

  -- A submission that is accepted leaves its record.
  accept_keyed-get :
      (id : Bytes) (now : ℕ) (req : SubmitKeyedTaskRequest) (ro : ReceiptOptions)
      (out : SubmitKeyedTaskResponse) (s s1 : Tx)
      → accept_keyed id now req ro s ≡ (ok out, s1)
      → (e.get (s1.db bucket_submissions) (submission_key req.queue req.submission_key)
          ≡ some (e.submission_json.marshal (keyed_record id now req ro)))
        × (submission_receipt (keyed_record id now req ro) ≡ out.receipt)
  unfolding accept_keyed ◌>>=◌ record_audit pure
  accept_keyed-get id now req ro out s s1 h =
      let (ua, sa, pa, ha) = and_then-ok (put_payload id req.payload s) _ out s1 h in
      let (ub, sb, pb, hb) = and_then-ok (put_task (keyed_task id now req) sa) _ out s1 ha in
      let (uc, sc, pc, hc) =
        and_then-ok (put_submission (keyed_record id now req ro) sb) _ out s1 hb in
      (
        ap (λ (d : Db). e.get (d bucket_submissions) (submission_key req.queue req.submission_key))
              (sym (ap (λ y. y.1.db) hc))
            ∙ put_submission-get (keyed_record id now req ro) sb sc pc,
        ap (λ w. w.receipt) (some-injective _ out (ap returned hc)),
      )

  -- A submission that is not a replay is accepted.
  answer_keyed-fresh :
      (id : Bytes) (now : ℕ) (req : SubmitKeyedTaskRequest) (ro : ReceiptOptions)
      (prev : Option SubmissionRecord) (out : SubmitKeyedTaskResponse) (s s1 : Tx)
      → answer_keyed id now req ro prev s ≡ (ok out, s1)
      → out.replayed ≡ false
      → accept_keyed id now req ro s ≡ (ok out, s1)
  unfolding raise ◌>>=◌ pure
  answer_keyed-fresh id now req ro none out s s1 h f = h
  answer_keyed-fresh id now req ro (some prev) out s s1 h f =
      elim (Bool-cases (equal prev.digest ro.digest)) [
        | inr t ↦ elim (true≢false (sym (ap is_ok h) ∙ rw t refl)) [ ]
        | inl t ↦
            let replay : Exec SubmitKeyedTaskResponse =
              current_view prev.task_uuid >>= λ v. pure (replay_keyed prev v) in
            let replayed : answer_keyed id now req ro (some prev) s ≡ replay s = rw t refl in
            let (v, s0, p, q) =
              and_then-ok (current_view prev.task_uuid s) _ out s1 (sym replayed ∙ h) in
            let same : replay_keyed prev v ≡ out =
              some-injective (replay_keyed prev v) out (ap returned q) in
            elim (true≢false (ap (λ w. w.replayed) same ∙ f)) [ ]
      ]

  stored-load_submission :
      (queue key : Bytes) (now : ℕ) (r : SubmissionRecord) (s : Tx)
      → e.get (s.db bucket_submissions) (submission_key queue key)
        ≡ some (e.submission_json.marshal r)
      → lt64 now r.expires_at ≡ true
      → load_submission queue key now s ≡ (ok (some r), s)
  unfolding load_submission ◌>>=◌ gets pure lift_option
  stored-load_submission queue key now r s h w =
      rw (h, e.submission_json.unmarshal-marshal r) (rw w refl)

  -- The outcome of a retry of the submission that made the task `id`.
  abbrev pub retried :
      Bytes → Bytes → SubmitKeyedTaskResponse → ReceiptOptions → Exec SubmitKeyedTaskResponse
  retried id digest out ro s =
      if equal digest ro.digest
      then (current_view id >>= λ v.
            pure (record { receipt = out.receipt; replayed = true; task = v }))
          s
      else (err submission_key_conflict, s)

  -- A submission that is accepted, and not answered as a replay, settles its key for as long as its receipt
  -- is kept. Whatever else is stored meanwhile, as long as the bucket of submissions is as it was, and
  -- whatever the new id and the other fields are, a later submission with the same queue and key is not
  -- accepted again: with the same digest it gets the receipt of the first submission and the present view
  -- of the first task, as a replay, and with another digest it is refused as a conflict.
  pub submit_keyed_task-once :
      (id id2 : Bytes) (now now2 : ℕ) (req req2 : SubmitKeyedTaskRequest) (ro ro2 : ReceiptOptions)
      (out : SubmitKeyedTaskResponse) (s s1 s2 : Tx)
      → submit_keyed_task id now req ro s ≡ (ok out, s1)
      → out.replayed ≡ false
      → s2.db bucket_submissions ≡ s1.db bucket_submissions
      → req2.queue ≡ req.queue
      → req2.submission_key ≡ req.submission_key
      → lt64 now2 (add64 now ro.retention) ≡ true
      → submit_keyed_task id2 now2 req2 ro2 s2 ≡ retried id ro.digest out ro2 s2
  unfolding submit_keyed_task ◌>>=◌ raise
  submit_keyed_task-once id id2 now now2 req req2 ro ro2 out s s1 s2 h f kept q k w =
      let rec : SubmissionRecord = keyed_record id now req ro in
      let (prev, s0, p, a) =
        and_then-ok (load_submission req.queue req.submission_key now s) _ out s1 h in
      let (there, receipt) =
        accept_keyed-get id now req ro out s0 s1
          (answer_keyed-fresh id now req ro prev out s0 s1 a f) in
      let found : e.get (s2.db bucket_submissions) (submission_key req2.queue req2.submission_key)
          ≡ some (e.submission_json.marshal rec) =
        rw (kept, q, k) there in
      let loaded : load_submission req2.queue req2.submission_key now2 s2 ≡ (ok (some rec), s2) =
        stored-load_submission req2.queue req2.submission_key now2 rec s2 found w in
      ap (λ x. and_then x (answer_keyed id2 now2 req2 ro2)) loaded
      ∙ elim (Bool-cases (equal ro.digest ro2.digest)) [
        | inl t ↦ rw (t, receipt) refl
        | inr t ↦ rw t refl
      ]
