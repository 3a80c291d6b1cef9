-- ===== src/Examples/Receipts.antt =====
-- A store with a receipt, and the theorems about receipts at it.
use corndogs.Prelude.{
  ℕ, ◌≡◌, refl, ap, sym, ◌∙◌, true, false, [], ◌∷◌, Option, none, some, some-injective,
  some-ne-none, Option-cases, inl, inr,
}
use corndogs.Bytes.{Bytes}
use corndogs.Filestore.Tx.{ok, set_bucket, bucket_submissions, bucket_receipt_expiry, Tx, Exec}
use corndogs.Filestore.Api.{
  SubmissionRecord, OperationRecord, SubmitKeyedTaskRequest, SubmitKeyedTaskResponse,
  ReceiptOptions, submission_receipt, to_guarded_task,
}
use corndogs.Filestore.Lookups.Once.{retried, submit_keyed_task-once}
use corndogs.Filestore.Guards.{
  submission_key, receipt_submission, expiry_key, load_submission, load_operation,
  submit_keyed_task, keyed_record, keyed_task,
}
use corndogs.Filestore.Purge.{purge_expired_receipts}
use corndogs.Filestore.Purge.Unseen.{FindsExpiry, purge_expired_receipts-unseen}
use corndogs.Examples.Codec.{
  ◌>>=◌, read_text, read_task, read_submission, read_submission_end, of_op_number, of_flag,
  read_operation, read_operation_end, list_submission_json, list_operation_json,
}
use corndogs.Examples.Stores.{list_env}

abbrev receipt_record : SubmissionRecord
receipt_record = record {
  queue = b'q' ∷ [];
  key = b'k' ∷ [];
  digest = 7 ∷ [];
  task_uuid = b'u' ∷ [];
  accepted_at = 10;
  expires_at = 90;
  guarded = true;
}

abbrev with_receipt : Tx
with_receipt = record {
  db =
      set_bucket (λ name. []) bucket_submissions
        ((submission_key (b'q' ∷ []) (b'k' ∷ []), list_submission_json.marshal receipt_record)
          ∷ []);
  capturing = true;
  muts = [];
  audit = [];
}

-- json.Unmarshal of these records for the field `expires_at` alone.
abbrev expiry_end : Bytes → Option ℕ
expiry_end (a ∷ ex ∷ g ∷ []) = some ex
expiry_end (o ∷ a ∷ ex ∷ t ∷ rest) = some ex
expiry_end _ = none

abbrev read_expiry : Bytes → Option ℕ
read_expiry b = do
  (q, b1) ← read_text b
  (k, b2) ← read_text b1
  (d, b3) ← read_text b2
  (u, b4) ← read_text b3
  expiry_end b4

-- What follows from every result of a step follows from its result.
then_some :
    {A B C : Type 0} (m : Option A) (f : A → Option B) (g : A → Option C) (b : B) (c : C)
    → ((a : A) → f a ≡ some b → g a ≡ some c)
    → (m >>= f) ≡ some b
    → (m >>= g) ≡ some c
then_some none f g b c h k = elim (some-ne-none b (sym k)) [ ]
then_some (some a) f g b c h k = h a k

submission_end :
    (q k d u rest : Bytes) (r : SubmissionRecord)
    → read_submission_end q k d u rest ≡ some r
    → expiry_end rest ≡ some r.expires_at
unfolding read_submission_end
submission_end q k d u [] r h = elim (some-ne-none r (sym h)) [ ]
submission_end q k d u (a ∷ []) r h = elim (some-ne-none r (sym h)) [ ]
submission_end q k d u (a ∷ b ∷ []) r h = elim (some-ne-none r (sym h)) [ ]
submission_end q k d u (a ∷ b ∷ g ∷ []) r h = ap (λ o. some o.expires_at) (some-injective _ r h)
submission_end q k d u (a ∷ b ∷ g ∷ c ∷ rest) r h = elim (some-ne-none r (sym h)) [ ]

submission_FindsExpiry : FindsExpiry list_submission_json (λ r. r.expires_at) read_expiry
unfolding read_submission
submission_FindsExpiry v r h =
    then_some (read_text v) _ _ r r.expires_at
      (λ (q, b1). then_some (read_text b1) _ _ r r.expires_at (λ (k, b2).
        then_some (read_text b2) _ _ r r.expires_at (λ (d, b3).
          then_some (read_text b3) _ _ r r.expires_at (λ (u, b4). submission_end q k d u b4 r))))
      h

operation_end :
    (i d u q rest : Bytes) (r : OperationRecord)
    → read_operation_end i d u q rest ≡ some r
    → expiry_end rest ≡ some r.expires_at
unfolding read_operation_end
operation_end i d u q [] r h = elim (some-ne-none r (sym h)) [ ]
operation_end i d u q (a ∷ []) r h = elim (some-ne-none r (sym h)) [ ]
operation_end i d u q (a ∷ b ∷ []) r h = elim (some-ne-none r (sym h)) [ ]
operation_end i d u q (a ∷ b ∷ c ∷ []) r h = elim (some-ne-none r (sym h)) [ ]
operation_end i d u q (a ∷ b ∷ c ∷ t ∷ rest) r h = elim (Option-cases (read_task rest)) [
  | inl n ↦ elim (some-ne-none r (sym h ∙ rw n refl)) [ ]
  | inr (x, y) ↦
      let o : OperationRecord = record {
        operation_id = i;
        op = of_op_number a;
        digest = d;
        task_uuid = u;
        queue = q;
        at = b;
        expires_at = c;
        result = record { task = x; terminal = of_flag t };
      } in
      let same : some o ≡ some r = sym (rw y refl) ∙ h in
      ap (λ (w : OperationRecord). some w.expires_at) (some-injective o r same)
]

operation_FindsExpiry : FindsExpiry list_operation_json (λ r. r.expires_at) read_expiry
unfolding read_operation
operation_FindsExpiry v r h =
    then_some (read_text v) _ _ r r.expires_at
      (λ (i, b1). then_some (read_text b1) _ _ r r.expires_at (λ (d, b2).
        then_some (read_text b2) _ _ r r.expires_at (λ (u, b3).
          then_some (read_text b3) _ _ r r.expires_at (λ (q, b4). operation_end i d u q b4 r))))
      h

-- The index says that the receipt expires at 3, before its record does.
abbrev with_stale_entry : Tx
with_stale_entry = record with_receipt {
  db =
      set_bucket with_receipt.db bucket_receipt_expiry
        ((expiry_key 3 receipt_submission (submission_key (b'q' ∷ []) (b'k' ∷ [])), []) ∷ []);
}

seen_before :
    (load_submission (b'q' ∷ []) (b'k' ∷ []) 20 with_stale_entry).0 ≡ ok (some receipt_record)
unfolding load_submission corndogs.Filestore.Tx.◌>>=◌ corndogs.Filestore.Tx.gets
    corndogs.Filestore.Bolt.lookup corndogs.Examples.Buckets.sorted set_bucket corndogs.Bytes.equal
    submission_key corndogs.Filestore.Tx.lift_option read_submission
    corndogs.Examples.Codec.read_text corndogs.Examples.Codec.write_submission
    corndogs.Examples.Codec.text corndogs.Filestore.Tx.pure corndogs.Bytes.less
    corndogs.Examples.Buckets.insert read_submission_end corndogs.Examples.Codec.split
seen_before = refl

none_before : (load_operation (b'i' ∷ []) 20 with_stale_entry).0 ≡ ok none
unfolding load_operation corndogs.Filestore.Tx.◌>>=◌ corndogs.Filestore.Tx.gets
    corndogs.Filestore.Bolt.lookup corndogs.Examples.Buckets.sorted set_bucket corndogs.Bytes.equal
    corndogs.Filestore.Tx.pure
none_before = refl

purge_expired_receipts-unseen_example :
    ((load_submission
        (b'q' ∷ [])
        (b'k' ∷ [])
        20
        (purge_expired_receipts read_expiry 20 10 with_stale_entry).1).0
      ≡ ok (some receipt_record))
    × ((load_operation
          (b'i' ∷ [])
          20
          (purge_expired_receipts read_expiry 20 10 with_stale_entry).1).0
        ≡ ok none)
purge_expired_receipts-unseen_example =
    purge_expired_receipts-unseen read_expiry 20 10 (b'q' ∷ []) (b'k' ∷ []) (b'i' ∷ [])
      with_stale_entry (some receipt_record) none submission_FindsExpiry operation_FindsExpiry
      seen_before none_before

abbrev keyed_request : SubmitKeyedTaskRequest
keyed_request = record {
  submission_key = b'k' ∷ [];
  guarded = true;
  queue = b'q' ∷ [];
  current_state = b's' ∷ [];
  auto_target_state = b'w' ∷ [];
  timeout = 0;
  payload = [];
  priority = 0;
}

abbrev keyed_options : ReceiptOptions
keyed_options = record { digest = 7 ∷ []; retention = 80 }

-- A store that holds nothing, and the submission in it.
abbrev nothing_stored : Tx
nothing_stored = record { db = λ name. []; capturing = true; muts = []; audit = [] }

abbrev submitted : Exec SubmitKeyedTaskResponse
submitted = submit_keyed_task (b'u' ∷ []) 10 keyed_request keyed_options

abbrev accepted : SubmitKeyedTaskResponse
accepted = record {
  receipt = submission_receipt (keyed_record (b'u' ∷ []) 10 keyed_request keyed_options);
  replayed = false;
  task = some (to_guarded_task (keyed_task (b'u' ∷ []) 10 keyed_request));
}

submitted_lem : submitted nothing_stored ≡ (ok accepted, (submitted nothing_stored).1)
unfolding corndogs.Bytes.equal corndogs.Bytes.be_onto corndogs.Bytes.be corndogs.Bytes.of_be
    corndogs.Filestore.Bolt.lookup corndogs.Filestore.Tx.set_bucket corndogs.Filestore.Tx.pure
    corndogs.Filestore.Tx.raise corndogs.Filestore.Tx.◌>>=◌ corndogs.Filestore.Tx.gets
    corndogs.Filestore.Tx.lift_option corndogs.Filestore.Tx.when corndogs.Filestore.Tx.tx_put
    corndogs.Filestore.Tx.tx_delete corndogs.Filestore.Tx.capture corndogs.Filestore.Tx.cap_put
    corndogs.Filestore.Tx.cap_del corndogs.Filestore.Tx.record_audit
    corndogs.Filestore.Records.count_key corndogs.Filestore.Records.count_value
    corndogs.Filestore.Records.put_bytes corndogs.Filestore.Records.delete_bytes
    corndogs.Filestore.Records.store_count corndogs.Filestore.Records.adjust_count
    corndogs.Filestore.Records.write_task corndogs.Filestore.Records.capture_task
    corndogs.Filestore.Records.put_task corndogs.Filestore.Records.erase_task
    corndogs.Filestore.Records.capture_erase corndogs.Filestore.Records.delete_task
    corndogs.Filestore.Records.put_payload corndogs.Filestore.Records.load_payload
    corndogs.Filestore.Order.encode_priority_desc corndogs.Filestore.Order.encode_time_asc
    corndogs.Filestore.Order.task_prefix corndogs.Filestore.Order.encode_task_key
    corndogs.Filestore.Order.task_deadline corndogs.Examples.Buckets.insert
    corndogs.Examples.Buckets.sorted corndogs.Examples.Buckets.without
    corndogs.Examples.Buckets.accepted corndogs.Examples.Buckets.put_entry
    corndogs.Examples.Codec.text corndogs.Examples.Codec.split corndogs.Examples.Codec.read_text
    corndogs.Examples.Codec.write_task corndogs.Examples.Codec.read_task_end
    corndogs.Examples.Codec.read_task corndogs.Filestore.Order.encode_deadline_key
    corndogs.Bytes.less corndogs.Filestore.Guards.submit_keyed_task
    corndogs.Filestore.Guards.load_submission corndogs.Filestore.Guards.submission_key
    corndogs.Filestore.Guards.accept_keyed corndogs.Filestore.Guards.put_submission
    corndogs.Filestore.Guards.expiry_key corndogs.Examples.Codec.write_submission
submitted_lem = refl

-- The same submission at the time 20, with another id.
submit_keyed_task-once_example :
    submit_keyed_task (b'v' ∷ []) 20 keyed_request keyed_options (submitted nothing_stored).1
    ≡ retried (b'u' ∷ []) (7 ∷ []) accepted keyed_options (submitted nothing_stored).1
submit_keyed_task-once_example =
    submit_keyed_task-once (b'u' ∷ []) (b'v' ∷ []) 10 20 keyed_request keyed_request keyed_options
      keyed_options accepted nothing_stored (submitted nothing_stored).1
      (submitted nothing_stored).1 submitted_lem refl refl refl refl refl
