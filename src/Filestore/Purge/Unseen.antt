-- ===== src/Filestore/Purge/Unseen.antt =====
-- The lookups of corndogs/server/store/filestore/guards.go do not see PurgeExpiredReceipts.
use corndogs.Prelude.{
  ℕ, Bool, ◌≡◌, refl, ap, sym, ◌∙◌, ◌⊎◌, inl, inr, true, false, true≢false, Option, none, some,
  Option-cases,
}
use corndogs.Bytes.{Bytes, equal}
use corndogs.Filestore.Task.{lt64}
use corndogs.Filestore.Api.{SubmissionRecord, OperationRecord}
use corndogs.Filestore.Bolt.{Env, Json}
use corndogs.Filestore.Tx.{
  Tx, Result, ok, err, bad_record, pure, gets, lift_option, ◌>>=◌, bucket_submissions,
  bucket_operations,
}
use corndogs.Filestore.Guards.{unexpired, submission_key, load_submission, load_operation}
use corndogs.Filestore.Purge.{purge_expired_receipts, record_expires_at}
use corndogs.Filestore.Purge.Unexpired.{Lapsed, purge-IsKept}

-- json.Unmarshal finds the field `expires_at` in the JSON of a record too when it is asked for that
-- field alone.
abbrev pub FindsExpiry : {A : Type 0} → Json A → (A → ℕ) → (Bytes → Option ℕ) → Type 0
FindsExpiry {A} j at json_expires_at =
    (v : Bytes) (a : A) → j.unmarshal v ≡ some a → json_expires_at v ≡ some (at a)

abbrev is_err : {A : Type 0} → Result A → Bool
is_err (ok a) = false
is_err (err c) = true

abbrev decoded_record : {A : Type 0} → (A → ℕ) → ℕ → Option A → Result (Option A)
decoded_record at now none = err bad_record
decoded_record at now (some a) = ok (unexpired (at a) now a)

-- What a lookup at `now` makes of a stored record.
abbrev read_record : {A : Type 0} → Json A → (A → ℕ) → ℕ → Option Bytes → Result (Option A)
read_record j at now none = ok none
read_record j at now (some v) = decoded_record at now (j.unmarshal v)

-- The record of another lookup: the same, or none where that one has lapsed.
abbrev IsKeptAs : (Bytes → ℕ) → ℕ → Option Bytes → Option Bytes → Type 0
IsKeptAs expires now o o' = (o' ≡ o) ⊎ ((o' ≡ none) × Lapsed expires now o)

module _ ⦃e : Env⦄ (json_expires_at : Bytes → Option ℕ) where
  read-Lapsed :
      {A : Type 0} (j : Json A) (at : A → ℕ) (now : ℕ) (o : Option Bytes) (r : Option A)
      → FindsExpiry j at json_expires_at
      → Lapsed (record_expires_at json_expires_at) now o
      → read_record j at now o ≡ ok r
      → ok none ≡ read_record j at now o
  unfolding record_expires_at
  read-Lapsed j at now none r finds h k = refl
  read-Lapsed j at now (some v) r finds h k = elim (Option-cases (j.unmarshal v)) [
    | inl t ↦ elim (err-ne-ok (sym (ap (decoded_record at now) t) ∙ k)) [ ]
    | inr (a, t) ↦
        let late : lt64 now (at a) ≡ false = sym (rw (finds v a t) refl) ∙ h in
        sym (ap (decoded_record at now) t ∙ rw late refl)
  ]
    where
      err-ne-ok : {A : Type 0} {r : Option A} → err bad_record ≡ ok r → ⊥
      err-ne-ok h = true≢false (ap is_err h)

  kept-read :
      {A : Type 0} (j : Json A) (at : A → ℕ) (now : ℕ) (o o' : Option Bytes) (r : Option A)
      → FindsExpiry j at json_expires_at
      → IsKeptAs (record_expires_at json_expires_at) now o o'
      → read_record j at now o ≡ ok r
      → read_record j at now o' ≡ ok r
  kept-read j at now o o' r finds h k = elim h [
    | inl u ↦ ap (read_record j at now) u ∙ k
    | inr u ↦ ap (read_record j at now) u.0 ∙ read-Lapsed j at now o r finds u.1 k ∙ k
  ]

module _ ⦃e : Env⦄ where
  load_submission-read :
      (queue key : Bytes) (now : ℕ) (s : Tx)
      → (load_submission queue key now s).0
        ≡ read_record e.submission_json
            (λ r. r.expires_at)
            now
            (e.get (s.db bucket_submissions) (submission_key queue key))
  unfolding load_submission ◌>>=◌ gets pure lift_option
  load_submission-read queue key now s =
      elim (Option-cases (e.get (s.db bucket_submissions) (submission_key queue key))) [
        | inl t ↦ rw t refl
        | inr (v, t) ↦ elim (Option-cases (e.submission_json.unmarshal v)) [
          | inl u ↦ rw (t, u) refl
          | inr (r, u) ↦ rw (t, u) refl
        ]
      ]

  load_operation-read :
      (id : Bytes) (now : ℕ) (s : Tx)
      → (load_operation id now s).0
        ≡ read_record e.operation_json (λ r. r.expires_at) now (e.get (s.db bucket_operations) id)
  unfolding load_operation ◌>>=◌ gets pure lift_option
  load_operation-read id now s = elim (Option-cases (e.get (s.db bucket_operations) id)) [
    | inl t ↦ rw t refl
    | inr (v, t) ↦ elim (Option-cases (e.operation_json.unmarshal v)) [
      | inl u ↦ rw (t, u) refl
      | inr (r, u) ↦ rw (t, u) refl
    ]
  ]

  -- A purge at `now` changes nothing of what the lookups see at `now`, for whatever limit, index and
  -- records: where the receipts of a submission and of an operation are looked up without an error, found
  -- or not, they are looked up with the same outcome after the purge. json.Unmarshal finds the field
  -- `expires_at` of a stored receipt also when it is asked for that field alone.
  pub purge_expired_receipts-unseen :
      (json_expires_at : Bytes → Option ℕ) (now limit : ℕ) (queue key id : Bytes) (s : Tx)
      (submitted : Option SubmissionRecord) (operated : Option OperationRecord)
      → FindsExpiry e.submission_json (λ r. r.expires_at) json_expires_at
      → FindsExpiry e.operation_json (λ r. r.expires_at) json_expires_at
      → (load_submission queue key now s).0 ≡ ok submitted
      → (load_operation id now s).0 ≡ ok operated
      → ((load_submission queue key now (purge_expired_receipts json_expires_at now limit s).1).0
          ≡ ok submitted)
        × ((load_operation id now (purge_expired_receipts json_expires_at now limit s).1).0
            ≡ ok operated)
  purge_expired_receipts-unseen json_expires_at now limit queue key id s submitted operated fs fo hs
        ho =
      (
        load_submission-read queue key now _
            ∙ kept-read json_expires_at e.submission_json (λ r. r.expires_at) now _ _ submitted fs
                (purge-IsKept json_expires_at now limit bucket_submissions
                  (submission_key queue key) s (unfold equal in refl))
                (sym (load_submission-read queue key now s) ∙ hs),
        load_operation-read id now _
            ∙ kept-read json_expires_at e.operation_json (λ r. r.expires_at) now _ _ operated fo
                (purge-IsKept json_expires_at now limit bucket_operations id s
                  (unfold equal in refl))
                (sym (load_operation-read id now s) ∙ ho),
      )
