-- ===== src/Filestore/Purge.antt =====
-- LookupOperation, PurgeExpiredReceipts and recordExpiresAt of corndogs/server/store/filestore/guards.go.
pub mod Unexpired
pub mod Unseen
use corndogs.Prelude.{
  ℕ, zero, suc, ◌+◌, ◌≡◌, Bool, true, false, not, ◌&&◌, List, [], ◌∷◌, Option, none, some,
  if◌then◌else◌, ◌==◌, ltb, length, take,
}
use corndogs.Bytes.{Bytes}
use corndogs.Filestore.Task.{lt64}
use corndogs.Filestore.Order.{decode_time_asc}
use corndogs.Filestore.Api.{Op, OperationRecord, ResultState}
use corndogs.Filestore.Bolt.{Env, Entries}
use corndogs.Filestore.Tx.{
  Exec, pure, gets, ◌>>=◌, ◌>>◌, bucket_submissions, bucket_operations, bucket_receipt_expiry,
}
use corndogs.Filestore.Records.{delete_bytes}
use corndogs.Filestore.Guards.{receipt_submission, load_operation}

-- api.OperationReceipt
pub record OperationReceipt : Type 0 where
  pub operation_id : Bytes
  pub op : Op
  pub task_uuid : Bytes
  pub queue : Bytes
  pub result_revision : ℕ
  pub result_state : Bytes
  pub at : ℕ
  pub expires_at : ℕ

-- (*operationRecord).receipt
abbrev pub operation_receipt : OperationRecord → OperationReceipt
operation_receipt r = record {
  operation_id = r.operation_id;
  op = r.op;
  task_uuid = r.task_uuid;
  queue = r.queue;
  result_revision = r.result.task.revision;
  result_state = r.result.task.current_state;
  at = r.at;
  expires_at = r.expires_at;
}

abbrev receipt_of : Option OperationRecord → Option OperationReceipt
receipt_of none = none
receipt_of (some r) = some (operation_receipt r)

-- An entry of the expiry index that has expired.
pub record ExpiredEntry : Type 0 where
  pub index : Bytes
  pub kind : ℕ
  pub id : Bytes
  pub expires_at : ℕ

abbrev pub skip : ℕ → Bytes → Bytes
skip zero xs = xs
skip (suc n) [] = []
skip (suc n) (x ∷ xs) = skip n xs

abbrev head_or_zero : Bytes → ℕ
head_or_zero [] = 0
head_or_zero (x ∷ xs) = x

-- `entry{index: k, id: k[9:], kind: k[8], expiresAt: at}`
abbrev pub entry_of : Bytes → ExpiredEntry
entry_of k = record {
  index = k;
  kind = head_or_zero (skip 8 k);
  id = skip 9 k;
  expires_at = decode_time_asc (take 8 k);
}

-- The loop over the index, without the limit.
unfoldable pub expired_entries : ℕ → Entries → List ExpiredEntry
unfolding decode_time_asc
expired_entries now [] = []
expired_entries now ((k, v) ∷ es) =
    let rest = expired_entries now es in
    if ltb (length k) 9
    then rest
    else if lt64 now (decode_time_asc (take 8 k))
    then []
    else entry_of k ∷ rest

abbrev pub receipt_bucket : ℕ → Bytes
receipt_bucket kind = if kind == receipt_submission then bucket_submissions else bucket_operations

-- How many entries `len(expired) < limit` lets in; the limit is an int64 pattern.
abbrev pub allowed : ℕ → ℕ
allowed limit = if lt64 limit 0 then 0 else limit

-- `json_expires_at` is json.Unmarshal into a struct with only the field `expires_at`.
module _ ⦃e : Env⦄ (json_expires_at : Bytes → Option ℕ) where
  -- The body of recordExpiresAt after json.Unmarshal.
  abbrev or_never : Option ℕ → ℕ
  or_never none = 0
  or_never (some at) = at

  unfoldable pub record_expires_at : Bytes → ℕ
  record_expires_at v = or_never (json_expires_at v)

  -- `v != nil && recordExpiresAt(v) == e.expiresAt`
  abbrev pub is_due : Option Bytes → ExpiredEntry → Bool
  is_due none x = false
  is_due (some v) x = record_expires_at v == x.expires_at

  abbrev pub drop_receipt : Bool → ExpiredEntry → Exec ℕ
  drop_receipt true x = do delete_bytes (receipt_bucket x.kind) x.id; pure 1
  drop_receipt false x = pure 0

  unfoldable pub purge_entry : ExpiredEntry → Exec ℕ
  unfolding record_expires_at
  purge_entry x = do
    v ← gets (λ db. e.get (db (receipt_bucket x.kind)) x.id)
    n ← drop_receipt (is_due v x) x
    delete_bytes bucket_receipt_expiry x.index
    pure n

  unfoldable pub purge_entries : List ExpiredEntry → Exec ℕ
  unfolding purge_entry
  purge_entries [] = pure 0
  purge_entries (x ∷ xs) = do n ← purge_entry x; m ← purge_entries xs; pure (n + m)

  -- PurgeExpiredReceipts
  unfoldable pub purge_expired_receipts : ℕ → ℕ → Exec ℕ
  unfolding expired_entries purge_entries
  purge_expired_receipts now limit = do
    es ← gets (λ db. e.entries (db bucket_receipt_expiry))
    purge_entries (take (allowed limit) (expired_entries now es))

module _ ⦃e : Env⦄ where
  unfoldable pub lookup_operation : Bytes → ℕ → Exec (Option OperationReceipt)
  unfolding load_operation
  lookup_operation id now = do r ← load_operation id now; pure (receipt_of r)
