-- ===== src/Filestore/Tx.antt =====
-- A bbolt write transaction of the store as a state and error monad. What an operation wrote before an
-- error stays in the transaction; whoever runs it rolls back or commits. The state also holds the
-- mutations captured for replication (replication.go, `captureBuf`) and the audit events.
use Prim.Native.String.{String}
use Prim.Native.Char.{code}
use corndogs.Prelude.{ℕ, Bool, true, false, List, [], ◌∷◌, ◌++◌, Option, none, some, if◌then◌else◌}
use corndogs.Bytes.{Bytes, equal}
use corndogs.Filestore.Bolt.{Env}

abbrev pub codes : String → Bytes
codes String.[] = []
codes (String.◌∷◌ c s) = code c ∷ codes s

-- The bucket names of boltstore.go, counts.go and guards.go.
abbrev pub bucket_tasks : Bytes
bucket_tasks = codes "tasks"

abbrev pub bucket_guarded : Bytes
bucket_guarded = codes "gtasks"

abbrev pub bucket_by_uuid : Bytes
bucket_by_uuid = codes "uuid"

abbrev pub bucket_payloads : Bytes
bucket_payloads = codes "payloads"

abbrev pub bucket_deadlines : Bytes
bucket_deadlines = codes "deadlines"

abbrev pub bucket_archived : Bytes
bucket_archived = codes "archived"

abbrev pub bucket_meta : Bytes
bucket_meta = codes "meta"

abbrev pub bucket_counts : Bytes
bucket_counts = codes "counts"

abbrev pub bucket_submissions : Bytes
bucket_submissions = codes "submissions"

abbrev pub bucket_operations : Bytes
bucket_operations = codes "operations"

abbrev pub bucket_receipt_expiry : Bytes
bucket_receipt_expiry = codes "receipt-expiry"

-- The service errors carry the code that the client sees; the texts are not modelled.
pub data Error : Type 0 where
  put_refused : Error
  bad_record : Error
  missing_payload : Error
  task_guard_required : Error
  submission_key_conflict : Error
  operation_conflict : Error
  claim_superseded : Error
  task_not_found : Error
  revision_conflict : Error
  non_contiguous : Error
  bad_snapshot : Error

pub data Result {ℓ} (A : Type ℓ) : Type ℓ where
  ok : A → Result A
  err : Error → Result A

-- Mutation of replication.go: a put, or a delete where `delete` is set.
pub record Mutation : Type 0 where
  pub bucket : Bytes
  pub key : Bytes
  pub value : Bytes
  pub delete : Bool

pub data AuditOp : Type 0 where
  submit claim update complete cancel timeout : AuditOp

-- AuditEvent of audit.go, without the time that Record stamps.
pub record AuditEvent : Type 0 where
  pub op : AuditOp
  pub uuid : Bytes
  pub queue : Bytes
  pub from_state : Bytes
  pub to_state : Bytes
  pub priority : ℕ

module _ ⦃e : Env⦄ where
  -- Every bucket is there: Initialize creates them.
  abbrev pub Db : Type 0
  Db = Bytes → e.Bucket

  unfoldable pub set_bucket : Db → Bytes → e.Bucket → Db
  set_bucket db name b = λ n. if equal name n then b else db n

  pub record Tx : Type 0 where
    pub db : Db
    pub capturing : Bool
    pub muts : List Mutation
    pub audit : List AuditEvent

module _ ⦃e : Env⦄ where
  abbrev pub Exec {ℓ} : Type ℓ → Type ℓ
  Exec A = Tx → Result A × Tx

  unfoldable pub pure {ℓ} : {A : Type ℓ} → A → Exec A
  pure a s = (ok a, s)

  unfoldable pub raise {ℓ} : {A : Type ℓ} → Error → Exec A
  raise c s = (err c, s)

  abbrev pub and_then {ℓ κ} :
      {A : Type ℓ} {B : Type κ} → Result A × Tx → (A → Exec B) → Result B × Tx
  and_then (ok a, s) f = f a s
  and_then (err c, s) f = (err c, s)

  infixl 5 ◌>>=◌ ◌>>◌
  unfoldable pub ◌>>=◌ {ℓ κ} : {A : Type ℓ} {B : Type κ} → Exec A → (A → Exec B) → Exec B
  ◌>>=◌ m f s = and_then (m s) f

  abbrev pub ◌>>◌ {ℓ} : {B : Type ℓ} → Exec (Unit {0}) → Exec B → Exec B
  m >> n = m >>= λ _. n

  -- A read of the transaction's data.
  unfoldable pub gets : {A : Type 0} → (Db → A) → Exec A
  gets f s = (ok (f s.db), s)

  unfoldable pub lift_option {ℓ} : {A : Type ℓ} → Error → Option A → Exec A
  lift_option c none s = (err c, s)
  lift_option c (some a) s = (ok a, s)

  unfoldable pub when : Bool → Exec (Unit {0}) → Exec (Unit {0})
  when true m s = m s
  when false m s = (ok tt, s)

  abbrev put_in : Bytes → Option e.Bucket → Exec (Unit {0})
  put_in name none s = (err put_refused, s)
  put_in name (some b) s = (ok tt, record s { db = set_bucket s.db name b })

  -- tx.Bucket(name).Put(key, val)
  unfoldable pub tx_put : Bytes → Bytes → Bytes → Exec (Unit {0})
  unfolding set_bucket
  tx_put name key val s = put_in name (e.put (s.db name) key val) s

  -- tx.Bucket(name).Delete(key), which does not fail in a write transaction
  unfoldable pub tx_delete : Bytes → Bytes → Exec (Unit {0})
  unfolding set_bucket
  tx_delete name key s = (ok tt, record s { db = set_bucket s.db name (e.delete (s.db name) key) })

  unfoldable pub capture : Mutation → Exec (Unit {0})
  capture m s = (ok tt, if s.capturing then record s { muts = s.muts ++ m ∷ [] } else s)

  -- captureBuf.put and captureBuf.del, under `if s.cap != nil`
  unfoldable pub cap_put : Bytes → Bytes → Bytes → Exec (Unit {0})
  cap_put name key val = capture (record { bucket = name; key = key; value = val; delete = false })

  unfoldable pub cap_del : Bytes → Bytes → Exec (Unit {0})
  cap_del name key = capture (record { bucket = name; key = key; value = []; delete = true })

  -- s.audit.Record
  unfoldable pub record_audit : AuditEvent → Exec (Unit {0})
  record_audit ev s = (ok tt, record s { audit = s.audit ++ ev ∷ [] })
