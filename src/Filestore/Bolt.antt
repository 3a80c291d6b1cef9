-- ===== src/Filestore/Bolt.antt =====
-- What the store uses of two packages: a bucket of bbolt, with the documented laws of its operations,
-- and `encoding/json` on the records that it stores. Strings are valid UTF-8 here, as CSIL texts are,
-- so encoding a record loses nothing.
pub mod Seek
use corndogs.Prelude.{
  ℕ, ◌^◌, ◌-◌, ◌≤◌, ◌<◌, ◌≡◌, true, List, [], ◌∷◌, Option, none, some, length, if◌then◌else◌,
}
use corndogs.Bytes.{Bytes, equal, less, has_prefix}
use corndogs.Filestore.Task.{Task, ArchivedTask}
use corndogs.Filestore.Api.{SubmissionRecord, OperationRecord}

abbrev pub Entries : Type 0
Entries = List (Bytes × Bytes)

unfoldable pub lookup : Bytes → Entries → Option Bytes
lookup k [] = none
lookup k ((j, v) ∷ l) = if equal k j then some v else lookup k l

-- The keys are in strictly ascending order, all of them after `k`.
abbrev pub AscendsFrom : Bytes → Entries → Type 0
AscendsFrom k [] = Unit
AscendsFrom k ((j, v) ∷ l) = (less k j ≡ true) × AscendsFrom j l

abbrev pub IsAscending : Entries → Type 0
IsAscending [] = Unit
IsAscending ((j, v) ∷ l) = AscendsFrom j l

-- MaxKeySize and MaxValueSize
abbrev pub max_key_size : ℕ
max_key_size = 32768

abbrev pub max_value_size : ℕ
max_value_size = 2 ^ 31 - 2

-- `put` is `none` where Put returns an error. `entries` is what a cursor visits from First by Next.
pub record Bolt : Type 1 where
  pub Bucket : Type 0
  pub empty : Bucket
  pub get : Bucket → Bytes → Option Bytes
  pub put : Bucket → Bytes → Bytes → Option Bucket
  pub delete : Bucket → Bytes → Bucket
  pub entries : Bucket → Entries
  pub get-empty : (j : Bytes) → get empty j ≡ none
  pub get-put :
      (b : Bucket) (k v : Bytes) (b' : Bucket) (j : Bytes)
      → put b k v ≡ some b'
      → get b' j ≡ (if equal j k then some v else get b j)
  pub get-delete :
      (b : Bucket) (k j : Bytes) → get (delete b k) j ≡ (if equal j k then none else get b j)
  pub accepts :
      (b : Bucket) (k v : Bytes)
      → 0 < length k
      → length k ≤ max_key_size
      → length v ≤ max_value_size
      → (b' : Bucket) × (put b k v ≡ some b')
  pub refuses : (b : Bucket) (k v : Bytes) → max_key_size < length k → put b k v ≡ none
  pub ascending : (b : Bucket) → IsAscending (entries b)
  pub lookup-entries : (b : Bucket) (j : Bytes) → lookup j (entries b) ≡ get b j

-- json.Marshal and json.Unmarshal on one type of records
pub record Json (A : Type 0) : Type 0 where
  pub marshal : A → Bytes
  pub unmarshal : Bytes → Option A
  pub unmarshal-marshal : (a : A) → unmarshal (marshal a) ≡ some a

pub record Env : Type 1 where
  pub bolt : Bolt
  pub open bolt use *
  pub task_json : Json Task
  pub archived_json : Json ArchivedTask
  pub submission_json : Json SubmissionRecord
  pub operation_json : Json OperationRecord

-- Cursor.Seek: the cursor stands at the first key that is not before `p`.
unfoldable pub seek : Bytes → Entries → Entries
seek p [] = []
seek p ((j, v) ∷ l) = let rest = seek p l in if less j p then rest else (j, v) ∷ l

-- The first entry of a cursor after Seek, if its key has the prefix.
unfoldable pub head_in : Bytes → Entries → Option Bytes
head_in p [] = none
head_in p ((k, v) ∷ l) = if has_prefix k p then some v else none
