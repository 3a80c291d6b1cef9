-- ===== src/Filestore/Replication/Grouped.antt =====
-- An update that fails after it has deleted the task, in a group commit and on its own.
use corndogs.Prelude.{ℕ, ◌≡◌, refl, ◌<◌, false, [], ◌∷◌, none, some, length}
use corndogs.Bytes.{Bytes}
use corndogs.Filestore.Task.{Task}
use corndogs.Filestore.Order.{encode_task_key}
use corndogs.Filestore.Api.{UpdateTaskRequest}
use corndogs.Filestore.Bolt.{Env, max_key_size}
use corndogs.Filestore.Tx.{Tx, ok, err, put_refused, pure, ◌>>=◌, gets, tx_put}
use corndogs.Filestore.Records.{task_bucket, write_task, put_task, delete_task, load_by_uuid}
use corndogs.Filestore.BoltStore.{put_new_payload, updated, update_task}
use corndogs.Filestore.Replication.{BoltStore, begin, update_db, run_batch, commit_group}

module _ ⦃e : Env⦄ where
  tx_put-refused :
      (name key val : Bytes) (s : Tx)
      → max_key_size < length key
      → tx_put name key val s ≡ (err put_refused, s)
  unfolding tx_put
  tx_put-refused name key val s h = rw (e.refuses (s.db name) key val h) refl

  put_task-refused :
      (t : Task) (s : Tx)
      → max_key_size < length (encode_task_key t)
      → put_task t s ≡ (err put_refused, s)
  unfolding put_task write_task ◌>>=◌ gets
  put_task-refused t s h =
      rw (tx_put-refused (task_bucket t) (encode_task_key t) (e.task_json.marshal t) s h) refl

  -- The steps of the update up to the refused put.
  update_task-refused :
      (req : UpdateTaskRequest) (now : ℕ) (s s0 s1 : Tx) (t : Task)
      → load_by_uuid req.uuid s ≡ (ok (some t), s0)
      → t.guarded ≡ false
      → req.payload ≡ none
      → delete_task t s0 ≡ (ok tt, s1)
      → max_key_size < length (encode_task_key (updated t req now))
      → update_task req now s ≡ (err put_refused, s1)
  unfolding update_task ◌>>=◌ pure put_new_payload
  update_task-refused req now s s0 s1 t l g p d h =
      rw l (simp (g, d, p, put_task-refused (updated t req now) s1 h))

  -- An update without a payload of a task that is not guarded gives it a new key of more than 32768
  -- bytes, so that the put of the task is refused after its deletion. In a group commit the deletion is
  -- committed, though the caller gets the error. In a transaction of its own the data stays as it was.
  pub commit_group-refused :
      (req : UpdateTaskRequest) (now : ℕ) (b : BoltStore) (s0 s1 : Tx) (t : Task)
      → load_by_uuid req.uuid (begin b false) ≡ (ok (some t), s0)
      → t.guarded ≡ false
      → req.payload ≡ none
      → delete_task t s0 ≡ (ok tt, s1)
      → max_key_size < length (encode_task_key (updated t req now))
      → (commit_group (update_task req now ∷ []) b
          ≡ (err put_refused ∷ [], record b { db = s1.db; audit = s1.audit }))
        × (update_db (update_task req now) b ≡ (err put_refused, record b { audit = s1.audit }))
  unfolding commit_group run_batch update_db
  commit_group-refused req now b s0 s1 t l g p d h =
      let u : update_task req now (begin b false) ≡ (err put_refused, s1) =
        update_task-refused req now (begin b false) s0 s1 t l g p d h in
      (rw u refl, rw u refl)
