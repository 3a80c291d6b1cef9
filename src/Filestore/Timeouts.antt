-- ===== src/Filestore/Timeouts.antt =====
-- CleanUpTimedOut and MustGetTaskStateByID of corndogs/server/store/filestore/boltstore.go.
pub mod Sweep
use corndogs.Prelude.{
  ℕ, suc, Bool, true, false, not, ◌&&◌, ◌||◌, List, [], ◌∷◌, Option, none, some, if◌then◌else◌,
  length, take, ltb,
}
use corndogs.Bytes.{Bytes, equal}
use corndogs.Filestore.Task.{Task, add64, lt64}
use corndogs.Filestore.Order.{timed_out, encode_deadline_key, decode_time_asc}
use corndogs.Filestore.Api.{ApiTask, to_api_task, archived_to_api_task}
use corndogs.Filestore.Bolt.{Env, Entries}
use corndogs.Filestore.Tx.{
  Exec, Db, Result, ok, err, pure, gets, lift_option, record_audit, ◌>>=◌, ◌>>◌, bucket_deadlines,
  bucket_archived, bad_record, AuditOp,
}
use corndogs.Filestore.Records.{put_task, delete_task, live_task_value, load_by_uuid}

module _ ⦃e : Env⦄ where
  -- The entry is past the deadlines that have expired: the `break` of the loop.
  abbrev pub past : Bytes → ℕ → Bool
  past deadline_key at_time =
      ltb (length deadline_key) 8 || not (lt64 (decode_time_asc (take 8 deadline_key)) at_time)

  -- The tests that make the loop `continue`.
  unfoldable pub releases : Bytes → Task → Bytes → ℕ → Bool
  releases deadline_key t queue at_time =
      equal deadline_key (encode_deadline_key t)
      && timed_out t at_time
      && (equal queue [] || equal queue t.queue)

  abbrev pub keep_if : Bool → Task → Result (List Task) → Result (List Task)
  keep_if false t rest = rest
  keep_if true t (ok ts) = ok (t ∷ ts)
  keep_if true t (err c) = err c

  abbrev pub collect_decoded :
      Bytes → Bytes → ℕ → Option Task → Result (List Task) → Result (List Task)
  collect_decoded key queue at_time none rest = err bad_record
  collect_decoded key queue at_time (some t) rest = keep_if (releases key t queue at_time) t rest

  abbrev pub collect_value :
      Bytes → Bytes → ℕ → Option Bytes → Result (List Task) → Result (List Task)
  collect_value key queue at_time none rest = rest
  collect_value key queue at_time (some v) rest =
      collect_decoded key queue at_time (e.task_json.unmarshal v) rest

  -- The first loop over the deadline index: the expired tasks, in the order of the index.
  unfoldable pub collect_expired : Db → Bytes → ℕ → Entries → Result (List Task)
  unfolding releases
  collect_expired db queue at_time [] = ok []
  collect_expired db queue at_time ((deadline_key, task_key) ∷ rest) =
      let more =
        collect_value deadline_key queue at_time (live_task_value db task_key)
          (collect_expired db queue at_time rest) in
      if past deadline_key at_time then ok [] else more

  unfoldable pub released : Task → ℕ → Task
  released t now = record t {
    current_state = t.auto_target_state;
    auto_target_state = t.current_state;
    timeout = 0;
    update_time = now;
    revision = add64 t.revision 1;
  }

  abbrev pub timeout_event : Task → Exec (Unit {0})
  timeout_event t = record_audit (record {
    op = AuditOp.timeout;
    uuid = t.uuid;
    queue = t.queue;
    from_state = [];
    to_state = t.current_state;
    priority = 0;
  })

  unfoldable pub release_task : Task → ℕ → Exec (Unit {0})
  release_task t now = do delete_task t; let t' = released t now; put_task t'; timeout_event t'

  -- The second loop. `clock i` is the reading of `nowNano` for the task at index `i`.
  unfoldable pub release_all : (ℕ → ℕ) → ℕ → List Task → Exec ℕ
  release_all clock i [] = pure i
  release_all clock i (t ∷ ts) = do release_task t (clock i); release_all clock (suc i) ts

  unfoldable pub lift_result : {A : Type 0} → Result A → Exec A
  lift_result (ok a) s = (ok a, s)
  lift_result (err c) s = (err c, s)

  unfoldable pub clean_up_timed_out : Bytes → ℕ → (ℕ → ℕ) → Exec ℕ
  clean_up_timed_out queue at_time clock = do
    found ← gets (λ db. collect_expired db queue at_time (e.entries (db bucket_deadlines)))
    expired ← lift_result found
    release_all clock 0 expired

  abbrev pub decode_archived : Option Bytes → Exec (Option ApiTask)
  decode_archived none = pure none
  decode_archived (some val) = do
    a ← lift_option bad_record (e.archived_json.unmarshal val)
    pure (some (archived_to_api_task a))

  abbrev pub live_or_archived : Bytes → Option Task → Exec (Option ApiTask)
  live_or_archived id (some t) = pure (some (to_api_task t))
  live_or_archived id none = do
    val ← gets (λ db. e.get (db bucket_archived) id)
    decode_archived val

  unfoldable pub must_get_task_state_by_id : Bytes → Exec (Option ApiTask)
  must_get_task_state_by_id id = do t ← load_by_uuid id; live_or_archived id t
