-- ===== src/Service/Digest.antt =====
-- corndogs/server/implementations/digest.go: the bytes that a request digest is computed from, and the
-- digests that resilience.go builds.
pub mod PrefixFree
pub mod Injective
use corndogs.Prelude.{ℕ, ◌≡◌, Bool, true, false, List, [], ◌∷◌, ◌++◌, Option, none, some, length}
use corndogs.Bytes.{Bytes, be}
use corndogs.Filestore.Tx.{codes}
use corndogs.Filestore.Order.{Overrides}
use corndogs.Filestore.Api.{
  SubmitKeyedTaskRequest, UpdateGuardedTaskRequest, CompleteGuardedTaskRequest,
}

abbrev pub digest_version : Bytes
digest_version = codes "corndogs-request-digest-v1"

-- The methods append to `buf`. An int64 is its bit pattern.
unfoldable pub digest_text : Bytes → Bytes → Bytes
digest_text s buf = buf ++ b's' ∷ (be 8 (length s) ++ s)

unfoldable pub digest_bytes : Bytes → Bytes → Bytes
digest_bytes s buf = buf ++ b'b' ∷ (be 8 (length s) ++ s)

unfoldable pub digest_int : ℕ → Bytes → Bytes
digest_int v buf = buf ++ b'i' ∷ be 8 v

unfoldable pub digest_bool : Bool → Bytes → Bytes
digest_bool true buf = buf ++ b't' ∷ 1 ∷ []
digest_bool false buf = buf ++ b't' ∷ 0 ∷ []

unfoldable pub digest_opt_text : Option Bytes → Bytes → Bytes
unfolding digest_text
digest_opt_text none buf = buf ++ b'n' ∷ []
digest_opt_text (some s) buf = digest_text s buf

unfoldable pub digest_opt_bytes : Option Bytes → Bytes → Bytes
unfolding digest_bytes
digest_opt_bytes none buf = buf ++ b'n' ∷ []
digest_opt_bytes (some s) buf = digest_bytes s buf

unfoldable pub digest_opt_int : Option ℕ → Bytes → Bytes
unfolding digest_int
digest_opt_int none buf = buf ++ b'n' ∷ []
digest_opt_int (some v) buf = digest_int v buf

abbrev digest_items : List Bytes → Bytes → Bytes
digest_items [] buf = buf
digest_items (s ∷ items) buf = digest_items items (digest_text s buf)

unfoldable pub digest_list : List Bytes → Bytes → Bytes
unfolding digest_text
digest_list items buf = digest_items items (buf ++ b'l' ∷ be 8 (length items))

unfoldable pub new_digest : Bytes → Bytes
unfolding digest_text
new_digest op = digest_text op (digest_text digest_version [])

-- What SubmitKeyedTask digests.
unfoldable pub submit_digest : SubmitKeyedTaskRequest → Bytes
unfolding new_digest digest_bool digest_text digest_int digest_bytes
submit_digest req = digest_int req.priority (
    digest_bytes req.payload (
      digest_int req.timeout (
        digest_text req.auto_target_state (
          digest_text req.current_state (
            digest_text req.queue
              (digest_bool req.guarded (new_digest (codes "SubmitKeyedTask"))))))))

-- What UpdateGuardedTask digests.
unfoldable pub update_digest : UpdateGuardedTaskRequest → Bytes
unfolding new_digest digest_text digest_int digest_opt_text digest_opt_bytes digest_opt_int
update_digest req = digest_opt_int req.priority (
    digest_opt_bytes req.payload (
      digest_int req.timeout (
        digest_text req.auto_target_state (
          digest_text req.new_state (
            digest_opt_text req.expected_state (
              digest_int req.expected_revision (
                digest_text req.queue
                  (digest_text req.uuid (new_digest (codes "UpdateGuardedTask"))))))))))

-- What finishGuarded digests under the name of the operation.
unfoldable pub finish_digest : Bytes → CompleteGuardedTaskRequest → Bytes
unfolding new_digest digest_text digest_int digest_opt_text
finish_digest name req = digest_opt_text req.expected_state (
    digest_int req.expected_revision
      (digest_text req.queue (digest_text req.uuid (new_digest name))))

-- What ClaimGuardedTask and ClaimGuardedTaskGroup digest.
unfoldable pub claim_digest : Bytes → Bytes → Overrides → Bytes
unfolding new_digest digest_text digest_int
claim_digest queue state req = digest_text req.auto_target_state (
    digest_text req.current_state (
      digest_int req.timeout
        (digest_text state (digest_text queue (new_digest (codes "ClaimGuardedTask"))))))

unfoldable pub claim_group_digest : List Bytes → Bytes → Overrides → Bytes
unfolding new_digest digest_text digest_int digest_list
claim_group_digest queues state req = digest_text req.auto_target_state (
    digest_text req.current_state (
      digest_int req.timeout
        (digest_text state (digest_list queues (new_digest (codes "ClaimGuardedTaskGroup"))))))
