-- ===== src/Service/Handlers.antt =====
-- The handlers of corndogs/server/implementations (submittask.go, gettasks.go, modifytasks.go,
-- resilience.go, payload.go): each refuses a call, or hands a request to the store. The metrics are
-- left out.
pub mod Queues
pub mod Admitted
pub mod Clean
pub mod Policies
pub mod Digests
use corndogs.Prelude.{
  ℕ, ◌≡◌, Bool, true, false, not, ◌&&◌, ◌||◌, List, [], ◌∷◌, ◌++◌, Option, none, some,
  if◌then◌else◌, ltb, ◌==◌, length,
}
use corndogs.Bytes.{Bytes, equal}
use corndogs.Bytes.Sort.{sort_names}
use corndogs.Filestore.Tx.{codes}
use corndogs.Filestore.Task.{lt64}
use corndogs.Filestore.Order.{Overrides}
use corndogs.Filestore.Api.{
  SubmitTaskRequest, UpdateTaskRequest, SubmitKeyedTaskRequest, UpdateGuardedTaskRequest,
  CompleteGuardedTaskRequest, ReceiptOptions, Op,
}
use corndogs.Filestore.Requests.{
  Request, submit, claim, claim_group, update, complete, cancel, clean_up, submit_keyed,
  claim_guarded, update_guarded, finish_guarded,
}
use corndogs.Service.Policy.{ServerConfig, keys_required, guards_required}
use corndogs.Service.Digest.{
  submit_digest, update_digest, finish_digest, claim_digest, claim_group_digest,
}

-- A call of the service, with the fields that the handlers read.
pub data Call : Type 0 where
  call_submit : SubmitTaskRequest → Call
  call_claim : Bytes → Bytes → Overrides → Call
  call_claim_group : List Bytes → Bytes → Overrides → Call
  call_update : UpdateTaskRequest → Call
  call_complete : Bytes → Call
  call_cancel : Bytes → Call
  call_clean_up : Bytes → ℕ → Call
  call_submit_keyed : SubmitKeyedTaskRequest → Call
  call_claim_guarded : Bytes → Bytes → Bytes → Overrides → Call
  call_claim_guarded_group : Bytes → List Bytes → Bytes → Overrides → Call
  call_update_guarded : UpdateGuardedTaskRequest → Call
  call_complete_guarded : CompleteGuardedTaskRequest → Call
  call_cancel_guarded : CompleteGuardedTaskRequest → Call

pub data ServiceError : Type 0 where
  invalid_argument submission_key_needed task_guard_needed payload_too_large : ServiceError

pub data Admission : Type 0 where
  reject : (error : ServiceError) → Admission
  admit : (request : Request) → Admission

-- `if test { return err }`
unfoldable pub check : Bool → ServiceError → Admission → Admission
check true error rest = reject error
check false error rest = rest

abbrev pub max_id_bytes : ℕ
max_id_bytes = 128

-- validateID
unfoldable pub bad_id : Bytes → Bool
bad_id v = equal v [] || ltb max_id_bytes (length v)

-- `if *s == "" { *s = d }`
abbrev pub or_default : Bytes → Bytes → Bytes
or_default s d = if equal s [] then d else s

-- applySubmitDefaults on the timeout
abbrev pub submit_timeout : ServerConfig → ℕ → ℕ
submit_timeout cfg timeout =
    let given = if timeout == 0 then cfg.default_timeout else timeout in
    if lt64 given 0 then 0 else given

-- The auto-target state that goes with a state.
abbrev pub working_state : ServerConfig → Bytes → Bytes → Bytes
working_state cfg state auto_target = or_default auto_target (state ++ cfg.default_working_suffix)

-- compact of resilience.go: a sorted list without repetitions
abbrev pub compact_after : Bytes → List Bytes → List Bytes
compact_after prev [] = []
compact_after prev (x ∷ xs) =
    let rest = compact_after x xs in if equal x prev then rest else x ∷ rest

unfoldable pub compact : List Bytes → List Bytes
compact [] = []
compact (x ∷ xs) = x ∷ compact_after x xs

abbrev pub or_default_queue : ServerConfig → List Bytes → List Bytes
or_default_queue cfg [] = cfg.default_queue ∷ []
or_default_queue cfg (q ∷ qs) = q ∷ qs

abbrev pub payload_over : ServerConfig → Bytes → Bool
payload_over cfg payload = ltb cfg.max_payload_bytes (length payload)

abbrev pub opt_payload_over : ServerConfig → Option Bytes → Bool
opt_payload_over cfg none = false
opt_payload_over cfg (some payload) = payload_over cfg payload

-- crypto/sha256 and the uuid parser of github.com/google/uuid
module _ (sha256 : Bytes → Bytes) (is_uuid : Bytes → Bool) (cfg : ServerConfig) where
  abbrev pub receipt_options : Bytes → ReceiptOptions
  receipt_options text = record { digest = sha256 text; retention = cfg.receipt_retention }

  -- admitLegacy
  abbrev pub admit_legacy : Bool → Admission → Admission
  admit_legacy is_submit rest =
      check (is_submit && keys_required cfg) submission_key_needed
        (check (guards_required cfg) task_guard_needed rest)

  -- validateGuard
  abbrev pub validate_guard : Bytes → Bytes → Bytes → ℕ → Admission → Admission
  validate_guard op_id uuid queue expected_revision rest = check (bad_id op_id) invalid_argument (
      check (not (is_uuid uuid)) invalid_argument (
        check (equal queue []) invalid_argument
          (check (lt64 expected_revision 0) invalid_argument rest)))

  unfoldable pub submit_handler : Bytes → ℕ → SubmitTaskRequest → Admission
  submit_handler id now req =
      let state = or_default req.current_state cfg.default_starting_state in
      admit_legacy true (
        check (payload_over cfg req.payload) payload_too_large (
          admit (
            submit id now (record req {
              queue = or_default req.queue cfg.default_queue;
              current_state = state;
              auto_target_state = working_state cfg state req.auto_target_state;
              timeout = submit_timeout cfg req.timeout;
            }))))

  unfoldable pub update_handler : ℕ → UpdateTaskRequest → Admission
  update_handler now req =
      let state = or_default req.new_state (codes "updated") in
      admit_legacy false (
        check (opt_payload_over cfg req.payload) payload_too_large (
          admit (
            update
              (record req {
                new_state = state;
                auto_target_state = working_state cfg state req.auto_target_state;
              })
              now)))

  unfoldable pub submit_keyed_handler : Bytes → ℕ → SubmitKeyedTaskRequest → Admission
  unfolding bad_id
  submit_keyed_handler id now req =
      let state = or_default req.current_state cfg.default_starting_state in
      check (bad_id req.submission_key) invalid_argument (
        check (equal req.queue []) invalid_argument (
          check (not req.guarded && guards_required cfg) task_guard_needed (
            check (payload_over cfg req.payload) payload_too_large (
              admit (
                submit_keyed id now
                  (record req {
                    current_state = state;
                    auto_target_state = working_state cfg state req.auto_target_state;
                    timeout = submit_timeout cfg req.timeout;
                  })
                  (receipt_options (submit_digest req)))))))

  -- claimGuarded
  abbrev pub claim_guarded_handler : Bytes → List Bytes → Bytes → Overrides → Bytes → ℕ → Admission
  claim_guarded_handler op_id queues state req text now = check (bad_id op_id) invalid_argument (
      admit (
        claim_guarded op_id queues (or_default state cfg.default_starting_state) req
          (receipt_options text) now))

  unfoldable pub update_guarded_handler : ℕ → UpdateGuardedTaskRequest → Admission
  unfolding bad_id
  update_guarded_handler now req =
      let state = or_default req.new_state (codes "updated") in
      validate_guard req.operation_id req.uuid req.queue req.expected_revision (
        check (opt_payload_over cfg req.payload) payload_too_large (
          admit (
            update_guarded
              (record req {
                new_state = state;
                auto_target_state = working_state cfg state req.auto_target_state;
              })
              (receipt_options (update_digest req)) now)))

  -- finishGuarded
  unfoldable pub finish_handler : Bytes → Op → ℕ → ℕ → CompleteGuardedTaskRequest → Admission
  unfolding bad_id
  finish_handler name op now archived_at req =
      validate_guard req.operation_id req.uuid req.queue req.expected_revision
        (admit (finish_guarded req op (receipt_options (finish_digest name req)) now archived_at))

  -- GetNextTask, GetNextTaskGroup, CompleteTask, CancelTask and CleanUpTimedOut
  abbrev pub claim_handler : ℕ → Bytes → Bytes → Overrides → Admission
  claim_handler now queue state req = admit_legacy false (
      admit (
        claim (or_default queue cfg.default_queue) (or_default state cfg.default_starting_state) req
          now))

  abbrev pub claim_group_handler : ℕ → List Bytes → Bytes → Overrides → Admission
  claim_group_handler now queues state req = admit_legacy false (
      admit (
        claim_group (or_default_queue cfg queues) (or_default state cfg.default_starting_state) req
          now))

  abbrev pub complete_handler : ℕ → Bytes → Admission
  complete_handler now uuid = admit_legacy false (admit (complete uuid now))

  abbrev pub cancel_handler : ℕ → Bytes → Admission
  cancel_handler now uuid = admit_legacy false (admit (cancel uuid now))

  abbrev pub clean_up_handler : Bytes → ℕ → (ℕ → ℕ) → Admission
  clean_up_handler queue at_time clock = admit (clean_up queue at_time clock)

  -- ClaimGuardedTask and ClaimGuardedTaskGroup
  abbrev pub claim_guarded_task_handler : ℕ → Bytes → Bytes → Bytes → Overrides → Admission
  claim_guarded_task_handler now op_id queue state req =
      claim_guarded_handler op_id (or_default queue cfg.default_queue ∷ []) state req
        (claim_digest queue state req) now

  abbrev pub claim_guarded_group_handler : ℕ → Bytes → List Bytes → Bytes → Overrides → Admission
  claim_guarded_group_handler now op_id queues state req =
      claim_guarded_handler op_id (compact (sort_names (or_default_queue cfg queues))) state req
        (claim_group_digest queues state req) now

  abbrev pub complete_guarded_handler : ℕ → ℕ → CompleteGuardedTaskRequest → Admission
  complete_guarded_handler now archived_at req =
      finish_handler (codes "CompleteGuardedTask") Op.complete now archived_at req

  abbrev pub cancel_guarded_handler : ℕ → ℕ → CompleteGuardedTaskRequest → Admission
  cancel_guarded_handler now archived_at req =
      finish_handler (codes "CancelGuardedTask") Op.cancel now archived_at req

  -- The handler of each call of V1Alpha1Server, with a fresh uuid and the clock.
  unfoldable pub serve : Bytes → ℕ → (ℕ → ℕ) → Call → Admission
  serve id now clock (call_submit req) = submit_handler id now req
  serve id now clock (call_claim queue state req) = claim_handler now queue state req
  serve id now clock (call_claim_group queues state req) = claim_group_handler now queues state req
  serve id now clock (call_update req) = update_handler now req
  serve id now clock (call_complete uuid) = complete_handler now uuid
  serve id now clock (call_cancel uuid) = cancel_handler now uuid
  serve id now clock (call_clean_up queue at_time) = clean_up_handler queue at_time clock
  serve id now clock (call_submit_keyed req) = submit_keyed_handler id now req
  serve id now clock (call_claim_guarded op_id queue state req) =
      claim_guarded_task_handler now op_id queue state req
  serve id now clock (call_claim_guarded_group op_id queues state req) =
      claim_guarded_group_handler now op_id queues state req
  serve id now clock (call_update_guarded req) = update_guarded_handler now req
  serve id now clock (call_complete_guarded req) = complete_guarded_handler now (clock 0) req
  serve id now clock (call_cancel_guarded req) = cancel_guarded_handler now (clock 0) req
