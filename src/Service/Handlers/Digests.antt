-- ===== src/Service/Handlers/Digests.antt =====
-- A receipt's digest does not depend on the settings.
use corndogs.Prelude.{subst, ℕ, ◌≡◌, refl, sym, ◌∙◌, Bool, true, false, Option, none, some}
use corndogs.Bytes.{Bytes}
use corndogs.Filestore.Requests.{
  Request, submit, claim, claim_group, update, complete, cancel, clean_up, submit_keyed,
  claim_guarded, update_guarded, finish_guarded,
}
use corndogs.Filestore.Tx.{codes}
use corndogs.Service.Policy.{ServerConfig}
use corndogs.Service.Digest.{
  submit_digest, update_digest, finish_digest, claim_digest, claim_group_digest,
}
use corndogs.Service.Handlers.{
  Call, call_submit, call_claim, call_claim_group, call_update, call_complete, call_cancel,
  call_clean_up, call_submit_keyed, call_claim_guarded, call_claim_guarded_group,
  call_update_guarded, call_complete_guarded, call_cancel_guarded, invalid_argument,
  task_guard_needed, payload_too_large, admit, serve, submit_handler, update_handler,
  submit_keyed_handler, update_guarded_handler, finish_handler,
}
use corndogs.Service.Handlers.Admitted.{Admits, check_lem}
use corndogs.Service.Handlers.Clean.{admit_legacy-Admits, validate_guard-Admits}

-- The digest that goes with a request.
unfoldable pub digest_of : Request → Option Bytes
digest_of (submit id now req) = none
digest_of (claim queue state req now) = none
digest_of (claim_group queues state req now) = none
digest_of (update req now) = none
digest_of (complete id now) = none
digest_of (cancel id now) = none
digest_of (clean_up queue at_time clock) = none
digest_of (submit_keyed id now req ro) = some ro.digest
digest_of (claim_guarded id queues state req ro now) = some ro.digest
digest_of (update_guarded req ro now) = some ro.digest
digest_of (finish_guarded req op ro now archived_at) = some ro.digest

-- The digest of a call, from the call as it was sent.
unfoldable pub sent_digest : (Bytes → Bytes) → Call → Option Bytes
sent_digest sha256 (call_submit req) = none
sent_digest sha256 (call_claim queue state req) = none
sent_digest sha256 (call_claim_group queues state req) = none
sent_digest sha256 (call_update req) = none
sent_digest sha256 (call_complete uuid) = none
sent_digest sha256 (call_cancel uuid) = none
sent_digest sha256 (call_clean_up queue at_time) = none
sent_digest sha256 (call_submit_keyed req) = some (sha256 (submit_digest req))
sent_digest sha256 (call_claim_guarded op_id queue state req) =
    some (sha256 (claim_digest queue state req))
sent_digest sha256 (call_claim_guarded_group op_id queues state req) =
    some (sha256 (claim_group_digest queues state req))
sent_digest sha256 (call_update_guarded req) = some (sha256 (update_digest req))
sent_digest sha256 (call_complete_guarded req) =
    some (sha256 (finish_digest (codes "CompleteGuardedTask") req))
sent_digest sha256 (call_cancel_guarded req) =
    some (sha256 (finish_digest (codes "CancelGuardedTask") req))

module _ (sha256 : Bytes → Bytes) (is_uuid : Bytes → Bool) where
  abbrev HasDigest : Call → Request → Type 0
  HasDigest call r = digest_of r ≡ sent_digest sha256 call

  module _ (cfg : ServerConfig) where
    serve-HasDigest :
        (id : Bytes) (now : ℕ) (clock : ℕ → ℕ) (call : Call)
        → Admits (HasDigest call) (serve sha256 is_uuid cfg id now clock call)
    unfolding serve submit_handler update_handler submit_keyed_handler update_guarded_handler
        finish_handler digest_of sent_digest
    serve-HasDigest id now clock (call_submit req) =
        admit_legacy-Admits sha256 is_uuid cfg _ true _
          (check_lem _ _ payload_too_large _ (λ a. refl))
    serve-HasDigest id now clock (call_claim queue state req) =
        admit_legacy-Admits sha256 is_uuid cfg _ false _ refl
    serve-HasDigest id now clock (call_claim_group queues state req) =
        admit_legacy-Admits sha256 is_uuid cfg _ false _ refl
    serve-HasDigest id now clock (call_update req) =
        admit_legacy-Admits sha256 is_uuid cfg _ false _
          (check_lem _ _ payload_too_large _ (λ a. refl))
    serve-HasDigest id now clock (call_complete uuid) =
        admit_legacy-Admits sha256 is_uuid cfg _ false _ refl
    serve-HasDigest id now clock (call_cancel uuid) =
        admit_legacy-Admits sha256 is_uuid cfg _ false _ refl
    serve-HasDigest id now clock (call_clean_up queue at_time) = refl
    serve-HasDigest id now clock (call_submit_keyed req) = check_lem _ _ invalid_argument _ (λ k.
        check_lem _ _ invalid_argument _ (λ q.
          check_lem _ _ task_guard_needed _ (λ g. check_lem _ _ payload_too_large _ (λ t. refl))))
    serve-HasDigest id now clock (call_claim_guarded op_id queue state req) =
        check_lem _ _ invalid_argument _ (λ a. refl)
    serve-HasDigest id now clock (call_claim_guarded_group op_id queues state req) =
        check_lem _ _ invalid_argument _ (λ a. refl)
    serve-HasDigest id now clock (call_update_guarded req) =
        validate_guard-Admits sha256 is_uuid cfg _ req.operation_id req.uuid req.queue
          req.expected_revision _ (λ a b c d. check_lem _ _ payload_too_large _ (λ e. refl))
    serve-HasDigest id now clock (call_complete_guarded req) =
        validate_guard-Admits sha256 is_uuid cfg _ req.operation_id req.uuid req.queue
          req.expected_revision _ (λ a b c d. refl)
    serve-HasDigest id now clock (call_cancel_guarded req) =
        validate_guard-Admits sha256 is_uuid cfg _ req.operation_id req.uuid req.queue
          req.expected_revision _ (λ a b c d. refl)

  -- If two servers, with whatever settings and at whatever times, let the same call through, its
  -- receipts have the same digest at both.
  pub serve-same_digest :
      (cfg cfg_later : ServerConfig) (id id_later : Bytes) (now now_later : ℕ)
      (clock clock_later : ℕ → ℕ) (call : Call) (r r_later : Request)
      → serve sha256 is_uuid cfg id now clock call ≡ admit r
      → serve sha256 is_uuid cfg_later id_later now_later clock_later call ≡ admit r_later
      → digest_of r ≡ digest_of r_later
  serve-same_digest cfg cfg_later id id_later now now_later clock clock_later call r r_later e f =
      subst (Admits (HasDigest call)) e (serve-HasDigest cfg id now clock call)
      ∙ sym (
          subst (Admits (HasDigest call)) f
            (serve-HasDigest cfg_later id_later now_later clock_later call))
