-- ===== src/Service/Handlers/Policies.antt =====
-- No request is let through that a resilience policy excludes.
use corndogs.Prelude.{ℕ, ◌≡◌, refl, Bool, true, false, not, ◌&&◌, ◌||◌, arith}
use corndogs.Bytes.{Bytes}
use corndogs.Filestore.Requests.{
  Request, submit, claim, claim_group, update, complete, cancel, clean_up, submit_keyed,
  claim_guarded, update_guarded, finish_guarded,
}
use corndogs.Service.Policy.{ServerConfig, keys_required, guards_required}
use corndogs.Service.Handlers.{
  admit_legacy, Call, call_submit, call_claim, call_claim_group, call_update, call_complete,
  call_cancel, call_clean_up, call_submit_keyed, call_claim_guarded, call_claim_guarded_group,
  call_update_guarded, call_complete_guarded, call_cancel_guarded, invalid_argument,
  submission_key_needed, task_guard_needed, payload_too_large, admit, serve, submit_handler,
  update_handler, submit_keyed_handler, update_guarded_handler, finish_handler,
}
use corndogs.Service.Handlers.Admitted.{Admits, check_lem}
use corndogs.Service.Handlers.Clean.{validate_guard-Admits}

-- No call is let through that a policy excludes: a submission without a key, a task that is not
-- guarded, or a change without a guard.
unfoldable pub follows_policy : ServerConfig → Request → Bool
follows_policy cfg (submit id now req) = not (keys_required cfg) && not (guards_required cfg)
follows_policy cfg (claim queue state req now) = not (guards_required cfg)
follows_policy cfg (claim_group queues state req now) = not (guards_required cfg)
follows_policy cfg (update req now) = not (guards_required cfg)
follows_policy cfg (complete id now) = not (guards_required cfg)
follows_policy cfg (cancel id now) = not (guards_required cfg)
follows_policy cfg (clean_up queue at_time clock) = true
follows_policy cfg (submit_keyed id now req ro) = req.guarded || not (guards_required cfg)
follows_policy cfg (claim_guarded id queues state req ro now) = true
follows_policy cfg (update_guarded req ro now) = true
follows_policy cfg (finish_guarded req op ro now archived_at) = true

abbrev pub FollowsPolicy : ServerConfig → Request → Type 0
FollowsPolicy cfg r = follows_policy cfg r ≡ true

module _ (sha256 : Bytes → Bytes) (is_uuid : Bytes → Bool) (cfg : ServerConfig) where
  legacy-FollowsPolicy :
      (is_submit : Bool) (r : Request)
      → (is_submit && keys_required cfg ≡ false
          → guards_required cfg ≡ false
          → follows_policy cfg r ≡ true)
      → Admits (FollowsPolicy cfg) (admit_legacy sha256 is_uuid cfg is_submit (admit r))
  legacy-FollowsPolicy is_submit r h =
      check_lem _ _ submission_key_needed _ (λ a. check_lem _ _ task_guard_needed _ (λ b. h a b))

  -- Under a required key policy no submission without a key reaches the store, and under a required
  -- guard policy no submission without a key, no submission of a task that is not guarded, and no
  -- claim, update, completion or cancellation without a guard does.
  pub serve-FollowsPolicy :
      (id : Bytes) (now : ℕ) (clock : ℕ → ℕ) (call : Call)
      → Admits (FollowsPolicy cfg) (serve sha256 is_uuid cfg id now clock call)
  unfolding serve submit_handler update_handler submit_keyed_handler update_guarded_handler
      finish_handler follows_policy
  serve-FollowsPolicy id now clock (call_submit req) = check_lem _ _ submission_key_needed _ (λ a.
      check_lem _ _ task_guard_needed _
        (λ b. check_lem _ _ payload_too_large _ (λ c. ground (arith, a, b))))
  serve-FollowsPolicy id now clock (call_claim queue state req) =
      legacy-FollowsPolicy false _ (λ a b. ground (arith, b))
  serve-FollowsPolicy id now clock (call_claim_group queues state req) =
      legacy-FollowsPolicy false _ (λ a b. ground (arith, b))
  serve-FollowsPolicy id now clock (call_update req) = check_lem _ _ submission_key_needed _ (λ a.
      check_lem _ _ task_guard_needed _
        (λ b. check_lem _ _ payload_too_large _ (λ c. ground (arith, b))))
  serve-FollowsPolicy id now clock (call_complete uuid) =
      legacy-FollowsPolicy false _ (λ a b. ground (arith, b))
  serve-FollowsPolicy id now clock (call_cancel uuid) =
      legacy-FollowsPolicy false _ (λ a b. ground (arith, b))
  serve-FollowsPolicy id now clock (call_clean_up queue at_time) = refl
  serve-FollowsPolicy id now clock (call_submit_keyed req) = check_lem _ _ invalid_argument _ (λ k.
      check_lem _ _ invalid_argument _ (λ q.
        check_lem _ _ task_guard_needed _
          (λ g. check_lem _ _ payload_too_large _ (λ t. ground (arith, g)))))
  serve-FollowsPolicy id now clock (call_claim_guarded op_id queue state req) =
      check_lem _ _ invalid_argument _ (λ a. refl)
  serve-FollowsPolicy id now clock (call_claim_guarded_group op_id queues state req) =
      check_lem _ _ invalid_argument _ (λ a. refl)
  serve-FollowsPolicy id now clock (call_update_guarded req) =
      validate_guard-Admits sha256 is_uuid cfg _ req.operation_id req.uuid req.queue
        req.expected_revision _ (λ a b c d. check_lem _ _ payload_too_large _ (λ e. refl))
  serve-FollowsPolicy id now clock (call_complete_guarded req) =
      validate_guard-Admits sha256 is_uuid cfg _ req.operation_id req.uuid req.queue
        req.expected_revision _ (λ a b c d. refl)
  serve-FollowsPolicy id now clock (call_cancel_guarded req) =
      validate_guard-Admits sha256 is_uuid cfg _ req.operation_id req.uuid req.queue
        req.expected_revision _ (λ a b c d. refl)
