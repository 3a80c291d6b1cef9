-- ===== src/Service/Handlers/Clean.antt =====
-- Every request that the handlers hand to the store is within the limits.
use corndogs.Prelude.{ℕ, ◌≡◌, refl, Bool, true, false, List, [], ◌∷◌, Bool-cases, inl, inr, arith}
use corndogs.Bytes.{less, Bytes}
use corndogs.Bytes.Sort.{insert_name, sort_names, sort_names-IsOrdered}
use corndogs.Filestore.Api.{
  Op, SubmitTaskRequest, UpdateTaskRequest, SubmitKeyedTaskRequest, UpdateGuardedTaskRequest,
  CompleteGuardedTaskRequest,
}
use corndogs.Filestore.Order.{Overrides}
use corndogs.Filestore.Requests.{Request}
use corndogs.Filestore.Task.{lt64}
use corndogs.Service.Policy.{ServerConfig}
use corndogs.Service.Handlers.{
  codes, Call, call_submit, call_claim, call_claim_group, call_update, call_complete, call_cancel,
  call_clean_up, call_submit_keyed, call_claim_guarded, call_claim_guarded_group,
  call_update_guarded, call_complete_guarded, call_cancel_guarded, invalid_argument,
  submission_key_needed, task_guard_needed, payload_too_large, Admission, bad_id, serve,
  admit_legacy, validate_guard, compact, submit_handler, update_handler, submit_keyed_handler,
  claim_guarded_handler, update_guarded_handler, finish_handler, or_default_queue,
}
use corndogs.Service.Handlers.Queues.{ascending, compact-ascending}
use corndogs.Service.Handlers.Admitted.{
  IsClean, updated-named, Admits, is_clean, named, some_queue, check_lem, or_default-named,
  working_state-named, submit_timeout-nonnegative,
}

or_default_queue-some_queue :
    (cfg : ServerConfig) (qs : List Bytes) → some_queue (or_default_queue cfg qs) ≡ true
or_default_queue-some_queue cfg [] = refl
or_default_queue-some_queue cfg (q ∷ qs) = refl

insert_name-some_queue :
    (q : Bytes) (qs : List Bytes) → some_queue (compact (insert_name q qs)) ≡ true
unfolding insert_name compact
insert_name-some_queue q [] = refl
insert_name-some_queue q (x ∷ qs) = elim (Bool-cases (less x q)) [
  | inl t ↦ rw t refl
  | inr t ↦ rw t refl
]

compact-some_queue :
    (qs : List Bytes) → some_queue qs ≡ true → some_queue (compact (sort_names qs)) ≡ true
unfolding sort_names compact
compact-some_queue [] h = h
compact-some_queue (q ∷ qs) h = insert_name-some_queue q (sort_names qs)

module _ (sha256 : Bytes → Bytes) (is_uuid : Bytes → Bool) (cfg : ServerConfig) where
  pub admit_legacy-Admits :
      (p : Request → Type 0) (is_submit : Bool) (rest : Admission)
      → Admits p rest
      → Admits p (admit_legacy sha256 is_uuid cfg is_submit rest)
  admit_legacy-Admits p is_submit rest h =
      check_lem p _ submission_key_needed _ (λ a. check_lem p _ task_guard_needed rest (λ b. h))

  pub validate_guard-Admits :
      (p : Request → Type 0) (op_id uuid queue : Bytes) (revision : ℕ) (rest : Admission)
      → (bad_id op_id ≡ false
          → is_uuid uuid ≡ true
          → named queue ≡ true
          → lt64 revision 0 ≡ false
          → Admits p rest)
      → Admits p (validate_guard sha256 is_uuid cfg op_id uuid queue revision rest)
  validate_guard-Admits p op_id uuid queue revision rest h = check_lem p _ invalid_argument _ (λ a.
      check_lem p _ invalid_argument _ (λ b. check_lem p _ invalid_argument _ (λ c.
        check_lem p _ invalid_argument rest (λ d. h a (ground (arith, b)) (ground (arith, c)) d))))

  submit-IsClean :
      (id : Bytes) (now : ℕ) (req : SubmitTaskRequest)
      → named cfg.default_queue ≡ true
      → named cfg.default_starting_state ≡ true
      → Admits (IsClean is_uuid cfg) (submit_handler sha256 is_uuid cfg id now req)
  unfolding submit_handler is_clean
  submit-IsClean id now req dq ds =
      let state = or_default-named req.current_state cfg.default_starting_state ds in
      admit_legacy-Admits _ true _ (
        check_lem _ _ payload_too_large _ (λ t. ground (
          arith,
          t,
          or_default-named req.queue cfg.default_queue dq,
          state,
          working_state-named cfg _ req.auto_target_state state,
          submit_timeout-nonnegative cfg req.timeout,
        )))

  update-IsClean :
      (now : ℕ) (req : UpdateTaskRequest)
      → Admits (IsClean is_uuid cfg) (update_handler sha256 is_uuid cfg now req)
  unfolding update_handler is_clean
  update-IsClean now req =
      let state = or_default-named req.new_state (codes "updated") updated-named in
      admit_legacy-Admits _ false _ (
        check_lem _ _ payload_too_large _
          (λ t. ground (arith, t, state, working_state-named cfg _ req.auto_target_state state)))

  submit_keyed-IsClean :
      (id : Bytes) (now : ℕ) (req : SubmitKeyedTaskRequest)
      → named cfg.default_starting_state ≡ true
      → Admits (IsClean is_uuid cfg) (submit_keyed_handler sha256 is_uuid cfg id now req)
  unfolding submit_keyed_handler is_clean
  submit_keyed-IsClean id now req ds =
      let state = or_default-named req.current_state cfg.default_starting_state ds in
      check_lem _ _ invalid_argument _ (λ k. check_lem _ _ invalid_argument _ (λ q.
        check_lem _ _ task_guard_needed _ (λ g. check_lem _ _ payload_too_large _ (λ t. ground (
          arith,
          k,
          q,
          t,
          state,
          working_state-named cfg _ req.auto_target_state state,
          submit_timeout-nonnegative cfg req.timeout,
        )))))

  claim_guarded-IsClean :
      (op_id : Bytes) (queues : List Bytes) (state : Bytes) (req : Overrides) (text : Bytes)
      (now : ℕ)
      → named cfg.default_starting_state ≡ true
      → some_queue queues ≡ true
      → ascending queues ≡ true
      → Admits
          (IsClean is_uuid cfg)
          (claim_guarded_handler sha256 is_uuid cfg op_id queues state req text now)
  unfolding is_clean
  claim_guarded-IsClean op_id queues state req text now ds h k =
      check_lem _ _ invalid_argument _
        (λ t. ground (arith, t, h, k, or_default-named state cfg.default_starting_state ds))

  update_guarded-IsClean :
      (now : ℕ) (req : UpdateGuardedTaskRequest)
      → Admits (IsClean is_uuid cfg) (update_guarded_handler sha256 is_uuid cfg now req)
  unfolding update_guarded_handler is_clean
  update_guarded-IsClean now req =
      let state = or_default-named req.new_state (codes "updated") updated-named in
      validate_guard-Admits _ req.operation_id req.uuid req.queue req.expected_revision _
        (λ a b c d. check_lem _ _ payload_too_large _ (λ t.
          ground
            (arith, a, b, c, d, t, state, working_state-named cfg _ req.auto_target_state state)))

  finish-IsClean :
      (name : Bytes) (op : Op) (now archived_at : ℕ) (req : CompleteGuardedTaskRequest)
      → Admits (IsClean is_uuid cfg) (finish_handler sha256 is_uuid cfg name op now archived_at req)
  unfolding finish_handler is_clean
  finish-IsClean name op now archived_at req =
      validate_guard-Admits _ req.operation_id req.uuid req.queue req.expected_revision _
        (λ a b c d. ground (arith, a, b, c, d))

  -- A request that a handler hands to the store keeps the limits of `is_clean`: it names its queues
  -- and states, its payload is within the maximum, the timeout of a submission is not negative, its
  -- submission key or operation id is not empty and has at most 128 bytes, its uuid parses and its
  -- expected revision is not negative where it has these, and the queues of a guarded claim are in
  -- strictly ascending order. The default queue and the default state are not empty.
  pub serve-IsClean :
      (id : Bytes) (now : ℕ) (clock : ℕ → ℕ) (call : Call)
      → named cfg.default_queue ≡ true
      → named cfg.default_starting_state ≡ true
      → Admits (IsClean is_uuid cfg) (serve sha256 is_uuid cfg id now clock call)
  unfolding serve is_clean
  serve-IsClean id now clock (call_submit req) dq ds = submit-IsClean id now req dq ds
  serve-IsClean id now clock (call_claim queue state req) dq ds = admit_legacy-Admits _ false _ (
      ground (
        arith,
        or_default-named queue cfg.default_queue dq,
        or_default-named state cfg.default_starting_state ds,
      ))
  serve-IsClean id now clock (call_claim_group queues state req) dq ds =
      admit_legacy-Admits _ false _ (
        ground (
          arith,
          or_default_queue-some_queue cfg queues,
          or_default-named state cfg.default_starting_state ds,
        ))
  serve-IsClean id now clock (call_update req) dq ds = update-IsClean now req
  serve-IsClean id now clock (call_complete uuid) dq ds = admit_legacy-Admits _ false _ refl
  serve-IsClean id now clock (call_cancel uuid) dq ds = admit_legacy-Admits _ false _ refl
  serve-IsClean id now clock (call_clean_up queue at_time) dq ds = refl
  serve-IsClean id now clock (call_submit_keyed req) dq ds = submit_keyed-IsClean id now req ds
  serve-IsClean id now clock (call_claim_guarded op_id queue state req) dq ds =
      claim_guarded-IsClean op_id _ state req _ now ds refl refl
  serve-IsClean id now clock (call_claim_guarded_group op_id queues state req) dq ds =
      claim_guarded-IsClean op_id _ state req _ now ds
        (compact-some_queue _ (or_default_queue-some_queue cfg queues))
        (compact-ascending _ (sort_names-IsOrdered (or_default_queue cfg queues)))
  serve-IsClean id now clock (call_update_guarded req) dq ds = update_guarded-IsClean now req
  serve-IsClean id now clock (call_complete_guarded req) dq ds =
      finish-IsClean _ Op.complete now (clock 0) req
  serve-IsClean id now clock (call_cancel_guarded req) dq ds =
      finish-IsClean _ Op.cancel now (clock 0) req
