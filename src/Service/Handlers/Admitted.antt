-- ===== src/Service/Handlers/Admitted.antt =====
-- What the store may rely on in the requests that the handlers hand to it.
use corndogs.Prelude.{
  ℕ, ◌≡◌, refl, sym, true≢false, Bool, true, false, not, ◌&&◌, List, [], ◌∷◌, ◌++◌, if◌then◌else◌,
  Bool-cases, inl, inr, ◌==◌,
}
use corndogs.Bytes.{Bytes, equal}
use corndogs.Filestore.Task.{lt64}
use corndogs.Filestore.Tx.{codes}
use corndogs.Filestore.Requests.{
  Request, submit, claim, claim_group, update, complete, cancel, clean_up, submit_keyed,
  claim_guarded, update_guarded, finish_guarded,
}
use corndogs.Service.Policy.{ServerConfig}
use corndogs.Service.Handlers.{
  ServiceError, Admission, reject, admit, check, bad_id, or_default, submit_timeout, working_state,
  compact, payload_over, opt_payload_over,
}
use corndogs.Service.Handlers.Queues.{ascending}

abbrev pub named : Bytes → Bool
named s = not (equal s [])

abbrev pub some_queue : List Bytes → Bool
some_queue [] = false
some_queue (q ∷ qs) = true

-- `P` holds of the request, when there is one.
abbrev pub Admits : (Request → Type 0) → Admission → Type 0
Admits p (reject error) = Unit {0}
Admits p (admit request) = p request

pub check_lem :
    (p : Request → Type 0) (b : Bool) (error : ServiceError) (rest : Admission)
    → (b ≡ false → Admits p rest)
    → Admits p (check b error rest)
unfolding check
check_lem p true error rest h = tt
check_lem p false error rest h = h refl

pub or_default-named : (s d : Bytes) → named d ≡ true → named (or_default s d) ≡ true
or_default-named s d h = elim (Bool-cases (equal s [])) [ inl t ↦ rw t h | inr t ↦ rw (t, t) refl ]

append-named : (s t : Bytes) → named s ≡ true → named (s ++ t) ≡ true
unfolding equal
append-named [] t h = elim (true≢false (sym h)) [ ]
append-named (x ∷ s) t h = refl

pub submit_timeout-nonnegative :
    (cfg : ServerConfig) (timeout : ℕ) → not (lt64 (submit_timeout cfg timeout) 0) ≡ true
submit_timeout-nonnegative cfg timeout =
    elim (Bool-cases (lt64 (if timeout == 0 then cfg.default_timeout else timeout) 0)) [
      | inl t ↦ rw t refl
      | inr t ↦ rw (t, t) refl
    ]

pub working_state-named :
    (cfg : ServerConfig) (state auto : Bytes)
    → named state ≡ true
    → named (working_state cfg state auto) ≡ true
working_state-named cfg state auto h =
    or_default-named auto _ (append-named state cfg.default_working_suffix h)

pub ascending-some_queue : (x : Bytes) (qs : List Bytes) → some_queue (compact (x ∷ qs)) ≡ true
unfolding compact
ascending-some_queue x qs = refl

module _ (is_uuid : Bytes → Bool) (cfg : ServerConfig) where
  -- The names of a state and of the state after it are not empty.
  abbrev pub states_named : Bytes → Bytes → Bool
  states_named state auto_target = named state && named auto_target

  -- The limits that the handlers keep, request by request.
  unfoldable pub is_clean : Request → Bool
  is_clean (submit id now req) =
      named req.queue
      && states_named req.current_state req.auto_target_state
      && not (payload_over cfg req.payload)
      && not (lt64 req.timeout 0)
  is_clean (claim queue state req now) = named queue && named state
  is_clean (claim_group queues state req now) = some_queue queues && named state
  is_clean (update req now) =
      states_named req.new_state req.auto_target_state && not (opt_payload_over cfg req.payload)
  is_clean (complete id now) = true
  is_clean (cancel id now) = true
  is_clean (clean_up queue at_time clock) = true
  is_clean (submit_keyed id now req ro) =
      not (bad_id req.submission_key)
      && named req.queue
      && states_named req.current_state req.auto_target_state
      && not (payload_over cfg req.payload)
      && not (lt64 req.timeout 0)
  is_clean (claim_guarded id queues state req ro now) =
      not (bad_id id) && some_queue queues && ascending queues && named state
  is_clean (update_guarded req ro now) =
      not (bad_id req.operation_id)
      && is_uuid req.uuid
      && named req.queue
      && not (lt64 req.expected_revision 0)
      && states_named req.new_state req.auto_target_state
      && not (opt_payload_over cfg req.payload)
  is_clean (finish_guarded req op ro now archived_at) =
      not (bad_id req.operation_id)
      && is_uuid req.uuid
      && named req.queue
      && not (lt64 req.expected_revision 0)

  abbrev pub IsClean : Request → Type 0
  IsClean r = is_clean r ≡ true

pub updated-named : named (codes "updated") ≡ true
unfolding equal
updated-named = refl
