-- ===== src/Examples/Services.antt =====
-- A server that requires keys and guards, and the theorems about the handlers at calls to it.
use corndogs.Prelude.{◌++◌, ◌+◌, ℕ, ◌≡◌, refl, Bool, true, not, [], ◌∷◌, none, some, arith}
use corndogs.Bytes.{Bytes, equal}
use corndogs.Filestore.Tx.{codes}
use corndogs.Filestore.Api.{SubmitKeyedTaskRequest, UpdateGuardedTaskRequest}
use corndogs.Filestore.Order.{Overrides}
use corndogs.Filestore.Requests.{Request, submit_keyed}
use corndogs.Service.Digest.{submit_digest, update_digest}
use corndogs.Service.Policy.{guards_required, keys_required, ServerConfig, policy_required}
use corndogs.Service.Digest.Injective.{
  OkUpdate, submit_fields, submit_digest-injective, update_fields, update_digest-injective,
}
use corndogs.Service.Handlers.{
  bad_id, check, submit_keyed_handler, Call, call_submit_keyed, call_claim_guarded_group, admit,
  serve,
}
use corndogs.Service.Handlers.Admitted.{Admits, IsClean}
use corndogs.Service.Handlers.Clean.{serve-IsClean}
use corndogs.Service.Handlers.Policies.{FollowsPolicy, serve-FollowsPolicy}
use corndogs.Service.Handlers.Digests.{serve-same_digest, digest_of}

abbrev strict_config : ServerConfig
strict_config = record {
  default_queue = codes "default";
  default_starting_state = codes "submitted";
  default_working_suffix = codes "-working";
  default_timeout = 0;
  max_payload_bytes = 1024;
  submission_key_policy = policy_required;
  task_guard_policy = policy_required;
  receipt_retention = 3_600_000_000_000;
}

-- Another default state and suffix.
abbrev later_config : ServerConfig
later_config = record strict_config {
  default_starting_state = codes "new";
  default_working_suffix = codes "-busy";
}

abbrev keyed_request : SubmitKeyedTaskRequest
keyed_request = record {
  submission_key = codes "k-1";
  guarded = true;
  queue = codes "mail";
  current_state = [];
  auto_target_state = [];
  timeout = 30;
  payload = codes "{}";
  priority = 5;
}

abbrev other_key : SubmitKeyedTaskRequest
other_key = record keyed_request { submission_key = codes "k-2" }

abbrev update_request : UpdateGuardedTaskRequest
update_request = record {
  operation_id = codes "op-1";
  uuid = codes "u";
  queue = codes "mail";
  expected_revision = 3;
  expected_state = some (codes "sent");
  new_state = [];
  auto_target_state = [];
  timeout = 0;
  payload = none;
  priority = some 7;
}

abbrev overrides : Overrides
overrides = record { current_state = []; auto_target_state = []; timeout = 0 }

abbrev group_call : Call
group_call =
    call_claim_guarded_group (codes "op-2") (codes "b" ∷ codes "a" ∷ codes "b" ∷ []) [] overrides

abbrev not_empty : Bytes → Bool
not_empty u = not (equal u [])

abbrev fixed_clock : ℕ → ℕ
fixed_clock i = 100 + i

serve-IsClean_example :
    Admits
      (IsClean not_empty strict_config)
      (serve (λ t. t) not_empty strict_config [] 9 fixed_clock group_call)
unfolding equal
serve-IsClean_example =
    serve-IsClean (λ t. t) not_empty strict_config [] 9 fixed_clock group_call refl refl

serve-FollowsPolicy_example : Admits (FollowsPolicy strict_config) (
    serve
      (λ t. t)
      not_empty
      strict_config
      (codes "u")
      9
      fixed_clock
      (call_submit_keyed keyed_request))
serve-FollowsPolicy_example =
    serve-FollowsPolicy (λ t. t) not_empty strict_config (codes "u") 9 fixed_clock
      (call_submit_keyed keyed_request)

abbrev accepted : ServerConfig → Request
accepted cfg =
    submit_keyed (codes "u") 9
      (record keyed_request {
        current_state = cfg.default_starting_state;
        auto_target_state = cfg.default_starting_state ++ cfg.default_working_suffix;
      })
      (record { digest = submit_digest keyed_request; retention = cfg.receipt_retention })

accepted_strict :
    serve
      (λ t. t)
      not_empty
      strict_config
      (codes "u")
      9
      fixed_clock
      (call_submit_keyed keyed_request)
    ≡ admit (accepted strict_config)
unfolding serve submit_keyed_handler check bad_id equal keys_required guards_required
accepted_strict = refl

accepted_later :
    serve
      (λ t. t)
      not_empty
      later_config
      (codes "u")
      9
      fixed_clock
      (call_submit_keyed keyed_request)
    ≡ admit (accepted later_config)
unfolding serve submit_keyed_handler check bad_id equal keys_required guards_required
accepted_later = refl

serve-same_digest_example : digest_of (accepted strict_config) ≡ digest_of (accepted later_config)
serve-same_digest_example =
    serve-same_digest (λ t. t) not_empty strict_config later_config (codes "u") (codes "u") 9 9
      fixed_clock fixed_clock (call_submit_keyed keyed_request) (accepted strict_config)
      (accepted later_config) accepted_strict accepted_later

same_text : submit_digest keyed_request ≡ submit_digest other_key
unfolding submit_digest
same_text = refl

submit_digest-injective_example : submit_fields keyed_request ≡ submit_fields other_key
submit_digest-injective_example =
    submit_digest-injective keyed_request other_key
      (tt, (omega arith, (omega arith, (omega arith, (omega arith, (omega arith, omega arith))))))
      (tt, (omega arith, (omega arith, (omega arith, (omega arith, (omega arith, omega arith))))))
      same_text

update_fits : OkUpdate (update_fields update_request)
update_fits = (
  omega arith,
  (
    omega arith,
    (omega arith, (omega arith, (omega arith, (omega arith, (omega arith, (tt, omega arith)))))),
  ),
)

same_update_text :
    update_digest update_request
    ≡ update_digest (record update_request { operation_id = codes "op-9" })
unfolding update_digest
same_update_text = refl

update_digest-injective_example :
    update_fields update_request
    ≡ update_fields (record update_request { operation_id = codes "op-9" })
update_digest-injective_example =
    update_digest-injective update_request (record update_request { operation_id = codes "op-9" })
      update_fits update_fits same_update_text
