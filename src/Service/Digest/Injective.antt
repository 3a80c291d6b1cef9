-- ===== src/Service/Digest/Injective.antt =====
-- Requests with the same digest text agree in all that was digested.
use corndogs.Prelude.{
  ℕ, ◌≡◌, refl, sym, ◌∙◌, Bool, true, false, ◌++◌, append_assoc, Option, none, some, length,
}
use corndogs.Bytes.{Bytes, IsWord64, be}
use corndogs.Filestore.Tx.{codes}
use corndogs.Filestore.Api.{SubmitKeyedTaskRequest, UpdateGuardedTaskRequest}
use corndogs.Service.Digest.{
  digest_text, digest_bytes, digest_int, digest_bool, digest_opt_text, digest_opt_bytes,
  digest_opt_int, new_digest, submit_digest, update_digest,
}
use corndogs.Service.Digest.PrefixFree.{
  PrefixFree, both, OkBoth, both-PrefixFree, PrefixFree-injective, text_field, bytes_field,
  int_field, bool_field, opt_field, IsText, OkOption, text_field-PrefixFree, bytes_field-PrefixFree,
  int_field-PrefixFree, bool_field-PrefixFree, opt_field-PrefixFree,
}

-- What is digested of a submission, in order.
abbrev SubmitFields : Type 0
SubmitFields = Bool × (Bytes × (Bytes × (Bytes × (ℕ × (Bytes × ℕ)))))

abbrev pub submit_fields : SubmitKeyedTaskRequest → SubmitFields
submit_fields req = (
  req.guarded,
  (
    req.queue,
    (req.current_state, (req.auto_target_state, (req.timeout, (req.payload, req.priority)))),
  ),
)

abbrev submit_bytes : SubmitFields → Bytes
submit_bytes = both bool_field (
    both text_field
      (both text_field (both text_field (both int_field (both bytes_field int_field)))))

-- The numbers and the sizes of the texts are 64-bit words, as Go's are.
abbrev pub OkSubmit : SubmitFields → Type 0
OkSubmit =
    OkBoth (λ b. Unit {0})
      (OkBoth IsText (OkBoth IsText (OkBoth IsText (OkBoth IsWord64 (OkBoth IsText IsWord64)))))

submit_bytes-PrefixFree : PrefixFree OkSubmit submit_bytes
submit_bytes-PrefixFree = both-PrefixFree bool_field-PrefixFree (
    both-PrefixFree text_field-PrefixFree (
      both-PrefixFree text_field-PrefixFree (
        both-PrefixFree text_field-PrefixFree (
          both-PrefixFree int_field-PrefixFree
            (both-PrefixFree bytes_field-PrefixFree int_field-PrefixFree)))))

digest_bool_lem : (b : Bool) (buf : Bytes) → digest_bool b buf ≡ buf ++ bool_field b
unfolding digest_bool
digest_bool_lem true buf = refl
digest_bool_lem false buf = refl

submit_digest_lem :
    (req : SubmitKeyedTaskRequest)
    → submit_digest req ≡ new_digest (codes "SubmitKeyedTask") ++ submit_bytes (submit_fields req)
unfolding submit_digest digest_text digest_int digest_bytes
submit_digest_lem req = simp (digest_bool_lem, append_assoc)

-- Two keyed submissions with the same digest text agree in everything but their key. The numbers and
-- the lengths of the texts are below 2 ^ 64.
pub submit_digest-injective :
    (a b : SubmitKeyedTaskRequest)
    → OkSubmit (submit_fields a)
    → OkSubmit (submit_fields b)
    → submit_digest a ≡ submit_digest b
    → submit_fields a ≡ submit_fields b
submit_digest-injective a b f g e =
    PrefixFree-injective (new_digest (codes "SubmitKeyedTask")) submit_bytes-PrefixFree
      (submit_fields a) (submit_fields b) f g (sym (submit_digest_lem a) ∙ e ∙ submit_digest_lem b)

-- What is digested of a guarded update, in order.
abbrev UpdateFields : Type 0
UpdateFields =
    Bytes × (Bytes × (ℕ × (Option Bytes × (Bytes × (Bytes × (ℕ × (Option Bytes × Option ℕ)))))))

abbrev pub update_fields : UpdateGuardedTaskRequest → UpdateFields
update_fields req = (
  req.uuid,
  (
    req.queue,
    (
      req.expected_revision,
      (
        req.expected_state,
        (req.new_state, (req.auto_target_state, (req.timeout, (req.payload, req.priority)))),
      ),
    ),
  ),
)

abbrev update_bytes : UpdateFields → Bytes
update_bytes = both text_field (
    both text_field (
      both int_field (
        both (opt_field text_field) (
          both text_field (
            both text_field
              (both int_field (both (opt_field bytes_field) (opt_field int_field))))))))

abbrev pub OkUpdate : UpdateFields → Type 0
OkUpdate = OkBoth IsText (
    OkBoth IsText (
      OkBoth IsWord64 (
        OkBoth (OkOption IsText) (
          OkBoth IsText
            (OkBoth IsText (OkBoth IsWord64 (OkBoth (OkOption IsText) (OkOption IsWord64))))))))

opt-IsText-PrefixFree : PrefixFree (OkOption IsText) (opt_field text_field)
opt-IsText-PrefixFree =
    opt_field-PrefixFree b's' (λ s. be 8 (length s) ++ s) (λ s. refl) refl text_field-PrefixFree

opt-bytes_field-PrefixFree : PrefixFree (OkOption IsText) (opt_field bytes_field)
opt-bytes_field-PrefixFree =
    opt_field-PrefixFree b'b' (λ s. be 8 (length s) ++ s) (λ s. refl) refl bytes_field-PrefixFree

opt-IsWord64-PrefixFree : PrefixFree (OkOption IsWord64) (opt_field int_field)
opt-IsWord64-PrefixFree =
    opt_field-PrefixFree b'i' (λ v. be 8 v) (λ v. refl) refl int_field-PrefixFree

update_bytes-PrefixFree : PrefixFree OkUpdate update_bytes
update_bytes-PrefixFree = both-PrefixFree text_field-PrefixFree (
    both-PrefixFree text_field-PrefixFree (
      both-PrefixFree int_field-PrefixFree (
        both-PrefixFree opt-IsText-PrefixFree (
          both-PrefixFree text_field-PrefixFree (
            both-PrefixFree text_field-PrefixFree (
              both-PrefixFree int_field-PrefixFree
                (both-PrefixFree opt-bytes_field-PrefixFree opt-IsWord64-PrefixFree)))))))

digest_opt_text_lem :
    (s : Option Bytes) (buf : Bytes) → digest_opt_text s buf ≡ buf ++ opt_field text_field s
unfolding digest_opt_text digest_text
digest_opt_text_lem none buf = refl
digest_opt_text_lem (some s) buf = refl

digest_opt_bytes_lem :
    (s : Option Bytes) (buf : Bytes) → digest_opt_bytes s buf ≡ buf ++ opt_field bytes_field s
unfolding digest_opt_bytes digest_bytes
digest_opt_bytes_lem none buf = refl
digest_opt_bytes_lem (some s) buf = refl

digest_opt_int_lem :
    (v : Option ℕ) (buf : Bytes) → digest_opt_int v buf ≡ buf ++ opt_field int_field v
unfolding digest_opt_int digest_int
digest_opt_int_lem none buf = refl
digest_opt_int_lem (some v) buf = refl

update_digest_lem :
    (req : UpdateGuardedTaskRequest)
    → update_digest req ≡ new_digest (codes "UpdateGuardedTask") ++ update_bytes (update_fields req)
unfolding update_digest digest_text digest_int
update_digest_lem req =
    simp (digest_opt_text_lem, digest_opt_bytes_lem, digest_opt_int_lem, append_assoc)

-- Two guarded updates with the same digest text agree in everything but their operation id. The
-- numbers and the lengths of the texts are below 2 ^ 64.
pub update_digest-injective :
    (a b : UpdateGuardedTaskRequest)
    → OkUpdate (update_fields a)
    → OkUpdate (update_fields b)
    → update_digest a ≡ update_digest b
    → update_fields a ≡ update_fields b
update_digest-injective a b f g e =
    PrefixFree-injective (new_digest (codes "UpdateGuardedTask")) update_bytes-PrefixFree
      (update_fields a) (update_fields b) f g (sym (update_digest_lem a) ∙ e ∙ update_digest_lem b)
