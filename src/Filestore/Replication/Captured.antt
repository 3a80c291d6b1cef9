-- ===== src/Filestore/Replication/Captured.antt =====
-- The captured mutations of a transaction replay what it did: one rule for each way to build an
-- operation.
use corndogs.Prelude.{
  ◌≡◌, refl, ◌∙◌, fun_ext, Bool, true, false, List, [], ◌∷◌, ◌++◌, Option, none, some,
  if◌then◌else◌, arith, Option-cases, inl, inr,
}
use corndogs.Bytes.{Bytes, equal}
use corndogs.Bytes.Laws.{equal_iff}
use corndogs.Filestore.Bolt.{Env}
use corndogs.Filestore.Tx.{
  Exec, Db, Tx, Result, ok, err, Error, Mutation, AuditEvent, pure, raise, and_then, gets,
  lift_option, when, tx_put, tx_delete, cap_put, cap_del, capture, record_audit, set_bucket, ◌>>=◌,
}
use corndogs.Filestore.Records.{put_bytes, delete_bytes}
use corndogs.Filestore.Replication.{apply_mutation, apply_mutations}

module _ ⦃e : Env⦄ where
  pub apply_mutations-append :
      (ms ns : List Mutation) (db db' : Db)
      → apply_mutations ms db ≡ some db'
      → apply_mutations (ms ++ ns) db ≡ apply_mutations ns db'
  unfolding apply_mutations
  apply_mutations-append [] ns db db' h = ground arith
  apply_mutations-append (m ∷ ms) ns db db' h = elim (Option-cases (apply_mutation m db)) [
    | inl n ↦ ground arith
    | inr (d, q) ↦ ground (arith, apply_mutations-append ms ns d db')
  ]

  -- Writes of two different buckets commute.
  pub set_bucket_swap :
      (db : Db) (m n : Bytes) (b c : e.Bucket)
      → equal m n ≡ false
      → set_bucket (set_bucket db m b) n c ≡ set_bucket (set_bucket db n c) m b
  unfolding set_bucket
  set_bucket_swap db m n b c h =
      fun_ext λ k. ground (arith, equal_iff m n, equal_iff m k, equal_iff n k)

  -- What was captured since `base` replays to the data of the transaction.
  pub record Captured (base : Db) (s : Tx) : Type 0 where
    pub on : s.capturing ≡ true
    pub replays : apply_mutations s.muts base ≡ some s.db

  abbrev pub OnOk {ℓ} : {A : Type ℓ} → (A → Tx → Type 0) → Result A × Tx → Type 0
  OnOk P (ok a, s) = P a s
  OnOk P (err c, s) = Unit

  -- `m` captures all that it writes, where it does not fail.
  pub record Replays {ℓ} {A : Type ℓ} (m : Exec A) : Type ℓ where
    pub at : (base : Db) (s : Tx) → Captured base s → OnOk (λ a s'. Captured base s') (m s)

module _ ⦃e : Env⦄ where
  pub Replays-pure {ℓ} : {A : Type ℓ} (a : A) → Replays (pure a)
  unfolding pure
  Replays-pure a = record { at = λ base s c. c }

  pub Replays-raise {ℓ} : {A : Type ℓ} (c : Error) → Replays (raise {A = A} c)
  unfolding raise
  Replays-raise c = record { at = λ base s h. tt }

  pub Replays-gets : {A : Type 0} (f : Db → A) → Replays (gets f)
  unfolding gets
  Replays-gets f = record { at = λ base s c. c }

  pub Replays-lift_option {ℓ} : {A : Type ℓ} (c : Error) (o : Option A) → Replays (lift_option c o)
  unfolding lift_option
  Replays-lift_option c none = record { at = λ base s h. tt }
  Replays-lift_option c (some a) = record { at = λ base s h. h }

  pub Replays-if {ℓ} :
      {A : Type ℓ} (b : Bool) (m n : Exec A) → Replays m → Replays n → Replays (if b then m else n)
  Replays-if true m n hm hn = hm
  Replays-if false m n hm hn = hn

  pub Replays-when : (b : Bool) (m : Exec (Unit {0})) → Replays m → Replays (when b m)
  unfolding when
  Replays-when true m h = h
  Replays-when false m h = record { at = λ base s c. c }

  bind_at {ℓ κ} :
      {A : Type ℓ} {B : Type κ} (base : Db) (r : Result A × Tx) (f : A → Exec B)
      → OnOk (λ a s'. Captured base s') r
      → ((a : A) → Replays (f a))
      → OnOk (λ b s'. Captured base s') (and_then r f)
  bind_at base (ok a, s) f h hf = (hf a).at base s h
  bind_at base (err c, s) f h hf = tt

  pub Replays-bind {ℓ κ} :
      {A : Type ℓ} {B : Type κ} (m : Exec A) (f : A → Exec B)
      → Replays m
      → ((a : A) → Replays (f a))
      → Replays (m >>= f)
  unfolding ◌>>=◌
  Replays-bind m f hm hf = record { at = λ base s c. bind_at base (m s) f (hm.at base s c) hf }

  pub Replays-record_audit : (ev : AuditEvent) → Replays (record_audit ev)
  unfolding record_audit
  Replays-record_audit ev = record { at = λ base s c. record { on = c.on; replays = c.replays } }

  -- One more captured mutation replays one more write.
  pub Captured-snoc :
      (base : Db) (s : Tx) (m : Mutation) (db : Db)
      → Captured base s
      → apply_mutation m s.db ≡ some db
      → Captured base (record s { db = db; muts = s.muts ++ m ∷ [] })
  unfolding apply_mutations
  Captured-snoc base s m db c h = record {
    on = c.on;
    replays = apply_mutations-append s.muts (m ∷ []) base s.db c.replays ∙ rw h;
  }

  pub capture_on :
      (m : Mutation) (s : Tx)
      → s.capturing ≡ true
      → capture m s ≡ (ok tt, record s { muts = s.muts ++ m ∷ [] })
  unfolding capture
  capture_on m s h = ground arith

  pub Replays-put_bytes : (name key val : Bytes) → Replays (put_bytes name key val)
  unfolding put_bytes ◌>>=◌ tx_put cap_put apply_mutation
  Replays-put_bytes name key val = record {
    at = λ base s c. elim (Option-cases (e.put (s.db name) key val)) [
      | inl n ↦ rw (n, tx_put) tt
      | inr (b, p) ↦
          rw (p, tx_put)
            (rw
              (capture_on (record { bucket = name; key = key; value = val; delete = false })
                (record s { db = set_bucket s.db name b }) c.on)
              (Captured-snoc base s
                (record { bucket = name; key = key; value = val; delete = false })
                (set_bucket s.db name b) c (rw p)))
    ];
  }

  pub Replays-delete_bytes : (name key : Bytes) → Replays (delete_bytes name key)
  unfolding delete_bytes ◌>>=◌ tx_delete cap_del apply_mutation
  Replays-delete_bytes name key = record {
    at = λ base s c.
        rw
          (capture_on (record { bucket = name; key = key; value = []; delete = true })
            (record s { db = set_bucket s.db name (e.delete (s.db name) key) }) c.on)
          (Captured-snoc base s (record { bucket = name; key = key; value = []; delete = true })
            (set_bucket s.db name (e.delete (s.db name) key)) c refl);
  }

pub ruleset replays_rules = (
  Replays-pure, Replays-raise, Replays-gets, Replays-lift_option, Replays-if, Replays-when,
  Replays-bind, Replays-record_audit, Replays-put_bytes, Replays-delete_bytes,
)
