-- ===== src/Filestore/Replication/Counts.antt =====
-- The writes of a task's transaction without their captures, and the write of a count with its capture.
use corndogs.Prelude.{
  ℕ, ◌≡◌, refl, ◌∙◌, Bool, true, false, not, List, [], ◌∷◌, ◌++◌, some, if◌then◌else◌, Option-cases,
  inl, inr,
}
use corndogs.Bytes.{Bytes, be}
use corndogs.Filestore.Task.{add64, lt64}
use corndogs.Filestore.Bolt.{Env}
use corndogs.Filestore.Tx.{
  Exec, Db, Tx, Result, ok, err, Mutation, gets, and_then, when, tx_put, tx_delete, cap_put,
  cap_del, set_bucket, ◌>>=◌, bucket_counts,
}
use corndogs.Filestore.Records.{put_bytes, delete_bytes, adjust_count, count_key, count_value}
use corndogs.Filestore.Replication.{apply_mutation, apply_mutations}
use corndogs.Filestore.Replication.Captured.{apply_mutations-append, OnOk, capture_on}

abbrev pub put_mutation : Bytes → Bytes → Bytes → Mutation
put_mutation name key val = record { bucket = name; key = key; value = val; delete = false }

abbrev pub del_mutation : Bytes → Bytes → Mutation
del_mutation name key = record { bucket = name; key = key; value = []; delete = true }

module _ ⦃e : Env⦄ where
  pub OnOk-bind {ℓ κ} :
      {A : Type ℓ} {B : Type κ} (P : A → Tx → Type 0) (Q : B → Tx → Type 0) (r : Result A × Tx)
      (f : A → Exec B)
      → OnOk P r
      → ((a : A) (s : Tx) → P a s → OnOk Q (f a s))
      → OnOk Q (and_then r f)
  OnOk-bind P Q (ok a, s) f h k = k a s h
  OnOk-bind P Q (err c, s) f h k = tt

  pub OnOk-map {ℓ} :
      {A : Type ℓ} (P Q : A → Tx → Type 0) (r : Result A × Tx)
      → OnOk P r
      → ((a : A) (s : Tx) → P a s → Q a s)
      → OnOk Q r
  OnOk-map P Q (ok a, s) h k = k a s h
  OnOk-map P Q (err c, s) h k = tt

  -- `m` makes the writes `ws` and captures nothing.
  abbrev pub Wrote : List Mutation → Tx → Tx → Type 0
  Wrote ws s s1 =
      (s1.capturing ≡ s.capturing) × (s1.muts ≡ s.muts) × (apply_mutations ws s.db ≡ some s1.db)

  pub record Writes (ws : List Mutation) (m : Exec (Unit {0})) : Type 0 where
    pub at : (s : Tx) → OnOk (λ a s1. Wrote ws s s1) (m s)

  pub Writes-tx_put :
      (name key val : Bytes) → Writes (put_mutation name key val ∷ []) (tx_put name key val)
  unfolding tx_put apply_mutations apply_mutation
  Writes-tx_put name key val = record {
    at = λ s. elim (Option-cases (e.put (s.db name) key val)) [
      | inl n ↦ rw (n, tx_put) tt
      | inr (b, p) ↦ rw (p, tx_put) (refl, refl, refl)
    ];
  }

  pub Writes-tx_delete :
      (name key : Bytes) → Writes (del_mutation name key ∷ []) (tx_delete name key)
  unfolding tx_delete apply_mutations apply_mutation
  Writes-tx_delete name key = record { at = λ s. (refl, refl, refl) }

  pub Writes-when :
      (b : Bool) (ws : List Mutation) (m : Exec (Unit {0}))
      → Writes ws m
      → Writes (if b then ws else []) (when b m)
  unfolding when apply_mutations
  Writes-when true ws m h = h
  Writes-when false ws m h = record { at = λ s. (refl, refl, refl) }

  pub Writes-bind :
      (ws vs : List Mutation) (m n : Exec (Unit {0}))
      → Writes ws m
      → Writes vs n
      → Writes (ws ++ vs) (m >>= λ a. n)
  unfolding ◌>>=◌
  Writes-bind ws vs m n h k = record {
    at = λ s.
        OnOk-bind (λ a s1. Wrote ws s s1) (λ a s2. Wrote (ws ++ vs) s s2) (m s) (λ a. n) (h.at s)
          (λ a s1 p.
            OnOk-map (λ a s2. Wrote vs s1 s2) (λ a s2. Wrote (ws ++ vs) s s2) (n s1) (k.at s1)
              (λ a s2 q.
                (q.0 ∙ p.0, q.1 ∙ p.1, apply_mutations-append ws vs s.db s1.db p.2 ∙ q.2)));
  }

  -- The write and the capture of a count: one mutation `m` of the counts bucket, which does the same
  -- to any data with the same counts.
  abbrev pub Counted : Tx → Tx → Type 0
  Counted s s1 =
      (m : Mutation) × (c : e.Bucket) × (s1.capturing ≡ s.capturing)
      × (s1.muts ≡ s.muts ++ m ∷ [])
      × (s1.db ≡ set_bucket s.db bucket_counts c)
      × ((d : Db)
          → d bucket_counts ≡ s.db bucket_counts
          → apply_mutation m d ≡ some (set_bucket d bucket_counts c))

  put_bytes-Counted :
      (key val : Bytes) (s : Tx)
      → s.capturing ≡ true
      → OnOk (λ a s1. Counted s s1) (put_bytes bucket_counts key val s)
  unfolding put_bytes ◌>>=◌ tx_put cap_put apply_mutation
  put_bytes-Counted key val s on = elim (Option-cases (e.put (s.db bucket_counts) key val)) [
    | inl q ↦ rw (q, tx_put) tt
    | inr (b, q) ↦
        rw (q, tx_put)
          (rw
            (capture_on (put_mutation bucket_counts key val)
              (record s { db = set_bucket s.db bucket_counts b }) on)
            (put_mutation bucket_counts key val, b, refl, refl, refl, λ d h. rw (h, q) refl))
  ]

  delete_bytes-Counted :
      (key : Bytes) (s : Tx)
      → s.capturing ≡ true
      → OnOk (λ a s1. Counted s s1) (delete_bytes bucket_counts key s)
  unfolding delete_bytes ◌>>=◌ tx_delete cap_del apply_mutation
  delete_bytes-Counted key s on =
      rw
        (capture_on (del_mutation bucket_counts key)
          (record s { db = set_bucket s.db bucket_counts (e.delete (s.db bucket_counts) key) }) on)
        (
          del_mutation bucket_counts key,
          e.delete (s.db bucket_counts) key,
          refl,
          refl,
          refl,
          λ d h. rw h refl,
        )

  store_count-Counted :
      (key : Bytes) (n : ℕ) (b : Bool) (s : Tx)
      → s.capturing ≡ true
      → OnOk
          (λ a s1. Counted s s1)
          ((if b then delete_bytes bucket_counts key else put_bytes bucket_counts key (be 8 n)) s)
  store_count-Counted key n true s on = delete_bytes-Counted key s on
  store_count-Counted key n false s on = put_bytes-Counted key (be 8 n) s on

  pub adjust_count-Counted :
      (queue state : Bytes) (delta : ℕ) (s : Tx)
      → s.capturing ≡ true
      → OnOk (λ a s1. Counted s s1) (adjust_count queue state delta s)
  unfolding adjust_count ◌>>=◌ gets
  adjust_count-Counted queue state delta s on =
      let n : ℕ = add64 (count_value (e.get (s.db bucket_counts) (count_key queue state))) delta in
      store_count-Counted (count_key queue state) n (not (lt64 0 n)) s on
