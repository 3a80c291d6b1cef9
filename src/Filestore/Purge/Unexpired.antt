-- ===== src/Filestore/Purge/Unexpired.antt =====
-- What PurgeExpiredReceipts of corndogs/server/store/filestore/guards.go leaves of the receipts.
use corndogs.Prelude.{
  arith, ◌⊎◌, if_cases, ℕ, ◌+◌, ◌≡◌, refl, ap, sym, subst, ◌∙◌, ◌&&◌, ◌⊎◌, Option, none, Bool, true,
  false, true≢false, List, [], ◌∷◌, some, if◌then◌else◌, ltb, length, take, zero, suc, Bool-cases,
  inl, inr, All, ==_iff,
}
use corndogs.Bytes.{Bytes, equal}
use corndogs.Bytes.Laws.{equal_iff}
use corndogs.Filestore.Task.{lt64}
use corndogs.Filestore.Order.{decode_time_asc}
use corndogs.Filestore.Bolt.{Env, Entries}
use corndogs.Filestore.Tx.{
  Db, Tx, Result, ok, err, pure, and_then, gets, ◌>>=◌, set_bucket, tx_delete, cap_del, capture,
  bucket_receipt_expiry,
}
use corndogs.Filestore.Records.{delete_bytes}
use corndogs.Filestore.Purge.{
  none, Option, ExpiredEntry, expired_entries, record_expires_at, allowed, receipt_bucket, is_due,
  purge_entry, purge_entries, purge_expired_receipts,
}

-- Every entry has expired at `now`.
abbrev AllExpired : ℕ → List ExpiredEntry → Type 0
AllExpired now = All (λ x. lt64 now x.expires_at ≡ false)

expired_entries-AllExpired : (now : ℕ) (es : Entries) → AllExpired now (expired_entries now es)
unfolding expired_entries
expired_entries-AllExpired now [] = tt
expired_entries-AllExpired now ((k, v) ∷ es) =
    if_cases (AllExpired now) (ltb (length k) 9) _ _ (λ t. expired_entries-AllExpired now es)
      (λ t.
        if_cases (AllExpired now) (lt64 now (decode_time_asc (take 8 k))) _ _ (λ u. tt)
          (λ u. (u, expired_entries-AllExpired now es)))

AllExpired-take :
    (now n : ℕ) (xs : List ExpiredEntry) → AllExpired now xs → AllExpired now (take n xs)
AllExpired-take now zero xs h = tt
AllExpired-take now (suc n) [] h = tt
AllExpired-take now (suc n) (x ∷ xs) h = (h.0, AllExpired-take now n xs h.1)

-- `o` is nothing, or a receipt that has expired.
abbrev pub Lapsed : (Bytes → ℕ) → ℕ → Option Bytes → Type 0
Lapsed expires now none = Unit {0}
Lapsed expires now (some v) = lt64 now (expires v) ≡ false

module _ ⦃e : Env⦄ where
  delete_bytes_db :
      (name key : Bytes) (s : Tx)
      → (delete_bytes name key s).1.db ≡ set_bucket s.db name (e.delete (s.db name) key)
  unfolding delete_bytes ◌>>=◌ tx_delete cap_del capture
  delete_bytes_db name key s = elim (Bool-cases s.capturing) [
    | inl t ↦ rw t refl
    | inr t ↦ rw t refl
  ]

  delete_bytes-get :
      (b k name key : Bytes) (s : Tx)
      → e.get ((delete_bytes b k s).1.db name) key
        ≡ (if equal b name && equal key k then none else e.get (s.db name) key)
  unfolding set_bucket
  delete_bytes-get b k name key s =
      let go = ap (λ (d : Db). e.get (d name) key) (delete_bytes_db b k s) in
      elim (Bool-cases (equal b name)) [
        | inl t ↦
            go
            ∙ rw (t, e.get-delete (s.db b) k key)
                (ap (λ (n : Bytes). if equal key k then none else e.get (s.db n) key)
                  ((equal_iff b name).0 t))
        | inr t ↦ go ∙ rw t refl
      ]

  -- A record that was `o` is still there, or it had lapsed and is gone.
  abbrev pub IsKept : (Bytes → ℕ) → ℕ → Bytes → Bytes → Option Bytes → Tx → Type 0
  IsKept expires now name key o s =
      (e.get (s.db name) key ≡ o) ⊎ ((e.get (s.db name) key ≡ none) × Lapsed expires now o)

  -- A delete of something else, or of a record that has lapsed.
  delete_bytes-IsKept :
      (expires : Bytes → ℕ) (now : ℕ) (b k name key : Bytes) (o : Option Bytes) (s : Tx)
      → ((equal b name && equal key k) ≡ true → Lapsed expires now o)
      → IsKept expires now name key o s
      → IsKept expires now name key o (delete_bytes b k s).1
  delete_bytes-IsKept expires now b k name key o s may h =
      let after = delete_bytes-get b k name key s in
      elim (Bool-cases (equal b name && equal key k)) [
        | inl t ↦ inr (after ∙ rw t refl, may t)
        | inr t ↦
            let same : e.get ((delete_bytes b k s).1.db name) key ≡ e.get (s.db name) key =
              after ∙ rw t refl in
            elim h [ inl u ↦ inl (same ∙ u) | inr u ↦ inr (same ∙ u.0, u.1) ]
      ]

module _ ⦃e : Env⦄ (json_expires_at : Bytes → Option ℕ) where
  abbrev expires : Bytes → ℕ
  expires = record_expires_at json_expires_at

  -- A record that is due has lapsed.
  due-Lapsed :
      (now : ℕ) (x : ExpiredEntry) (o : Option Bytes)
      → lt64 now x.expires_at ≡ false
      → is_due json_expires_at o x ≡ true
      → Lapsed expires now o
  due-Lapsed now x none h k = tt
  due-Lapsed now x (some v) h k = ap (lt64 now) ((==_iff (expires v) x.expires_at).0 k) ∙ h

  -- The record of an entry, when the entry is handled.
  abbrev found : ExpiredEntry → Tx → Option Bytes
  found x s = e.get (s.db (receipt_bucket x.kind)) x.id

  abbrev dropped : ExpiredEntry → Bool → Tx → Tx
  dropped x b s = if b then (delete_bytes (receipt_bucket x.kind) x.id s).1 else s

  purge_entry_state :
      (x : ExpiredEntry) (s : Tx)
      → (purge_entry json_expires_at x s).1
        ≡ (delete_bytes bucket_receipt_expiry x.index
            (dropped x (is_due json_expires_at (found x s) x) s)).1
  unfolding purge_entry ◌>>=◌ gets pure delete_bytes tx_delete cap_del capture
  purge_entry_state x s = elim (Bool-cases (is_due json_expires_at (found x s) x)) [
    | inl t ↦ rw t refl
    | inr t ↦ rw t refl
  ]

  found_at :
      (x : ExpiredEntry) (name key : Bytes) (s : Tx)
      → (equal (receipt_bucket x.kind) name && equal key x.id) ≡ true
      → found x s ≡ e.get (s.db name) key
  found_at x name key s t =
      let b : equal (receipt_bucket x.kind) name ≡ true = ground (arith, t) in
      let k : equal key x.id ≡ true = ground (arith, t) in
      ap (λ n. e.get (s.db n) x.id) ((equal_iff (receipt_bucket x.kind) name).0 b)
      ∙ ap (e.get (s.db name)) (sym ((equal_iff key x.id).0 k))

  dropped-IsKept :
      (now : ℕ) (x : ExpiredEntry) (name key : Bytes) (o : Option Bytes) (s : Tx)
      → lt64 now x.expires_at ≡ false
      → IsKept expires now name key o s
      → IsKept expires now name key o (dropped x (is_due json_expires_at (found x s) x) s)
  dropped-IsKept now x name key o s h kept =
      if_cases (IsKept expires now name key o) (is_due json_expires_at (found x s) x) _ _
        (λ t.
          delete_bytes-IsKept expires now (receipt_bucket x.kind) x.id name key o s
            (λ at. elim kept [
              | inl u ↦
                  due-Lapsed now x o h
                    (ap (λ w. is_due json_expires_at w x) (sym (found_at x name key s at ∙ u)) ∙ t)
              | inr u ↦ u.1
            ])
            kept)
        (λ t. kept)

  purge_entry-IsKept :
      (now : ℕ) (x : ExpiredEntry) (name key : Bytes) (o : Option Bytes) (s : Tx)
      → equal bucket_receipt_expiry name ≡ false
      → lt64 now x.expires_at ≡ false
      → IsKept expires now name key o s
      → IsKept expires now name key o (purge_entry json_expires_at x s).1
  purge_entry-IsKept now x name key o s apart h kept =
      subst (IsKept expires now name key o) (sym (purge_entry_state x s)) (
        delete_bytes-IsKept expires now bucket_receipt_expiry x.index name key o _
          (λ t. elim (true≢false (sym t ∙ rw apart refl)) [ ])
          (dropped-IsKept now x name key o s h kept))

  purge_ok :
      (x : ExpiredEntry) (s : Tx)
      → (n : ℕ) × (purge_entry json_expires_at x s ≡ (ok n, (purge_entry json_expires_at x s).1))
  unfolding purge_entry ◌>>=◌ gets pure delete_bytes tx_delete cap_del capture
  purge_ok x s = elim (Bool-cases (is_due json_expires_at (found x s) x)) [
    | inl t ↦ (1, rw t refl)
    | inr t ↦ (0, rw t refl)
  ]

  add_state : (n : ℕ) (y : Result ℕ × Tx) → (and_then y (λ m. pure (n + m))).1 ≡ y.1
  unfolding pure
  add_state n (ok m, s) = refl
  add_state n (err c, s) = refl

  purge_entries-IsKept :
      (now : ℕ) (xs : List ExpiredEntry) (name key : Bytes) (o : Option Bytes) (s : Tx)
      → equal bucket_receipt_expiry name ≡ false
      → AllExpired now xs
      → IsKept expires now name key o s
      → IsKept expires now name key o (purge_entries json_expires_at xs s).1
  unfolding purge_entries ◌>>=◌ pure
  purge_entries-IsKept now [] name key o s apart h kept = kept
  purge_entries-IsKept now (x ∷ xs) name key o s apart h kept =
      let s1 : Tx = (purge_entry json_expires_at x s).1 in
      let (n, q) = purge_ok x s in
      let later =
        purge_entries-IsKept now xs name key o s1 apart h.1
          (purge_entry-IsKept now x name key o s apart h.0 kept) in
      subst (IsKept expires now name key o)
        (sym (
          ap
            (λ (y : Result ℕ × Tx).
              (and_then y (λ (i : ℕ). purge_entries json_expires_at xs >>= λ j. pure (i + j))).1)
            q
          ∙ add_state n (purge_entries json_expires_at xs s1)))
        later

  -- A purge takes away no record of another bucket than the index, unless the record has lapsed.
  pub purge-IsKept :
      (now limit : ℕ) (name key : Bytes) (s : Tx)
      → equal bucket_receipt_expiry name ≡ false
      → IsKept expires now name key
          (e.get (s.db name) key)
          (purge_expired_receipts json_expires_at now limit s).1
  unfolding purge_expired_receipts ◌>>=◌ gets
  purge-IsKept now limit name key s apart =
      let es : List ExpiredEntry = expired_entries now (e.entries (s.db bucket_receipt_expiry)) in
      purge_entries-IsKept now (take (allowed limit) es) name key (e.get (s.db name) key) s apart
        (AllExpired-take now (allowed limit) es
          (expired_entries-AllExpired now (e.entries (s.db bucket_receipt_expiry))))
        (inl refl)
