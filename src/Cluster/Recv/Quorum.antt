-- ===== src/Cluster/Recv/Quorum.antt =====
-- The commit point of a leader: what enough followers have acknowledged.
use corndogs.Prelude.{
  ℕ, zero, suc, ◌≤◌, ◌<◌, ◌≡◌, refl, ◌↔◌, ◌∙◌, true, List, [], ◌∷◌, if◌then◌else◌, ltb, leb, arith,
  All, Bool-cases, inl, inr,
}
use corndogs.Cluster.Floats.{Floats}
use corndogs.Cluster.Node.{Node, is_leader}
use corndogs.Cluster.Recv.{insert_desc, sort_desc, values, nth_or_zero, durable_lsn}

module _ ⦃f : Floats⦄ where
  -- How many of the numbers are at least `l`.
  abbrev pub at_least : ℕ → List ℕ → ℕ
  at_least l [] = 0
  at_least l (x ∷ xs) = let rest = at_least l xs in if leb l x then suc rest else rest

  abbrev IsDesc : List ℕ → Type 0
  IsDesc [] = Unit {0}
  IsDesc (x ∷ xs) = All (λ y. y ≤ x) xs × IsDesc xs

  at_least-insert : (l x : ℕ) (ys : List ℕ) → at_least l (insert_desc x ys) ≡ at_least l (x ∷ ys)
  unfolding insert_desc
  at_least-insert l x [] = refl
  at_least-insert l x (y ∷ ys) = ground (arith, at_least-insert l x ys)

  at_least-sort : (l : ℕ) (xs : List ℕ) → at_least l (sort_desc xs) ≡ at_least l xs
  unfolding sort_desc
  at_least-sort l [] = refl
  at_least-sort l (x ∷ xs) = at_least-insert l x (sort_desc xs) ∙ ground (arith, at_least-sort l xs)

  All-insert :
      (x top : ℕ) (ys : List ℕ)
      → x ≤ top
      → All (λ y. y ≤ top) ys
      → All (λ y. y ≤ top) (insert_desc x ys)
  unfolding insert_desc
  All-insert x top [] h k = (h, tt)
  All-insert x top (y ∷ ys) h k = elim (Bool-cases (ltb x y)) [
    | inl t ↦ rw t (k.0, All-insert x top ys h k.1)
    | inr t ↦ rw t (h, k)
  ]

  All-lower : (x y : ℕ) (ys : List ℕ) → y ≤ x → All (λ z. z ≤ y) ys → All (λ z. z ≤ x) ys
  All-lower x y [] h k = tt
  All-lower x y (z ∷ ys) h k = (omega (arith, k.0), All-lower x y ys h k.1)

  insert-IsDesc : (x : ℕ) (ys : List ℕ) → IsDesc ys → IsDesc (insert_desc x ys)
  unfolding insert_desc
  insert-IsDesc x [] h = (tt, tt)
  insert-IsDesc x (y ∷ ys) h = elim (Bool-cases (ltb x y)) [
    | inl t ↦ rw t (All-insert x y ys (ground arith) h.0, insert-IsDesc x ys h.1)
    | inr t ↦ rw t ((ground arith, All-lower x y ys (ground arith) h.0), h)
  ]

  sort-IsDesc : (xs : List ℕ) → IsDesc (sort_desc xs)
  unfolding sort_desc
  sort-IsDesc [] = tt
  sort-IsDesc (x ∷ xs) = insert-IsDesc x (sort_desc xs) (sort-IsDesc xs)

  at_least_none : (l top : ℕ) (xs : List ℕ) → top < l → All (λ y. y ≤ top) xs → at_least l xs ≡ 0
  at_least_none l top [] h k = refl
  at_least_none l top (x ∷ xs) h k = ground (arith, at_least_none l top xs h k.1, k.0)

  nth-at_least :
      (i l : ℕ) (xs : List ℕ) → 0 < l → IsDesc xs → (l ≤ nth_or_zero i xs) ↔ (i < at_least l xs)
  unfolding nth_or_zero
  nth-at_least i l [] h d = (λ k. omega arith, λ k. omega arith)
  nth-at_least zero l (x ∷ xs) h d = elim (Bool-cases (leb l x)) [
    | inl t ↦ rw t (λ k. omega arith, λ k. ground arith)
    | inr t ↦ rw t (λ k. ground arith, λ k. ground (arith, at_least_none l x xs (ground arith) d.0))
  ]
  nth-at_least (suc i) l (x ∷ xs) h d = elim (Bool-cases (leb l x)) [
    | inl t ↦
        rw t (ground (arith, nth-at_least i l xs h d.1), ground (arith, nth-at_least i l xs h d.1))
    | inr t ↦ rw t (
      ground (arith, nth-at_least i l xs h d.1, at_least_none l x xs (ground arith) d.0),
      ground (arith, nth-at_least i l xs h d.1, at_least_none l x xs (ground arith) d.0),
    )
  ]

  -- On a leader, a position above 0 is durable for a quorum of `suc i` followers exactly when that many
  -- followers have acknowledged it or a later one.
  pub durable_lsn-at_least :
      (i l : ℕ) (n : Node)
      → is_leader n.role ≡ true
      → 0 < l
      → (l ≤ durable_lsn (suc i) n) ↔ (suc i ≤ at_least l (values n.acked_lsn))
  unfolding durable_lsn
  durable_lsn-at_least i l n r h = rw r (
    ground (
      arith,
      nth-at_least i l (sort_desc (values n.acked_lsn)) h (sort-IsDesc (values n.acked_lsn)),
      at_least-sort l (values n.acked_lsn),
    ),
    ground (
      arith,
      nth-at_least i l (sort_desc (values n.acked_lsn)) h (sort-IsDesc (values n.acked_lsn)),
      at_least-sort l (values n.acked_lsn),
    ),
  )
