-- ===== src/Filestore/Bolt/Seek.antt =====
-- Where a cursor stands after Seek: at the first key with the prefix, if there is one.
use corndogs.Prelude.{
  ◌≡◌, refl, ap, sym, subst, ◌∙◌, true, false, true≢false, [], ◌∷◌, none, some, some-ne-none,
  if◌then◌else◌, Bool-cases, inl, inr,
}
use corndogs.Bytes.{Bytes, equal, less, has_prefix}
use corndogs.Bytes.Laws.{
  less_asym, equal_iff, less_irrefl, less_trans, has_prefix-less, has_prefix-between,
}
use corndogs.Filestore.Bolt.{Entries, lookup, AscendsFrom, IsAscending, seek, head_in}

-- What stands behind `i` in an ascending list is after `i`.
later-less : (i j w : Bytes) (l : Entries) → AscendsFrom i l → lookup j l ≡ some w → less i j ≡ true
unfolding lookup
later-less i j w [] h e = elim (some-ne-none w (sym e)) [ ]
later-less i j w ((k, v) ∷ l) h e = elim (Bool-cases (equal j k)) [
  | inl q ↦ subst (λ x. less i x ≡ true) (sym ((equal_iff j k).0 q)) h.0
  | inr q ↦
      less_trans i k j h.0
        (later-less k j w l h.1 (sym (ap (λ b. if b then some v else lookup j l) q) ∙ e))
]

IsAscending-tail : (i : Bytes) (l : Entries) → AscendsFrom i l → IsAscending l
IsAscending-tail i [] h = tt
IsAscending-tail i ((k, v) ∷ l) h = h.1

-- A first entry with the prefix, that is not after `j`.
abbrev pub FirstFor : Bytes → Bytes → Entries → Entries → Type 0
FirstFor p j l rest =
    (k : Bytes) × (v : Bytes) × (head_in p rest ≡ some v)
    × (lookup k l ≡ some v)
    × (has_prefix k p ≡ true)
    × (less j k ≡ false)

first-here :
    (p j i v : Bytes) (l : Entries)
    → has_prefix i p ≡ true
    → less j i ≡ false
    → FirstFor p j ((i, v) ∷ l) ((i, v) ∷ l)
unfolding head_in lookup
first-here p j i v l h o = (
  i,
  v,
  ap (λ b. if b then some v else none) h,
  ap (λ b. if b then some v else lookup i l) ((equal_iff i i).1 refl),
  h,
  o,
)

first-later :
    (p j i v : Bytes) (l rest : Entries)
    → less i p ≡ true
    → FirstFor p j l rest
    → FirstFor p j ((i, v) ∷ l) rest
unfolding lookup
first-later p j i v l rest h (k, w, e, f, q, o) =
    let other : equal k i ≡ false = elim (Bool-cases (equal k i)) [
      | inl s ↦
          elim (true≢false
            (sym h ∙ (ap (λ x. less x p) (sym ((equal_iff k i).0 s)) ∙ has_prefix-less k p q))) [ ]
      | inr s ↦ s
    ] in
    (k, w, e, ap (λ b. if b then some v else lookup k l) other ∙ f, q, o)

pub first_lem :
    (p j w : Bytes) (l : Entries)
    → IsAscending l
    → lookup j l ≡ some w
    → has_prefix j p ≡ true
    → FirstFor p j l (seek p l)
unfolding seek lookup
first_lem p j w [] a e h = elim (some-ne-none w (sym e)) [ ]
first_lem p j w ((i, v) ∷ l) a e h = elim (Bool-cases (equal j i)) [
  | inl q ↦
      let same : j ≡ i = (equal_iff j i).0 q in
      let pre : has_prefix i p ≡ true = subst (λ x. has_prefix x p ≡ true) same h in
      subst (FirstFor p j ((i, v) ∷ l))
        (sym (ap (λ b. if b then seek p l else (i, v) ∷ l) (has_prefix-less i p pre)))
        (first-here p j i v l pre (subst (λ x. less x i ≡ false) (sym same) (less_irrefl i)))
  | inr q ↦
      let later : lookup j l ≡ some w = sym (ap (λ b. if b then some v else lookup j l) q) ∙ e in
      elim (Bool-cases (less i p)) [
        | inl b ↦
            subst (FirstFor p j ((i, v) ∷ l)) (sym (ap (λ c. if c then seek p l else (i, v) ∷ l) b))
              (first-later p j i v l (seek p l) b
                (first_lem p j w l (IsAscending-tail i l a) later h))
        | inr b ↦
            let o : less j i ≡ false = less_asym i j (later-less i j w l a later) in
            subst (FirstFor p j ((i, v) ∷ l)) (sym (ap (λ c. if c then seek p l else (i, v) ∷ l) b))
              (first-here p j i v l (has_prefix-between p i j b o h) o)
      ]
]
