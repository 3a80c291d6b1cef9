-- ===== src/Bytes/Laws.antt =====
-- Equality, order and prefixes of byte strings.
use corndogs.Prelude.{
  ◌∙◌, sym, Bool-cases, inl, inr, true≢false, not, ◌≡◌, refl, [], ◌∷◌, ◌++◌, true, false, ◌↔◌,
  arith,
}
use corndogs.Bytes.{Bytes, equal, less, has_prefix}

pub equal_refl : (a : Bytes) → equal a a ≡ true
unfolding equal
equal_refl [] = refl
equal_refl (x ∷ xs) = ground (arith, equal_refl xs)

pub equal→eq : (a b : Bytes) → equal a b ≡ true → a ≡ b
unfolding equal
equal→eq [] [] h = refl
equal→eq [] (y ∷ ys) h = cc
equal→eq (x ∷ xs) [] h = cc
equal→eq (x ∷ xs) (y ∷ ys) h = ground (arith, equal→eq xs ys)

pub equal_iff : (a b : Bytes) → (equal a b ≡ true) ↔ (a ≡ b)
equal_iff a b = (equal→eq a b, λ e. rw e (equal_refl b))

pub less_irrefl : (a : Bytes) → less a a ≡ false
unfolding less
less_irrefl [] = refl
less_irrefl (x ∷ xs) = ground (arith, less_irrefl xs)

pub less_trans : (a b c : Bytes) → less a b ≡ true → less b c ≡ true → less a c ≡ true
unfolding less
less_trans [] b [] h k = ground arith
less_trans [] b (z ∷ zs) h k = refl
less_trans (x ∷ xs) [] c h k = cc
less_trans (x ∷ xs) (y ∷ ys) [] h k = cc
less_trans (x ∷ xs) (y ∷ ys) (z ∷ zs) h k = ground (arith, less_trans xs ys zs)

-- A common prefix does not matter for the order.
pub less-append : (p a b : Bytes) → less (p ++ a) (p ++ b) ≡ less a b
unfolding less
less-append [] a b = refl
less-append (x ∷ xs) a b = ground (arith, less-append xs a b)

pub has_prefix-append : (p a : Bytes) → has_prefix (p ++ a) p ≡ true
unfolding has_prefix
has_prefix-append [] a = refl
has_prefix-append (x ∷ xs) a = ground (arith, has_prefix-append xs a)

-- What has the prefix `p` is not before `p`.
pub has_prefix-less : (k p : Bytes) → has_prefix k p ≡ true → less k p ≡ false
unfolding has_prefix less
has_prefix-less [] [] h = refl
has_prefix-less (x ∷ xs) [] h = refl
has_prefix-less [] (y ∷ ys) h = cc
has_prefix-less (x ∷ xs) (y ∷ ys) h = ground (arith, has_prefix-less xs ys)

-- A key between the prefix and a key that has it, has the prefix too.
pub has_prefix-between :
    (p j k : Bytes)
    → less j p ≡ false
    → less k j ≡ false
    → has_prefix k p ≡ true
    → has_prefix j p ≡ true
unfolding has_prefix less
has_prefix-between [] j k h1 h2 h3 = refl
has_prefix-between (y ∷ ys) [] k h1 h2 h3 = cc
has_prefix-between (y ∷ ys) (x ∷ xs) [] h1 h2 h3 = cc
has_prefix-between (y ∷ ys) (x ∷ xs) (z ∷ zs) h1 h2 h3 = ground (arith, has_prefix-between ys xs zs)

pub less_asym : (a b : Bytes) → less a b ≡ true → less b a ≡ false
less_asym a b h = elim (Bool-cases (less b a)) [
  | inl t ↦ elim (true≢false (sym (less_trans a b a h t) ∙ less_irrefl a)) [ ]
  | inr t ↦ t
]

-- Of two different texts one is before the other.
pub less_total : (a b : Bytes) → equal a b ≡ false → less a b ≡ not (less b a)
unfolding less equal
less_total [] [] h = ground arith
less_total [] (y ∷ ys) h = refl
less_total (x ∷ xs) [] h = refl
less_total (x ∷ xs) (y ∷ ys) h = ground (arith, less_total xs ys)

pub equal_comm : (a b : Bytes) → equal a b ≡ equal b a
unfolding equal
equal_comm [] [] = refl
equal_comm [] (y ∷ ys) = refl
equal_comm (x ∷ xs) [] = refl
equal_comm (x ∷ xs) (y ∷ ys) = ground (arith, equal_comm xs ys)
