-- ===== src/Bytes/Sort.antt =====
-- sort.Strings, as an insertion sort.
use corndogs.Prelude.{
  ◌≡◌, refl, Bool, false, List, [], ◌∷◌, if◌then◌else◌, Bool-cases, inl, inr, ◌||◌, arith, All,
}
use corndogs.Bytes.{Bytes, less, equal}
use corndogs.Bytes.Laws.{less_asym}

unfoldable pub insert_name : Bytes → List Bytes → List Bytes
insert_name p [] = p ∷ []
insert_name p (x ∷ xs) = let later = insert_name p xs in if less x p then x ∷ later else p ∷ x ∷ xs

unfoldable pub sort_names : List Bytes → List Bytes
unfolding insert_name
sort_names [] = []
sort_names (x ∷ xs) = insert_name x (sort_names xs)

-- Each name is not after the next.
abbrev pub IsOrdered : List Bytes → Type 0
IsOrdered [] = Unit {0}
IsOrdered (x ∷ xs) = All (λ y. less y x ≡ false) xs × IsOrdered xs

All-insert_name :
    (x p : Bytes) (ys : List Bytes)
    → less p x ≡ false
    → All (λ y. less y x ≡ false) ys
    → All (λ y. less y x ≡ false) (insert_name p ys)
unfolding insert_name
All-insert_name x p [] h k = (h, tt)
All-insert_name x p (y ∷ ys) h k = elim (Bool-cases (less y p)) [
  | inl t ↦ rw t (k.0, All-insert_name x p ys h k.1)
  | inr t ↦ rw t (h, k)
]

-- What is not before `y` is not before what is not after `y`.
not_less_trans : (x y z : Bytes) → less y x ≡ false → less z y ≡ false → less z x ≡ false
unfolding less
not_less_trans [] y [] h k = refl
not_less_trans [] y (c ∷ z) h k = refl
not_less_trans (a ∷ x) [] z h k = ground arith
not_less_trans (a ∷ x) (b ∷ y) [] h k = ground arith
not_less_trans (a ∷ x) (b ∷ y) (c ∷ z) h k = ground (arith, not_less_trans x y z)

sort_cons :
    (p x : Bytes) (xs : List Bytes)
    → less x p ≡ false
    → All (λ y. less y x ≡ false) xs
    → All (λ y. less y p ≡ false) xs
sort_cons p x [] h k = tt
sort_cons p x (y ∷ ys) h k = (not_less_trans p x y h k.0, sort_cons p x ys h k.1)

insert_name-IsOrdered : (p : Bytes) (xs : List Bytes) → IsOrdered xs → IsOrdered (insert_name p xs)
unfolding insert_name
insert_name-IsOrdered p [] h = (tt, tt)
insert_name-IsOrdered p (x ∷ xs) h = elim (Bool-cases (less x p)) [
  | inl t ↦ rw t (All-insert_name x p xs (less_asym x p t) h.0, insert_name-IsOrdered p xs h.1)
  | inr t ↦ rw t ((t, sort_cons p x xs t h.0), h)
]

pub sort_names-IsOrdered : (xs : List Bytes) → IsOrdered (sort_names xs)
unfolding sort_names
sort_names-IsOrdered [] = tt
sort_names-IsOrdered (x ∷ xs) = insert_name-IsOrdered x (sort_names xs) (sort_names-IsOrdered xs)

abbrev pub contains : Bytes → List Bytes → Bool
contains p [] = false
contains p (x ∷ xs) = equal p x || contains p xs

contains-insert_name :
    (p x : Bytes) (xs : List Bytes) → contains p (insert_name x xs) ≡ (equal p x || contains p xs)
unfolding insert_name
contains-insert_name p x [] = refl
contains-insert_name p x (y ∷ ys) = ground (arith, contains-insert_name p x ys)

pub contains-sort_names : (p : Bytes) (xs : List Bytes) → contains p (sort_names xs) ≡ contains p xs
unfolding sort_names
contains-sort_names p [] = refl
contains-sort_names p (x ∷ xs) =
    ground (arith, contains-insert_name p x (sort_names xs), contains-sort_names p xs)
