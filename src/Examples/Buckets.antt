-- ===== src/Examples/Buckets.antt =====
-- A bucket with the laws that the store relies on: a list of entries, read in the order of the keys.
use corndogs.Prelude.{
  ◌<◌, ◌≤◌, ◌≡◌, refl, ap, sym, ◌∙◌, Bool, true, false, [], ◌∷◌, Option, none, some, if◌then◌else◌,
  arith, leb, length, Bool-cases, inl, inr,
}
use corndogs.Bytes.{Bytes, equal, less}
use corndogs.Bytes.Laws.{equal_iff}
use corndogs.Filestore.Bolt.{
  Bolt, Entries, lookup, AscendsFrom, IsAscending, max_key_size, max_value_size,
}

unfoldable pub insert : Bytes → Bytes → Entries → Entries
insert k v [] = (k, v) ∷ []
insert k v ((j, w) ∷ l) =
    if less k j
    then (k, v) ∷ (j, w) ∷ l
    else if equal k j
    then (k, v) ∷ l
    else (j, w) ∷ insert k v l

unfoldable pub sorted : Entries → Entries
unfolding insert
sorted [] = []
sorted ((k, v) ∷ l) = insert k v (sorted l)

unfoldable pub without : Bytes → Entries → Entries
without k [] = []
without k ((j, v) ∷ l) = let rest = without k l in if equal k j then rest else (j, v) ∷ rest

less_total : (a b : Bytes) → less a b ≡ false → equal a b ≡ false → less b a ≡ true
unfolding less equal
less_total [] [] h k = cc
less_total [] (y ∷ ys) h k = cc
less_total (x ∷ xs) [] h k = refl
less_total (x ∷ xs) (y ∷ ys) h k = ground (arith, less_total xs ys)

AscendsFrom-insert :
    (p k v : Bytes) (l : Entries) → less p k ≡ true → AscendsFrom p l → AscendsFrom p (insert k v l)
unfolding insert
AscendsFrom-insert p k v [] h a = (h, tt)
AscendsFrom-insert p k v ((j, w) ∷ l) h a =
    ground (arith, less_total k j, equal_iff k j, AscendsFrom-insert j k v l)

IsAscending-insert : (k v : Bytes) (l : Entries) → IsAscending l → IsAscending (insert k v l)
unfolding insert
IsAscending-insert k v [] a = tt
IsAscending-insert k v ((j, w) ∷ l) a =
    ground (arith, less_total k j, equal_iff k j, AscendsFrom-insert j k v l)

pub IsAscending-sorted : (l : Entries) → IsAscending (sorted l)
unfolding sorted
IsAscending-sorted [] = tt
IsAscending-sorted ((k, v) ∷ l) = IsAscending-insert k v (sorted l) (IsAscending-sorted l)

lookup-insert :
    (j k v : Bytes) (l : Entries)
    → lookup j (insert k v l) ≡ (if equal j k then some v else lookup j l)
unfolding lookup insert
lookup-insert j k v [] = refl
lookup-insert j k v ((i, w) ∷ l) =
    ground (arith, equal_iff k i, equal_iff j k, equal_iff j i, lookup-insert j k v l)

pub lookup-without :
    (j k : Bytes) (l : Entries)
    → lookup j (sorted (without k l)) ≡ (if equal j k then none else lookup j (sorted l))
unfolding lookup without sorted
lookup-without j k [] = ground arith
lookup-without j k ((i, w) ∷ l) = ground (
  arith,
  equal_iff k i,
  equal_iff j k,
  equal_iff j i,
  lookup-without j k l,
  lookup-insert j i w (sorted (without k l)),
  lookup-insert j i w (sorted l),
)

unfoldable pub accepted : Bytes → Bool
accepted [] = false
accepted (x ∷ xs) = leb (length xs) 32767

unfoldable pub put_entry : Entries → Bytes → Bytes → Option Entries
unfolding accepted
put_entry b k v = if accepted k then some ((k, v) ∷ b) else none

pub get-put_entry :
    (b : Entries) (k v : Bytes) (b' : Entries) (j : Bytes)
    → put_entry b k v ≡ some b'
    → lookup j (sorted b') ≡ (if equal j k then some v else lookup j (sorted b))
unfolding put_entry sorted
get-put_entry b k v b' j h = elim (Bool-cases (accepted k)) [
  | inl t ↦
      let e : ((k, v) ∷ b) ≡ b' = ground arith in
      ap (λ (l : Entries). lookup j (sorted l)) (sym e) ∙ lookup-insert j k v (sorted b)
  | inr f ↦ absurd (ground arith)
]

pub accepts_entry :
    (b : Entries) (k v : Bytes)
    → 0 < length k
    → length k ≤ max_key_size
    → length v ≤ max_value_size
    → (b' : Entries) × (put_entry b k v ≡ some b')
unfolding put_entry
accepts_entry b [] v h1 h2 h3 = absurd (omega arith)
accepts_entry b (x ∷ xs) v h1 h2 h3 = ((x ∷ xs, v) ∷ b, ground arith)

pub refuses_entry : (b : Entries) (k v : Bytes) → max_key_size < length k → put_entry b k v ≡ none
unfolding put_entry
refuses_entry b [] v h = absurd (omega arith)
refuses_entry b (x ∷ xs) v h = ground arith

pub lookup-empty : (j : Bytes) → lookup j (sorted []) ≡ none
unfolding lookup sorted
lookup-empty j = refl

abbrev pub list_bolt : Bolt
list_bolt = record {
  Bucket = Entries;
  empty = [];
  get = λ b k. lookup k (sorted b);
  put = put_entry;
  delete = λ b k. without k b;
  entries = sorted;
  get-empty = lookup-empty;
  get-put = get-put_entry;
  get-delete = λ b k j. lookup-without j k b;
  accepts = accepts_entry;
  refuses = refuses_entry;
  ascending = IsAscending-sorted;
  lookup-entries = λ b j. refl;
}
