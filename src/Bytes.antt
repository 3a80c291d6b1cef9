-- ===== src/Bytes.antt =====
-- Go's byte slices and strings, and the parts of the standard packages `bytes` and
-- `encoding/binary` that the server uses. A byte is a number below 256.
pub mod Laws
pub mod BigEndian
pub mod Sort
use corndogs.Prelude.{
  ℕ, zero, suc, ◌+◌, ◌*◌, ◌/◌, ◌%◌, ◌^◌, ◌<◌, List, [], ◌∷◌, Bool, true, false, ◌&&◌, ltb, ◌==◌,
  if◌then◌else◌,
}

abbrev pub Bytes : Type 0
Bytes = List ℕ

-- bytes.Equal, and `==` on strings
unfoldable pub equal : Bytes → Bytes → Bool
equal [] [] = true
equal [] (y ∷ ys) = false
equal (x ∷ xs) [] = false
equal (x ∷ xs) (y ∷ ys) = x == y && equal xs ys

-- bytes.Compare(a, b) < 0, and `<` on strings
unfoldable pub less : Bytes → Bytes → Bool
less [] [] = false
less [] (y ∷ ys) = true
less (x ∷ xs) [] = false
less (x ∷ xs) (y ∷ ys) = if ltb x y then true else (x == y && less xs ys)

-- bytes.HasPrefix
unfoldable pub has_prefix : Bytes → Bytes → Bool
has_prefix k [] = true
has_prefix [] (p ∷ ps) = false
has_prefix (x ∷ xs) (p ∷ ps) = x == p && has_prefix xs ps

-- The `n` low bytes of `v`, big-endian, in front of `rest`.
unfoldable pub be_onto : ℕ → ℕ → Bytes → Bytes
be_onto zero v rest = rest
be_onto (suc n) v rest = be_onto n (v / 256) (v % 256 ∷ rest)

-- binary.BigEndian.PutUint64 and PutUint32 write `be 8 v` and `be 4 v`
unfoldable pub be : ℕ → ℕ → Bytes
unfolding be_onto
be n v = be_onto n v []

-- binary.BigEndian.Uint64 and Uint32, over the bytes that are there
unfoldable pub of_be : ℕ → Bytes → ℕ
of_be acc [] = acc
of_be acc (x ∷ xs) = of_be (acc * 256 + x) xs

-- The number that a word stands for is below 2 ^ 64.
abbrev pub IsWord64 : ℕ → Type 0
IsWord64 v = v < 2 ^ 64

-- bytes.IndexByte for the separator, with the split made by the slices around it
unfoldable pub cut : ℕ → Bytes → Bytes × Bytes
cut c [] = ([], [])
cut c (x ∷ xs) = let (before, after) = cut c xs in if x == c then ([], xs) else (x ∷ before, after)
