-- ===== src/Bytes/BigEndian.antt =====
-- Big-endian words: length, round trip, and that their order is the order of the numbers.
use native.Mathlib.Nat.{pow-suc}
use corndogs.Prelude.{
  ℕ, zero, suc, ◌+◌, ◌*◌, ◌/◌, ◌%◌, ◌^◌, ◌<◌, ◌≡◌, refl, ap, ◌∙◌, ◌∷◌, ◌++◌, true, ◌&&◌, arith, ltb,
  ◌==◌, if◌then◌else◌, length,
}
use corndogs.Bytes.{Bytes, less, be_onto, of_be}

pub be-append : (n v : ℕ) (a b : Bytes) → be_onto n v a ++ b ≡ be_onto n v (a ++ b)
unfolding be_onto
be-append zero v a b = refl
be-append (suc n) v a b = be-append n (v / 256) (v % 256 ∷ a) b

pub length-be_onto : (n v : ℕ) (a : Bytes) → length (be_onto n v a) ≡ n + length a
unfolding be_onto
length-be_onto zero v a = omega arith
length-be_onto (suc n) v a = omega (arith, length-be_onto n (v / 256) (v % 256 ∷ a))

div256-lt : (n v : ℕ) → v < 256 ^ suc n → v / 256 < 256 ^ n
div256-lt n v h = omega (arith, pow-suc 256 n)

pub of_be-be_onto :
    (n acc v : ℕ) (a : Bytes)
    → v < 256 ^ n
    → of_be acc (be_onto n v a) ≡ of_be (acc * 256 ^ n + v) a
unfolding of_be be_onto
of_be-be_onto zero acc v a h = ap (λ (t : ℕ). of_be t a) (omega arith)
of_be-be_onto (suc n) acc v a h =
    of_be-be_onto n acc (v / 256) (v % 256 ∷ a) (div256-lt n v h)
    ∙ ap (λ (t : ℕ). of_be t a)
        (omega (arith, pow-suc 256 n, ap (λ (t : ℕ). acc * t) (pow-suc 256 n)))

-- The order of two blocks of the same width is the order of the numbers, then of what follows.
pub less-be_onto :
    (n v w : ℕ) (a b : Bytes)
    → v < 256 ^ n
    → w < 256 ^ n
    → less (be_onto n v a) (be_onto n w b) ≡ (if ltb v w then true else (v == w && less a b))
unfolding be_onto less
less-be_onto zero v w a b h k = ground arith
less-be_onto (suc n) v w a b h k =
    rw
      (less-be_onto n (v / 256) (w / 256) (v % 256 ∷ a) (w % 256 ∷ b) (div256-lt n v h)
        (div256-lt n w k))
      (ground arith)

-- Two blocks of the same width differ where their numbers do.
pub be_onto-injective :
    (n v w : ℕ) (a b : Bytes)
    → v < 256 ^ n
    → w < 256 ^ n
    → be_onto n v a ≡ be_onto n w b
    → (v ≡ w) × (a ≡ b)
unfolding be_onto
be_onto-injective zero v w a b h k e = (omega arith, e)
be_onto-injective (suc n) v w a b h k e = ground (
  arith,
  be_onto-injective n (v / 256) (w / 256) (v % 256 ∷ a) (w % 256 ∷ b) (div256-lt n v h)
      (div256-lt n w k),
)
