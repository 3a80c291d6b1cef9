-- ===== src/Cluster/Floats.antt =====
-- Go's float64 and math/rand, as far as corndogs/server/cluster uses them: the bids are floats, and the
-- random source of a node is drawn from.
use corndogs.Prelude.{ℕ, ◌<◌, ◌≡◌, Bool, true, false}

-- `gt` and `same` are `>` and `==`, which are both false at a NaN.
pub record Floats : Type 1 where
  pub Float : Type 0
  pub zero_float : Float
  pub minus_one : Float
  pub times : Float → Float → Float
  pub gt : Float → Float → Bool
  pub same : Float → Float → Bool
  -- rand.Rand, with Float64 and Int63n
  pub Rand : Type 0
  pub float64 : Rand → Float × Rand
  pub int63n : Rand → ℕ → ℕ × Rand
  pub int63n-bound : (r : Rand) (n : ℕ) → 0 < n → (int63n r n).0 < n
  pub gt-asym : (a b : Float) → gt a b ≡ true → gt b a ≡ false
  pub gt-same : (a b : Float) → gt a b ≡ true → same a b ≡ false
  pub same_comm : (a b : Float) → same a b ≡ same b a
