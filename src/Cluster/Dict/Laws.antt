-- ===== src/Cluster/Dict/Laws.antt =====
-- Lookups and the order of the keys after an assignment to a map.
use corndogs.Prelude.{◌≡◌, refl, true, [], ◌∷◌, some, if◌then◌else◌, arith}
use corndogs.Bytes.{Bytes, equal, less}
use corndogs.Bytes.Laws.{equal_iff, less_total}
use corndogs.Cluster.Dict.{Dict, dict_get, dict_put}

module _ {A : Type 0} where
  pub dict_get-dict_put :
      (j k : Bytes) (a : A) (d : Dict A)
      → dict_get j (dict_put k a d) ≡ (if equal j k then some a else dict_get j d)
  unfolding dict_get dict_put
  dict_get-dict_put j k a [] = refl
  dict_get-dict_put j k a ((i, b) ∷ d) =
      ground (arith, equal_iff k i, equal_iff j k, equal_iff j i, dict_get-dict_put j k a d)

  -- The keys go up, from after `k`.
  abbrev pub KeysFrom : Bytes → Dict A → Type 0
  KeysFrom k [] = Unit {0}
  KeysFrom k ((j, a) ∷ d) = (less k j ≡ true) × KeysFrom j d

  abbrev pub HasSortedKeys : Dict A → Type 0
  HasSortedKeys [] = Unit {0}
  HasSortedKeys ((k, a) ∷ d) = KeysFrom k d

  KeysFrom-dict_put :
      (p k : Bytes) (a : A) (d : Dict A)
      → less p k ≡ true
      → KeysFrom p d
      → KeysFrom p (dict_put k a d)
  unfolding dict_put
  KeysFrom-dict_put p k a [] h s = (h, tt)
  KeysFrom-dict_put p k a ((j, b) ∷ d) h s =
      ground (arith, less_total k j, equal_iff k j, KeysFrom-dict_put j k a d)

  pub HasSortedKeys-dict_put :
      (k : Bytes) (a : A) (d : Dict A) → HasSortedKeys d → HasSortedKeys (dict_put k a d)
  unfolding dict_put
  HasSortedKeys-dict_put k a [] s = tt
  HasSortedKeys-dict_put k a ((j, b) ∷ d) s =
      ground (arith, less_total k j, equal_iff k j, KeysFrom-dict_put j k a d)
