-- ===== src/Cluster/Dict.antt =====
-- Go's maps from a node id, as lists in the order of the ids: what ranges over one sorts the ids first.
pub mod Laws
use corndogs.Prelude.{List, [], ◌∷◌, Option, none, some, if◌then◌else◌}
use corndogs.Bytes.{Bytes, equal, less}

abbrev pub Dict : Type 0 → Type 0
Dict A = List (Bytes × A)

module _ {A : Type 0} where
  -- m[key] = a
  unfoldable pub dict_put : Bytes → A → Dict A → Dict A
  dict_put key a [] = (key, a) ∷ []
  dict_put key a ((k, b) ∷ rest) =
      let put_later = dict_put key a rest in
      if equal key k
      then (key, a) ∷ rest
      else if less key k
      then (key, a) ∷ (k, b) ∷ rest
      else (k, b) ∷ put_later

  -- m[key], with the second result of the lookup
  unfoldable pub dict_get : Bytes → Dict A → Option A
  dict_get key [] = none
  dict_get key ((k, b) ∷ rest) =
      let later = dict_get key rest in if equal key k then some b else later

  -- m[key], the zero value where the key is missing
  abbrev pub or_zero : A → Option A → A
  or_zero z none = z
  or_zero z (some a) = a
