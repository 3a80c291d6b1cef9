-- ===== src/Filestore/Counts/Tally.antt =====
-- The tally of task keys of corndogs/server/store/filestore/counts.go: what it counts, and its keys.
use corndogs.Prelude.{
  ℕ, ◌+◌, ◌%◌, ◌^◌, ◌<◌, ◌≤◌, ◌≡◌, refl, ap, sym, true, [], ◌∷◌, none, if◌then◌else◌, arith, length,
  Bool-cases, inl, inr,
}
use corndogs.Bytes.{Bytes, equal, less}
use corndogs.Bytes.Laws.{equal_iff, less_irrefl, less_trans}
use corndogs.Filestore.Task.{add64}
use corndogs.Filestore.Bolt.{Entries, max_key_size}
use corndogs.Filestore.Records.{count_key}
use corndogs.Cluster.Dict.{Dict, dict_get, dict_put, or_zero}
use corndogs.Cluster.Dict.Laws.{dict_get-dict_put, KeysFrom, HasSortedKeys, HasSortedKeys-dict_put}
use corndogs.Filestore.Counts.{counted_as, count_one, tally}

-- How many of the keys count for `k`.
unfoldable pub occurrences : Bytes → Entries → ℕ
occurrences k [] = 0
occurrences k ((j, v) ∷ es) =
    let later = occurrences k es in if equal k (counted_as j) then later + 1 else later

abbrev pub count_in : Bytes → Dict ℕ → ℕ
count_in k d = or_zero 0 (dict_get k d)

count_in-count_one :
    (k j : Bytes) (d : Dict ℕ)
    → count_in k (count_one j d) ≡ (if equal k j then (count_in k d + 1) % 2 ^ 64 else count_in k d)
unfolding count_one
count_in-count_one k j d = elim (Bool-cases (equal k j)) [
  | inl t ↦
      rw (dict_get-dict_put k j (add64 (count_in j d) 1) d, t)
        (ap (λ i. (count_in i d + 1) % 2 ^ 64) (sym ((equal_iff k j).0 t)))
  | inr t ↦ rw (dict_get-dict_put k j (add64 (count_in j d) 1) d, t) refl
]

pub count_in-tally :
    (k : Bytes) (es : Entries) (d : Dict ℕ)
    → count_in k d < 2 ^ 64
    → count_in k (tally es d) ≡ (count_in k d + occurrences k es) % 2 ^ 64
unfolding tally occurrences
count_in-tally k [] d h = omega (arith, h)
count_in-tally k ((j, v) ∷ es) d h =
    ground (
      arith,
      count_in-count_one k (counted_as j) d,
      count_in-tally k es (count_one (counted_as j) d),
    )

pub tally-HasSortedKeys : (es : Entries) (d : Dict ℕ) → HasSortedKeys d → HasSortedKeys (tally es d)
unfolding tally count_one
tally-HasSortedKeys [] d s = s
tally-HasSortedKeys ((k, v) ∷ es) d s =
    tally-HasSortedKeys es _ (HasSortedKeys-dict_put (counted_as k) _ d s)

-- bbolt takes the key.
abbrev FitsKey : Bytes → Type 0
FitsKey k = (0 < length k) × (length k ≤ max_key_size)

abbrev pub HasFitKeys : Dict ℕ → Type 0
HasFitKeys [] = Unit {0}
HasFitKeys ((k, n) ∷ d) = FitsKey k × HasFitKeys d

HasFitKeys-dict_put :
    (k : Bytes) (n : ℕ) (d : Dict ℕ) → FitsKey k → HasFitKeys d → HasFitKeys (dict_put k n d)
unfolding dict_put
HasFitKeys-dict_put k n [] f s = (f, tt)
HasFitKeys-dict_put k n ((j, m) ∷ d) f s = ground (arith, HasFitKeys-dict_put k n d)

-- The count keys of the tasks in a bucket are not too long.
abbrev pub CountKeysFit : Entries → Type 0
CountKeysFit [] = Unit {0}
CountKeysFit ((k, v) ∷ es) = (length (counted_as k) ≤ max_key_size) × CountKeysFit es

length-separated : (q s : Bytes) → 0 < length (count_key q s)
unfolding count_key
length-separated [] s = omega arith
length-separated (x ∷ q) s = omega arith

counted_as-FitsKey : (k : Bytes) → length (counted_as k) ≤ max_key_size → FitsKey (counted_as k)
unfolding counted_as
counted_as-FitsKey k h = (length-separated _ _, h)

pub tally-HasFitKeys :
    (es : Entries) (d : Dict ℕ) → CountKeysFit es → HasFitKeys d → HasFitKeys (tally es d)
unfolding tally count_one
tally-HasFitKeys [] d h s = s
tally-HasFitKeys ((k, v) ∷ es) d h s =
    tally-HasFitKeys es _ h.1 (HasFitKeys-dict_put (counted_as k) _ d (counted_as-FitsKey k h.0) s)

dict_get-KeysFrom :
    (j k : Bytes) (d : Dict ℕ) → (less j k ≡ true) → KeysFrom k d → dict_get j d ≡ none
unfolding dict_get
dict_get-KeysFrom j k [] h s = refl
dict_get-KeysFrom j k ((i, n) ∷ d) h s =
    ground (arith, equal_iff j i, less_irrefl i, less_trans j k i, dict_get-KeysFrom j i d)

pub dict_get-first : (k : Bytes) (d : Dict ℕ) → KeysFrom k d → dict_get k d ≡ none
unfolding dict_get
dict_get-first k [] s = refl
dict_get-first k ((i, n) ∷ d) s =
    ground (arith, equal_iff k i, less_irrefl i, dict_get-KeysFrom k i d)

pub HasSortedKeys-tail : (k : Bytes) (d : Dict ℕ) → KeysFrom k d → HasSortedKeys d
HasSortedKeys-tail k [] s = tt
HasSortedKeys-tail k ((j, n) ∷ d) s = s.1
