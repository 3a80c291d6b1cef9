-- ===== src/Service/Handlers/Queues.antt =====
-- compact of resilience.go over sorted names.
use corndogs.Prelude.{
  ◌≡◌, refl, Bool, true, false, List, [], ◌∷◌, Bool-cases, inl, inr, ◌||◌, ◌&&◌, arith, All,
}
use corndogs.Bytes.{Bytes, less, equal}
use corndogs.Bytes.Laws.{less_asym, less_total, equal_comm, equal_iff}
use corndogs.Bytes.Sort.{IsOrdered, contains}
use corndogs.Service.Handlers.{compact, compact_after}

-- Each name is before the next.
abbrev ascending_after : Bytes → List Bytes → Bool
ascending_after prev [] = true
ascending_after prev (x ∷ xs) = less prev x && ascending_after x xs

abbrev pub ascending : List Bytes → Bool
ascending [] = true
ascending (x ∷ xs) = ascending_after x xs

compact_after-ascending :
    (prev : Bytes) (xs : List Bytes)
    → All (λ y. less y prev ≡ false) xs
    → IsOrdered xs
    → ascending_after prev (compact_after prev xs) ≡ true
compact_after-ascending prev [] h k = refl
compact_after-ascending prev (x ∷ xs) h k = elim (Bool-cases (equal x prev)) [
  | inl t ↦ rw (t, (equal_iff x prev).0 t) (compact_after-ascending prev xs h.1 k.1)
  | inr t ↦ ground (
    arith,
    h.0,
    less_total x prev t,
    less_asym prev x,
    less_total prev x,
    equal_comm x prev,
    compact_after-ascending x xs k.0 k.1,
  )
]

contains-compact_after :
    (p prev : Bytes) (xs : List Bytes)
    → (equal p prev || contains p (compact_after prev xs)) ≡ (equal p prev || contains p xs)
contains-compact_after p prev [] = refl
contains-compact_after p prev (x ∷ xs) = elim (Bool-cases (equal x prev)) [
  | inl t ↦ rw (t, (equal_iff x prev).0 t) (ground (arith, contains-compact_after p prev xs))
  | inr t ↦ ground (arith, contains-compact_after p x xs)
]

pub compact-ascending : (xs : List Bytes) → IsOrdered xs → ascending (compact xs) ≡ true
unfolding compact
compact-ascending [] h = refl
compact-ascending (x ∷ xs) h = compact_after-ascending x xs h.0 h.1

pub contains-compact : (p : Bytes) (xs : List Bytes) → contains p (compact xs) ≡ contains p xs
unfolding compact
contains-compact p [] = refl
contains-compact p (x ∷ xs) = contains-compact_after p x xs
