-- ===== src/Service/Digest/PrefixFree.antt =====
-- The fields of a digest text can be read off it, one after another.
use corndogs.Prelude.{
  ℕ, ◌≡◌, refl, ap, ap₂, sym, ◌∙◌, Bool, true, false, [], ◌∷◌, ◌++◌, append_assoc, append-nil,
  Option, none, some, length, arith, ◌==◌,
}
use corndogs.Bytes.{Bytes, IsWord64, be}
use corndogs.Bytes.BigEndian.{be-append, be_onto-injective}

pub append-cancel : (p x y : Bytes) → p ++ x ≡ p ++ y → x ≡ y
append-cancel [] x y h = h
append-cancel (c ∷ p) x y h = append-cancel p x y (ground arith)

-- Two texts of the same length in front determine the rest.
append-injective : (s t x y : Bytes) → length s ≡ length t → s ++ x ≡ t ++ y → (s ≡ t) × (x ≡ y)
append-injective [] [] x y l h = (refl, h)
append-injective [] (c ∷ t) x y l h = absurd (omega arith)
append-injective (c ∷ s) [] x y l h = absurd (omega arith)
append-injective (c ∷ s) (d ∷ t) x y l h = ground (arith, append-injective s t x y)

be8-injective :
    (v w : ℕ) (x y : Bytes)
    → IsWord64 v
    → IsWord64 w
    → be 8 v ++ x ≡ be 8 w ++ y
    → (v ≡ w) × (x ≡ y)
unfolding be
be8-injective v w x y h k e =
    be_onto-injective 8 v w x y h k (sym (be-append 8 v [] x) ∙ e ∙ be-append 8 w [] y)

-- A text behind its length.
pub block-injective :
    (s t x y : Bytes)
    → IsWord64 (length s)
    → IsWord64 (length t)
    → (be 8 (length s) ++ s) ++ x ≡ (be 8 (length t) ++ t) ++ y
    → (s ≡ t) × (x ≡ y)
block-injective s t x y h k e =
    let (l, r) =
      be8-injective (length s) (length t) (s ++ x) (t ++ y) h k
        (sym (append_assoc (be 8 (length s)) s x) ∙ e ∙ append_assoc (be 8 (length t)) t y) in
    append-injective s t x y l r

-- The encoded value and what follows it can be read off the bytes.
pub record PrefixFree {A : Type 0} (Ok : A → Type 0) (field : A → Bytes) : Type 0 where
  apart : (a b : A) (x y : Bytes) → Ok a → Ok b → field a ++ x ≡ field b ++ y → (a ≡ b) × (x ≡ y)

module _ {A B : Type 0} where
  abbrev pub both : (A → Bytes) → (B → Bytes) → A × B → Bytes
  both field field' (a, b) = field a ++ field' b

  abbrev pub OkBoth : (A → Type 0) → (B → Type 0) → A × B → Type 0
  OkBoth Ok Ok' (a, b) = Ok a × Ok' b

  pub both-PrefixFree :
      {Ok : A → Type 0} {Ok' : B → Type 0} {field : A → Bytes} {field' : B → Bytes}
      → PrefixFree Ok field
      → PrefixFree Ok' field'
      → PrefixFree (OkBoth Ok Ok') (both field field')
  both-PrefixFree {field = field} {field' = field'} h k = record {
    apart = λ p q x y f g e.
        let (ea, r) = h.apart p.0 q.0 (field' p.1 ++ x) (field' q.1 ++ y) f.0 g.0 (
          sym (append_assoc (field p.0) (field' p.1) x)
          ∙ e
          ∙ append_assoc (field q.0) (field' q.1) y) in
        let (eb, s) = k.apart p.1 q.1 x y f.1 g.1 r in (ap₂ (λ a b. (a, b)) ea eb, s);
  }

abbrev pub text_field : Bytes → Bytes
text_field s = b's' ∷ (be 8 (length s) ++ s)

abbrev pub bytes_field : Bytes → Bytes
bytes_field s = b'b' ∷ (be 8 (length s) ++ s)

abbrev pub int_field : ℕ → Bytes
int_field v = b'i' ∷ be 8 v

abbrev pub bool_field : Bool → Bytes
bool_field true = b't' ∷ 1 ∷ []
bool_field false = b't' ∷ 0 ∷ []

abbrev pub opt_field : {A : Type 0} → (A → Bytes) → Option A → Bytes
opt_field field none = b'n' ∷ []
opt_field field (some a) = field a

-- The sizes of Go's texts are 64-bit words.
abbrev pub IsText : Bytes → Type 0
IsText s = IsWord64 (length s)

abbrev pub OkOption : {A : Type 0} → (A → Type 0) → Option A → Type 0
OkOption Ok none = Unit
OkOption Ok (some a) = Ok a

tail_lem : (c d : ℕ) (x y : Bytes) → (c ∷ x) ≡ (d ∷ y) → (c ≡ d) × (x ≡ y)
tail_lem c d x y e = (ground arith, ground arith)

pub text_field-PrefixFree : PrefixFree IsText text_field
text_field-PrefixFree = record {
  apart = λ s t x y h k e. block-injective s t x y h k (tail_lem _ _ _ _ e).1;
}

pub bytes_field-PrefixFree : PrefixFree IsText bytes_field
bytes_field-PrefixFree = record {
  apart = λ s t x y h k e. block-injective s t x y h k (tail_lem _ _ _ _ e).1;
}

pub int_field-PrefixFree : PrefixFree IsWord64 int_field
int_field-PrefixFree = record {
  apart = λ v w x y h k e. be8-injective v w x y h k (tail_lem _ _ _ _ e).1;
}

pub bool_field-PrefixFree : PrefixFree (λ b. Unit {0}) bool_field
bool_field-PrefixFree = record { apart = cases }
  where
    cases :
        (a b : Bool) (x y : Bytes)
        → Unit {0}
        → Unit {0}
        → bool_field a ++ x ≡ bool_field b ++ y
        → (a ≡ b) × (x ≡ y)
    cases true true x y h k e = (refl, ground arith)
    cases false false x y h k e = (refl, ground arith)
    cases true false x y h k e = ground arith
    cases false true x y h k e = ground arith

module _ {A : Type 0} where
  -- A field that starts with another byte than an absent one stays readable when it is optional.
  pub opt_field-PrefixFree :
      {Ok : A → Type 0} {field : A → Bytes} (tag : ℕ) (rest : A → Bytes)
      → ((a : A) → field a ≡ tag ∷ rest a)
      → (tag == b'n') ≡ false
      → PrefixFree Ok field
      → PrefixFree (OkOption Ok) (opt_field field)
  opt_field-PrefixFree {Ok = Ok} {field = field} tag rest starts other h = record { apart = cases }
    where
      differ : (a : A) (x y : Bytes) → field a ++ x ≡ b'n' ∷ y → ⊥
      differ a x y e =
          let q : tag ≡ b'n' =
            (tail_lem tag b'n' (rest a ++ x) y (ap (λ f. f ++ x) (sym (starts a)) ∙ e)).0 in
          ground arith

      cases :
          (a b : Option A) (x y : Bytes)
          → OkOption Ok a
          → OkOption Ok b
          → opt_field field a ++ x ≡ opt_field field b ++ y
          → (a ≡ b) × (x ≡ y)
      cases none none x y f g e = (refl, (tail_lem _ _ _ _ e).1)
      cases none (some b) x y f g e = elim (differ b y x (sym e)) [ ]
      cases (some a) none x y f g e = elim (differ a x y e) [ ]
      cases (some a) (some b) x y f g e = let (p, q) = h.apart a b x y f g e in (ap some p, q)

module _ {A : Type 0} where
  -- The whole text determines the value.
  pub PrefixFree-injective :
      {Ok : A → Type 0} {field : A → Bytes} (head : Bytes)
      → PrefixFree Ok field
      → (a b : A) → Ok a
      → Ok b
      → head ++ field a ≡ head ++ field b
      → a ≡ b
  PrefixFree-injective {field = field} head h a b f g e =
      (h.apart a b [] [] f g (
        append-nil (field a)
        ∙ append-cancel head (field a) (field b) e
        ∙ sym (append-nil (field b)))).0
