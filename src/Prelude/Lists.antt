-- ===== src/Prelude/Lists.antt =====
-- Lists over the native numbers, predicates on lists, and the updates, deletions and searches by
-- a test that SQL statements and Go loops make.
use Prim.Native.Nat.{ℕ, suc, ◌+◌}
use mathlib.Core.Path.{◌≡◌, refl}
use mathlib.Core.Logic.{inl, inr}
use mathlib.Core.Bool.{Bool, true, false, ◌||◌}
use mathlib.Core.Option.{Option, none, some}
use mathlib.Core.List.{List, [], ◌∷◌, ◌++◌}
use native.Mathlib.Omega.{arith}
use pmacct_suricata_analyzer.Prelude.Tests.{if◌then◌else◌, Bool-cases}

module _ {ℓ} {A : Type ℓ} where
  abbrev pub length : List A → ℕ
  length [] = 0
  length (x ∷ xs) = suc (length xs)

  pub length-append : (xs ys : List A) → length (xs ++ ys) ≡ length xs + length ys
  length-append [] ys = omega arith
  length-append (x ∷ xs) ys = omega (arith, length-append xs ys)

  abbrev pub any : (A → Bool) → List A → Bool
  any p [] = false
  any p (x ∷ xs) = p x || any p xs

  -- The rows that a test keeps.
  abbrev pub keep : (A → Bool) → List A → List A
  keep p [] = []
  keep p (x ∷ xs) = let rest = keep p xs in if p x then x ∷ rest else rest

  -- The rows that a test drops are gone (`DELETE … WHERE`).
  abbrev pub drop_where : (A → Bool) → List A → List A
  drop_where p [] = []
  drop_where p (x ∷ xs) = let rest = drop_where p xs in if p x then rest else x ∷ rest

  -- `UPDATE … SET f WHERE p`.
  abbrev pub update_where : (A → Bool) → (A → A) → List A → List A
  update_where p f [] = []
  update_where p f (x ∷ xs) = (if p x then f x else x) ∷ update_where p f xs

  -- `SELECT count(*) … WHERE p`, and the rows that a statement affects.
  abbrev pub count_where : (A → Bool) → List A → ℕ
  count_where p [] = 0
  count_where p (x ∷ xs) = let rest = count_where p xs in if p x then suc rest else rest

  -- The first element that passes a test.
  abbrev pub find : (A → Bool) → List A → Option A
  find p [] = none
  find p (x ∷ xs) = let rest = find p xs in if p x then some x else rest

  pub any-append : (p : A → Bool) (xs ys : List A) → any p (xs ++ ys) ≡ (any p xs || any p ys)
  any-append p [] ys = refl
  any-append p (x ∷ xs) ys = ground (arith, any-append p xs ys)

  pub any-find : (p : A → Bool) (xs : List A) (a : A) → find p xs ≡ some a → any p xs ≡ true
  any-find p [] a h = ground arith
  any-find p (x ∷ xs) a h = ground (arith, any-find p xs a)

  pub count_where-snoc :
      (p : A → Bool) (xs : List A) (a : A)
      → p a ≡ true
      → count_where p (xs ++ a ∷ []) ≡ suc (count_where p xs)
  count_where-snoc p [] a h = rw h
  count_where-snoc p (x ∷ xs) a h = ground (arith, count_where-snoc p xs a h)

  pub any-update :
      (p q : A → Bool) (f : A → A) (xs : List A)
      → ((a : A) → p a ≡ true → q (f a) ≡ true)
      → any p xs ≡ true
      → any q (update_where p f xs) ≡ true
  any-update p q f [] h e = absurd (ground arith)
  any-update p q f (x ∷ xs) h e = elim (Bool-cases (p x)) [
    | inl y ↦ rw y (rw (h x y) refl)
    | inr n ↦ ground (arith, any-update p q f xs h)
  ]

  pub count_where-none : (p : A → Bool) (xs : List A) → any p xs ≡ false → count_where p xs ≡ 0
  count_where-none p [] h = refl
  count_where-none p (x ∷ xs) h = ground (arith, count_where-none p xs)

  pub find-eq-none_of_any : (p : A → Bool) (xs : List A) → any p xs ≡ false → find p xs ≡ none
  find-eq-none_of_any p [] h = refl
  find-eq-none_of_any p (x ∷ xs) h = ground (arith, find-eq-none_of_any p xs)

  pub find-passes : (p : A → Bool) (xs : List A) (a : A) → find p xs ≡ some a → p a ≡ true
  find-passes p [] a h = ground arith
  find-passes p (x ∷ xs) a h = ground (arith, find-passes p xs a)

  pub find-eq-none_iff_any : (p : A → Bool) (xs : List A) → find p xs ≡ none → any p xs ≡ false
  find-eq-none_iff_any p [] h = refl
  find-eq-none_iff_any p (x ∷ xs) h = ground (arith, find-eq-none_iff_any p xs)

module _ {ℓ κ} {A : Type ℓ} (P : A → Type κ) where
  abbrev pub All : List A → Type κ
  All [] = Unit
  All (x ∷ xs) = P x × All xs

  pub All-append : (xs ys : List A) → All xs → All ys → All (xs ++ ys)
  All-append [] ys h k = k
  All-append (x ∷ xs) ys (p, h) k = (p, All-append xs ys h k)

  pub All-keep : (p : A → Bool) (xs : List A) → All xs → All (keep p xs)
  All-keep p [] h = tt
  All-keep p (x ∷ xs) (q, h) = elim (Bool-cases (p x)) [
    | inl e ↦ rw e (q, All-keep p xs h)
    | inr e ↦ rw e (All-keep p xs h)
  ]

  pub All-drop_where : (p : A → Bool) (xs : List A) → All xs → All (drop_where p xs)
  All-drop_where p [] h = tt
  All-drop_where p (x ∷ xs) (q, h) = elim (Bool-cases (p x)) [
    | inl e ↦ rw e (All-drop_where p xs h)
    | inr e ↦ rw e (q, All-drop_where p xs h)
  ]

  pub All-update_where :
      (p : A → Bool) (f : A → A) (xs : List A)
      → ((a : A) → P a → P (f a))
      → All xs
      → All (update_where p f xs)
  All-update_where p f [] k h = tt
  All-update_where p f (x ∷ xs) k (q, h) = elim (Bool-cases (p x)) [
    | inl e ↦ rw e (k x q, All-update_where p f xs k h)
    | inr e ↦ rw e (q, All-update_where p f xs k h)
  ]

  pub All-find : (p : A → Bool) (xs : List A) (a : A) → All xs → find p xs ≡ some a → P a
  All-find p [] a h e = ground arith
  All-find p (x ∷ xs) a (q, h) e = elim (Bool-cases (p x)) [
    | inl t ↦ let same : x ≡ a = ground arith in rw same at q
    | inr t ↦ All-find p xs a h (ground arith)
  ]

pub All-map {ℓ κ λ'} :
    {A : Type ℓ} (P : A → Type κ) (Q : A → Type λ') (xs : List A)
    → ((a : A) → P a → Q a)
    → All P xs
    → All Q xs
All-map P Q [] k h = tt
All-map P Q (x ∷ xs) k (q, h) = (k x q, All-map P Q xs k h)

pub All-any {ℓ} :
    {A : Type ℓ} (p : A → Bool) (xs : List A) → any p xs ≡ false → All (λ x. p x ≡ false) xs
All-any p [] h = tt
All-any p (x ∷ xs) h = (ground arith, All-any p xs (ground arith))
