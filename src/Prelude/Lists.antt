-- ===== src/Prelude/Lists.antt =====
-- Lists measured by native numbers, with Boolean filters, and predicates by recursion.
use Prim.Native.Nat.{ℕ, suc, ◌+◌}
use mathlib.Core.Path.{◌≡◌, refl, sym, ap, subst}
use mathlib.Core.Logic.{◌≢◌, ◌↔◌, ◌⊎◌, inl, inr}
use mathlib.Core.Bool.{Bool, true, false, ◌||◌}
use mathlib.Core.List.{List, [], ◌∷◌, ◌++◌, map}
use native.Mathlib.Omega.{arith}
use developer_platform_backe.Prelude.Tests.{if◌then◌else◌, Bool-cases}

module _ {ℓ} {A : Type ℓ} where
  abbrev pub length : List A → ℕ
  length [] = 0
  length (x ∷ xs) = suc (length xs)

  -- `xs.filter(p)`
  abbrev pub select : (A → Bool) → List A → List A
  select p [] = []
  select p (x ∷ xs) = if p x then x ∷ select p xs else select p xs

  -- `xs.some(p)`
  abbrev pub any : (A → Bool) → List A → Bool
  any p [] = false
  any p (x ∷ xs) = p x || any p xs

  pub length-append : (xs ys : List A) → length (xs ++ ys) ≡ length xs + length ys
  length-append [] ys = omega arith
  length-append (x ∷ xs) ys = omega (arith, length-append xs ys)

module _ {ℓ κ} {A : Type ℓ} (P : A → Type κ) where
  abbrev pub All : List A → Type κ
  All [] = Unit
  All (x ∷ xs) = P x × All xs

module _ {ℓ} {A : Type ℓ} (f : A → ℕ) where
  -- No two elements have the same `f`.
  abbrev pub IsDistinct : List A → Type 0
  IsDistinct [] = Unit
  IsDistinct (x ∷ xs) = All (λ y. f y ≢ f x) xs × IsDistinct xs

module _ {ℓ} {A : Type ℓ} (P : A → Type 0) where
  -- Some element satisfies `P`.
  abbrev pub Any : List A → Type 0
  Any [] = ⊥
  Any (x ∷ xs) = P x ⊎ Any xs

module _ {ℓ κ} {A : Type ℓ} {P Q : A → Type κ} (f : (x : A) → P x → Q x) where
  pub All-weaken : (xs : List A) → All P xs → All Q xs
  All-weaken [] h = tt
  All-weaken (x ∷ xs) (p, h) = (f x p, All-weaken xs h)

module _ {A : Type 0} {P Q : A → Type 0} (f : (x : A) → P x → Q x) where
  pub Any-weaken : (xs : List A) → Any P xs → Any Q xs
  Any-weaken [] h = elim h [ ]
  Any-weaken (x ∷ xs) (inl h) = inl (f x h)
  Any-weaken (x ∷ xs) (inr h) = inr (Any-weaken xs h)

module _ {A : Type 0} where
  pub Any-append_left : (P : A → Type 0) (xs ys : List A) → Any P xs → Any P (xs ++ ys)
  Any-append_left P [] ys h = elim h [ ]
  Any-append_left P (x ∷ xs) ys (inl h) = inl h
  Any-append_left P (x ∷ xs) ys (inr h) = inr (Any-append_left P xs ys h)

  pub Any-append_last : (xs : List A) (k : A) → Any (λ x. x ≡ k) (xs ++ (k ∷ []))
  Any-append_last [] k = inl refl
  Any-append_last (x ∷ xs) k = inr (Any-append_last xs k)

  All-select_here :
      (Q : A → Type 0) (p : A → Bool) (w x : A) (xs : List A)
      → x ≡ w
      → p w ≡ true
      → All Q (if p x then x ∷ select p xs else select p xs)
      → Q w
  All-select_here Q p w x xs h holds all =
      let takes : p x ≡ true = subst (λ v. p v ≡ true) (sym h) holds in
      subst Q h (subst (λ b. All Q (if b then x ∷ select p xs else select p xs)) takes all).0

  -- What holds of all selected elements holds of each one that passes the test.
  pub All-select_Any :
      (Q : A → Type 0) (p : A → Bool) (w : A) (xs : List A)
      → All Q (select p xs)
      → Any (λ x. x ≡ w) xs
      → p w ≡ true
      → Q w
  All-select_Any Q p w [] all h holds = elim h [ ]
  All-select_Any Q p w (x ∷ xs) all (inl h) holds = All-select_here Q p w x xs h holds all
  All-select_Any Q p w (x ∷ xs) all (inr h) holds = elim (Bool-cases (p x)) [
    | inl takes ↦
        All-select_Any Q p w xs
          (subst (λ b. All Q (if b then x ∷ select p xs else select p xs)) takes all).1 h holds
    | inr drops ↦
        All-select_Any Q p w xs
          (subst (λ b. All Q (if b then x ∷ select p xs else select p xs)) drops all) h holds
  ]

module _ {A B : Type 0} (f : A → B) (P : A → Type 0) (Q : B → Type 0) where
  pub All-map : ((a : A) → P a → Q (f a)) → (xs : List A) → All P xs → All Q (map f xs)
  All-map g [] h = tt
  All-map g (x ∷ xs) (p, h) = (g x p, All-map g xs h)

module _ {A B : Type 0} (f : A → B) (Q : B → Type 0) where
  pub All-of_map : (xs : List A) → All Q (map f xs) → All (λ a. Q (f a)) xs
  All-of_map [] h = tt
  All-of_map (x ∷ xs) (q, h) = (q, All-of_map xs h)

module _ {A B : Type 0} where
  pub length-map : (f : A → B) (xs : List A) → length (map f xs) ≡ length xs
  length-map f [] = refl
  length-map f (x ∷ xs) = omega (arith, length-map f xs)

  -- The image of an element that is there.
  pub Any-map :
      (f : A → B) (x : A) (xs : List A) → Any (λ y. y ≡ x) xs → Any (λ z. z ≡ f x) (map f xs)
  Any-map f x [] h = elim h [ ]
  Any-map f x (y ∷ ys) (inl e) = inl (ap f e)
  Any-map f x (y ∷ ys) (inr later) = inr (Any-map f x ys later)

module _ {A B : Type 0} (g : A → B) (f : B → ℕ) where
  -- Distinct elements have distinct images, and the other way round, by what the images are told apart
  -- with.
  pub map-IsDistinct : (xs : List A) → IsDistinct (λ a. f (g a)) xs → IsDistinct f (map g xs)
  map-IsDistinct [] d = tt
  map-IsDistinct (x ∷ xs) (new, d) = (
    All-map g (λ y. f (g y) ≢ f (g x)) (λ z. f z ≢ f (g x)) (λ y differs. differs) xs new,
    map-IsDistinct xs d,
  )

  pub IsDistinct-map : (xs : List A) → IsDistinct f (map g xs) → IsDistinct (λ a. f (g a)) xs
  IsDistinct-map [] d = tt
  IsDistinct-map (x ∷ xs) (new, d) = (All-of_map g (λ z. f z ≢ f (g x)) xs new, IsDistinct-map xs d)

module _ {A : Type 0} (p : A → Bool) where
  pub select-All :
      (P : A → Type 0) (xs : List A) → All P xs → All (λ x. P x × (p x ≡ true)) (select p xs)
  select-All P [] h = tt
  select-All P (x ∷ xs) (q, h) = elim (Bool-cases (p x)) [
    | inl takes ↦ rw takes ((q, takes), select-All P xs h)
    | inr drops ↦ rw drops (select-All P xs h)
  ]

  pub select-IsDistinct : (f : A → ℕ) (xs : List A) → IsDistinct f xs → IsDistinct f (select p xs)
  select-IsDistinct f [] d = tt
  select-IsDistinct f (x ∷ xs) (new, d) = elim (Bool-cases (p x)) [
    | inl takes ↦ rw takes (
      All-weaken (λ y h. h.0) (select p xs) (select-All (λ y. f y ≢ f x) xs new),
      select-IsDistinct f xs d,
    )
    | inr drops ↦ rw drops (select-IsDistinct f xs d)
  ]

  -- The test `some` finds an element where there is one.
  pub any_iff : (xs : List A) → (any p xs ≡ true) ↔ Any (λ x. p x ≡ true) xs
  any_iff [] = (λ h. ground arith, λ h. elim h [ ])
  any_iff (x ∷ xs) = (
    λ h. elim (Bool-cases (p x)) [
      | inl here ↦ inl here
      | inr not_here ↦ inr ((any_iff xs).0 (ground (arith, h)))
    ],
    λ h. elim h [
      | inl here ↦ ground (arith, here)
      | inr later ↦ ground (arith, (any_iff xs).1 later)
    ],
  )
