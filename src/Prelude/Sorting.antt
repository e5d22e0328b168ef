-- ===== src/Prelude/Sorting.antt =====
-- Sorting by a key, the largest first, as `order: { … 'DESC' }` and a comparison `b - a` do it. Rows
-- with the same key keep their order.
use developer_platform_backe.Prelude.{
  ℕ, ◌+◌, ◌≤◌, ◌≡◌, refl, sym, ◌≢◌, IsDistinct, inl, inr, List, [], ◌∷◌, arith, ltb, if◌then◌else◌,
  Bool-cases, All, Any, All-weaken, length, suc, ◌∙◌, ap,
}

module _ {A : Type 0} (key : A → ℕ) where
  abbrev pub insert_desc : A → List A → List A
  insert_desc x [] = x ∷ []
  insert_desc x (y ∷ ys) =
      let rest = insert_desc x ys in if ltb (key x) (key y) then y ∷ rest else x ∷ y ∷ ys

  abbrev pub sort_desc : List A → List A
  sort_desc [] = []
  sort_desc (x ∷ xs) = insert_desc x (sort_desc xs)

  -- No element is followed by one with a larger key.
  abbrev pub IsDescending : List A → Type 0
  IsDescending [] = Unit
  IsDescending (x ∷ xs) = All (λ y. key y ≤ key x) xs × IsDescending xs

  insert_desc-All :
      (P : A → Type 0) (x : A) (xs : List A) → P x → All P xs → All P (insert_desc x xs)
  insert_desc-All P x [] p all = (p, tt)
  insert_desc-All P x (y ∷ ys) p (q, all) = elim (Bool-cases (ltb (key x) (key y))) [
    | inl later ↦ rw later (q, insert_desc-All P x ys p all)
    | inr here ↦ rw here (p, (q, all))
  ]

  insert_desc-IsDescending :
      (x : A) (xs : List A) → IsDescending xs → IsDescending (insert_desc x xs)
  insert_desc-IsDescending x [] d = (tt, tt)
  insert_desc-IsDescending x (y ∷ ys) (top, d) = elim (Bool-cases (ltb (key x) (key y))) [
    | inl later ↦ rw later (
      insert_desc-All (λ z. key z ≤ key y) x ys (ground arith) top,
      insert_desc-IsDescending x ys d,
    )
    | inr here ↦ rw here ((ground arith, All-weaken (λ z below. ground arith) ys top), (top, d))
  ]

  pub sort_desc-IsDescending : (xs : List A) → IsDescending (sort_desc xs)
  sort_desc-IsDescending [] = tt
  sort_desc-IsDescending (x ∷ xs) =
      insert_desc-IsDescending x (sort_desc xs) (sort_desc-IsDescending xs)

  pub sort_desc-All : (P : A → Type 0) (xs : List A) → All P xs → All P (sort_desc xs)
  sort_desc-All P [] all = tt
  sort_desc-All P (x ∷ xs) (p, all) = insert_desc-All P x (sort_desc xs) p (sort_desc-All P xs all)

  insert_desc-Any_here : (P : A → Type 0) (x : A) (xs : List A) → P x → Any P (insert_desc x xs)
  insert_desc-Any_here P x [] p = inl p
  insert_desc-Any_here P x (y ∷ ys) p = elim (Bool-cases (ltb (key x) (key y))) [
    | inl later ↦ rw later (inr (insert_desc-Any_here P x ys p))
    | inr here ↦ rw here (inl p)
  ]

  insert_desc-Any : (P : A → Type 0) (x : A) (xs : List A) → Any P xs → Any P (insert_desc x xs)
  insert_desc-Any P x [] h = elim h [ ]
  insert_desc-Any P x (y ∷ ys) (inl p) = elim (Bool-cases (ltb (key x) (key y))) [
    | inl later ↦ rw later (inl p)
    | inr here ↦ rw here (inr (inl p))
  ]
  insert_desc-Any P x (y ∷ ys) (inr h) = elim (Bool-cases (ltb (key x) (key y))) [
    | inl later ↦ rw later (inr (insert_desc-Any P x ys h))
    | inr here ↦ rw here (inr (inr h))
  ]

  pub sort_desc-Any : (P : A → Type 0) (xs : List A) → Any P xs → Any P (sort_desc xs)
  sort_desc-Any P [] h = elim h [ ]
  sort_desc-Any P (x ∷ xs) (inl p) = insert_desc-Any_here P x (sort_desc xs) p
  sort_desc-Any P (x ∷ xs) (inr h) = insert_desc-Any P x (sort_desc xs) (sort_desc-Any P xs h)

module _ {A : Type 0} (f key : A → ℕ) where
  insert_desc-IsDistinct :
      (x : A) (xs : List A)
      → All (λ y. f y ≢ f x) xs
      → IsDistinct f xs
      → IsDistinct f (insert_desc key x xs)
  insert_desc-IsDistinct x [] new d = (tt, tt)
  insert_desc-IsDistinct x (y ∷ ys) (differs, new) (top, d) =
      elim (Bool-cases (ltb (key x) (key y))) [
        | inl later ↦ rw later (
          insert_desc-All key (λ z. f z ≢ f y) x ys (λ same. differs (sym same)) top,
          insert_desc-IsDistinct x ys new d,
        )
        | inr here ↦ rw here ((differs, new), (top, d))
      ]

  -- Sorting keeps elements apart.
  pub sort_desc-IsDistinct : (xs : List A) → IsDistinct f xs → IsDistinct f (sort_desc key xs)
  sort_desc-IsDistinct [] d = tt
  sort_desc-IsDistinct (x ∷ xs) (new, d) =
      insert_desc-IsDistinct x (sort_desc key xs) (sort_desc-All key (λ y. f y ≢ f x) xs new)
        (sort_desc-IsDistinct xs d)

module _ {A : Type 0} (f : A → ℕ) where
  abbrev pub sum : List A → ℕ
  sum [] = 0
  sum (x ∷ xs) = f x + sum xs

  sum-insert_desc : (key : A → ℕ) (x : A) (xs : List A) → sum (insert_desc key x xs) ≡ f x + sum xs
  sum-insert_desc key x [] = refl
  sum-insert_desc key x (y ∷ ys) = elim (Bool-cases (ltb (key x) (key y))) [
    | inl later ↦ rw later (omega (arith, sum-insert_desc key x ys))
    | inr here ↦ rw here refl
  ]

  -- Sorting keeps a total.
  pub sum-sort_desc : (key : A → ℕ) (xs : List A) → sum (sort_desc key xs) ≡ sum xs
  sum-sort_desc key [] = refl
  sum-sort_desc key (x ∷ xs) =
      omega (arith, sum-insert_desc key x (sort_desc key xs), sum-sort_desc key xs)

module _ {A : Type 0} (key : A → ℕ) where
  length-insert_desc : (x : A) (xs : List A) → length (insert_desc key x xs) ≡ suc (length xs)
  length-insert_desc x [] = refl
  length-insert_desc x (y ∷ ys) = elim (Bool-cases (ltb (key x) (key y))) [
    | inl later ↦ rw later (ap suc (length-insert_desc x ys))
    | inr here ↦ rw here refl
  ]

  pub length-sort_desc : (xs : List A) → length (sort_desc key xs) ≡ length xs
  length-sort_desc [] = refl
  length-sort_desc (x ∷ xs) = length-insert_desc x (sort_desc key xs) ∙ ap suc (length-sort_desc xs)
