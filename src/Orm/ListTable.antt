-- ===== src/Orm/ListTable.antt =====
-- A table as a list of versions, the newest first: an instance of the interface, so that the
-- services run on concrete data.
use developer_platform_backe.Prelude.{
  ℕ, suc, ◌≤◌, Bool, true, false, Option, none, some, List, [], ◌∷◌, ◌≡◌, refl, ◌==◌, if◌then◌else◌,
  inl, inr, All, Any, All-weaken, IsDistinct, arith, select, Bool-cases,
}
use developer_platform_backe.Orm.Interface.{Entity, Orm}
use Prim.Native.Nat.{max}

module _ {Row : Type 0} ⦃e : Entity Row⦄ where
  unfoldable pub get : ℕ → List Row → Option Row
  get k [] = none
  get k (r ∷ t) = if k == e.id_of r then some r else get k t

  unfoldable pub drop_key : ℕ → List Row → List Row
  drop_key k [] = []
  drop_key k (r ∷ t) = if k == e.id_of r then drop_key k t else r ∷ drop_key k t

  -- Each row once, in its newest version.
  unfoldable pub rows : List Row → List Row
  unfolding drop_key
  rows [] = []
  rows (r ∷ t) = r ∷ drop_key (e.id_of r) (rows t)

  unfoldable pub first : (Row → Bool) → List Row → Option Row
  first p [] = none
  first p (r ∷ t) = if p r then some r else first p t

  unfoldable pub fresh : List Row → ℕ
  fresh [] = 1
  fresh (r ∷ t) = max (suc (e.id_of r)) (fresh t)

  pub get_key : (k : ℕ) (t : List Row) (r : Row) → get k t ≡ some r → e.id_of r ≡ k
  unfolding get
  get_key k [] r h = ground arith
  get_key k (x ∷ t) r h = ground (arith, get_key k t r)

  get-drop_key :
      (k j : ℕ) (t : List Row) → get k (drop_key j t) ≡ (if k == j then none else get k t)
  unfolding get drop_key
  get-drop_key k j [] = ground arith
  get-drop_key k j (x ∷ t) = ground (arith, get-drop_key k j t)

  get-rows : (k : ℕ) (t : List Row) → get k (rows t) ≡ get k t
  unfolding get rows
  get-rows k [] = refl
  get-rows k (x ∷ t) = ground (arith, get-rows k t, get-drop_key k (e.id_of x) (rows t))

  get-ge_fresh : (k : ℕ) (t : List Row) → fresh t ≤ k → get k t ≡ none
  unfolding get fresh
  get-ge_fresh k [] h = refl
  get-ge_fresh k (x ∷ t) h = ground (arith, get-ge_fresh k t)

  unfoldable pub remove_row : Row → List Row → List Row
  unfolding drop_key
  remove_row r t = drop_key (e.id_of r) t

  pub get-remove_row :
      (k : ℕ) (r : Row) (t : List Row)
      → get k (remove_row r t) ≡ (if k == e.id_of r then none else get k t)
  unfolding remove_row
  get-remove_row k r t = get-drop_key k (e.id_of r) t

  pub get-cons_lem :
      (k : ℕ) (r : Row) (t : List Row)
      → get k (r ∷ t) ≡ (if k == e.id_of r then some r else get k t)
  unfolding get
  get-cons_lem k r t = refl

  -- No key occurs twice.
  abbrev Distinct : List Row → Type 0
  Distinct [] = Unit
  Distinct (r ∷ t) = (get (e.id_of r) t ≡ none) × Distinct t

  drop_key-Distinct : (k : ℕ) (t : List Row) → Distinct t → Distinct (drop_key k t)
  unfolding drop_key
  drop_key-Distinct k [] h = tt
  drop_key-Distinct k (x ∷ t) h =
      ground (arith, drop_key-Distinct k t h.1, get-drop_key (e.id_of x) k t)

  rows-Distinct : (t : List Row) → Distinct (rows t)
  unfolding rows
  rows-Distinct [] = tt
  rows-Distinct (x ∷ t) = ground (
    arith,
    drop_key-Distinct (e.id_of x) (rows t) (rows-Distinct t),
    get-drop_key (e.id_of x) (e.id_of x) (rows t),
  )

  first_sound :
      (p : Row → Bool) (t : List Row) (r : Row)
      → Distinct t
      → first p t ≡ some r
      → (p r ≡ true) × (get (e.id_of r) t ≡ some r)
  unfolding first get
  first_sound p [] r d h = ground arith
  first_sound p (x ∷ t) r d h = ground (arith, first_sound p t r d.1)

  first-eq-none :
      (p : Row → Bool) (t : List Row) (k : ℕ) (r : Row)
      → first p t ≡ none
      → get k t ≡ some r
      → p r ≡ false
  unfolding first get
  first-eq-none p [] k r h g = ground arith
  first-eq-none p (x ∷ t) k r h g = ground (arith, first-eq-none p t k r)

  get-cons :
      (x : Row) (t : List Row) (r : Row)
      → get (e.id_of x) t ≡ none
      → get (e.id_of r) t ≡ some r
      → get (e.id_of r) (x ∷ t) ≡ some r
  unfolding get
  get-cons x t r h g = ground arith

  select_sound :
      (p : Row → Bool) (t : List Row)
      → Distinct t
      → All (λ r. (p r ≡ true) × (get (e.id_of r) t ≡ some r)) (select p t)
  unfolding get
  select_sound p [] d = tt
  select_sound p (x ∷ t) (fresh_key, d) =
      let rest =
        All-weaken {P = λ r. (p r ≡ true) × (get (e.id_of r) t ≡ some r)}
          {Q = λ r. (p r ≡ true) × (get (e.id_of r) (x ∷ t) ≡ some r)}
          (λ r h. (h.0, get-cons x t r fresh_key h.1)) (select p t) (select_sound p t d) in
      elim (Bool-cases (p x)) [
        | inl holds ↦ rw holds ((holds, ground arith), rest)
        | inr fails ↦ rw fails rest
      ]

  select_complete :
      (p : Row → Bool) (t : List Row) (k : ℕ) (r : Row)
      → get k t ≡ some r
      → p r ≡ true
      → Any (λ x. x ≡ r) (select p t)
  unfolding get
  select_complete p [] k r g h = ground arith
  select_complete p (x ∷ t) k r g h = ground (arith, select_complete p t k r)

  -- The same laws at `rows t`, seen through `get` of `t`.
  pub find_one_sound :
      (p : Row → Bool) (t : List Row) (r : Row)
      → first p (rows t) ≡ some r
      → (p r ≡ true) × (get (e.id_of r) t ≡ some r)
  find_one_sound p t r h =
      rw (← get-rows (e.id_of r) t) (first_sound p (rows t) r (rows-Distinct t) h)

  pub find_one_none :
      (p : Row → Bool) (t : List Row) (k : ℕ) (r : Row)
      → first p (rows t) ≡ none
      → get k t ≡ some r
      → p r ≡ false
  find_one_none p t k r h g = first-eq-none p (rows t) k r h (rw (get-rows k t) g)

  pub find_sound :
      (p : Row → Bool) (t : List Row)
      → All (λ r. (p r ≡ true) × (get (e.id_of r) t ≡ some r)) (select p (rows t))
  find_sound p t =
      All-weaken (λ r h. (h.0, rw (← get-rows (e.id_of r) t) h.1)) (select p (rows t))
        (select_sound p (rows t) (rows-Distinct t))

  pub find_complete :
      (p : Row → Bool) (t : List Row) (k : ℕ) (r : Row)
      → get k t ≡ some r
      → p r ≡ true
      → Any (λ x. x ≡ r) (select p (rows t))
  find_complete p t k r g h = select_complete p (rows t) k r (rw (get-rows k t) g) h

  select-Distinct :
      (p : Row → Bool) (t : List Row) → Distinct t → IsDistinct (λ r. e.id_of r) (select p t)
  select-Distinct p [] d = tt
  select-Distinct p (x ∷ t) (fresh_key, d) = elim (Bool-cases (p x)) [
    | inl holds ↦ rw holds (
      All-weaken
          (λ (y : Row) (h : (p y ≡ true) × (get (e.id_of y) t ≡ some y)).
            λ (same : e.id_of y ≡ e.id_of x). ground arith)
          (select p t) (select_sound p t d),
      select-Distinct p t d,
    )
    | inr fails ↦ rw fails (select-Distinct p t d)
  ]

  pub find_once : (p : Row → Bool) (t : List Row) → IsDistinct (λ r. e.id_of r) (select p (rows t))
  find_once p t = select-Distinct p (rows t) (rows-Distinct t)

  pub get-fresh : (t : List Row) → get (fresh t) t ≡ none
  get-fresh t = get-ge_fresh (fresh t) t (omega arith)

abbrev pub list_orm : Orm
list_orm = record {
  Table = List;
  get = get;
  find_one = λ p t. first p (rows t);
  find = λ p t. select p (rows t);
  save = λ r t. r ∷ t;
  remove = remove_row;
  fresh = fresh;
  get_key = get_key;
  get-save = get-cons_lem;
  get-remove = get-remove_row;
  get-fresh = get-fresh;
  find_one_sound = find_one_sound;
  find_one_none = find_one_none;
  find_sound = find_sound;
  find_complete = find_complete;
  find_once = find_once;
}

-- To unfold this is to unfold every operation of a list table.
unfoldable pub list_tables : Unit {0}
unfolding get drop_key rows first fresh remove_row
list_tables = tt
