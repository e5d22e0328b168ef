-- ===== src/Orm/Laws.antt =====
-- Lemmas on tables that follow from the interface.
use developer_platform_backe.Prelude.{
  ℕ, Bool, true, false, none, some, ◌≡◌, ◌≢◌, inl, inr, arith, Option-cases,
}
use developer_platform_backe.Orm.Interface.{Entity, Orm}

module _ (orm : Orm) {Row : Type 0} ⦃e : Entity Row⦄ where
  -- A condition that only the row with key `k` meets finds that row.
  pub find_one-eq-some :
      (p : Row → Bool) (t : orm.Table Row) (k : ℕ) (r : Row)
      → orm.get k t ≡ some r
      → p r ≡ true
      → ((x : Row) → p x ≡ true → orm.get (e.id_of x) t ≡ some x → e.id_of x ≡ k)
      → orm.find_one p t ≡ some r
  find_one-eq-some p t k r g h only = elim (Option-cases (orm.find_one p t)) [
    | inl missed ↦ ground (arith, orm.find_one_none p t k r missed g)
    | inr (x, found) ↦
        let (holds, stored) = orm.find_one_sound p t x found in
        let same : e.id_of x ≡ k = only x holds stored in ground arith
  ]

  -- A condition that no stored row meets finds nothing.
  pub find_one-eq-none :
      (p : Row → Bool) (t : orm.Table Row)
      → ((x : Row) → orm.get (e.id_of x) t ≡ some x → p x ≡ false)
      → orm.find_one p t ≡ none
  find_one-eq-none p t never = elim (Option-cases (orm.find_one p t)) [
    | inl missed ↦ missed
    | inr (x, found) ↦
        let (holds, stored) = orm.find_one_sound p t x found in
        let fails : p x ≡ false = never x stored in ground arith
  ]

  pub get-save_self : (r : Row) (t : orm.Table Row) → orm.get (e.id_of r) (orm.save r t) ≡ some r
  get-save_self r t = ground (arith, orm.get-save (e.id_of r) r t)

  pub get-save_ne :
      (k : ℕ) (r : Row) (t : orm.Table Row) → k ≢ e.id_of r → orm.get k (orm.save r t) ≡ orm.get k t
  get-save_ne k r t h = ground (arith, orm.get-save k r t)
