-- ===== src/Orm/Interface.antt =====
-- The operations of a repository and their documented behaviour.
use developer_platform_backe.Prelude.{
  ℕ, Bool, true, false, Option, none, some, List, ◌≡◌, ◌==◌, if◌then◌else◌, All, Any, IsDistinct,
}

-- The primary key of an entity (common/entities/base.entity.ts, a generated uuid).
pub record Entity (Row : Type 0) : Type 0 where
  pub id_of : Row → ℕ

pub record Orm : Type 1 where
  pub Table : Type 0 → Type 0
  pub get : {Row : Type 0} → ⦃e : Entity Row⦄ → ℕ → Table Row → Option Row
  -- `findOne({ where })` and `find({ where })`, the condition as a test on the row
  pub find_one : {Row : Type 0} → ⦃e : Entity Row⦄ → (Row → Bool) → Table Row → Option Row
  pub find : {Row : Type 0} → ⦃e : Entity Row⦄ → (Row → Bool) → Table Row → List Row
  -- `save(entity)` of an entity with a key: insert, or update in place
  pub save : {Row : Type 0} → ⦃e : Entity Row⦄ → Row → Table Row → Table Row
  -- `remove(entity)`
  pub remove : {Row : Type 0} → ⦃e : Entity Row⦄ → Row → Table Row → Table Row
  -- the key that the database generates for a new entity
  pub fresh : {Row : Type 0} → ⦃e : Entity Row⦄ → Table Row → ℕ
  pub get_key :
      {Row : Type 0}
      → ⦃e : Entity Row⦄ → (k : ℕ) (t : Table Row) (r : Row) → get k t ≡ some r
      → e.id_of r ≡ k
  pub get-save :
      {Row : Type 0}
      → ⦃e : Entity Row⦄ → (k : ℕ) (r : Row) (t : Table Row)
      → get k (save r t) ≡ (if k == e.id_of r then some r else get k t)
  pub get-remove :
      {Row : Type 0}
      → ⦃e : Entity Row⦄ → (k : ℕ) (r : Row) (t : Table Row)
      → get k (remove r t) ≡ (if k == e.id_of r then none else get k t)
  pub get-fresh : {Row : Type 0} → ⦃e : Entity Row⦄ → (t : Table Row) → get (fresh t) t ≡ none
  pub find_one_sound :
      {Row : Type 0}
      → ⦃e : Entity Row⦄ → (p : Row → Bool) (t : Table Row) (r : Row) → find_one p t ≡ some r
      → (p r ≡ true) × (get (e.id_of r) t ≡ some r)
  pub find_one_none :
      {Row : Type 0}
      → ⦃e : Entity Row⦄ → (p : Row → Bool) (t : Table Row) (k : ℕ) (r : Row) → find_one p t ≡ none
      → get k t ≡ some r
      → p r ≡ false
  pub find_sound :
      {Row : Type 0}
      → ⦃e : Entity Row⦄ → (p : Row → Bool) (t : Table Row)
      → All (λ r. (p r ≡ true) × (get (e.id_of r) t ≡ some r)) (find p t)
  pub find_complete :
      {Row : Type 0}
      → ⦃e : Entity Row⦄ → (p : Row → Bool) (t : Table Row) (k : ℕ) (r : Row) → get k t ≡ some r
      → p r ≡ true
      → Any (λ x. x ≡ r) (find p t)
  -- a row is found once
  pub find_once :
      {Row : Type 0}
      → ⦃e : Entity Row⦄ → (p : Row → Bool) (t : Table Row) → IsDistinct (λ r. e.id_of r) (find p t)
