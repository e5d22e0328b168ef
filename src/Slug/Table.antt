-- ===== src/Slug/Table.antt =====
-- Slugs of the rows of a table: the search finds one that no row has, and a row with it may be saved.
use developer_platform_backe.Slug.Search.{free_slug-from_base}
use developer_platform_backe.Slug.Shape.{is_slug, base_of_slug, free_slug_slug}
use developer_platform_backe.Slug.{Texts, free_slug, base_of}
use mathlib.Core.Path.{subst}
use developer_platform_backe.Prelude.{
  ℕ, ◌+◌, String, ◌≡◌, refl, ◌≢◌, inl, inr, Bool, true, false, some, List, map, arith, Option-cases,
  is_some, length, Any, Any-map, length-map,
}
use developer_platform_backe.Orm.{Orm, Entity}
use text.Mathlib.Text.{◌==◌ as str_eq}
use text.Mathlib.TextEquality.{eq_iff}

module _ (orm : Orm) {Row : Type 0} ⦃e : Entity Row⦄ (slug_of : Row → String) where
  -- The unique index on the slug.
  abbrev pub HasDistinctSlugs : orm.Table Row → Type 0
  HasDistinctSlugs t =
      (a b : Row)
      → orm.get (e.id_of a) t ≡ some a
      → orm.get (e.id_of b) t ≡ some b
      → slug_of a ≡ slug_of b
      → e.id_of a ≡ e.id_of b

  -- `exists({ where: { slug } })`
  abbrev pub has_slug : orm.Table Row → String → Bool
  has_slug t slug = is_some (orm.find_one (λ r. str_eq (slug_of r) slug) t)

  abbrev slugs : orm.Table Row → List String
  slugs t = map slug_of (orm.find (λ r. true) t)

  has_slug-Any : (t : orm.Table Row) (z : String) → has_slug t z ≡ true → Any (λ y. y ≡ z) (slugs t)
  has_slug-Any t z h = elim (Option-cases (orm.find_one (λ r. str_eq (slug_of r) z) t)) [
    | inl missing ↦ ground (arith, missing)
    | inr (r, found) ↦
        let (same, stored) = orm.find_one_sound (λ r. str_eq (slug_of r) z) t r found in
        let there = orm.find_complete (λ r. true) t (e.id_of r) r stored refl in
        subst (λ k. Any (λ y. y ≡ k) (slugs t)) ((eq_iff (slug_of r) z).0 same)
          (Any-map slug_of r (orm.find (λ r. true) t) there)
  ]

  -- With a round for each row and one more, the search ends.
  pub search_slug :
      (texts : Texts) (fallback name : String) (t : orm.Table Row)
      → is_slug fallback ≡ true
      → (slug : String) × (free_slug texts
            (has_slug t)
            (base_of texts fallback name)
            (length (orm.find (λ r. true) t) + 1)
            (base_of texts fallback name)
            2
          ≡ some slug)
        × (has_slug t slug ≡ false)
        × (is_slug slug ≡ true)
  search_slug texts fallback name t ok_fallback =
      let base : String = base_of texts fallback name in
      let rows : ℕ = length (orm.find (λ r. true) t) in
      let (slug, found, unused) =
        free_slug-from_base texts base (has_slug t) (slugs t) (rows + 1) (has_slug-Any t)
          (omega (arith, length-map slug_of (orm.find (λ r. true) t))) in
      let shape = base_of_slug texts fallback name ok_fallback in
      (
        slug,
        found,
        unused,
        free_slug_slug texts (has_slug t) base (rows + 1) base 2 slug shape shape found,
      )

  untaken_slug :
      (slug : String) (t : orm.Table Row)
      → has_slug t slug ≡ false
      → (r : Row) → orm.get (e.id_of r) t ≡ some r
      → slug_of r ≢ slug
  untaken_slug slug t unused r stored same =
      elim (Option-cases (orm.find_one (λ x. str_eq (slug_of x) slug) t)) [
        | inr (x, found) ↦ ground (arith, found)
        | inl missed ↦
            let differs =
              orm.find_one_none (λ x. str_eq (slug_of x) slug) t (e.id_of r) r missed stored in
            let equal = (eq_iff (slug_of r) slug).1 same in ground arith
      ]

  pub save-HasDistinctSlugs :
      (n : Row) (t : orm.Table Row)
      → has_slug t (slug_of n) ≡ false
      → HasDistinctSlugs t
      → HasDistinctSlugs (orm.save n t)
  save-HasDistinctSlugs n t unused unique a b ga gb same = ground (
    arith,
    orm.get-save (e.id_of a) n t,
    orm.get-save (e.id_of b) n t,
    untaken_slug (slug_of n) t unused a,
    untaken_slug (slug_of n) t unused b,
    unique a b,
  )
