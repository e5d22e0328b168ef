-- ===== src/Slug/Search.antt =====
-- The search for a free slug ends: each round tries another text, and only so many are taken.
use developer_platform_backe.Slug.{Texts, numbered, free_slug}
use text.Mathlib.TextLemmas.{append_cancel_left, length-append}
use Prim.Native.String.{count}
use Prim.Native.String.{◌++◌ as text_append}
use developer_platform_backe.Prelude.{
  ℕ, zero, suc, ◌+◌, ◌≤◌, ◌<◌, String, ◌≡◌, refl, sym, ap, ◌∙◌, ◌≢◌, ◌⊎◌, inl, inr, Bool, true,
  false, some, List, [], ◌∷◌, arith, if◌then◌else◌, Bool-cases, length, Any,
}
use text.Mathlib.Text.{◌==◌ as str_eq}
use text.Mathlib.TextEquality.{eq_iff}

-- `xs` without one occurrence of `x`.
abbrev erase : String → List String → List String
erase x [] = []
erase x (y ∷ ys) = if str_eq y x then ys else y ∷ erase x ys

length-erase :
    (x : String) (xs : List String) → Any (λ y. y ≡ x) xs → length (erase x xs) + 1 ≡ length xs
length-erase x [] h = elim h [ ]
length-erase x (y ∷ ys) (inl same) = rw ((eq_iff y x).1 same) (omega arith)
length-erase x (y ∷ ys) (inr later) = elim (Bool-cases (str_eq y x)) [
  | inl same ↦ rw same (omega arith)
  | inr other ↦ rw other (omega (arith, length-erase x ys later))
]

erase-keeps :
    (x z : String) (xs : List String) → Any (λ y. y ≡ z) xs → z ≢ x → Any (λ y. y ≡ z) (erase x xs)
erase-keeps x z [] h ne = elim h [ ]
erase-keeps x z (y ∷ ys) (inl same) ne = elim (Bool-cases (str_eq y x)) [
  | inl hit ↦ absurd (ne (sym same ∙ (eq_iff y x).0 hit))
  | inr other ↦ rw other (inl same)
]
erase-keeps x z (y ∷ ys) (inr later) ne = elim (Bool-cases (str_eq y x)) [
  | inl hit ↦ rw hit later
  | inr other ↦ rw other (inr (erase-keeps x z ys later ne))
]

module _ (texts : Texts) (base : String) where
  -- The text of a round: the base first, then the numbered ones.
  abbrev Tried : String → ℕ → Type 0
  Tried slug counter = (n : ℕ) → counter ≤ n → slug ≢ numbered texts base n

  numbered_injective : (a b : ℕ) → numbered texts base a ≡ numbered texts base b → a ≡ b
  numbered_injective a b h = texts.numeral_injective a b (
      append_cancel_left "-" (texts.numeral a) (texts.numeral b) (
        append_cancel_left base (text_append "-" (texts.numeral a))
          (text_append "-" (texts.numeral b)) h))

  base-Tried : (counter : ℕ) → Tried base counter
  base-Tried counter n le h =
      let longer : count (numbered texts base n)
          ≡ count base + count (text_append "-" (texts.numeral n)) =
        length-append base (text_append "-" (texts.numeral n)) in
      let dash = length-append "-" (texts.numeral n) in
      let one : count "-" ≡ 1 = refl in
      let same = ap count h in absurd (omega (arith, longer, dash, one, same))

  numbered-Tried : (counter : ℕ) → Tried (numbered texts base counter) (counter + 1)
  numbered-Tried counter n le h =
      let same : counter ≡ n = numbered_injective counter n h in absurd (omega arith)

  -- The texts of a round and of the rounds after it.
  abbrev pub IsCandidate : String → ℕ → String → Type 0
  IsCandidate slug counter s = (s ≡ slug) ⊎ ((n : ℕ) × (counter ≤ n) × (s ≡ numbered texts base n))

  next-IsCandidate :
      (counter : ℕ) (s : String)
      → IsCandidate (numbered texts base counter) (counter + 1) s
      → (n : ℕ) × (counter ≤ n) × (s ≡ numbered texts base n)
  next-IsCandidate counter s (inl e) = (counter, omega arith, e)
  next-IsCandidate counter s (inr (n, le, e)) = (n, omega arith, e)

  -- With more rounds than texts that are taken, a free one is found.
  pub free_slug_total :
      (exists : String → Bool) (taken : List String) (fuel : ℕ) (slug : String) (counter : ℕ)
      → ((s : String) → IsCandidate slug counter s → exists s ≡ true → Any (λ t. t ≡ s) taken)
      → Tried slug counter
      → length taken < fuel
      → (s : String) × (free_slug texts exists base fuel slug counter ≡ some s) × (exists s ≡ false)
  unfolding free_slug
  free_slug_total exists taken zero slug counter covers tried enough = absurd (omega arith)
  free_slug_total exists taken (suc fuel) slug counter covers tried enough =
      elim (Bool-cases (exists slug)) [
        | inr free ↦ (slug, rw free refl, free)
        | inl used ↦
            let hit : Any (λ t. t ≡ slug) taken = covers slug (inl refl) used in
            let (s, found, free) =
              free_slug_total exists (erase slug taken) fuel (numbered texts base counter)
                (counter + 1)
                (λ z candidate used_too.
                  let (n, le, e) = next-IsCandidate counter z candidate in
                  erase-keeps slug z taken (covers z (inr (n, le, e)) used_too)
                    (λ same. tried n le (sym same ∙ e)))
                (numbered-Tried counter) (omega (arith, length-erase slug taken hit)) in
            (s, rw used found, free)
      ]

  -- From the base itself.
  pub free_slug-from_base :
      (exists : String → Bool) (taken : List String) (fuel : ℕ)
      → ((s : String) → exists s ≡ true → Any (λ t. t ≡ s) taken)
      → length taken < fuel
      → (s : String) × (free_slug texts exists base fuel base 2 ≡ some s) × (exists s ≡ false)
  free_slug-from_base exists taken fuel covers enough =
      free_slug_total exists taken fuel base 2 (λ s candidate used. covers s used) (base-Tried 2)
        enough
