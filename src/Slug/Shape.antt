-- ===== src/Slug/Shape.antt =====
-- The shape of a base: lower case letters, digits and single dashes between them.
use Prim.Native.String.{◌++◌ as text_append}
use text.Mathlib.TextLemmas.{cons-append, nil-append}
use developer_platform_backe.Slug.{
  is_word, base_of, is_dash, squeeze, drop_dashes, keep, strip_end, or_text, Texts, are_digits,
  all_digits, numbered, free_slug,
}
use Prim.Native.Char.{Char}
use developer_platform_backe.Prelude.{
  ℕ, zero, suc, ◌+◌, String, ◌≡◌, refl, ap, ◌∙◌, inl, inr, Bool, true, false, not, ◌&&◌, ◌||◌, some,
  arith, Bool-cases,
}

-- Whether the text goes on well after a letter or digit (`open_dash` false) or after a dash: single
-- dashes, letters and digits, and no dash at the end.
abbrev pub is_tail : (open_dash : Bool) → String → Bool
is_tail open_dash String.[] = not open_dash
is_tail open_dash (String.◌∷◌ c s) =
    (is_word c || is_dash c && not open_dash) && is_tail (not (is_word c)) s

-- `/^[a-z0-9]+(-[a-z0-9]+)*$/`
abbrev pub is_slug : String → Bool
is_slug s = is_tail true s

-- The same with a dash allowed at the end.
abbrev is_loose : (open_dash : Bool) → String → Bool
is_loose open_dash String.[] = true
is_loose open_dash (String.◌∷◌ c s) =
    (is_word c || is_dash c && not open_dash) && is_loose (not (is_word c)) s

squeeze_loose : (inside : Bool) (s : String) → is_loose inside (squeeze inside s) ≡ true
unfolding squeeze
squeeze_loose inside String.[] = refl
squeeze_loose inside (String.◌∷◌ c s) = ground (arith, squeeze_loose (not (is_word c)) s)

drop_dashes_closed : (s : String) → is_loose true s ≡ true → drop_dashes s ≡ s
unfolding drop_dashes
drop_dashes_closed String.[] h = refl
drop_dashes_closed (String.◌∷◌ c s) h = ground arith

drop_dashes_loose : (s : String) → is_loose false s ≡ true → is_loose true (drop_dashes s) ≡ true
unfolding drop_dashes
drop_dashes_loose String.[] h = refl
drop_dashes_loose (String.◌∷◌ c s) h = ground (arith, drop_dashes_closed s)

-- A stripped text is empty or well formed.
abbrev is_tail_or_empty : Bool → String → Bool
is_tail_or_empty open_dash String.[] = true
is_tail_or_empty open_dash (String.◌∷◌ c s) = is_tail open_dash (String.◌∷◌ c s)

keep_tail :
    (open_dash : Bool) (c : Char) (rest : String)
    → (is_word c || is_dash c && not open_dash) ≡ true
    → is_tail_or_empty (not (is_word c)) rest ≡ true
    → is_tail_or_empty open_dash (keep c rest) ≡ true
keep_tail open_dash c String.[] h k = elim (Bool-cases (is_dash c)) [
  | inl dash ↦ rw dash refl
  | inr other ↦ rw other (ground arith)
]
keep_tail open_dash c (String.◌∷◌ d s) h k = ground arith

strip_end_tail :
    (open_dash : Bool) (s : String)
    → is_loose open_dash s ≡ true
    → is_tail_or_empty open_dash (strip_end s) ≡ true
unfolding strip_end
strip_end_tail open_dash String.[] h = refl
strip_end_tail open_dash (String.◌∷◌ c s) h =
    keep_tail open_dash c (strip_end s) (ground arith)
      (strip_end_tail (not (is_word c)) s (ground arith))

or_text_slug :
    (s fallback : String)
    → is_tail_or_empty true s ≡ true
    → is_slug fallback ≡ true
    → is_slug (or_text s fallback) ≡ true
or_text_slug String.[] fallback h k = k
or_text_slug (String.◌∷◌ c s) fallback h k = h

-- The base of a slug is well formed, whatever the name is.
pub base_of_slug :
    (texts : Texts) (fallback name : String)
    → is_slug fallback ≡ true
    → is_slug (base_of texts fallback name) ≡ true
unfolding base_of
base_of_slug texts fallback name k =
    let text : String = texts.trim (texts.to_lower_case name) in
    or_text_slug (strip_end (drop_dashes (squeeze false text))) fallback
      (strip_end_tail true (drop_dashes (squeeze false text))
        (drop_dashes_loose (squeeze false text) (squeeze_loose false text)))
      k

digits_tail : (s : String) → all_digits s ≡ true → is_tail false s ≡ true
digits_tail String.[] h = refl
digits_tail (String.◌∷◌ c s) h = ground (arith, digits_tail s)

numeral_tail : (s : String) → are_digits s ≡ true → is_tail true s ≡ true
numeral_tail String.[] h = absurd (cc)
numeral_tail (String.◌∷◌ c s) h = ground (arith, digits_tail s)

dash-append : (s : String) → text_append "-" s ≡ String.◌∷◌ "-" s
dash-append s = cons-append "-" "" s ∙ ap (λ r. String.◌∷◌ "-" r) (nil-append s)

tail-append_digits :
    (open_dash : Bool) (s digits : String)
    → is_tail open_dash s ≡ true
    → are_digits digits ≡ true
    → is_tail open_dash (text_append s (text_append "-" digits)) ≡ true
tail-append_digits open_dash String.[] digits h k =
    rw (nil-append (text_append "-" digits), dash-append digits)
      (ground (arith, numeral_tail digits))
tail-append_digits open_dash (String.◌∷◌ c s) digits h k =
    rw (cons-append c s (text_append "-" digits))
      (ground (arith, tail-append_digits (not (is_word c)) s digits))

-- A numbered slug is as well formed as its base.
pub numbered_slug :
    (texts : Texts) (base : String) (n : ℕ)
    → is_slug base ≡ true
    → is_slug (numbered texts base n) ≡ true
numbered_slug texts base n h =
    tail-append_digits true base (texts.numeral n) h (texts.numeral_digits n)

-- So is whatever the search finds.
pub free_slug_slug :
    (texts : Texts) (exists : String → Bool) (base : String) (fuel : ℕ) (slug : String)
    (counter : ℕ) (s : String)
    → is_slug base ≡ true
    → is_slug slug ≡ true
    → free_slug texts exists base fuel slug counter ≡ some s
    → is_slug s ≡ true
unfolding free_slug
free_slug_slug texts exists base zero slug counter s h k found = absurd (cc)
free_slug_slug texts exists base (suc fuel) slug counter s h k found =
    elim (Bool-cases (exists slug)) [
      | inl used ↦
          free_slug_slug texts exists base fuel (numbered texts base counter) (counter + 1) s h
            (numbered_slug texts base counter h) (rw used at found)
      | inr free ↦ ground (arith, free, found)
    ]
