-- ===== src/Slug.antt =====
-- The slug of a name, as organizations/organizations.service.ts (`generateUniqueSlug`) and
-- marketplace/marketplace.service.ts (`uniqueSlug`) make it.
pub mod Search
pub mod Shape
pub mod Table
pub mod Instances
use Prim.Native.Char.{Char, code}
use Prim.Native.String.{◌++◌ as text_append}
use developer_platform_backe.Prelude.{
  ℕ, zero, suc, ◌+◌, String, ◌≡◌, Bool, true, false, not, ◌&&◌, ◌||◌, Option, none, some, leb, ◌==◌,
  if◌then◌else◌,
}

-- Decimal digits, at least one.
abbrev pub is_digit : Char → Bool
is_digit c = leb b'0' (code c) && leb (code c) b'9'

abbrev pub all_digits : String → Bool
all_digits String.[] = true
all_digits (String.◌∷◌ c s) = is_digit c && all_digits s

abbrev pub are_digits : String → Bool
are_digits String.[] = false
are_digits (String.◌∷◌ c s) = is_digit c && all_digits s

-- What JavaScript's own text functions do: `toLowerCase`, `trim`, and the numeral of a template literal,
-- which consists of digits and differs for different numbers.
pub record Texts : Type 0 where
  pub to_lower_case : String → String
  pub trim : String → String
  pub numeral : ℕ → String
  pub numeral_digits : (n : ℕ) → are_digits (numeral n) ≡ true
  pub numeral_injective : (a b : ℕ) → numeral a ≡ numeral b → a ≡ b

-- `[a-z0-9]`
abbrev pub is_word : Char → Bool
is_word c = leb b'a' (code c) && leb (code c) b'z' || is_digit c

abbrev pub is_dash : Char → Bool
is_dash c = code c == b'-'

-- What a character becomes, before a rest; `inside` says that a run of other characters goes on.
abbrev pub emit : (word inside : Bool) → Char → String → String
emit true inside c rest = String.◌∷◌ c rest
emit false true c rest = rest
emit false false c rest = String.◌∷◌ "-" rest

-- `.replace(/[^a-z0-9]+/g, '-')`
unfoldable pub squeeze : (inside : Bool) → String → String
squeeze inside String.[] = ""
squeeze inside (String.◌∷◌ c s) = emit (is_word c) inside c (squeeze (not (is_word c)) s)

-- `.replace(/^-+|-+$/g, '')`: the dashes in front, and those at the end.
unfoldable pub drop_dashes : String → String
drop_dashes String.[] = ""
drop_dashes (String.◌∷◌ c s) = if is_dash c then drop_dashes s else String.◌∷◌ c s

abbrev pub keep : Char → String → String
keep c String.[] = if is_dash c then "" else String.◌∷◌ c ""
keep c (String.◌∷◌ d s) = String.◌∷◌ c (String.◌∷◌ d s)

unfoldable pub strip_end : String → String
strip_end String.[] = ""
strip_end (String.◌∷◌ c s) = keep c (strip_end s)

-- `… || fallback`
abbrev pub or_text : String → String → String
or_text String.[] fallback = fallback
or_text (String.◌∷◌ c s) fallback = String.◌∷◌ c s

-- `base`
unfoldable pub base_of : Texts → (fallback name : String) → String
unfolding squeeze drop_dashes strip_end
base_of texts fallback name =
    or_text (strip_end (drop_dashes (squeeze false (texts.trim (texts.to_lower_case name)))))
      fallback

-- `${base}-${n}`
abbrev pub numbered : Texts → String → ℕ → String
numbered texts base n = text_append base (text_append "-" (texts.numeral n))

-- `while (exists(slug)) slug = …`, with fuel; `none` means that it ran out.
unfoldable pub free_slug :
    Texts
    → (exists : String → Bool) → (base : String) → (fuel : ℕ) → (slug : String) → ℕ
    → Option String
free_slug texts exists base zero slug counter = none
free_slug texts exists base (suc fuel) slug counter =
    let rest = free_slug texts exists base fuel (numbered texts base counter) (counter + 1) in
    if exists slug then rest else some slug
