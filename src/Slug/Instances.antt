-- ===== src/Slug/Instances.antt =====
-- Text functions that satisfy the interface, so that slugs can be computed: numerals in the unary
-- system, and texts that are in lower case and trimmed already.
use developer_platform_backe.Slug.{all_digits, are_digits, Texts}
use Prim.Native.String.{count}
use text.Mathlib.TextLemmas.{length-cons}
use developer_platform_backe.Prelude.{ℕ, zero, suc, ◌+◌, String, ◌≡◌, refl, ap, true, arith}

abbrev pub unary : ℕ → String
unary zero = "1"
unary (suc n) = String.◌∷◌ "1" (unary n)

all_digits-unary : (n : ℕ) → all_digits (unary n) ≡ true
all_digits-unary zero = refl
all_digits-unary (suc n) = all_digits-unary n

pub are_digits-unary : (n : ℕ) → are_digits (unary n) ≡ true
are_digits-unary zero = refl
are_digits-unary (suc n) = all_digits-unary n

count-unary : (n : ℕ) → count (unary n) ≡ n + 1
count-unary zero = refl
count-unary (suc n) = omega (arith, length-cons "1" (unary n), count-unary n)

pub unary_injective : (a b : ℕ) → unary a ≡ unary b → a ≡ b
unary_injective a b h = omega (arith, count-unary a, count-unary b, ap count h)

abbrev pub plain_texts : Texts
plain_texts = record {
  to_lower_case = λ t. t;
  trim = λ t. t;
  numeral = unary;
  numeral_digits = are_digits-unary;
  numeral_injective = unary_injective;
}
