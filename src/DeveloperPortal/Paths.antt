-- ===== src/DeveloperPortal/Paths.antt =====
-- Paths of the OpenAPI document, taken apart and put together: `split`, `filter` and `join`.
use developer_platform_backe.DeveloperPortal.{
  is_slash, is_full, join_after, split_path, segments_of, url_of, join,
}
use developer_platform_backe.Prelude.{
  String, ◌≡◌, refl, ap, ◌∙◌, inl, inr, Bool, true, false, not, ◌&&◌, List, [], ◌∷◌, arith,
  if◌then◌else◌, Bool-cases, select, All,
}
use Prim.Native.Char.{Char}
use Prim.Native.String.{◌++◌ as text_append}
use text.Mathlib.TextLemmas.{append_assoc, cons-append, nil-append}
use text.Mathlib.TextEquality.{Char-path}

-- No empty segment follows, and no slash at the end.
abbrev pub is_rest : (after_slash : Bool) → String → Bool
is_rest after_slash String.[] = not after_slash
is_rest after_slash (String.◌∷◌ c s) =
    if is_slash c then not after_slash && is_rest true s else is_rest false s

-- `/a/b/c`: a slash in front of every segment, and no empty segment.
abbrev pub is_path : String → Bool
is_path String.[] = false
is_path (String.◌∷◌ c s) = is_slash c && is_rest true s

-- Without a slash.
abbrev pub is_plain : String → Bool
is_plain String.[] = true
is_plain (String.◌∷◌ c s) = not (is_slash c) && is_plain s

abbrev pub IsSegment : String → Type 0
IsSegment s = (is_full s ≡ true) × (is_plain s ≡ true)

slash_eq : (c : Char) → is_slash c ≡ true → c ≡ "/"
slash_eq c h = Char-path c "/" (ground arith)

join_cons :
    (c : Char) (x : String) (ys : List String)
    → join_after (String.◌∷◌ c x) ys ≡ String.◌∷◌ c (join_after x ys)
unfolding join_after
join_cons c x [] = refl
join_cons c x (y ∷ ys) = cons-append c x (text_append "/" (join_after y ys))

slash_append : (s : String) → text_append "/" s ≡ String.◌∷◌ "/" s
slash_append s = cons-append "/" "" s ∙ ap (λ r. String.◌∷◌ "/" r) (nil-append s)

join-split_path : (s : String) → join_after (split_path s).0 (split_path s).1 ≡ s
unfolding join_after split_path
join-split_path String.[] = refl
join-split_path (String.◌∷◌ c s) = elim (Bool-cases (is_slash c)) [
  | inl slash ↦ rw (slash, nil-append, slash_append, join-split_path s, slash_eq c slash) refl
  | inr other ↦ rw (other, join_cons c, join-split_path s) refl
]

split_plain : (s : String) → All (λ x. is_plain x ≡ true) ((split_path s).0 ∷ (split_path s).1)
unfolding split_path
split_plain String.[] = (refl, tt)
split_plain (String.◌∷◌ c s) = elim (Bool-cases (is_slash c)) [
  | inl slash ↦ rw slash (refl, split_plain s)
  | inr other ↦ rw other (rw other (split_plain s).0, (split_plain s).1)
]

split_head : (s : String) → is_rest true s ≡ true → is_full (split_path s).0 ≡ true
unfolding split_path
split_head String.[] h = ground arith
split_head (String.◌∷◌ c s) h = elim (Bool-cases (is_slash c)) [
  | inl slash ↦ ground arith
  | inr other ↦ rw other refl
]

split_others :
    (after_slash : Bool) (s : String)
    → is_rest after_slash s ≡ true
    → All (λ x. is_full x ≡ true) (split_path s).1
unfolding split_path
split_others after_slash String.[] h = tt
split_others after_slash (String.◌∷◌ c s) h = elim (Bool-cases (is_slash c)) [
  | inl slash ↦
      let rest : is_rest true s ≡ true = ground arith in
      rw slash (split_head s rest, split_others true s rest)
  | inr other ↦ rw other (split_others false s (ground arith))
]

select-full : (xs : List String) → All (λ x. is_full x ≡ true) xs → select is_full xs ≡ xs
select-full [] h = refl
select-full (x ∷ xs) (full, h) = rw (full, select-full xs h) refl

-- The filter drops the text in front of the first slash and nothing else.
segments_eq :
    (c : Char) (s : String)
    → is_slash c ≡ true
    → is_rest true s ≡ true
    → segments_of (String.◌∷◌ c s) ≡ (split_path s).0 ∷ (split_path s).1
unfolding segments_of split_path
segments_eq c s slash rest = rw slash (
    select-full ((split_path s).0 ∷ (split_path s).1) (split_head s rest, split_others true s rest))

both_segments :
    (xs : List String)
    → All (λ x. is_full x ≡ true) xs
    → All (λ x. is_plain x ≡ true) xs
    → All IsSegment xs
both_segments [] h k = tt
both_segments (x ∷ xs) (f, h) (p, k) = ((f, p), both_segments xs h k)

base_slash :
    (s : String) → text_append "{{baseUrl}}/" s ≡ text_append "{{baseUrl}}" (String.◌∷◌ "/" s)
base_slash s = append_assoc "{{baseUrl}}" "/" s ∙ ap (text_append "{{baseUrl}}") (slash_append s)

-- The address of a path is the path after the base, and its segments are the texts between the
-- slashes.
pub url_of-IsPath :
    (path : String)
    → is_path path ≡ true
    → ((url_of path).raw ≡ text_append "{{baseUrl}}" path) × All IsSegment (url_of path).path
unfolding url_of join
url_of-IsPath String.[] h = ground arith
url_of-IsPath (String.◌∷◌ c s) h =
    let slash : is_slash c ≡ true = ground arith in
    let rest : is_rest true s ≡ true = ground arith in
    rw (segments_eq c s slash rest, join-split_path s, slash_eq c slash)
      (
        base_slash s,
        both_segments ((split_path s).0 ∷ (split_path s).1)
            (split_head s rest, split_others true s rest) (split_plain s),
      )
