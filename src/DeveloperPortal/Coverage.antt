-- ===== src/DeveloperPortal/Coverage.antt =====
-- What the Postman collection contains.
use text.Mathlib.Text.{◌==◌ as str_eq}
use developer_platform_backe.DeveloperPortal.Paths.{is_path, IsSegment, url_of-IsPath}
use developer_platform_backe.DeveloperPortal.{
  ApiOperation, OpenApi, Item, method_items, is_method, item_of, path_items, to_postman_collection,
  get_open_api,
}
use developer_platform_backe.Prelude.{
  String, ◌≡◌, refl, inl, inr, Bool, true, Option, none, List, [], ◌∷◌, ◌++◌, map, Bool-cases,
  or_default, select, All, arith, ◌||◌,
}
use mathlib.Core.List.{map-append}
use Prim.Native.String.{◌++◌ as text_append}

abbrev at_path : (path : String) → String × ApiOperation → String × String
at_path path m = (path, m.0)

-- Every operation of the document with its path, the unknown methods among them.
abbrev pub operations : List (String × List (String × ApiOperation)) → List (String × String)
operations [] = []
operations ((path, methods) ∷ rest) = map (at_path path) methods ++ operations rest

-- The method and the address of an operation.
abbrev line_of : (to_upper_case : String → String) → String × String → String × String
line_of to_upper_case e = (to_upper_case e.1, text_append "{{baseUrl}}" e.0)

-- GET, POST, PUT, PATCH and DELETE, as a document writes them.
abbrev pub is_wanted : String → Bool
is_wanted m =
    str_eq m "get" || str_eq m "post" || str_eq m "put" || str_eq m "patch" || str_eq m "delete"

abbrev has_method : String × String → Bool
has_method e = is_wanted e.1

wanted-eq-known : (m : String) → is_wanted m ≡ is_method m
wanted-eq-known m = ground arith

-- The requests that the document promises: each operation of one of the five methods, under the
-- base.
abbrev pub promised : (to_upper_case : String → String) → OpenApi → List (String × String)
promised to_upper_case spec =
    map (line_of to_upper_case) (select has_method (operations (or_default spec.paths [])))

select-append :
    (p : String × String → Bool) (xs ys : List (String × String))
    → select p (xs ++ ys) ≡ select p xs ++ select p ys
select-append p [] ys = refl
select-append p (x ∷ xs) ys = elim (Bool-cases (p x)) [
  | inl takes ↦ rw (takes, select-append p xs ys) refl
  | inr drops ↦ rw (drops, select-append p xs ys) refl
]

All-append : (P : Item → Type 0) (xs ys : List Item) → All P xs → All P ys → All P (xs ++ ys)
All-append P [] ys h k = k
All-append P (x ∷ xs) ys (p, h) k = (p, All-append P xs ys h k)

-- The method and the address of an item.
abbrev pub request_line : Item → String × String
request_line i = (i.method, i.url.raw)

abbrev pub HasPaths : OpenApi → Type 0
HasPaths spec =
    All (λ (p : String × List (String × ApiOperation)). is_path p.0 ≡ true)
      (or_default spec.paths [])

-- All segments of an item's address are full and have no slash.
abbrev pub HasSegments : Item → Type 0
HasSegments i = All IsSegment i.url.path

module _ (to_upper_case : String → String) where
  methods_lem :
      (path : String) (ms : List (String × ApiOperation))
      → is_path path ≡ true
      → (map request_line (method_items to_upper_case path ms)
          ≡ map (line_of to_upper_case) (select has_method (map (at_path path) ms)))
        × All HasSegments (method_items to_upper_case path ms)
  unfolding method_items item_of
  methods_lem path [] h = (refl, tt)
  methods_lem path ((method, op) ∷ rest) h =
      let later = methods_lem path rest h in
      let url = url_of-IsPath path h in
      elim (Bool-cases (is_method method)) [
        | inl known ↦ rw (wanted-eq-known method, known, url.0, later.0) (refl, (url.1, later.1))
        | inr other ↦ rw (wanted-eq-known method, other) later
      ]

  paths_lem :
      (ps : List (String × List (String × ApiOperation)))
      → All (λ (p : String × List (String × ApiOperation)). is_path p.0 ≡ true) ps
      → (map request_line (path_items to_upper_case ps)
          ≡ map (line_of to_upper_case) (select has_method (operations ps)))
        × All HasSegments (path_items to_upper_case ps)
  unfolding path_items
  paths_lem [] h = (refl, tt)
  paths_lem ((path, methods) ∷ rest) (here, h) =
      let first = methods_lem path methods here in
      let later = paths_lem rest h in
      (
        rw
            (
              map-append request_line,
              select-append has_method,
              map-append (line_of to_upper_case),
              first.0,
              later.0,
            )
            refl,
        All-append HasSegments (method_items to_upper_case path methods)
            (path_items to_upper_case rest) first.1 later.1,
      )

  -- With a slash in front of every segment of every path of the document, none of them empty: the
  -- requests of the Postman collection are, in the order of the document, its operations with GET,
  -- POST, PUT, PATCH or DELETE, each with the method in upper case and the address `{{baseUrl}}` followed by the
  -- path as the document has it, and the segments of an address are not empty and hold no slash. Before
  -- the document is set there are none.
  pub to_postman_collection-IsComplete :
      (stored : Option OpenApi)
      → HasPaths (get_open_api stored)
      → (map request_line (to_postman_collection to_upper_case stored).item
          ≡ promised to_upper_case (get_open_api stored))
        × All HasSegments (to_postman_collection to_upper_case stored).item
        × ((to_postman_collection to_upper_case none).item ≡ [])
  unfolding to_postman_collection path_items get_open_api
  to_postman_collection-IsComplete stored h =
      let all = paths_lem (or_default (get_open_api stored).paths []) h in (all.0, all.1, refl)
