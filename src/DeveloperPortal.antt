-- ===== src/DeveloperPortal.antt =====
-- developer-portal/developer-portal.service.ts: what the developer portal makes from the OpenAPI
-- document, a Postman collection and the guide to SDKs.
pub mod Paths
pub mod Coverage
mod Tests
use developer_platform_backe.Prelude.{
  String, Bool, true, false, not, Option, none, some, List, [], ◌∷◌, ◌++◌, ◌==◌, if◌then◌else◌,
  or_default, select, any,
}
use text.Mathlib.Text.{◌==◌ as str_eq}
use Prim.Native.Char.{Char, code}
use Prim.Native.String.{◌++◌ as text_append}

-- What the service reads of an operation, and of `info`.
pub record ApiOperation : Type 0 where
  pub summary : Option String
  pub operation_id : Option String

pub record Info : Type 0 where
  pub title : Option String
  pub description : Option String

-- `OpenAPIObject`; the paths and the keys of a path in the order of `Object.entries`.
pub record OpenApi : Type 0 where
  pub openapi : String
  pub info : Option Info
  pub paths : Option (List (String × List (String × ApiOperation)))

-- `setSpec`: the new value of the field.
abbrev pub set_spec : OpenApi → Option OpenApi
set_spec spec = some spec

-- `getOpenApi`
unfoldable pub get_open_api : (stored : Option OpenApi) → OpenApi
get_open_api none = record {
  openapi = "3.0.0";
  info = some (record { title = some "API"; description = none });
  paths = some [];
}
get_open_api (some spec) = spec

pub record PostmanHeader : Type 0 where
  pub key : String
  pub value : String
  pub description : Option String

pub record Url : Type 0 where
  pub raw : String
  pub host : List String
  pub path : List String

pub record Item : Type 0 where
  pub name : String
  pub method : String
  pub header : List PostmanHeader
  pub url : Url

abbrev pub is_slash : Char → Bool
is_slash c = code c == b'/'

-- `path.split('/')`: the first piece and the others.
unfoldable pub split_path : String → String × List String
split_path String.[] = ("", [])
split_path (String.◌∷◌ c s) =
    let pieces = split_path s in
    if is_slash c then ("", pieces.0 ∷ pieces.1) else (String.◌∷◌ c pieces.0, pieces.1)

abbrev pub is_full : String → Bool
is_full String.[] = false
is_full (String.◌∷◌ c s) = true

-- `path.split('/').filter(Boolean)`
unfoldable pub segments_of : String → List String
unfolding split_path
segments_of path = select is_full ((split_path path).0 ∷ (split_path path).1)

-- `segments.join('/')`
unfoldable pub join_after : String → List String → String
join_after x [] = x
join_after x (y ∷ ys) = text_append x (text_append "/" (join_after y ys))

unfoldable pub join : List String → String
unfolding join_after
join [] = ""
join (x ∷ xs) = join_after x xs

unfoldable pub url_of : (path : String) → Url
unfolding segments_of join
url_of path = record {
  raw = text_append "{{baseUrl}}/" (join (segments_of path));
  host = "{{baseUrl}}" ∷ [];
  path = segments_of path;
}

-- The methods that are taken over.
abbrev pub is_method : String → Bool
is_method m = any (str_eq m) ("get" ∷ "post" ∷ "put" ∷ "patch" ∷ "delete" ∷ [])

abbrev pub headers : List PostmanHeader
headers =
    record { key = "Content-Type"; value = "application/json"; description = none }
    ∷ record {
      key = "Authorization";
      value = "Bearer {{accessToken}}";
      description = some "JWT for dashboard routes";
    }
    ∷ record {
      key = "x-api-key";
      value = "{{apiKey}}";
      description = some "API key for /gateway routes";
    }
    ∷ []

pub record Collection : Type 0 where
  pub name : String
  pub description : String
  pub schema : String
  pub variable : List (String × String)
  pub item : List Item

-- `spec.info?.title` and `spec.info?.description`
abbrev pub title_of : Option Info → Option String
title_of none = none
title_of (some info) = info.title

abbrev pub description_of : Option Info → Option String
description_of none = none
description_of (some info) = info.description

module _ (to_upper_case : String → String) where
  unfoldable pub item_of : (path method : String) → ApiOperation → Item
  unfolding url_of
  item_of path method op = record {
    name =
        or_default op.summary
          (or_default op.operation_id (text_append (to_upper_case method) (text_append " " path)));
    method = to_upper_case method;
    header = headers;
    url = url_of path;
  }

  -- The loop over the methods of a path.
  unfoldable pub method_items : (path : String) → List (String × ApiOperation) → List Item
  unfolding item_of
  method_items path [] = []
  method_items path ((method, op) ∷ rest) =
      let items = method_items path rest in
      if not (is_method method) then items else item_of path method op ∷ items

  -- The loop over the paths.
  unfoldable pub path_items : List (String × List (String × ApiOperation)) → List Item
  unfolding method_items
  path_items [] = []
  path_items ((path, methods) ∷ rest) = method_items path methods ++ path_items rest

  -- `toPostmanCollection`
  unfoldable pub to_postman_collection : (stored : Option OpenApi) → Collection
  unfolding get_open_api path_items
  to_postman_collection stored =
      let spec = get_open_api stored in
      record {
        name = or_default (title_of spec.info) "Developer Platform API";
        description = or_default (description_of spec.info) "";
        schema = "https://schema.getpostman.com/json/collection/v2.1.0/collection.json";
        variable =
            ("baseUrl", "http://localhost:3333/api") ∷ ("accessToken", "") ∷ ("apiKey", "") ∷ [];
        item = path_items (or_default spec.paths []);
      }
