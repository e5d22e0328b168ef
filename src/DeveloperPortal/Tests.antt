-- ===== src/DeveloperPortal/Tests.antt =====
-- A small document, with a path parameter and a method that is not taken over.
use developer_platform_backe.DeveloperPortal.Coverage.{
  request_line, HasPaths, promised, HasSegments, to_postman_collection-IsComplete,
}
use developer_platform_backe.DeveloperPortal.{
  ApiOperation, OpenApi, to_postman_collection, get_open_api, path_items, set_spec, method_items,
  item_of, url_of, Item, segments_of, split_path,
}
use developer_platform_backe.Prelude.{String, ◌≡◌, refl, none, some, [], ◌∷◌, map, All}
use Prim.Native.String.{◌++◌ as text_append}

abbrev no_texts : ApiOperation
no_texts = record { summary = none; operation_id = none }

abbrev small : OpenApi
small = record {
  openapi = "3.0.0";
  info = none;
  paths = some (
      (
        "/keys/{id}",
        (("get", record { summary = some "One key"; operation_id = none })
            ∷ ("options", no_texts)
            ∷ ("delete", no_texts)
            ∷ []),
      )
      ∷ ("/keys", (("post", no_texts) ∷ []))
      ∷ []);
}

abbrev shout : String → String
shout s = text_append s "!"

collection_runs :
    map (λ (i : Item). i.url.path) (to_postman_collection shout (set_spec small)).item
    ≡ ("keys" ∷ "{id}" ∷ []) ∷ ("keys" ∷ "{id}" ∷ []) ∷ ("keys" ∷ []) ∷ []
unfolding to_postman_collection get_open_api path_items method_items item_of url_of segments_of
    split_path
collection_runs = refl

names_run :
    map (λ (i : Item). i.name) (to_postman_collection shout (set_spec small)).item
    ≡ "One key" ∷ "delete! /keys/{id}" ∷ "post! /keys" ∷ []
unfolding to_postman_collection get_open_api path_items method_items item_of
names_run = refl

small-HasPaths : HasPaths (get_open_api (set_spec small))
unfolding get_open_api
small-HasPaths = (refl, (refl, tt))

to_postman_collection-IsComplete_example :
    (map request_line (to_postman_collection shout (set_spec small)).item
      ≡ promised shout (get_open_api (set_spec small)))
    × All HasSegments (to_postman_collection shout (set_spec small)).item
    × ((to_postman_collection shout none).item ≡ [])
to_postman_collection-IsComplete_example =
    to_postman_collection-IsComplete shout (set_spec small) small-HasPaths

promised_runs :
    promised shout (get_open_api (set_spec small))
    ≡ ("get!", "{{baseUrl}}/keys/{id}")
      ∷ ("delete!", "{{baseUrl}}/keys/{id}")
      ∷ ("post!", "{{baseUrl}}/keys")
      ∷ []
unfolding get_open_api
promised_runs = refl
