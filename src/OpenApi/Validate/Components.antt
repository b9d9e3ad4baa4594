-- ===== src/OpenApi/Validate/Components.antt =====
-- `ValidateComponents` and `ValidateComponentKeys` of components.go.
use xqua_go.Prelude.{
  ℕ, Bytes, bytes, Bool, true, false, not, ◌&&◌, ◌||◌, List, [], ◌∷◌, ◌++◌, Option, none, some, leb,
  ◌==◌,
}
use xqua_go.OpenApi.Spec.{SecurityScheme}
use xqua_go.OpenApi.Spec.Schemas.{Heap}
use xqua_go.OpenApi.Spec.Media.{Headers, no_headers, add_header, MediaTypes, no_media, add_media}
use xqua_go.OpenApi.Spec.Paths.{
  Parameter, RequestBody, Response, Callbacks, no_callbacks, add_callback, PathItems, no_paths,
  add_path, Components,
}
use xqua_go.OpenApi.Validate.{Problem, errorf, when, text, Urls, is_open_api_30, is_open_api_32}
use xqua_go.OpenApi.Validate.Bodies.{validate_request_body, validate_response}
use xqua_go.OpenApi.Validate.Media.{schema_problems, validate_header, validate_media_type}
use xqua_go.OpenApi.Validate.Objects.{validate_examples, validate_links, validate_security_scheme}
use xqua_go.OpenApi.Validate.Operations.{
  OperationIds, Checked, then_check, no_change, validate_callbacks, validate_item_operations,
}
use xqua_go.OpenApi.Validate.Parameters.{validate_parameters}

-- `componentRe`: letters, digits, `.`, `-`, `_`, one at least
abbrev is_key_byte : ℕ → Bool
is_key_byte c =
    (leb 97 c && leb c 122)
    || (leb 65 c && leb c 90)
    || (leb 48 c && leb c 57)
    || (c == 46)
    || (c == 45)
    || (c == 95)

abbrev all_key_bytes : Bytes → Bool
all_key_bytes [] = true
all_key_bytes (c ∷ s) = is_key_byte c && all_key_bytes s

unfoldable pub is_component_key : Bytes → Bool
is_component_key [] = false
is_component_key (c ∷ s) = all_key_bytes (c ∷ s)

-- `ValidateComponentKeys`
unfoldable pub validate_component_keys : Bytes → List Bytes → List Problem
validate_component_keys kind [] = []
validate_component_keys kind (key ∷ keys) =
    when (not (is_component_key key)) (
      errorf "components.%s key %q must match %s"
        (text kind ∷ text key ∷ text (bytes "^[a-zA-Z0-9.\\-_]+$") ∷ []))
    ++ validate_component_keys kind keys

abbrev keys_of : {A : Type 0} → List (Bytes × A) → List Bytes
keys_of [] = []
keys_of ((key, a) ∷ m) = key ∷ keys_of m

abbrev header_keys : Headers → List Bytes
header_keys no_headers = []
header_keys (add_header key h hs) = key ∷ header_keys hs

abbrev callback_keys : Callbacks → List Bytes
callback_keys no_callbacks = []
callback_keys (add_callback key cb cbs) = key ∷ callback_keys cbs

abbrev path_keys : PathItems → List Bytes
path_keys no_paths = []
path_keys (add_path key it its) = key ∷ path_keys its

abbrev media_keys : MediaTypes → List Bytes
media_keys no_media = []
media_keys (add_media key m ms) = key ∷ media_keys ms

abbrev pub paths_of : Option PathItems → PathItems
paths_of none = no_paths
paths_of (some its) = its

abbrev pub media_of : Option MediaTypes → MediaTypes
media_of none = no_media
media_of (some ms) = ms

abbrev is_there : {A : Type 0} → Option A → Bool
is_there none = false
is_there (some a) = true

module _ (urls : Urls) (heap : Heap) (size : ℕ) (version : Bytes)
    (schemes : List (Bytes × Option SecurityScheme))
    (parameters : List (Bytes × Option Parameter)) where
  abbrev keys_problems : Components → List Problem
  keys_problems c =
      validate_component_keys (bytes "schemas") (keys_of c.schemas)
      ++ validate_component_keys (bytes "responses") (keys_of c.responses)
      ++ validate_component_keys (bytes "parameters") (keys_of c.parameters)
      ++ validate_component_keys (bytes "examples") (keys_of c.examples)
      ++ validate_component_keys (bytes "requestBodies") (keys_of c.request_bodies)
      ++ validate_component_keys (bytes "headers") (header_keys c.headers)
      ++ validate_component_keys (bytes "securitySchemes") (keys_of c.security_schemes)
      ++ validate_component_keys (bytes "links") (keys_of c.links)
      ++ validate_component_keys (bytes "callbacks") (callback_keys c.callbacks)
      ++ validate_component_keys (bytes "pathItems") (path_keys (paths_of c.path_items))
      ++ validate_component_keys (bytes "mediaTypes") (media_keys (media_of c.media_types))
      ++ when (is_open_api_30 version && is_there c.path_items)
          (errorf "components.pathItems requires OpenAPI 3.1.x or 3.2.0" [])
      ++ when (not (is_open_api_32 version) && is_there c.media_types)
          (errorf "components.mediaTypes requires OpenAPI 3.2.0" [])

  abbrev schemas_problems : List (Bytes × Option ℕ) → List Problem
  schemas_problems [] = []
  schemas_problems ((name, a) ∷ m) =
      schema_problems urls heap size version (bytes "components.schemas." ++ name) a
      ++ schemas_problems m

  abbrev responses_problems : List (Bytes × Option Response) → List Problem
  responses_problems [] = []
  responses_problems ((name, r) ∷ m) =
      validate_response urls heap size version (bytes "components.responses." ++ name) r
      ++ responses_problems m

  abbrev parameters_problems : List (Bytes × Option Parameter) → List Problem
  parameters_problems [] = []
  parameters_problems ((name, p) ∷ m) =
      validate_parameters urls heap size version parameters (bytes "components.parameters." ++ name)
        0 (p ∷ []) []
      ++ parameters_problems m

  abbrev bodies_problems : List (Bytes × Option RequestBody) → List Problem
  bodies_problems [] = []
  bodies_problems ((name, b) ∷ m) =
      validate_request_body urls heap size version (bytes "components.requestBodies." ++ name) b
      ++ bodies_problems m

  abbrev headers_problems : Headers → List Problem
  headers_problems no_headers = []
  headers_problems (add_header name h hs) =
      validate_header urls heap size version (bytes "components.headers." ++ name) h
      ++ headers_problems hs

  abbrev schemes_problems : List (Bytes × Option SecurityScheme) → List Problem
  schemes_problems [] = []
  schemes_problems ((name, s) ∷ m) =
      validate_security_scheme urls (bytes "components.securitySchemes." ++ name) s version
      ++ schemes_problems m

  abbrev pub media_problems : MediaTypes → List Problem
  media_problems no_media = []
  media_problems (add_media name m ms) =
      validate_media_type urls heap size version (bytes "components.mediaTypes." ++ name) [] m
      ++ media_problems ms

  -- The components before the callbacks, which use identifiers of operations
  unfoldable pub component_problems : Components → List Problem
  component_problems c =
      keys_problems c
      ++ schemas_problems c.schemas
      ++ responses_problems c.responses
      ++ parameters_problems c.parameters
      ++ validate_examples urls (bytes "components.examples.") c.examples version
      ++ bodies_problems c.request_bodies
      ++ headers_problems c.headers
      ++ schemes_problems c.security_schemes
      ++ validate_links urls (bytes "components.links.") c.links version

  abbrev pub path_items : Bytes → PathItems → OperationIds → Checked
  path_items context no_paths ids = ([], ids)
  path_items context (add_path name it its) ids =
      then_check
        (validate_item_operations urls heap size version schemes parameters (context ++ name) it
          ids)
        (λ ids'. path_items context its ids')

  -- `ValidateComponents`
  unfoldable pub validate_components : Components → OperationIds → Checked
  validate_components c ids = then_check (no_change (component_problems c) ids) (λ ids'.
      then_check
        (validate_callbacks urls heap size version schemes parameters
          (bytes "components.callbacks.") c.callbacks ids')
        (λ ids'.
          then_check (path_items (bytes "components.pathItems.") (paths_of c.path_items) ids')
            (no_change (media_problems (media_of c.media_types)))))
