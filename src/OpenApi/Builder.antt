-- ===== src/OpenApi/Builder.antt =====
-- The builder of documents: `ensurePathParameters` of internal/builder/builder.go, `SetOperation` of
-- internal/builder/utils.go.
--
-- A schema that is made gets the next address that is free.
pub mod Declares
use xqua_go.Prelude.{
  ℕ, suc, Bytes, bytes, bytes_eq, Bool, true, false, not, ◌&&◌, ◌||◌, List, [], ◌∷◌, ◌++◌, Option,
  none, some, ◌==◌, leb, if◌then◌else◌, has_prefix,
}
use xqua_go.OpenApi.Spec.Media.{no_media}
use xqua_go.OpenApi.Spec.Paths.{
  Parameter, Operation, nil_operation, operation, PathItem, nil_item, path_item, Operations,
  no_operations, add_operation,
}
use xqua_go.OpenApi.Validate.{is_open_api_32}
use xqua_go.OpenApi.Validate.Extras.{is_given, contains_text}
use xqua_go.OpenApi.Validate.Operations.{has_operation, is_operation}
use xqua_go.OpenApi.Validate.PathParams.{is_direct_in}
use xqua_go.OpenApi.Validate.Templates.{param_names}

-- The first loop of `ensurePathParameters`: the names of the path parameters
abbrev pub existing_names : List (Option Parameter) → List Bytes
existing_names [] = []
existing_names (none ∷ ps) = existing_names ps
existing_names (some p ∷ ps) =
    let rest = existing_names ps in
    if is_direct_in (bytes "path") (some p) && is_given p.name then p.name ∷ rest else rest

-- `hasComponentParamRef`
abbrev pub has_component_ref : List (Option Parameter) → Bool
has_component_ref [] = false
has_component_ref (none ∷ ps) = has_component_ref ps
has_component_ref (some p ∷ ps) =
    (is_given p.ref && has_prefix p.ref (bytes "#/components/parameters/")) || has_component_ref ps

-- The parameter that is injected, with the address of its schema
abbrev pub path_parameter : Bytes → ℕ → Parameter
path_parameter name schema = record {
  ref = [];
  summary = [];
  name = name;
  in_ = bytes "path";
  description = [];
  required = true;
  deprecated = false;
  allow_empty_value = false;
  style = [];
  explode = none;
  allow_reserved = false;
  schema = some schema;
  content = no_media;
  example = none;
  examples = [];
  extra = [];
}

abbrev pub inject_one :
    Bool
    → Bytes
    → ℕ
    → List Bytes
    → (ℕ → List Bytes → List (Option Parameter))
    → List (Option Parameter)
inject_one true name fresh existing more = more fresh existing
inject_one false name fresh existing more =
    some (path_parameter name fresh) ∷ more (suc fresh) (name ∷ existing)

-- The second loop
unfoldable pub inject : List Bytes → ℕ → List Bytes → List (Option Parameter)
inject [] fresh existing = []
inject (name ∷ names) fresh existing =
    inject_one (contains_text existing name) name fresh existing (λ f e. inject names f e)

-- `ensurePathParameters`, on the parameters of the operation
unfoldable pub ensure_path_parameters :
    Bytes → ℕ → List (Option Parameter) → List (Option Parameter)
ensure_path_parameters target fresh params =
    if not (has_prefix target (bytes "/")) || has_component_ref params
    then params
    else params ++ inject (param_names target) fresh (existing_names params)

pub data SetError : Type 0 where
  duplicate : Bytes → SetError
  unsupported : Bytes → SetError

pub data SetResult : Type 0 where
  set_item : PathItem → SetResult
  not_set : SetError → SetResult

abbrev free : Operation → Bytes → PathItem → SetResult
free nil_operation method it = set_item it
free (operation f cbs) method it = not_set (duplicate method)

-- `SetOperation`, of a method in upper case
unfoldable pub set_operation : PathItem → Bytes → Operation → Bytes → SetResult
set_operation nil_item method op version = set_item nil_item
set_operation (path_item f get put post delete options head patch trace query more) method op
      version =
    if bytes_eq method (bytes "GET")
    then free get method (path_item f op put post delete options head patch trace query more)
    else if bytes_eq method (bytes "PUT")
    then free put method (path_item f get op post delete options head patch trace query more)
    else if bytes_eq method (bytes "POST")
    then free post method (path_item f get put op delete options head patch trace query more)
    else if bytes_eq method (bytes "DELETE")
    then free delete method (path_item f get put post op options head patch trace query more)
    else if bytes_eq method (bytes "OPTIONS")
    then free options method (path_item f get put post delete op head patch trace query more)
    else if bytes_eq method (bytes "HEAD")
    then free head method (path_item f get put post delete options op patch trace query more)
    else if bytes_eq method (bytes "PATCH")
    then free patch method (path_item f get put post delete options head op trace query more)
    else if bytes_eq method (bytes "TRACE")
    then free trace method (path_item f get put post delete options head patch op query more)
    else if bytes_eq method (bytes "QUERY")
    then free query method (path_item f get put post delete options head patch trace op more)
    else if not (is_open_api_32 version)
    then not_set (unsupported method)
    else if has_operation method more
    then not_set (duplicate method)
    else set_item (
        path_item f get put post delete options head patch trace query
          (add_operation method op more))
