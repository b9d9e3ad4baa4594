-- ===== src/OpenApi/Validate/Parameters.antt =====
-- `ValidateParameters` of operation.go, with `ValidateParameterSerialization` and
-- `ValidParameterStyle` of utils.go and `ResolveParameterRefs` and its helpers of path.go.
use xqua_go.Prelude.{
  ℕ, suc, Bytes, bytes, bytes_eq, Bool, false, not, ◌&&◌, ◌||◌, List, [], ◌∷◌, ◌++◌, Option, none,
  some, if◌then◌else◌, find_key, decimal, has_prefix, to_lower, drop, length,
}
use xqua_go.OpenApi.Spec.{is_some, is_filled}
use xqua_go.OpenApi.Spec.Schemas.{Heap}
use xqua_go.OpenApi.Spec.Paths.{Parameter}
use xqua_go.OpenApi.Validate.{
  Problem, errorf, warningf, when, text, Urls, is_open_api_30, is_open_api_32,
}
use xqua_go.OpenApi.Validate.Extras.{is_given, contains_text, has_invalid_reference_extra}
use xqua_go.OpenApi.Validate.Keywords.{error_at, error_when}
use xqua_go.OpenApi.Validate.Media.{
  has_media, has_more_media, validate_media_types, schema_problems,
}
use xqua_go.OpenApi.Validate.Objects.{validate_examples}
use xqua_go.OpenApi.Validate.Pointer.{unescape_pointer}

-- `IsValidParameterIn`
unfoldable pub is_valid_parameter_in : Bytes → Bool
is_valid_parameter_in in_ =
    contains_text
      (bytes "query" ∷ bytes "header" ∷ bytes "path" ∷ bytes "cookie" ∷ bytes "querystring" ∷ [])
      in_

-- `ValidParameterStyle`
unfoldable pub valid_parameter_style : Bytes → Bytes → Bytes → Bool
valid_parameter_style in_ style version =
    if bytes_eq in_ (bytes "path")
    then contains_text (bytes "matrix" ∷ bytes "label" ∷ bytes "simple" ∷ []) style
    else if bytes_eq in_ (bytes "query")
    then contains_text
        (bytes "form" ∷ bytes "spaceDelimited" ∷ bytes "pipeDelimited" ∷ bytes "deepObject" ∷ [])
        style
    else if bytes_eq in_ (bytes "header")
    then bytes_eq style (bytes "simple")
    else if bytes_eq in_ (bytes "cookie")
    then (if is_open_api_32 version
        then bytes_eq style (bytes "form") || bytes_eq style (bytes "cookie")
        else bytes_eq style (bytes "form"))
    else false

-- `ValidateParameterSerialization`
unfoldable pub validate_parameter_serialization : Bytes → Parameter → Bytes → List Problem
validate_parameter_serialization context p version =
    error_when (p.allow_empty_value && not (bytes_eq p.in_ (bytes "query"))) context
      "%s allowEmptyValue is only allowed for query parameters"
    ++ when (p.allow_empty_value && bytes_eq p.in_ (bytes "query") && is_open_api_32 version) (
        warningf
          "%s allowEmptyValue is deprecated in OpenAPI 3.2.0 and will be removed in a later version"
          (text context ∷ []))
    ++ when (is_given p.style && not (valid_parameter_style p.in_ p.style version)) (
        errorf "%s.style %q is not allowed for %s parameters"
          (text context ∷ text p.style ∷ text p.in_ ∷ []))

-- `HasParameterRefSiblings`
unfoldable pub has_parameter_ref_siblings : Parameter → Bytes → Bool
has_parameter_ref_siblings p version =
    (is_open_api_30 version && (is_given p.summary || is_given p.description))
    || is_given p.name
    || is_given p.in_
    || p.required
    || p.deprecated
    || p.allow_empty_value
    || is_given p.style
    || is_some p.explode
    || p.allow_reserved
    || is_some p.schema
    || has_media p.content
    || is_some p.example
    || is_filled p.examples
    || has_invalid_reference_extra p.extra version

abbrev pub Components : Type 0
Components = List (Bytes × Option Parameter)

abbrev pub at_name : Option (Option Parameter) → Option Parameter
at_name none = none
at_name (some p) = p

abbrev pub ref_prefix : Bytes
ref_prefix = bytes "#/components/parameters/"

-- `ResolveParameterRef`
unfoldable pub resolve_parameter_ref : Bytes → Components → Option Parameter
resolve_parameter_ref ref components =
    if has_prefix ref ref_prefix
    then at_name (find_key (unescape_pointer (drop (length ref_prefix) ref)) components)
    else none

abbrev pub resolved_or : Option Parameter → Option Parameter → Option Parameter
resolved_or p none = p
resolved_or p (some q) = some q

abbrev pub resolved : Components → Option Parameter → Option Parameter
resolved components none = none
resolved components (some p) =
    if is_given p.ref then resolved_or (some p) (resolve_parameter_ref p.ref components) else some p

-- `ResolveParameterRefs`
unfoldable pub resolve_parameter_refs :
    List (Option Parameter) → Components → List (Option Parameter)
resolve_parameter_refs [] components = []
resolve_parameter_refs (p ∷ ps) components =
    resolved components p ∷ resolve_parameter_refs ps components

-- `param.Name + "\x00" + param.In`
abbrev pub key_of : Parameter → Bytes
key_of p = p.name ++ (0 ∷ p.in_)

abbrev pub Seen : Type 0
Seen = List Bytes

abbrev pub duplicate_problems : Bytes → Parameter → Seen → List Problem
duplicate_problems context p seen =
    when (contains_text seen (key_of p))
      (errorf "%s duplicates parameter %q in %q" (text context ∷ text p.name ∷ text p.in_ ∷ []))

-- What a parameter that is a reference reports, and the keys after it.
abbrev pub ref_problems : Bytes → Option Parameter → Seen → List Problem × Seen
ref_problems context none seen = ([], seen)
ref_problems context (some q) seen = (duplicate_problems context q seen, key_of q ∷ seen)

abbrev forbidden_headers : List Bytes
forbidden_headers = bytes "accept" ∷ bytes "content-type" ∷ bytes "authorization" ∷ []

-- The checks of a parameter before its key is looked for.
abbrev pub name_problems : Bytes → Parameter → Bytes → List Problem
name_problems context p version =
    when p.deprecated (warningf "%s is deprecated" (text context ∷ []))
    ++ error_when (is_given p.summary) context "%s.summary is only allowed with $ref"
    ++ error_when (bytes_eq p.name []) context "%s.name is required"
    ++ (if bytes_eq p.in_ []
        then error_at context "%s.in is required"
        else error_when (not (is_valid_parameter_in p.in_)) context
            "%s.in must be one of query, querystring, header, path, or cookie")
    ++ error_when (bytes_eq p.in_ (bytes "querystring") && not (is_open_api_32 version)) context
        "%s querystring parameters require OpenAPI 3.2.0"
    ++ error_when (bytes_eq p.in_ (bytes "path") && not p.required) context
        "%s path parameter must be required"
    ++ when (bytes_eq p.in_ (bytes "header") && contains_text forbidden_headers (to_lower p.name))
        (errorf "%s.name %q is not allowed for header parameters" (text context ∷ text p.name ∷ []))

-- Those after it, up to the schema
abbrev pub content_problems : Bytes → Parameter → List Problem
content_problems context p =
    error_when (is_some p.schema && has_media p.content) context
      "%s schema and content are mutually exclusive"
    ++ error_when (not (is_some p.schema) && not (has_media p.content)) context
        "%s must define schema or content"
    ++ error_when (has_more_media p.content) context "%s content must contain only one media type"
    ++ error_when (is_some p.example && is_filled p.examples) context
        "%s example and examples are mutually exclusive"
    ++ error_when (bytes_eq p.in_ (bytes "querystring") && is_some p.schema) context
        "%s querystring parameter must use content"
    ++ error_when (bytes_eq p.in_ (bytes "querystring") && not (has_media p.content)) context
        "%s querystring parameter content is required"
    ++ error_when
        (bytes_eq p.in_ (bytes "querystring")
          && (is_given p.style || is_some p.explode || p.allow_reserved || p.allow_empty_value))
        context
        "%s style, explode, allowReserved, and allowEmptyValue must not be used with querystring"

module _ (urls : Urls) (heap : Heap) (size : ℕ) (version : Bytes) (components : Components) where
  abbrev pub parameter_problems : Bytes → Option Parameter → Seen → List Problem × Seen
  parameter_problems context none seen = (error_at context "%s is required", seen)
  parameter_problems context (some p) seen =
      if is_given p.ref
      then (let (errs, seen') =
            ref_problems context (resolve_parameter_ref p.ref components) seen in
          (
            error_when (has_parameter_ref_siblings p version) context
                  "%s must not define siblings with $ref"
                ++ errs,
            seen',
          ))
      else (
        name_problems context p version
            ++ duplicate_problems context p seen
            ++ content_problems context p
            ++ validate_parameter_serialization context p version
            ++ schema_problems urls heap size version (context ++ bytes ".schema") p.schema
            ++ validate_media_types urls heap size version (context ++ bytes ".content.") p.content
            ++ validate_examples urls (context ++ bytes ".examples.") p.examples version,
        key_of p ∷ seen,
      )

  abbrev pub then_seen : List Problem × Seen → (Seen → List Problem) → List Problem
  then_seen (errs, seen) more = errs ++ more seen

  -- `ValidateParameters` from an index on, with the keys before it
  unfoldable pub validate_parameters : Bytes → ℕ → List (Option Parameter) → Seen → List Problem
  validate_parameters context i [] seen = []
  validate_parameters context i (p ∷ ps) seen =
      then_seen (parameter_problems (context ++ bytes "[" ++ decimal i ++ bytes "]") p seen)
        (validate_parameters context (suc i) ps)
