-- ===== src/OpenApi/Validate/Extras.antt =====
-- What the checks of utils.go share: the extra fields of an object, URIs, media types.
use xqua_go.Prelude.{
  Bytes, bytes, bytes_eq, Bool, true, false, not, ◌&&◌, ◌||◌, List, [], ◌∷◌, Option, none, some,
  ◌==◌, if◌then◌else◌, find_key, has_prefix, to_lower, trim_space,
}
use xqua_go.OpenApi.Spec.{
  Any, text_value, texts_value, list_value, bool_value, number_value, map_value, Items, no_items,
  item, Extra, is_some,
}
use xqua_go.OpenApi.Validate.{
  Urls, is_uri_reference, is_non_relative_uri, contains_any, is_open_api_30, is_open_api_32,
}
use xqua_go.OpenApi.Validate.Templates.{replace_params}

abbrev pub is_given : Bytes → Bool
is_given s = not (bytes_eq s [])

-- `slices.Contains`
unfoldable pub contains_text : List Bytes → Bytes → Bool
contains_text [] s = false
contains_text (t ∷ ts) s = bytes_eq t s || contains_text ts s

-- `strings.EqualFold` on ASCII text
abbrev pub equal_fold : Bytes → Bytes → Bool
equal_fold s t = bytes_eq (to_lower s) (to_lower t)

-- `HasInvalidReferenceExtra`
unfoldable pub has_invalid_reference_extra : Extra → Bytes → Bool
has_invalid_reference_extra [] version = false
has_invalid_reference_extra ((key, v) ∷ extra) version =
    let rest = has_invalid_reference_extra extra version in
    if not (is_open_api_30 version)
      && (bytes_eq key (bytes "summary") || bytes_eq key (bytes "description"))
    then rest
    else if has_prefix key (bytes "x-")
    then rest
    else true

-- `ExtraHas`
unfoldable pub extra_has : Extra → List Bytes → Bool
extra_has extra [] = false
extra_has extra (key ∷ keys) = is_some (find_key key extra) || extra_has extra keys

-- `HasNonExtensionExtra`
unfoldable pub has_non_extension_extra : Extra → Bool
has_non_extension_extra [] = false
has_non_extension_extra ((key, v) ∷ extra) =
    not (has_prefix key (bytes "x-")) || has_non_extension_extra extra

-- `SecurityRequirementMayUseURI`; the characters are `:/.#?`.
unfoldable pub security_requirement_may_use_uri : Bytes → Bytes → Bool
security_requirement_may_use_uri name version =
    is_open_api_32 version && contains_any (58 ∷ 47 ∷ 46 ∷ 35 ∷ 63 ∷ []) name

-- `IsServerURL`; the characters are `?#`.
unfoldable pub is_server_url : Urls → Bytes → Bool
is_server_url urls value =
    if contains_any (63 ∷ 35 ∷ []) value
    then false
    else is_uri_reference urls (replace_params value (bytes "x"))

-- `IsHTTPSURI`
unfoldable pub is_https_uri : Urls → Bytes → Bool
is_https_uri urls value =
    if not (is_non_relative_uri urls value)
    then false
    else urls.parses value
      && equal_fold (urls.scheme value) (bytes "https")
      && bytes_eq (urls.fragment value) []

-- `IsNumber`
abbrev pub is_number : Any → Bool
is_number (number_value n) = true
is_number (text_value s) = false
is_number (bool_value b) = false
is_number (texts_value l) = false
is_number (list_value l) = false
is_number (map_value m) = false

-- `strings.Cut(s, ";")`, the text before
abbrev pub before_semicolon : Bytes → Bytes
before_semicolon [] = []
before_semicolon (c ∷ s) = let rest = before_semicolon s in if c == 59 then [] else c ∷ rest

-- `MediaTypeBase`
unfoldable pub media_type_base : Bytes → Bytes
media_type_base media_type = trim_space (before_semicolon (to_lower (trim_space media_type)))

-- `MediaTypeIsMultipart`
unfoldable pub media_type_is_multipart : Bytes → Bool
media_type_is_multipart media_type =
    if bytes_eq media_type []
    then true
    else has_prefix (media_type_base media_type) (bytes "multipart/")

-- `MediaTypeAllowsNamedEncoding`
unfoldable pub media_type_allows_named_encoding : Bytes → Bool
media_type_allows_named_encoding media_type =
    if bytes_eq media_type []
    then true
    else media_type_is_multipart media_type
      || bytes_eq (media_type_base media_type) (bytes "application/x-www-form-urlencoded")

abbrev pub is_array_value : Any → Bool
is_array_value (text_value s) = bytes_eq s (bytes "array")
is_array_value (bool_value b) = false
is_array_value (number_value n) = false
is_array_value (texts_value l) = false
is_array_value (list_value l) = false
is_array_value (map_value m) = false

abbrev pub some_array : Items → Bool
some_array no_items = false
some_array (item v vs) = is_array_value v || some_array vs

-- `SchemaTypeIncludesArray`, on the type of a schema
unfoldable pub type_includes_array : Option Any → Bool
type_includes_array none = false
type_includes_array (some (text_value s)) = bytes_eq s (bytes "array")
type_includes_array (some (texts_value l)) = contains_text l (bytes "array")
type_includes_array (some (list_value l)) = some_array l
type_includes_array (some (bool_value b)) = false
type_includes_array (some (number_value n)) = false
type_includes_array (some (map_value m)) = false
