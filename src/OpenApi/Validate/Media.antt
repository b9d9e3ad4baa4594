-- ===== src/OpenApi/Validate/Media.antt =====
-- `ValidateHeader`, `ValidateMediaType` and `ValidateEncoding` of operation.go, which call one
-- another, with their helpers in utils.go.
--
-- Each schema is traversed from an empty map of visited schemas; `size` is above all addresses of
-- the heap, so that the fuel `suc size` is enough.
use Prim.Native.String.{String}
use xqua_go.Prelude.{
  ℕ, suc, Bytes, bytes, bytes_eq, Bool, true, false, not, ◌&&◌, ◌||◌, List, [], ◌∷◌, ◌++◌, Option,
  none, some, if◌then◌else◌, find_key, decimal,
}
use xqua_go.OpenApi.Spec.{is_some, is_filled}
use xqua_go.OpenApi.Spec.Schemas.{Schema, Heap}
use xqua_go.OpenApi.Spec.Media.{
  HeaderFields, MediaFields, EncodingFields, Header, nil_header, header, MediaType, nil_media,
  media_type, Encoding, nil_encoding, encoding, Headers, no_headers, add_header, MediaTypes,
  no_media, add_media, Encodings, no_encodings, add_encoding,
}
use xqua_go.OpenApi.Validate.{
  Problem, errorf, warningf, when, text, Urls, is_open_api_30, is_open_api_32,
}
use xqua_go.OpenApi.Validate.Extras.{
  is_given, equal_fold, has_invalid_reference_extra, media_type_is_multipart,
  media_type_allows_named_encoding, type_includes_array,
}
use xqua_go.OpenApi.Validate.Keywords.{error_at, error_when}
use xqua_go.OpenApi.Validate.Objects.{validate_examples}
use xqua_go.OpenApi.Validate.Schema.{Walked, validate_schema}

abbrev pub has_headers : Headers → Bool
has_headers no_headers = false
has_headers (add_header name h hs) = true

abbrev pub has_media : MediaTypes → Bool
has_media no_media = false
has_media (add_media name m ms) = true

abbrev pub has_more_media : MediaTypes → Bool
has_more_media no_media = false
has_more_media (add_media name m ms) = has_media ms

abbrev pub has_encodings : Encodings → Bool
has_encodings no_encodings = false
has_encodings (add_encoding name e es) = true

abbrev pub has_encoding : Encoding → Bool
has_encoding nil_encoding = false
has_encoding (encoding f hs es ps i) = true

-- `HeaderRefHasInvalidSiblings`
unfoldable pub header_ref_has_invalid_siblings : HeaderFields → MediaTypes → Bytes → Bool
header_ref_has_invalid_siblings f content version =
    (is_open_api_30 version && (is_given f.summary || is_given f.description))
    || f.required
    || f.deprecated
    || f.allow_empty_value
    || is_given f.style
    || is_some f.explode
    || f.allow_reserved
    || is_some f.schema
    || has_media content
    || is_some f.example
    || is_filled f.examples
    || has_invalid_reference_extra f.extra version

-- `MediaTypeRefHasInvalidSiblings`
unfoldable pub media_type_ref_has_invalid_siblings :
    MediaFields → Encodings → Encodings → Encoding → Bytes → Bool
media_type_ref_has_invalid_siblings f encodings prefix item version =
    (is_open_api_30 version && (is_given f.summary || is_given f.description))
    || is_some f.schema
    || is_some f.item_schema
    || is_some f.example
    || is_filled f.examples
    || has_encodings encodings
    || has_encodings prefix
    || has_encoding item
    || has_invalid_reference_extra f.extra version

abbrev pub reported : Walked → List Problem
reported none = []
reported (some (errs, visited)) = errs

module _ (urls : Urls) (heap : Heap) (size : ℕ) (version : Bytes) where
  -- `ValidateSchema` from an empty map
  unfoldable pub schema_problems : Bytes → Option ℕ → List Problem
  schema_problems context o = reported (validate_schema urls heap version (suc size) context o [])

  abbrev header_problems : Bytes → HeaderFields → MediaTypes → List Problem
  header_problems context f content =
      when f.deprecated (warningf "%s is deprecated" (text context ∷ []))
      ++ error_when (is_given f.summary) context "%s.summary is only allowed with $ref"
      ++ error_when (is_some f.schema && has_media content) context
          "%s schema and content are mutually exclusive"
      ++ error_when (not (is_some f.schema) && not (has_media content)) context
          "%s must define schema or content"
      ++ error_when (has_more_media content) context "%s content must contain only one media type"
      ++ error_when (is_some f.example && is_filled f.examples) context
          "%s example and examples are mutually exclusive"
      ++ error_when f.allow_empty_value context "%s allowEmptyValue is not allowed for headers"
      ++ error_when (f.allow_reserved && not (is_open_api_32 version)) context
          "%s allowReserved is not allowed for headers"
      ++ error_when (is_given f.style && not (bytes_eq f.style (bytes "simple"))) context
          "%s.style must be simple for headers"
      ++ schema_problems (context ++ bytes ".schema") f.schema

  abbrev type_of : Option ℕ → Option Schema
  type_of none = none
  type_of (some a) = heap a

  abbrev includes_array : Option Schema → Bool
  includes_array none = false
  includes_array (some s) = type_includes_array s.type

  abbrev media_problems :
      Bytes → Bytes → MediaFields → Encodings → Encodings → Encoding → List Problem
  media_problems context name f encodings prefix item =
      error_when (is_given f.summary || is_given f.description) context
        "%s summary and description are only allowed with $ref"
      ++ when (has_encodings encodings && not (media_type_allows_named_encoding name)) (
          warningf
            "%s.encoding is ignored unless media type is multipart or application/x-www-form-urlencoded"
            (text context ∷ []))
      ++ error_when (has_encodings prefix && not (media_type_is_multipart name)) context
          "%s.prefixEncoding requires multipart media type"
      ++ error_when (has_encoding item && not (media_type_is_multipart name)) context
          "%s.itemEncoding requires multipart media type"
      ++ error_when (not (is_open_api_32 version) && is_some f.item_schema) context
          "%s.itemSchema requires OpenAPI 3.2.0"
      ++ error_when (not (is_open_api_32 version) && has_encodings prefix) context
          "%s.prefixEncoding requires OpenAPI 3.2.0"
      ++ error_when (not (is_open_api_32 version) && has_encoding item) context
          "%s.itemEncoding requires OpenAPI 3.2.0"
      ++ error_when (is_some f.example && is_filled f.examples) context
          "%s example and examples are mutually exclusive"
      ++ error_when (has_encodings encodings && (has_encodings prefix || has_encoding item)) context
          "%s encoding must not be used with prefixEncoding or itemEncoding"
      ++ error_when
          ((has_encodings prefix || has_encoding item)
            && not (is_some f.item_schema)
            && not (includes_array (type_of f.schema)))
          context "%s prefixEncoding or itemEncoding requires itemSchema or an array schema"
      ++ schema_problems (context ++ bytes ".schema") f.schema
      ++ schema_problems (context ++ bytes ".itemSchema") f.item_schema

  abbrev property_names : Bytes → Schema → Encodings → List Problem
  property_names context s no_encodings = []
  property_names context s (add_encoding name e es) =
      when (not (is_some (find_key name s.properties))) (
        errorf "%s.encoding.%s must correspond to a schema property"
          (text context ∷ text name ∷ []))
      ++ property_names context s es

  abbrev property_problems : Bytes → Option Schema → Encodings → List Problem
  property_problems context none es = []
  property_problems context (some s) es = if is_given s.ref then [] else property_names context s es

  abbrev encoding_problems :
      Bytes → Bytes → EncodingFields → Headers → Encodings → Encoding → List Problem
  encoding_problems context name f headers prefix item =
      when
        ((is_given f.style || is_some f.explode || f.allow_reserved)
          && not (media_type_allows_named_encoding name))
        (warningf
          "%s style, explode, and allowReserved are ignored unless media type is multipart or application/x-www-form-urlencoded"
          (text context ∷ []))
      ++ error_when (has_headers headers && not (media_type_is_multipart name)) context
          "%s.headers requires multipart media type"
      ++ error_when (not (is_open_api_32 version) && has_encodings prefix) context
          "%s.prefixEncoding requires OpenAPI 3.2.0"
      ++ error_when (not (is_open_api_32 version) && has_encoding item) context
          "%s.itemEncoding requires OpenAPI 3.2.0"

  abbrev content_type_warning : String → Bytes → Bytes → List Problem
  content_type_warning format context name =
      when (equal_fold name (bytes "Content-Type"))
        (warningf format (text context ∷ text name ∷ []))

  -- `ValidateHeader`, `ValidateMediaType`, `ValidateEncoding`, and the loops over what is in them.
  unfoldable mutual
    pub validate_header : Bytes → Header → List Problem
    validate_header context nil_header = error_at context "%s is required"
    validate_header context (header f content) =
        let inner = validate_media_types (context ++ bytes ".content.") content in
        if is_given f.ref
        then error_when (header_ref_has_invalid_siblings f content version) context
            "%s must not define siblings with $ref"
        else header_problems context f content
          ++ inner
          ++ validate_examples urls (context ++ bytes ".examples.") f.examples version

    pub validate_media_types : Bytes → MediaTypes → List Problem
    validate_media_types context no_media = []
    validate_media_types context (add_media name m ms) =
        validate_media_type (context ++ name) name m ++ validate_media_types context ms

    pub validate_media_type : Bytes → Bytes → MediaType → List Problem
    validate_media_type context name nil_media = error_at context "%s is required"
    validate_media_type context name (media_type f encodings prefix item) =
        let named = validate_encodings (context ++ bytes ".encoding.") name encodings in
        let indexed = validate_prefix (context ++ bytes ".prefixEncoding") name 0 prefix in
        let single = validate_encoding (context ++ bytes ".itemEncoding") name item in
        if is_given f.ref
        then error_when (media_type_ref_has_invalid_siblings f encodings prefix item version)
            context "%s must not define siblings with $ref"
        else media_problems context name f encodings prefix item
          ++ property_problems context (type_of f.schema) encodings
          ++ named
          ++ indexed
          ++ (if has_encoding item then single else [])
          ++ validate_examples urls (context ++ bytes ".examples.") f.examples version

    pub validate_encoding : Bytes → Bytes → Encoding → List Problem
    validate_encoding context name nil_encoding = error_at context "%s is required"
    validate_encoding context name (encoding f headers encodings prefix item) =
        let single = validate_encoding (context ++ bytes ".itemEncoding") name item in
        encoding_problems context name f headers prefix item
        ++ validate_headers
            "%s.headers %q is described separately and is ignored; use encoding.contentType instead"
            context headers
        ++ validate_encodings (context ++ bytes ".encoding.") name encodings
        ++ validate_prefix (context ++ bytes ".prefixEncoding") name 0 prefix
        ++ (if has_encoding item then single else [])

    -- The headers of a response or an encoding, with its warning about `Content-Type`
    pub validate_headers : String → Bytes → Headers → List Problem
    validate_headers format context no_headers = []
    validate_headers format context (add_header name h hs) =
        content_type_warning format context name
        ++ validate_header (context ++ bytes ".headers." ++ name) h
        ++ validate_headers format context hs

    pub validate_encodings : Bytes → Bytes → Encodings → List Problem
    validate_encodings context name no_encodings = []
    validate_encodings context name (add_encoding key e es) =
        validate_encoding (context ++ key) name e ++ validate_encodings context name es

    pub validate_prefix : Bytes → Bytes → ℕ → Encodings → List Problem
    validate_prefix context name i no_encodings = []
    validate_prefix context name i (add_encoding key e es) =
        validate_encoding (context ++ bytes "[" ++ decimal i ++ bytes "]") name e
        ++ validate_prefix context name (suc i) es
