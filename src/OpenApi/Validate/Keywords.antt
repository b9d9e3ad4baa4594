-- ===== src/OpenApi/Validate/Keywords.antt =====
-- What `ValidateSchema` of schema.go checks of one schema: `ValidateSchema304Fields`,
-- `ValidateExclusiveBoundaries`, `ValidateDiscriminator`, `ValidateXML`, and `HasSchemaRefSiblings`
-- of utils.go.
use Prim.Native.String.{String}
use xqua_go.Prelude.{
  Bytes, bytes, bytes_eq, Bool, true, false, not, ◌&&◌, ◌||◌, List, [], ◌∷◌, ◌++◌, Option, none,
  some, if◌then◌else◌, find_key,
}
use xqua_go.OpenApi.Spec.{
  Any, text_value, texts_value, list_value, bool_value, number_value, map_value, ExternalDocs,
  is_some, is_filled,
}
use xqua_go.OpenApi.Spec.Schemas.{Schema, Discriminator, Xml}
use xqua_go.OpenApi.Validate.{
  Problem, errorf, warningf, when, text, Urls, is_uri_reference, is_non_relative_uri,
  is_open_api_30, is_open_api_31, is_open_api_32,
}
use xqua_go.OpenApi.Validate.Extras.{
  is_given, contains_text, extra_has, has_non_extension_extra, is_number,
}

-- `HasSchemaRefSiblings`
unfoldable pub has_schema_ref_siblings : Schema → Bool
has_schema_ref_siblings s =
    is_given s.schema
    || is_given s.id
    || is_filled s.defs
    || is_given s.anchor
    || is_given s.dynamic_anchor
    || is_given s.dynamic_ref
    || is_filled s.vocabulary
    || is_given s.comment
    || is_given s.title
    || is_given s.description
    || is_some s.type
    || is_given s.format
    || s.nullable
    || is_some s.default
    || is_some s.example
    || is_filled s.examples
    || is_filled s.enum
    || is_some s.const
    || is_some s.multiple_of
    || is_some s.maximum
    || is_some s.exclusive_maximum
    || is_some s.minimum
    || is_some s.exclusive_minimum
    || is_some s.max_length
    || is_some s.min_length
    || is_given s.pattern
    || is_some s.max_items
    || is_some s.min_items
    || is_some s.unique_items
    || is_some s.max_properties
    || is_some s.min_properties
    || is_filled s.required
    || is_filled s.properties
    || is_filled s.pattern_properties
    || is_some s.items
    || is_filled s.prefix_items
    || is_some s.contains
    || is_some s.max_contains
    || is_some s.min_contains
    || is_some s.additional_properties
    || is_some s.unevaluated_properties
    || is_some s.property_names
    || is_filled s.dependent_required
    || is_filled s.dependent_schemas
    || is_filled s.all_of
    || is_filled s.any_of
    || is_filled s.one_of
    || is_some s.not_
    || is_some s.if_
    || is_some s.then_
    || is_some s.else_
    || s.deprecated
    || s.read_only
    || s.write_only
    || is_given s.content_encoding
    || is_given s.content_media_type
    || is_some s.content_schema
    || is_some s.discriminator
    || is_some s.xml
    || is_some s.external_docs
    || has_non_extension_extra s.extra

abbrev is_texts : Option Any → Bool
is_texts (some (texts_value l)) = true
is_texts (some (list_value l)) = true
is_texts (some (text_value s)) = false
is_texts (some (bool_value b)) = false
is_texts (some (number_value n)) = false
is_texts (some (map_value m)) = false
is_texts none = false

-- The value is given and is not a Boolean.
abbrev not_bool : Option Any → Bool
not_bool none = false
not_bool (some (bool_value b)) = false
not_bool (some (text_value s)) = true
not_bool (some (number_value n)) = true
not_bool (some (texts_value l)) = true
not_bool (some (list_value l)) = true
not_bool (some (map_value m)) = true

abbrev not_number : Option Any → Bool
not_number none = false
not_number (some v) = not (is_number v)

abbrev dialect_keys : List Bytes
dialect_keys =
    bytes "$schema"
    ∷ bytes "$id"
    ∷ bytes "$defs"
    ∷ bytes "$anchor"
    ∷ bytes "$dynamicAnchor"
    ∷ bytes "$dynamicRef"
    ∷ bytes "$vocabulary"
    ∷ bytes "$comment"
    ∷ bytes "examples"
    ∷ bytes "const"
    ∷ bytes "patternProperties"
    ∷ bytes "prefixItems"
    ∷ bytes "contains"
    ∷ bytes "maxContains"
    ∷ bytes "minContains"
    ∷ bytes "unevaluatedProperties"
    ∷ bytes "propertyNames"
    ∷ bytes "dependentRequired"
    ∷ bytes "dependentSchemas"
    ∷ bytes "if"
    ∷ bytes "then"
    ∷ bytes "else"
    ∷ bytes "contentEncoding"
    ∷ bytes "contentMediaType"
    ∷ bytes "contentSchema"
    ∷ []

-- An error or a warning about the schema of a context
abbrev pub error_at : Bytes → String → List Problem
error_at context format = errorf format (text context ∷ []) ∷ []

-- `if test { errs = append(errs, Errorf(format, context)) }`
abbrev pub error_when : Bool → Bytes → String → List Problem
error_when test context format = if test then error_at context format else []

-- `ValidateSchema304Fields`
unfoldable pub validate_schema304_fields : Bytes → Schema → List Problem
validate_schema304_fields context s =
    error_when
      (is_given s.schema
        || is_given s.id
        || is_filled s.defs
        || is_given s.anchor
        || is_given s.dynamic_anchor
        || is_given s.dynamic_ref
        || is_filled s.vocabulary
        || is_given s.comment)
      context "%s contains JSON Schema dialect fields that require OpenAPI 3.1.x or 3.2.0"
    ++ error_when
        (is_filled s.examples
          || is_some s.const
          || is_filled s.pattern_properties
          || is_filled s.prefix_items
          || is_some s.contains
          || is_some s.max_contains
          || is_some s.min_contains
          || is_some s.unevaluated_properties
          || is_some s.property_names
          || is_filled s.dependent_required
          || is_filled s.dependent_schemas
          || is_some s.if_
          || is_some s.then_
          || is_some s.else_
          || is_given s.content_encoding
          || is_given s.content_media_type
          || is_some s.content_schema)
        context "%s contains JSON Schema 2020-12 keywords that require OpenAPI 3.1.x or 3.2.0"
    ++ error_when (is_texts s.type) context "%s.type must be a string in OpenAPI 3.0.x"
    ++ error_when (not_bool s.exclusive_maximum) context
        "%s.exclusiveMaximum must be a boolean in OpenAPI 3.0.x"
    ++ error_when (not_bool s.exclusive_minimum) context
        "%s.exclusiveMinimum must be a boolean in OpenAPI 3.0.x"
    ++ error_when (extra_has s.extra dialect_keys) context
        "%s contains Extra JSON Schema keywords that require OpenAPI 3.1.x or 3.2.0"

-- `ValidateExclusiveBoundaries`
unfoldable pub validate_exclusive_boundaries : Bytes → Schema → Bytes → List Problem
validate_exclusive_boundaries context s version =
    if not (is_open_api_31 version) && not (is_open_api_32 version)
    then []
    else error_when (not_number s.exclusive_maximum) context
        "%s.exclusiveMaximum must be a number in OpenAPI 3.1.x or 3.2.0"
      ++ error_when (not_number s.exclusive_minimum) context
          "%s.exclusiveMinimum must be a number in OpenAPI 3.1.x or 3.2.0"

abbrev discriminator_problems : Bytes → Schema → Bytes → Option Discriminator → List Problem
discriminator_problems context s version none = []
discriminator_problems context s version (some d) =
    error_when (bytes_eq d.property_name []) context "%s.discriminator.propertyName is required"
    ++ error_when (not (is_filled s.one_of) && not (is_filled s.any_of) && not (is_filled s.all_of))
        context "%s.discriminator is only allowed with anyOf, oneOf, or allOf"
    ++ when
        (is_open_api_32 version
          && is_given d.property_name
          && not (contains_text s.required d.property_name)
          && bytes_eq d.default_mapping []
          && not (extra_has d.extra (bytes "defaultMapping" ∷ [])))
        (errorf
          "%s.discriminator.defaultMapping is required when discriminator property %q is optional"
          (text context ∷ text d.property_name ∷ []))
    ++ when
        ((is_open_api_30 version || is_open_api_31 version)
          && is_given d.property_name
          && not (contains_text s.required d.property_name))
        (warningf
          "%s.discriminator.propertyName %q should be listed in the schema's required fields"
          (text context ∷ text d.property_name ∷ []))

-- `ValidateDiscriminator`
unfoldable pub validate_discriminator : Bytes → Schema → Bytes → List Problem
validate_discriminator context s version = discriminator_problems context s version s.discriminator

-- The type that `Extra` gives wins over the field, also where it is no text.
abbrev node_type_of : Xml → Option Any → Bytes
node_type_of x none = x.node_type
node_type_of x (some (text_value s)) = s
node_type_of x (some (bool_value b)) = []
node_type_of x (some (number_value n)) = []
node_type_of x (some (texts_value l)) = []
node_type_of x (some (list_value l)) = []
node_type_of x (some (map_value m)) = []

abbrev node_types : List Bytes
node_types = bytes "element" ∷ bytes "attribute" ∷ bytes "text" ∷ bytes "cdata" ∷ bytes "none" ∷ []

abbrev node_problems : Bytes → Xml → Bytes → List Problem
node_problems context x node_type =
    if bytes_eq node_type []
    then []
    else error_when (not (contains_text node_types node_type)) context
        "%s.xml.nodeType must be one of element, attribute, text, cdata, or none"
      ++ error_when x.attribute context
          "%s.xml.attribute must not be present when xml.nodeType is set"
      ++ error_when x.wrapped context "%s.xml.wrapped must not be present when xml.nodeType is set"

module _ (urls : Urls) where
  abbrev xml_problems : Bytes → Option Xml → List Problem
  xml_problems context none = []
  xml_problems context (some x) =
      error_when (is_given x.namespace && not (is_non_relative_uri urls x.namespace)) context
        "%s.xml.namespace must be a non-relative IRI"
      ++ node_problems context x (node_type_of x (find_key (bytes "nodeType") x.extra))

  -- `ValidateXML`
  unfoldable pub validate_xml : Bytes → Schema → List Problem
  validate_xml context s = xml_problems context s.xml

  abbrev pub docs_problems : Bytes → Option ExternalDocs → List Problem
  docs_problems context none = []
  docs_problems context (some d) =
      if bytes_eq d.url []
      then error_at context "%s.externalDocs.url is required"
      else error_when (not (is_uri_reference urls d.url)) context
          "%s.externalDocs.url must be a URI"

  abbrev default_mapping_given : Option Discriminator → Bool
  default_mapping_given none = false
  default_mapping_given (some d) =
      is_given d.default_mapping || extra_has d.extra (bytes "defaultMapping" ∷ [])

  abbrev node_type_given : Option Xml → Bool
  node_type_given none = false
  node_type_given (some x) = is_given x.node_type || extra_has x.extra (bytes "nodeType" ∷ [])

  -- What `ValidateSchema` reports of a schema before it goes on to the schemas in it.
  unfoldable pub own_problems : Bytes → Schema → Bytes → List Problem
  own_problems context s version =
      when s.deprecated (warningf "%s is deprecated" (text context ∷ []))
      ++ when ((is_open_api_31 version || is_open_api_32 version) && is_some s.example) (
          warningf "%s.example is deprecated in OpenAPI 3.1.x and 3.2.0; use examples instead"
            (text context ∷ []))
      ++ (if is_open_api_30 version
          then error_when (is_given s.ref && has_schema_ref_siblings s) context
              "%s must not define siblings with $ref in OpenAPI 3.0.x"
            ++ error_when (s.read_only && s.write_only) context
                "%s must not be both readOnly and writeOnly"
            ++ validate_schema304_fields context s
          else [])
      ++ error_when ((is_open_api_31 version || is_open_api_32 version) && s.nullable) context
          "%s.nullable is not supported in OpenAPI 3.1.x or 3.2.0; use type: [\"string\", \"null\"] instead"
      ++ (if is_open_api_32 version
          then []
          else error_when (default_mapping_given s.discriminator) context
              "%s.discriminator.defaultMapping requires OpenAPI 3.2.0"
            ++ error_when (node_type_given s.xml) context "%s.xml.nodeType requires OpenAPI 3.2.0")
      ++ validate_exclusive_boundaries context s version
      ++ docs_problems context s.external_docs
      ++ validate_discriminator context s version
      ++ validate_xml context s
