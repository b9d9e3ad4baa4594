-- ===== src/OpenApi/Validate/Objects.antt =====
-- `ValidateExample`, `ValidateLink`, `ValidateSecurityRequirements`, `ValidateSecurityScheme`,
-- `ValidateOAuthFlows` and `ValidateOAuthFlow` of operation.go, with their helpers in utils.go.
use xqua_go.Prelude.{
  ℕ, suc, Bytes, bytes, bytes_eq, Bool, true, false, not, ◌&&◌, ◌||◌, List, [], ◌∷◌, ◌++◌, Option,
  none, some, if◌then◌else◌, find_key,
}
use xqua_go.OpenApi.Policy.{SecurityRequirement}
use xqua_go.OpenApi.Spec.{
  Any, text_value, texts_value, list_value, bool_value, number_value, map_value, Example, Link,
  OAuthFlow, OAuthFlows, SecurityScheme, is_some, is_filled,
}
use xqua_go.OpenApi.Validate.{
  Problem, errorf, warningf, when, text, number, Urls, is_uri_reference, is_open_api_30,
  is_open_api_32,
}
use xqua_go.OpenApi.Validate.Extras.{
  is_given, contains_text, has_invalid_reference_extra, extra_has, security_requirement_may_use_uri,
  is_https_uri,
}

-- `strings.HasSuffix`
abbrev has_suffix : Bytes → Bytes → Bool
has_suffix [] t = bytes_eq [] t
has_suffix (c ∷ s) t = bytes_eq (c ∷ s) t || has_suffix s t

-- `ExampleRefHasInvalidSiblings`
unfoldable pub example_ref_has_invalid_siblings : Example → Bytes → Bool
example_ref_has_invalid_siblings e version =
    (is_open_api_30 version && (is_given e.summary || is_given e.description))
    || is_some e.data_value
    || is_some e.value
    || is_given e.external_value
    || is_given e.serialized_value
    || is_some e.serialized_example
    || has_invalid_reference_extra e.extra version

-- `LinkRefHasInvalidSiblings`
unfoldable pub link_ref_has_invalid_siblings : Link → Bytes → Bool
link_ref_has_invalid_siblings l version =
    (is_open_api_30 version && (is_given l.summary || is_given l.description))
    || is_given l.operation_ref
    || is_given l.operation_id
    || is_filled l.parameters
    || is_some l.request_body
    || is_some l.server
    || has_invalid_reference_extra l.extra version

-- `SecuritySchemeRefHasInvalidSiblings`
unfoldable pub security_scheme_ref_has_invalid_siblings : SecurityScheme → Bytes → Bool
security_scheme_ref_has_invalid_siblings s version =
    (is_open_api_30 version && (is_given s.summary || is_some s.description))
    || is_given s.type
    || is_given s.name
    || is_given s.in_
    || is_given s.scheme
    || is_some s.bearer_format
    || is_some s.flows
    || is_given s.open_id_connect_url
    || is_given s.oauth2_metadata_url
    || s.deprecated
    || has_invalid_reference_extra s.extra version

module _ (urls : Urls) where
  -- `ValidateExample`
  unfoldable pub validate_example : Bytes → Option Example → Bytes → List Problem
  validate_example context none version = errorf "%s is required" (text context ∷ []) ∷ []
  validate_example context (some e) version =
      if is_given e.ref
      then when (example_ref_has_invalid_siblings e version)
          (errorf "%s must not define siblings with $ref" (text context ∷ []))
      else when (not (is_open_api_32 version) && is_some e.data_value)
          (errorf "%s.dataValue requires OpenAPI 3.2.0" (text context ∷ []))
        ++ when (not (is_open_api_32 version) && is_given e.serialized_value)
            (errorf "%s.serializedValue requires OpenAPI 3.2.0" (text context ∷ []))
        ++ when (is_some e.value && is_given e.external_value)
            (errorf "%s value and externalValue are mutually exclusive" (text context ∷ []))
        ++ when (is_given e.external_value && not (is_uri_reference urls e.external_value))
            (errorf "%s.externalValue must be a URI" (text context ∷ []))
        ++ when (is_some e.data_value && is_some e.value)
            (errorf "%s dataValue and value are mutually exclusive" (text context ∷ []))
        ++ when (is_given e.serialized_value && (is_some e.value || is_given e.external_value)) (
            errorf "%s serializedValue is mutually exclusive with value and externalValue"
              (text context ∷ []))
        ++ when (is_some e.serialized_example) (
            errorf "%s.serializedExample is not an OpenAPI field; use serializedValue"
              (text context ∷ []))

  unfoldable pub validate_examples : Bytes → List (Bytes × Option Example) → Bytes → List Problem
  validate_examples context [] version = []
  validate_examples context ((name, e) ∷ es) version =
      validate_example (context ++ name) e version ++ validate_examples context es version

  -- `ValidateLink`
  unfoldable pub validate_link : Bytes → Option Link → Bytes → List Problem
  validate_link context none version = errorf "%s is required" (text context ∷ []) ∷ []
  validate_link context (some l) version =
      if is_given l.ref && link_ref_has_invalid_siblings l version
      then errorf "%s must not define siblings with $ref" (text context ∷ []) ∷ []
      else if not (is_given l.ref) && is_given l.summary
      then errorf "%s.summary is only allowed with $ref" (text context ∷ []) ∷ []
      else when (is_given l.operation_ref && not (is_uri_reference urls l.operation_ref))
          (errorf "%s.operationRef must be a URI reference" (text context ∷ []))
        ++ when (is_given l.operation_ref && is_given l.operation_id)
            (errorf "%s operationRef and operationId are mutually exclusive" (text context ∷ []))
        ++ when
            (not (is_given l.ref)
              && not (is_given l.operation_ref)
              && not (is_given l.operation_id))
            (errorf "%s must define operationRef or operationId" (text context ∷ []))

  unfoldable pub validate_links : Bytes → List (Bytes × Option Link) → Bytes → List Problem
  validate_links context [] version = []
  validate_links context ((name, l) ∷ ls) version =
      validate_link (context ++ name) l version ++ validate_links context ls version

  -- A URL that is needed: required, and a URI.
  abbrev pub needed_uri : Bool → Bytes → Problem → Problem → List Problem
  needed_uri needed url missing malformed =
      if needed && bytes_eq url []
      then missing ∷ []
      else when (needed && is_given url && not (is_uri_reference urls url)) malformed

  abbrev pub refresh_problems : Bytes → Option Bytes → List Problem
  refresh_problems context none = []
  refresh_problems context (some url) =
      when (not (is_uri_reference urls url))
        (errorf "%s.refreshUrl must be a URI" (text context ∷ []))

  -- `ValidateOAuthFlow`
  unfoldable pub validate_oauth_flow : Bytes → OAuthFlow → Bytes → Bool → Bool → List Problem
  validate_oauth_flow context flow version needs_authorization_url needs_token_url =
      needed_uri needs_authorization_url flow.authorization_url
        (errorf "%s.authorizationUrl is required" (text context ∷ []))
        (errorf "%s.authorizationUrl must be a URI" (text context ∷ []))
      ++ needed_uri (has_suffix context (bytes ".deviceAuthorization"))
          flow.device_authorization_url
          (errorf "%s.deviceAuthorizationUrl is required" (text context ∷ []))
          (errorf "%s.deviceAuthorizationUrl must be a URI" (text context ∷ []))
      ++ needed_uri needs_token_url flow.token_url
          (errorf "%s.tokenUrl is required" (text context ∷ []))
          (errorf "%s.tokenUrl must be a URI" (text context ∷ []))
      ++ when (not (is_some flow.scopes)) (errorf "%s.scopes is required" (text context ∷ []))
      ++ when
          (not (is_open_api_32 version)
            && (is_given flow.device_authorization_url
                || extra_has flow.extra (bytes "deviceAuthorizationUrl" ∷ [])))
          (errorf "%s.deviceAuthorizationUrl requires OpenAPI 3.2.0" (text context ∷ []))
      ++ refresh_problems context flow.refresh_url

  abbrev pub flow_problems : Bytes → Option OAuthFlow → Bytes → Bool → Bool → List Problem
  flow_problems context none version needs_authorization_url needs_token_url = []
  flow_problems context (some flow) version needs_authorization_url needs_token_url =
      validate_oauth_flow context flow version needs_authorization_url needs_token_url

  -- `ValidateOAuthFlows`
  unfoldable pub validate_oauth_flows : Bytes → OAuthFlows → Bytes → List Problem
  validate_oauth_flows context f version =
      when
        (not (is_open_api_32 version)
          && (is_some f.device_authorization
              || extra_has f.extra (bytes "deviceAuthorization" ∷ [])))
        (errorf "%s.deviceAuthorization requires OpenAPI 3.2.0" (text context ∷ []))
      ++ flow_problems (context ++ bytes ".implicit") f.implicit version true false
      ++ flow_problems (context ++ bytes ".password") f.password version false true
      ++ flow_problems (context ++ bytes ".clientCredentials") f.client_credentials version false
          true
      ++ flow_problems (context ++ bytes ".authorizationCode") f.authorization_code version true
          true
      ++ flow_problems (context ++ bytes ".deviceAuthorization") f.device_authorization version
          false true
      ++ when
          (not (is_some f.implicit)
            && not (is_some f.password)
            && not (is_some f.client_credentials)
            && not (is_some f.authorization_code)
            && not (is_some f.device_authorization)
            && not (extra_has f.extra (bytes "deviceAuthorization" ∷ [])))
          (errorf "%s must define at least one OAuth flow" (text context ∷ []))

  abbrev pub extra_text : Option Any → Option Bytes
  extra_text none = none
  extra_text (some (text_value s)) = some s
  extra_text (some (bool_value b)) = some []
  extra_text (some (number_value n)) = some []
  extra_text (some (texts_value l)) = some []
  extra_text (some (list_value l)) = some []
  extra_text (some (map_value m)) = some []

  -- `SecuritySchemeOAuth2MetadataURL`
  unfoldable pub security_scheme_oauth2_metadata_url : SecurityScheme → Option Bytes
  security_scheme_oauth2_metadata_url s =
      if is_given s.oauth2_metadata_url
      then some s.oauth2_metadata_url
      else extra_text (find_key (bytes "oauth2MetadataUrl") s.extra)

  abbrev pub metadata_problems : Bytes → Bytes → Option Bytes → List Problem
  metadata_problems context type none = []
  metadata_problems context type (some url) =
      when (not (bytes_eq type (bytes "oauth2"))) (
        errorf "%s.oauth2MetadataUrl is only allowed for oauth2 security schemes"
          (text context ∷ []))
      ++ when (not (is_https_uri urls url))
          (errorf "%s.oauth2MetadataUrl must be an HTTPS URI" (text context ∷ []))

  abbrev pub flows_problems : Bytes → Option OAuthFlows → Bytes → List Problem
  flows_problems context none version =
      errorf "%s.flows is required for oauth2" (text context ∷ []) ∷ []
  flows_problems context (some flows) version =
      validate_oauth_flows (context ++ bytes ".flows") flows version

  -- `switch scheme.Type`
  abbrev pub by_type : Bytes → SecurityScheme → Bytes → List Problem
  by_type context s version =
      if bytes_eq s.type (bytes "apiKey")
      then when (bytes_eq s.name []) (errorf "%s.name is required for apiKey" (text context ∷ []))
        ++ when (not (contains_text (bytes "query" ∷ bytes "header" ∷ bytes "cookie" ∷ []) s.in_))
            (errorf "%s.in must be query, header, or cookie for apiKey" (text context ∷ []))
      else if bytes_eq s.type (bytes "http")
      then when (bytes_eq s.scheme []) (errorf "%s.scheme is required for http" (text context ∷ []))
      else if bytes_eq s.type (bytes "oauth2")
      then flows_problems context s.flows version
      else if bytes_eq s.type (bytes "openIdConnect")
      then (if bytes_eq s.open_id_connect_url []
          then errorf "%s.openIdConnectUrl is required for openIdConnect" (text context ∷ []) ∷ []
          else when (not (is_https_uri urls s.open_id_connect_url)) (
              errorf "%s.openIdConnectUrl must be an HTTPS URI without a fragment"
                (text context ∷ [])))
      else []

  abbrev pub scheme_types : List Bytes
  scheme_types =
      bytes "apiKey"
      ∷ bytes "http"
      ∷ bytes "mutualTLS"
      ∷ bytes "oauth2"
      ∷ bytes "openIdConnect"
      ∷ []

  -- `ValidateSecurityScheme`
  unfoldable pub validate_security_scheme : Bytes → Option SecurityScheme → Bytes → List Problem
  validate_security_scheme context none version = errorf "%s is required" (text context ∷ []) ∷ []
  validate_security_scheme context (some s) version =
      if is_given s.ref
      then when (security_scheme_ref_has_invalid_siblings s version)
          (errorf "%s must not define siblings with $ref" (text context ∷ []))
      else when (is_given s.summary)
          (errorf "%s.summary is only allowed with $ref" (text context ∷ []))
        ++ when (not (contains_text scheme_types s.type)) (
            errorf "%s.type must be one of apiKey, http, mutualTLS, oauth2, or openIdConnect"
              (text context ∷ []))
        ++ when (bytes_eq s.type (bytes "mutualTLS") && is_open_api_30 version)
            (errorf "%s.type mutualTLS requires OpenAPI 3.1.x or 3.2.0" (text context ∷ []))
        ++ when
            (not (is_open_api_32 version)
              && (is_given s.oauth2_metadata_url
                  || s.deprecated
                  || extra_has s.extra (bytes "oauth2MetadataUrl" ∷ bytes "deprecated" ∷ [])))
            (errorf "%s oauth2MetadataUrl and deprecated require OpenAPI 3.2.0" (text context ∷ []))
        ++ when (s.deprecated && is_open_api_32 version)
            (warningf "%s is deprecated" (text context ∷ []))
        ++ metadata_problems context s.type (security_scheme_oauth2_metadata_url s)
        ++ by_type context s version

-- `schemes[name]`, none where the name is missing or nil
abbrev pub registered : Option (Option SecurityScheme) → Option SecurityScheme
registered none = none
registered (some s) = s

abbrev pub requirement_problems :
    Bytes → ℕ → Bytes → List Bytes → Bytes → Option SecurityScheme → List Problem
requirement_problems context i name scopes version none =
    when (not (security_requirement_may_use_uri name version)) (
      errorf "%s[%d] references undefined security scheme %q"
        (text context ∷ number i ∷ text name ∷ []))
requirement_problems context i name scopes version (some s) =
    when
      (is_open_api_30 version
        && not (bytes_eq s.type (bytes "oauth2"))
        && not (bytes_eq s.type (bytes "openIdConnect"))
        && is_filled scopes)
      (errorf "%s[%d].%s scopes are only allowed for oauth2 or openIdConnect"
        (text context ∷ number i ∷ text name ∷ []))

module _ (schemes : List (Bytes × Option SecurityScheme)) (version : Bytes) where
  abbrev pub names_problems : Bytes → ℕ → SecurityRequirement → List Problem
  names_problems context i [] = []
  names_problems context i ((name, scopes) ∷ req) =
      requirement_problems context i name scopes version (registered (find_key name schemes))
      ++ names_problems context i req

  -- `ValidateSecurityRequirements` from an index on
  unfoldable pub validate_security_requirements :
      Bytes → ℕ → List SecurityRequirement → List Problem
  validate_security_requirements context i [] = []
  validate_security_requirements context i (req ∷ reqs) =
      names_problems context i req ++ validate_security_requirements context (suc i) reqs
