-- ===== src/OpenApi/Validate/Servers.antt =====
-- `ValidateInfo`, `ValidateServerNames`, `ValidateServer` of document.go.
use xqua_go.Prelude.{
  ℕ, suc, Bytes, bytes_eq, Bool, false, not, ◌&&◌, ◌||◌, List, [], ◌∷◌, ◌++◌, Option, none, some,
  ◌==◌, ltb, if◌then◌else◌, find_key, set_key,
}
use xqua_go.OpenApi.Spec.{Info, Contact, License, Server, ServerVariable}
use xqua_go.OpenApi.Validate.{
  Problem, errorf, warningf, infof, when, text, number, Urls, is_uri_reference, is_open_api_30,
  is_open_api_31, is_open_api_32,
}
use xqua_go.OpenApi.Validate.Extras.{is_given, contains_text, is_server_url}
use xqua_go.OpenApi.Validate.Templates.{param_names}

abbrev pub contains_byte : ℕ → Bytes → Bool
contains_byte b [] = false
contains_byte b (c ∷ s) = (c == b) || contains_byte b s

-- The texts once each with their counts, `seen[m[1]]++`.
unfoldable pub count_texts : List Bytes → List (Bytes × ℕ) → List (Bytes × ℕ)
count_texts [] seen = seen
count_texts (s ∷ ss) seen = count_texts ss (counted s (find_key s seen) seen)
  where
    counted : Bytes → Option ℕ → List (Bytes × ℕ) → List (Bytes × ℕ)
    counted s none seen = set_key s 1 seen
    counted s (some n) seen = set_key s (suc n) seen

module _ (urls : Urls) where
  abbrev pub optional_uri : Option Bytes → Problem → List Problem
  optional_uri none p = []
  optional_uri (some url) p = when (not (is_uri_reference urls url)) p

  abbrev pub given_uri : Bytes → Problem → List Problem
  given_uri url p = when (is_given url && not (is_uri_reference urls url)) p

  abbrev pub contact_problems : Option Contact → List Problem
  contact_problems none = infof "info.contact is recommended" [] ∷ []
  contact_problems (some c) =
      given_uri c.url (errorf "info.contact.url must be a URI" [])
      ++ when (is_given c.email && not (contains_byte 64 c.email))
          (errorf "info.contact.email must be an email address" [])
      ++ when (not (is_given c.name) && not (is_given c.url) && not (is_given c.email))
          (infof "info.contact is recommended" [])

  abbrev pub license_problems : Bytes → Option License → List Problem
  license_problems version none = infof "info.license is recommended" [] ∷ []
  license_problems version (some l) =
      when (bytes_eq l.name []) (errorf "info.license.name is required" [])
      ++ given_uri l.url (errorf "info.license.url must be a URI" [])
      ++ when (is_open_api_30 version && is_given l.identifier)
          (errorf "info.license.identifier requires OpenAPI 3.1.x or 3.2.0" [])
      ++ when (is_given l.identifier && is_given l.url)
          (errorf "info.license.identifier and info.license.url are mutually exclusive" [])

  -- `ValidateInfo`
  unfoldable pub validate_info : Info → Bytes → List Problem
  validate_info info version =
      when (is_open_api_30 version && is_given info.summary)
        (errorf "info.summary requires OpenAPI 3.1.x or 3.2.0" [])
      ++ optional_uri info.terms_of_service (errorf "info.termsOfService must be a URI" [])
      ++ contact_problems info.contact
      ++ license_problems version info.license

  abbrev pub repeated_variables : Bytes → List (Bytes × ℕ) → List Problem
  repeated_variables context [] = []
  repeated_variables context ((name, count) ∷ seen) =
      when (ltb 1 count) (
        errorf "%s.url variable {%s} must not appear more than once"
          (text context ∷ text name ∷ []))
      ++ repeated_variables context seen

  -- An error from OpenAPI 3.1 on, and a warning before.
  abbrev pub strict : Bytes → Problem → Problem → Problem
  strict version e w = if is_open_api_31 version || is_open_api_32 version then e else w

  abbrev pub enum_problems : Bytes → Bytes → Bytes → Bytes → Option (List Bytes) → List Problem
  enum_problems context name version default none = []
  enum_problems context name version default (some []) =
      strict version
        (errorf "%s.variables.%s.enum must not be empty" (text context ∷ text name ∷ []))
        (warningf "%s.variables.%s.enum should not be empty" (text context ∷ text name ∷ []))
      ∷ []
  enum_problems context name version default (some (v ∷ vs)) =
      when (is_given default && not (contains_text (v ∷ vs) default)) (
        strict version
          (errorf "%s.variables.%s.default must be one of enum values"
            (text context ∷ text name ∷ []))
          (warningf "%s.variables.%s.default should be one of enum values"
            (text context ∷ text name ∷ [])))

  abbrev pub variables_problems : Bytes → Bytes → List (Bytes × ServerVariable) → List Problem
  variables_problems context version [] = []
  variables_problems context version ((name, v) ∷ vs) =
      when (bytes_eq v.default [])
        (errorf "%s.variables.%s.default is required" (text context ∷ text name ∷ []))
      ++ enum_problems context name version v.default v.enum
      ++ variables_problems context version vs

  -- `ValidateServer`, of a server that is not nil
  unfoldable pub validate_server : Bytes → Server → Bytes → List Problem
  validate_server context server version =
      (if bytes_eq server.url []
        then errorf "%s.url is required" (text context ∷ []) ∷ []
        else when (not (is_server_url urls server.url))
            (errorf "%s.url must not contain a query or fragment" (text context ∷ [])))
      ++ (if is_open_api_32 version && is_given server.url
          then repeated_variables context (count_texts (param_names server.url) [])
          else [])
      ++ variables_problems context version server.variables

-- The problems of a name, and the map of the names with it.
abbrev pub server_name :
    ℕ → Bytes → Bytes → Option ℕ → List (Bytes × ℕ) → List Problem × List (Bytes × ℕ)
server_name i name version (some previous) names = (
  when (not (is_open_api_32 version))
        (errorf "servers[%d].name requires OpenAPI 3.2.0" (number i ∷ []))
      ++ errorf "servers[%d].name %q duplicates servers[%d].name"
          (number i ∷ text name ∷ number previous ∷ [])
        ∷ [],
  names,
)
server_name i name version none names = (
  when (not (is_open_api_32 version))
      (errorf "servers[%d].name requires OpenAPI 3.2.0" (number i ∷ [])),
  set_key name i names,
)

abbrev pub then_names :
    List Problem × List (Bytes × ℕ) → (List (Bytes × ℕ) → List Problem) → List Problem
then_names (errs, names) more = errs ++ more names

-- `ValidateServerNames` from an index on, with the names before it
unfoldable pub validate_server_names : ℕ → List Server → Bytes → List (Bytes × ℕ) → List Problem
validate_server_names i [] version names = []
validate_server_names i (server ∷ servers) version names =
    let rest = validate_server_names (suc i) servers version names in
    if bytes_eq server.name []
    then rest
    else then_names (server_name i server.name version (find_key server.name names) names)
        (validate_server_names (suc i) servers version)
