-- ===== src/OpenApi/Schemes.antt =====
-- Where a request carries its credential: the extractors of pkg/http/openapi/security.go.
--
-- `Get` and `Cookies` of fiber are functions of the request. The name of a scheme is ASCII, for
-- which `range` over a text goes over its bytes.
pub mod Tokens
use xqua_go.Prelude.{
  ℕ, zero, suc, ◌+◌, ◌++◌, Bytes, bytes, bytes_eq, Bool, true, false, not, ◌&&◌, ◌||◌, List, [],
  ◌∷◌, Option, none, some, ltb, leb, ◌==◌, if◌then◌else◌, length, drop, lower,
}

pub record Request : Type 0 where
  pub get : Bytes → Bytes
  pub cookies : Bytes → Bytes

-- `equalFoldPrefix`
unfoldable pub equal_fold_prefix : Bytes → Bytes → Bool
equal_fold_prefix s [] = true
equal_fold_prefix [] (p ∷ prefix) = false
equal_fold_prefix (c ∷ s) (p ∷ prefix) =
    let rest = equal_fold_prefix s prefix in if lower c == lower p then rest else false

abbrev pub is_blank : ℕ → Bool
is_blank c = (c == 32) || (c == 9)

unfoldable pub skip_blank : Bytes → Bytes
skip_blank [] = []
skip_blank (c ∷ s) = let rest = skip_blank s in if is_blank c then rest else c ∷ s

abbrev pub keep_unless_blank : ℕ → Bytes → Bytes
keep_unless_blank c [] = if is_blank c then [] else c ∷ []
keep_unless_blank c (d ∷ s) = c ∷ d ∷ s

unfoldable pub cut_blank : Bytes → Bytes
cut_blank [] = []
cut_blank (c ∷ s) = keep_unless_blank c (cut_blank s)

-- `trimSpace`
abbrev pub trim_blank : Bytes → Bytes
trim_blank s = cut_blank (skip_blank s)

abbrev pub unless_empty : Bytes → Option Bytes
unless_empty [] = none
unless_empty (c ∷ s) = some (c ∷ s)

-- `extractBearer`, on the header `Authorization`
unfoldable pub extract_bearer : Bytes → Option Bytes
extract_bearer auth =
    if ltb (length auth) 8 || not (equal_fold_prefix auth (bytes "Bearer "))
    then none
    else unless_empty (trim_blank (drop 7 auth))

-- `extractBasic`
unfoldable pub extract_basic : Bytes → Option Bytes
extract_basic auth =
    if ltb (length auth) 7 || not (equal_fold_prefix auth (bytes "Basic "))
    then none
    else unless_empty (trim_blank (drop 6 auth))

-- `extractHTTPScheme`
unfoldable pub extract_http_scheme : Bytes → Bytes → Option Bytes
extract_http_scheme name auth =
    let prefix = name ++ b' ' ∷ [] in
    if leb (length auth) (length prefix) || not (equal_fold_prefix auth prefix)
    then none
    else unless_empty (trim_blank (drop (length prefix) auth))

pub data ApiKeyIn : Type 0 where
  in_header : ApiKeyIn
  in_query : ApiKeyIn
  in_cookie : ApiKeyIn

-- `apiKeyExtractor`: a key in the query is looked for among the headers too.
unfoldable pub api_key_extractor : Bytes → ApiKeyIn → Request → Option Bytes
api_key_extractor name in_query c = unless_empty (c.get name)
api_key_extractor name in_cookie c = unless_empty (c.cookies name)
api_key_extractor name in_header c = unless_empty (c.get name)

-- `extractMutualTLS`
unfoldable pub extract_mutual_tls : Request → Option Bytes
extract_mutual_tls c =
    let cert = c.get (bytes "X-Forwarded-Tls-Client-Cert") in
    unless_empty (if bytes_eq cert [] then c.get (bytes "X-SSL-Client-Cert") else cert)

-- The extractor that `HTTPScheme` takes where none is given.
unfoldable pub http_extractor : Bytes → Bytes → Option Bytes
unfolding extract_bearer extract_basic
http_extractor scheme auth =
    let name = if bytes_eq scheme [] then bytes "basic" else scheme in
    if bytes_eq name (bytes "bearer")
    then extract_bearer auth
    else if bytes_eq name (bytes "basic")
    then extract_basic auth
    else extract_http_scheme name auth
