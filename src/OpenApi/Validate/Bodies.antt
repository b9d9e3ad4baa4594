-- ===== src/OpenApi/Validate/Bodies.antt =====
-- `ValidateRequestBody` and `ValidateResponse` of operation.go, with their helpers in utils.go.
use xqua_go.Prelude.{
  ℕ, Bytes, bytes, bytes_eq, Bool, false, not, ◌&&◌, ◌||◌, List, [], ◌∷◌, ◌++◌, Option, none, some,
  if◌then◌else◌, leb, ◌==◌,
}
use xqua_go.OpenApi.Spec.{is_filled}
use xqua_go.OpenApi.Spec.Schemas.{Heap}
use xqua_go.OpenApi.Spec.Paths.{RequestBody, Response}
use xqua_go.OpenApi.Validate.{Problem, errorf, when, text, Urls, is_open_api_30, is_open_api_32}
use xqua_go.OpenApi.Validate.Extras.{is_given, has_invalid_reference_extra}
use xqua_go.OpenApi.Validate.Keywords.{error_at, error_when}
use xqua_go.OpenApi.Validate.Media.{has_media, has_headers, validate_media_types, validate_headers}
use xqua_go.OpenApi.Validate.Objects.{validate_links}

-- `BodyRefHasInvalidSiblings`
unfoldable pub body_ref_has_invalid_siblings : RequestBody → Bytes → Bool
body_ref_has_invalid_siblings b version =
    (is_open_api_30 version && (is_given b.summary || is_given b.description))
    || has_media b.content
    || b.required
    || has_invalid_reference_extra b.extra version

-- `ResponseRefHasInvalidSiblings`
unfoldable pub response_ref_has_invalid_siblings : Response → Bytes → Bool
response_ref_has_invalid_siblings r version =
    (is_open_api_30 version && (is_given r.summary || is_given r.description))
    || has_headers r.headers
    || has_media r.content
    || is_filled r.links
    || has_invalid_reference_extra r.extra version

-- `responseCodeRe.MatchString`: one of `1` to `5`, and two digits or `XX`
abbrev is_two_digits : ℕ → ℕ → Bool
is_two_digits c d = leb 48 c && leb c 57 && leb 48 d && leb d 57

unfoldable pub is_response_code : Bytes → Bool
is_response_code (a ∷ b ∷ c ∷ []) =
    leb 49 a && leb a 53 && (is_two_digits b c || ((b == 88) && (c == 88)))
is_response_code _ = false

module _ (urls : Urls) (heap : Heap) (size : ℕ) (version : Bytes) where
  -- `ValidateRequestBody`
  unfoldable pub validate_request_body : Bytes → Option RequestBody → List Problem
  validate_request_body context none = []
  validate_request_body context (some b) =
      if is_given b.ref
      then error_when (body_ref_has_invalid_siblings b version) context
          "%s must not define siblings with $ref"
      else error_when (is_given b.summary) context "%s.summary is only allowed with $ref"
        ++ error_when (not (has_media b.content)) context "%s.content is required"
        ++ validate_media_types urls heap size version (context ++ bytes ".content.") b.content

  -- `ValidateResponse`
  unfoldable pub validate_response : Bytes → Option Response → List Problem
  validate_response context none = error_at context "%s is required"
  validate_response context (some r) =
      if is_given r.ref
      then error_when (response_ref_has_invalid_siblings r version) context
          "%s must not define siblings with $ref"
      else error_when (not (is_open_api_32 version) && is_given r.summary) context
          "%s.summary requires OpenAPI 3.2.0"
        ++ error_when (not (is_open_api_32 version) && bytes_eq r.description []) context
            "%s.description is required"
        ++ validate_headers urls heap size version
            "%s.headers %q is ignored by the OpenAPI spec; omit it" context r.headers
        ++ validate_media_types urls heap size version (context ++ bytes ".content.") r.content
        ++ validate_links urls (context ++ bytes ".links.") r.links version

  -- The loop of `ValidateOperation` over its responses
  unfoldable pub response_problems : Bytes → List (Bytes × Option Response) → List Problem
  response_problems context [] = []
  response_problems context ((code, r) ∷ rs) =
      when (not (bytes_eq code (bytes "default")) && not (is_response_code code)) (
        errorf "%s.responses.%s must be default, a status code, or a status code range"
          (text context ∷ text code ∷ []))
      ++ validate_response (context ++ bytes ".responses." ++ code) r
      ++ response_problems context rs
