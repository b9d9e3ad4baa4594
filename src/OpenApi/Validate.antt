-- ===== src/OpenApi/Validate.antt =====
-- The validation of OpenAPI documents, pkg/http/openapi/internal/validate: problems, severities and
-- versions, errors.go and utils.go. The children are about the parts of a document.
--
-- A problem keeps the format and the arguments of its message. `url.Parse` is the record `Urls`.
pub mod Extras
pub mod Objects
pub mod Servers
pub mod Report
pub mod Components
pub mod Document
pub mod Bodies
pub mod Operations
pub mod Pointer
pub mod PathParams
pub mod Parameters
pub mod Keywords
pub mod Media
pub mod Schema
pub mod Tags
mod Examples
pub mod Templates
use Prim.Native.String.{String}
use xqua_go.Prelude.{
  ℕ, Bytes, bytes, bytes_eq, Bool, true, false, not, ◌&&◌, ◌||◌, List, [], ◌∷◌, ◌++◌, Option, none,
  some, if◌then◌else◌, ◌==◌,
}

pub data Severity : Type 0 where
  severity_error : Severity
  severity_warning : Severity
  severity_info : Severity

pub data Arg : Type 0 where
  text : Bytes → Arg
  number : ℕ → Arg

-- `Error` of the package
pub record Problem : Type 0 where
  pub severity : Severity
  pub format : String
  pub args : List Arg

abbrev pub errorf : String → List Arg → Problem
errorf format args = record { severity = severity_error; format = format; args = args }

abbrev pub warningf : String → List Arg → Problem
warningf format args = record { severity = severity_warning; format = format; args = args }

abbrev pub infof : String → List Arg → Problem
infof format args = record { severity = severity_info; format = format; args = args }

-- `if test { errs = append(errs, p) }`
abbrev pub when : Bool → Problem → List Problem
when test p = if test then p ∷ [] else []

abbrev pub is_version : String → Bytes → Bool
is_version v version = bytes_eq version (bytes v)

unfoldable pub is_open_api_30 : Bytes → Bool
is_open_api_30 version =
    is_version "3.0.0" version
    || is_version "3.0.1" version
    || is_version "3.0.2" version
    || is_version "3.0.3" version
    || is_version "3.0.4" version

unfoldable pub is_open_api_31 : Bytes → Bool
is_open_api_31 version =
    is_version "3.1.0" version || is_version "3.1.1" version || is_version "3.1.2" version

unfoldable pub is_open_api_32 : Bytes → Bool
is_open_api_32 version = is_version "3.2.0" version

-- What the package asks of `net/url`.
pub record Urls : Type 0 where
  pub parses : Bytes → Bool
  pub is_abs : Bytes → Bool
  pub scheme : Bytes → Bytes
  pub fragment : Bytes → Bytes

abbrev pub is_one_of : List ℕ → ℕ → Bool
is_one_of [] c = false
is_one_of (d ∷ ds) c = (c == d) || is_one_of ds c

abbrev pub contains_any : List ℕ → Bytes → Bool
contains_any cs [] = false
contains_any cs (c ∷ s) = is_one_of cs c || contains_any cs s

-- `IsURIReference`
unfoldable pub is_uri_reference : Urls → Bytes → Bool
is_uri_reference urls value =
    if contains_any (32 ∷ 9 ∷ 13 ∷ 10 ∷ []) value then false else urls.parses value

unfoldable pub is_non_relative_uri : Urls → Bytes → Bool
is_non_relative_uri urls value =
    if is_uri_reference urls value then urls.parses value && urls.is_abs value else false
