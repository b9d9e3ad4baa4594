-- ===== src/OpenApi/Validate/Report.antt =====
-- Which problems make a document invalid, pkg/http/openapi/validation.go.
--
-- The problems of the validators are all of their own type, and none is nil.
pub mod Accepted
use xqua_go.Prelude.{
  Bool, true, false, not, ◌&&◌, ◌||◌, List, [], ◌∷◌, Option, none, some, if◌then◌else◌,
}
use xqua_go.OpenApi.Validate.{Problem, Severity, severity_error, severity_warning, severity_info}

abbrev pub same_severity : Severity → Severity → Bool
same_severity severity_error severity_error = true
same_severity severity_warning severity_warning = true
same_severity severity_info severity_info = true
same_severity _ _ = false

-- `ValidationErrors.HasSeverity`
unfoldable pub has_severity : List Problem → Severity → Bool
has_severity [] s = false
has_severity (p ∷ ps) s = same_severity p.severity s || has_severity ps s

-- `collectValidationErrors`
unfoldable pub collect_validation_errors : List Problem → Severity → Bool → List Problem
collect_validation_errors [] only filter = []
collect_validation_errors (p ∷ ps) only filter =
    let rest = collect_validation_errors ps only filter in
    if filter && not (same_severity p.severity only) then rest else p ∷ rest

abbrev pub unless_none : List Problem → Option (List Problem)
unless_none [] = none
unless_none (p ∷ ps) = some (p ∷ ps)

-- `joinErrors`
unfoldable pub join_errors : List Problem → Option (List Problem)
join_errors errs = unless_none (collect_validation_errors errs severity_error true)

-- `joinAllErrors`
unfoldable pub join_all_errors : List Problem → Option (List Problem)
join_all_errors errs = unless_none (collect_validation_errors errs severity_error false)
