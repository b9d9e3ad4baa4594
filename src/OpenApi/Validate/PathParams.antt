-- ===== src/OpenApi/Validate/PathParams.antt =====
-- `ValidatePathParams` of path.go and `ValidateQueryParameterMix` of operation.go.
pub mod Declared
use xqua_go.Prelude.{
  ℕ, zero, suc, Bytes, bytes, bytes_eq, Bool, true, false, not, ◌&&◌, List, [], ◌∷◌, ◌++◌, Option,
  none, some, ltb, if◌then◌else◌, find_key, set_key, has_prefix, to_upper,
}
use xqua_go.OpenApi.Spec.Paths.{Parameter}
use xqua_go.OpenApi.Validate.{Problem, errorf, when, text}
use xqua_go.OpenApi.Validate.Extras.{contains_text}
use xqua_go.OpenApi.Validate.Keywords.{error_at, error_when}
use xqua_go.OpenApi.Validate.Templates.{param_names}

abbrev pub is_direct_in : Bytes → Option Parameter → Bool
is_direct_in in_ none = false
is_direct_in in_ (some p) = bytes_eq p.ref [] && bytes_eq p.in_ in_

abbrev pub count_in : Bytes → List (Option Parameter) → ℕ
count_in in_ [] = 0
count_in in_ (p ∷ ps) = let rest = count_in in_ ps in if is_direct_in in_ p then suc rest else rest

-- `ValidateQueryParameterMix`
unfoldable pub validate_query_parameter_mix : Bytes → List (Option Parameter) → List Problem
validate_query_parameter_mix context params =
    let queries = count_in (bytes "query") params in
    let querystrings = count_in (bytes "querystring") params in
    if ltb 1 querystrings
    then error_at context "%s must not define more than one querystring parameter"
    else error_when (ltb 0 querystrings && ltb 0 queries) context
        "%s must not mix query and querystring parameters"

abbrev pub Declared : Type 0
Declared = List (Bytes × Bool)

-- What a path parameter reports, before what the rest reports.
abbrev pub with_problem :
    Bytes → Bytes → List Bytes → Parameter → List Problem × Declared → List Problem × Declared
with_problem path method names p (errs, declared) = (
  when (not (contains_text names p.name)) (
        errorf "%s %s path parameter %q must match a path template"
          (text (to_upper method) ∷ text path ∷ text p.name ∷ []))
      ++ errs,
  declared,
)

abbrev pub declare :
    Bytes
    → Bytes
    → List Bytes
    → Parameter
    → Bool
    → Declared
    → (Declared → List Problem × Declared)
    → List Problem × Declared
declare path method names p true declared rest =
    with_problem path method names p (rest (set_key p.name p.required declared))
declare path method names p false declared rest = rest declared

-- The first loop of `ValidatePathParams`: the problems, and the map `declared`.
unfoldable pub declared_params :
    Bytes → Bytes → List Bytes → List (Option Parameter) → Declared → List Problem × Declared
declared_params path method names [] declared = ([], declared)
declared_params path method names (none ∷ ps) declared =
    declared_params path method names ps declared
declared_params path method names (some p ∷ ps) declared =
    declare path method names p (is_direct_in (bytes "path") (some p)) declared
      (λ d. declared_params path method names ps d)

abbrev pub required_problems : Bytes → Bytes → Bytes → Option Bool → List Problem
required_problems path method name none =
    errorf "%s %s missing path parameter %q" (text (to_upper method) ∷ text path ∷ text name ∷ [])
    ∷ []
required_problems path method name (some required) = when (not required) (
    errorf "%s %s path parameter %q must be required"
      (text (to_upper method) ∷ text path ∷ text name ∷ []))

abbrev pub template_problems : Bytes → Bytes → List Bytes → List (Bytes × Bool) → List Problem
template_problems path method [] declared = []
template_problems path method (name ∷ names) declared =
    required_problems path method name (find_key name declared)
    ++ template_problems path method names declared

-- The second loop
abbrev pub then_templates :
    Bytes → Bytes → List Bytes → List Problem × List (Bytes × Bool) → List Problem
then_templates path method names (errs, declared) =
    errs ++ template_problems path method names declared

-- `ValidatePathParams`
unfoldable pub validate_path_params : Bytes → Bytes → List (Option Parameter) → List Problem
validate_path_params path method params =
    if has_prefix path (bytes "/")
    then then_templates path method (param_names path)
        (declared_params path method (param_names path) params [])
    else []
