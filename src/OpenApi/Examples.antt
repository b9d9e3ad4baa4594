-- ===== src/OpenApi/Examples.antt =====
-- The theorems about routes, schemes and documents at one secured route and at two tags.
use mathlib.Core.List.{Memᴰ}
use mathlib.Core.List.Memᴰ
use xqua_go.Prelude.{
  has_prefix, ℕ, Bytes, bytes, Bool, true, false, List, [], ◌∷◌, ◌++◌, Option, none, some, ◌==◌,
  if◌then◌else◌, ◌≡◌, ◌≢◌, ◌↔◌, ◌⊎◌, refl, bytes_eq, find_key, get_elem?, inl, inr, subst, sym,
}
use xqua_go.Security.{
  Scheme, ErrCase, identity, passed, guard, guard_loop, validate_route, has_status, requires_scopes,
  check_names,
}
use xqua_go.OpenApi.Policy.{
  SecurityRequirement, require_security, inherit_security, public_security, resolve_security,
  validate_secured_route, to_security_schemes, to_security_requirements, validate_requirements,
  check_schemes,
}
use xqua_go.OpenApi.Policy.Effective.{applied, override_all, resolve_security-last_explicit}
use xqua_go.OpenApi.Policy.Registered.{SomeAccepted, validate_secured_route-SomeAccepted}
use xqua_go.OpenApi.Schemes.{extract_http_scheme}
use xqua_go.OpenApi.Schemes.Tokens.{extract_http_scheme-token}
use xqua_go.OpenApi.Compile.{Input, Route, find_status}
use xqua_go.OpenApi.Compile
use xqua_go.OpenApi.Reflect.{GoType, Types, pointer, struct_of, other, no_fields, field}
use xqua_go.OpenApi.Adapter.{
  handle_handler_error, written_error, declared_status, resolve_declared_status,
}
use xqua_go.OpenApi.Adapter.Written.{AllAnswered, SomeDeclared, handle_handler_error-written}
use xqua_go.OpenApi.Spec.{Tag}
use xqua_go.OpenApi.Validate.Tags.{is_circular}
use xqua_go.OpenApi.Validate.Tags.Circular.{EndsIn, is_circular_iff}
use xqua_go.Errors.{Fields}
use xqua_go.Errors.Catalog.{Store}
use xqua_go.OpenApi.Builder.{ensure_path_parameters, has_component_ref}
use xqua_go.OpenApi.Builder.Declares.{ensure_path_parameters-AllDeclared}
use xqua_go.OpenApi.Spec.Paths.{Parameter}
use xqua_go.OpenApi.Validate.PathParams.Declared.{AllDeclared}
use xqua_go.OpenApi.Validate.Templates.{param_names}

resolve_security-last_explicit_example :
    resolve_security inherit_security (require_security (bytes "basic") [] ∷ []) public_security
    ≡ applied (
        override_all public_security
          ((require_security (bytes "basic") [] ∷ []) ++ inherit_security ∷ []))
resolve_security-last_explicit_example =
    resolve_security-last_explicit inherit_security (require_security (bytes "basic") [] ∷ [])
      public_security

abbrev token_scheme : Scheme Bytes Bytes Bytes
token_scheme = record {
  verify = some (λ c cred. identity (cred.raw));
  extract = some (λ c. some c);
}

abbrev schemes_by_name : Bytes → Option (Scheme Bytes Bytes Bytes)
schemes_by_name name = some token_scheme

abbrev bearer_only : List SecurityRequirement
bearer_only = ((bytes "bearer", []) ∷ []) ∷ []

abbrev unauthorized_case : ErrCase Bytes
unauthorized_case = record { status = 401; errors = some (bytes "unauthorized") ∷ [] }

abbrev never_error : Bytes → Option Bytes → Bool
never_error e t = false

abbrev single_error : Bytes → List Bytes
single_error e = e ∷ []

registers : validate_secured_route schemes_by_name bearer_only (unauthorized_case ∷ []) false ≡ none
unfolding validate_secured_route validate_requirements check_schemes validate_route
    to_security_requirements check_names has_status requires_scopes
registers = refl

lets_in :
    guard never_error single_error
      (to_security_schemes (bytes "") schemes_by_name)
      (unauthorized_case ∷ [])
      (bytes "ann")
      none
      (to_security_requirements bearer_only)
    ≡ some (passed (bytes "ann"))
unfolding guard guard_loop to_security_schemes to_security_requirements
lets_in = refl

validate_secured_route-SomeAccepted_example :
    SomeAccepted schemes_by_name (bytes "ann") (bytes "ann") bearer_only
validate_secured_route-SomeAccepted_example =
    validate_secured_route-SomeAccepted never_error single_error (bytes "") schemes_by_name
      (unauthorized_case ∷ []) bearer_only (bytes "ann") none (bytes "ann") registers lets_in

extract_http_scheme-token_example :
    extract_http_scheme
      (bytes "Digest")
      (bytes "dIGEST" ++ (b' ' ∷ (bytes " " ++ (bytes "a b" ++ []))))
    ≡ some (bytes "a b")
extract_http_scheme-token_example =
    extract_http_scheme-token (bytes "Digest") (bytes "dIGEST") (bytes " ") (bytes "a b") []
      (refl, (refl, (refl, (refl, (refl, (refl, tt)))))) (refl, tt) tt refl refl

abbrev missing_fields : Fields
missing_fields = record {
  kind = bytes "not_found";
  code = bytes "missing";
  message = bytes "";
  source = bytes "";
  entry = some 0;
}

abbrev missing_store : Store
missing_store = record { entry_at = λ a. if a == 0 then some missing_fields else none; fresh = 1 }

abbrev missing_case : Compile.ErrCase
missing_case = record { status = 404; errors = some 0 ∷ [] }

abbrev live_input : Input ℕ
live_input = record {
  describe = false;
  handler = some 7;
  request = none;
  infer_success = true;
  success_type = none;
  err_cases = missing_case ∷ [];
  has_extra = false;
  store = missing_store;
  catalog = record { name = bytes "users"; entries = (bytes "missing", 0) ∷ [] };
  kind_statuses = (bytes "not_found", 404) ∷ [];
  default_status = 500;
}

abbrev some_types : Types ℕ
some_types = record {
  func_type = λ h. some (other 0 ∷ pointer (other 1) ∷ [], pointer (other 2) ∷ other 3 ∷ []);
  implements_context = λ t. true;
  implements_error = λ t. true;
  same_type = λ s t. false;
}

abbrev live_route : Route
live_route = record {
  success_type = some (other 2);
  in_type = some (other 1);
  templates = [];
  err_cases = missing_case ∷ [];
  err_index = (0, 404) ∷ [];
  unauthorized = none;
}

abbrev user_query : GoType
user_query = struct_of 0 (
    field
      (record {
        exported = true;
        anonymous = false;
        tag = (bytes "query", bytes "name,omitempty") ∷ [];
      })
      (other 0) no_fields)

abbrev is_missing : ℕ → Option ℕ → Bool
is_missing e none = false
is_missing e (some a) = e == a

abbrev missing_error : ℕ
missing_error = 0

abbrev not_found_status : ℕ
not_found_status = 404

abbrev every_entry : ℕ → Bool
every_entry e = true

abbrev own_entry : ℕ → List ℕ
own_entry e = e ∷ []

writes :
    handle_handler_error own_entry every_entry is_missing (missing_case ∷ []) {O = ℕ} missing_error
    ≡ written_error missing_error not_found_status
unfolding handle_handler_error resolve_declared_status declared_status
writes = refl

handle_handler_error-written_example :
    (missing_error ≡ missing_error)
    × (own_entry missing_error ≢ [])
    × AllAnswered own_entry every_entry is_missing
        (missing_case ∷ [])
        not_found_status
        (own_entry missing_error)
    × ((not_found_status ≡ 0)
        ⊎ SomeDeclared own_entry every_entry is_missing
            (missing_case ∷ [])
            not_found_status
            (own_entry missing_error))
handle_handler_error-written_example =
    handle_handler_error-written own_entry every_entry is_missing (missing_case ∷ []) missing_error
      missing_error not_found_status writes

abbrev first_tag : Tag
first_tag = record {
  name = bytes "a";
  summary = [];
  description = [];
  external_docs = none;
  parent = bytes "b";
  kind = [];
}

abbrev second_tag : Tag
second_tag = record {
  name = bytes "b";
  summary = [];
  description = [];
  external_docs = none;
  parent = bytes "a";
  kind = [];
}

abbrev both_tags : List Tag
both_tags = first_tag ∷ second_tag ∷ []

abbrev tag_names : List (Bytes × ℕ)
tag_names = (bytes "a", 0) ∷ (bytes "b", 1) ∷ []

abbrev IsIndexed : Tag → Type 0
IsIndexed t =
    (t.name ≢ [])
    × (i : ℕ) × (find_key t.name tag_names ≡ some i)
    × (get_elem? both_tags i ≡ some t)

first-IsIndexed : IsIndexed first_tag
unfolding find_key bytes_eq
first-IsIndexed = (λ e. cc e, 0, refl, refl)

second-IsIndexed : IsIndexed second_tag
unfolding find_key bytes_eq
second-IsIndexed = (λ e. cc e, 1, refl, refl)

of_both : (P : Tag → Type 0) → P first_tag → P second_tag → (t : Tag) → Memᴰ t both_tags → P t
of_both P p q t m = elim (Memᴰ.cases_cons m) [
  | inl e ↦ subst P (sym e) p
  | inr m' ↦ elim (Memᴰ.cases_cons m') [
    | inl e ↦ subst P (sym e) q
    | inr m2 ↦ absurd (Memᴰ.not-nil m2)
  ]
]

abbrev HasParent : Tag → Type 0
HasParent t = t.parent ≢ [] → (u : Tag) × Memᴰ u both_tags × (u.name ≡ t.parent)

is_circular_iff_example :
    (b : Bool) × (is_circular 3 both_tags tag_names (bytes "a" ∷ []) (bytes "b") ≡ some b)
    × ((b ≡ false) ↔ ((n : ℕ) × EndsIn both_tags n (bytes "b")))
is_circular_iff_example =
    is_circular_iff both_tags tag_names (of_both IsIndexed first-IsIndexed second-IsIndexed)
      (of_both HasParent (λ _. (second_tag, Memᴰ.tail (Memᴰ.head refl), refl))
        (λ _. (first_tag, Memᴰ.head refl, refl)))
      first_tag (Memᴰ.head refl)

slash_begins : has_prefix (bytes "/{id}") (bytes "/") ≡ true
unfolding has_prefix
slash_begins = refl

ensures_params : has_component_ref [] ≡ false
ensures_params = refl

ensure_path_parameters-AllDeclared_example :
    AllDeclared (ensure_path_parameters (bytes "/{id}") 5 []) (param_names (bytes "/{id}"))
    × (added : List (Option Parameter)) × (ensure_path_parameters (bytes "/{id}") 5 []
        ≡ [] ++ added)
ensure_path_parameters-AllDeclared_example =
    ensure_path_parameters-AllDeclared (bytes "/{id}") 5 [] slash_begins ensures_params tt
