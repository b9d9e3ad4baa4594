-- ===== src/OpenApi/Policy.antt =====
-- Which security a route has and how it is enforced: `SecuritySpec`, `ResolveSecurity`,
-- `DocumentSecurity`, `ValidateRequirements` of pkg/http/openapi/security.go, and
-- pkg/http/openapi/security_wire.go, which hands them to the guard of `Security`.
--
-- A copy of a slice is the list itself. A requirement is a map from schemes to scopes.
pub mod Effective
pub mod Registered
use xqua_go.Prelude.{
  ℕ, zero, suc, Bytes, bytes, Bool, true, false, not, List, [], ◌∷◌, Option, none, some, ◌==◌, ◌&&◌,
  if◌then◌else◌, length, get_elem?,
}
use xqua_go.Security.{
  Requirement, Credential, Scheme, Verified, identity, refused, ErrCase, Answer, validate_route,
  guard,
}
use xqua_go.Security

abbrev pub SecurityRequirement : Type 0
SecurityRequirement = List (Bytes × List Bytes)

pub record SecuritySpec : Type 0 where
  pub explicit : Bool
  pub public_ : Bool
  pub requirements : List SecurityRequirement

abbrev pub inherit_security : SecuritySpec
inherit_security = record { explicit = false; public_ = false; requirements = [] }

abbrev pub public_security : SecuritySpec
public_security = record { explicit = true; public_ = true; requirements = [] }

abbrev pub require_security : Bytes → List Bytes → SecuritySpec
require_security scheme scopes = record {
  explicit = true;
  public_ = false;
  requirements = ((scheme, scopes) ∷ []) ∷ [];
}

abbrev one_each : List Bytes → List SecurityRequirement
one_each [] = []
one_each (name ∷ names) = ((name, []) ∷ []) ∷ one_each names

abbrev pub require_any_security : List Bytes → SecuritySpec
require_any_security schemes = record {
  explicit = true;
  public_ = false;
  requirements = one_each schemes;
}

abbrev pub is_public : SecuritySpec → Bool
is_public s = s.explicit && s.public_

-- What an explicit declaration says: the requirements, and whether the route is public.
abbrev pub declared : SecuritySpec → List SecurityRequirement × Bool
declared s = if is_public s then ([], true) else (s.requirements, false)

abbrev pub declared_or :
    Option SecuritySpec → List SecurityRequirement × Bool → List SecurityRequirement × Bool
declared_or none rest = rest
declared_or (some s) rest = if s.explicit then declared s else rest

-- `for i := len(groups) - 1; i >= 0; i--`, with `suc i` for the turns that are left.
unfoldable pub resolve_groups :
    List SecuritySpec → ℕ → List SecurityRequirement × Bool → List SecurityRequirement × Bool
resolve_groups groups zero rest = rest
resolve_groups groups (suc i) rest = declared_or (get_elem? groups i) (resolve_groups groups i rest)

-- `ResolveSecurity`
unfoldable pub resolve_security :
    SecuritySpec → List SecuritySpec → SecuritySpec → List SecurityRequirement × Bool
resolve_security route groups default_spec =
    declared_or (some route)
      (resolve_groups groups (length groups) (declared_or (some default_spec) ([], false)))

-- `DocumentSecurity`
unfoldable pub document_security :
    List SecurityRequirement → SecuritySpec → List SecurityRequirement
document_security [] default_spec =
    if default_spec.explicit && not (is_public default_spec) then default_spec.requirements else []
document_security (req ∷ reqs) default_spec = req ∷ reqs

pub data Panic : Type 0 where
  one_scheme : ℕ → ℕ → Panic
  unknown_scheme : Bytes → Panic
  no_verify : Bytes → Panic
  route_panic : Security.Panic → Panic

abbrev pub or_panic : Option Panic → Option Panic → Option Panic
or_panic none p = p
or_panic (some q) p = some q

-- `ValidateRequirements` from an index on
unfoldable pub validate_requirements : ℕ → List SecurityRequirement → Option Panic
validate_requirements i [] = none
validate_requirements i (req ∷ reqs) =
    or_panic (if length req == 1 then none else some (one_scheme i (length req)))
      (validate_requirements (suc i) reqs)

-- One entry of `toSecurityRequirements`: each name of the map overwrites the one before it.
abbrev pub to_requirement : SecurityRequirement → Requirement → Requirement
to_requirement [] out = out
to_requirement ((name, scopes) ∷ req) out =
    to_requirement req (record { names = name ∷ []; scopes = scopes })

unfoldable pub to_security_requirements : List SecurityRequirement → List Requirement
to_security_requirements [] = []
to_security_requirements (req ∷ reqs) =
    to_requirement req (record { names = []; scopes = [] }) ∷ to_security_requirements reqs

abbrev pub wrapped_extract : {C : Type 0} → Option (C → Option Bytes) → C → Option Bytes
wrapped_extract none c = none
wrapped_extract (some x) c = x c

module _ {C E I : Type 0} (no_identity : I) where
  abbrev pub wrapped_verify : Option (C → Credential → Verified E I) → C → Credential → Verified E I
  wrapped_verify none c cred = identity no_identity
  wrapped_verify (some v) c cred =
      v c (record { scheme = cred.scheme; raw = cred.raw; scopes = cred.scopes })

  -- One entry of `toSecuritySchemes`
  abbrev pub to_scheme : Scheme C E I → Scheme C E I
  to_scheme s = record {
    verify = some (wrapped_verify s.verify);
    extract = some (wrapped_extract s.extract);
  }

  abbrev pub map_scheme : Option (Scheme C E I) → Option (Scheme C E I)
  map_scheme none = none
  map_scheme (some s) = some (to_scheme s)

  unfoldable pub to_security_schemes :
      (Bytes → Option (Scheme C E I)) → Bytes → Option (Scheme C E I)
  to_security_schemes schemes name = map_scheme (schemes name)

module _ {C E I : Type 0} (schemes : Bytes → Option (Scheme C E I)) where
  abbrev pub check_verify : Bytes → Option (C → Credential → Verified E I) → Option Panic
  check_verify name none = some (no_verify name)
  check_verify name (some v) = none

  abbrev pub check_scheme : Bytes → Option (Scheme C E I) → Option Panic
  check_scheme name none = some (unknown_scheme name)
  check_scheme name (some s) = check_verify name s.verify

  abbrev pub check_requirement : SecurityRequirement → Option Panic
  check_requirement [] = none
  check_requirement ((name, scopes) ∷ req) =
      or_panic (check_scheme name (schemes name)) (check_requirement req)

  unfoldable pub check_schemes : List SecurityRequirement → Option Panic
  check_schemes [] = none
  check_schemes (req ∷ reqs) = or_panic (check_requirement req) (check_schemes reqs)

  abbrev pub lift_panic : Option Security.Panic → Option Panic
  lift_panic none = none
  lift_panic (some p) = some (route_panic p)

  -- `validateSecuredRoute`, which panics or returns.
  unfoldable pub validate_secured_route :
      List SecurityRequirement → List (ErrCase E) → Bool → Option Panic
  validate_secured_route [] cases describe = none
  validate_secured_route (req ∷ reqs) cases describe =
      if describe
      then none
      else or_panic (validate_requirements 0 (req ∷ reqs)) (
          or_panic (check_schemes (req ∷ reqs))
            (lift_panic (validate_route (to_security_requirements (req ∷ reqs)) cases describe)))
