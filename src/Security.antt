-- ===== src/Security.antt =====
-- The security guard of pkg/http/openapi/internal/security: guard.go and validate.go.
--
-- `Catalog` errors stand for their entries, and the list that `errors.AsErrors` takes out of an
-- error is given by `as_errors`; whether an error `Is` an entry is `is_error`.
pub mod Access
mod Examples
use xqua_go.Prelude.{
  ℕ, zero, suc, Bytes, bytes_eq, Bool, true, false, ◌&&◌, ◌||◌, not, List, [], ◌∷◌, Option, none,
  some, ltb, ◌==◌, if◌then◌else◌, length,
}

-- `Requirement`
pub record Requirement : Type 0 where
  pub names : List Bytes
  pub scopes : List Bytes

pub record Credential : Type 0 where
  pub scheme : Bytes
  pub raw : Bytes
  pub scopes : List Bytes

-- The templates of a status; `none` is a nil pointer.
pub record ErrCase (E : Type 0) : Type 0 where
  pub status : ℕ
  pub errors : List (Option E)

-- Whether a verification gives an identity or an error.
pub data Verified (E I : Type 0) : Type 0 where
  identity : I → Verified E I
  refused : E → Verified E I

-- `Verify` and `Extract` are nil or functions; the request is of type `C`.
pub record Scheme (C E I : Type 0) : Type 0 where
  pub verify : Option (C → Credential → Verified E I)
  pub extract : Option (C → Option Bytes)

-- The errors kept for the end: `forbiddenErr` and `authErr401`.
pub record Kept (E : Type 0) : Type 0 where
  pub forbidden : Option E
  pub auth_401 : Option E

-- What the handler does in the end: pass the request on with the identity, or write an error.
pub data Answer (E I : Type 0) : Type 0 where
  passed : I → Answer E I
  written : E → Answer E I
  plain_unauthorized : Answer E I

module _ {E : Type 0} (is_error : E → Option E → Bool) (as_errors : E → List E) where
  abbrev pub any_is : E → List (Option E) → Bool
  any_is e [] = false
  any_is e (tmpl ∷ tmpls) = is_error e tmpl || any_is e tmpls

  -- `declaredStatus`
  unfoldable pub declared_status : E → List (ErrCase E) → Option ℕ
  declared_status e [] = none
  declared_status e (c ∷ cs) =
      let rest = declared_status e cs in if any_is e c.errors then some c.status else rest

  abbrev pub best_with : ℕ → Option ℕ → (ℕ → Option ℕ) → Option ℕ
  best_with best none more = none
  best_with best (some st) more = if ltb best st then more st else more best

  -- The loop of `ResolveAuthStatus` with the best status so far.
  unfoldable pub best_status : List (ErrCase E) → ℕ → List E → Option ℕ
  best_status cases best [] = some best
  best_status cases best (e ∷ es) =
      best_with best (declared_status e cases) (λ b. best_status cases b es)

  abbrev pub resolve_entries : List (ErrCase E) → List E → Option ℕ
  resolve_entries cases [] = none
  resolve_entries cases (e ∷ es) = best_status cases 0 (e ∷ es)

  unfoldable pub resolve_auth_status : E → List (ErrCase E) → Option ℕ
  resolve_auth_status e cases = resolve_entries cases (as_errors e)

  abbrev pub keep_at : E → Kept E → ℕ → Kept E
  keep_at e k st =
      if st == 403
      then record k { forbidden = some e }
      else if st == 401
      then record k { auth_401 = some e }
      else k

  abbrev pub keep : E → Kept E → Option ℕ → Kept E
  keep e k none = k
  keep e k (some st) = keep_at e k st

  abbrev pub first_of : {I : Type 0} → Option E → Answer E I → Answer E I
  first_of (some e) a = written e
  first_of none a = a

  abbrev pub last_answer : {I : Type 0} → Option E → Kept E → Answer E I
  last_answer unauthorized k =
      first_of k.forbidden (first_of k.auth_401 (first_of unauthorized plain_unauthorized))

  module _ {C I : Type 0} (schemes : Bytes → Option (Scheme C E I)) (cases : List (ErrCase E)) where
    -- The credential of a requirement that the request carries, with the function that verifies it.
    abbrev pub verified :
        C
        → Bytes
        → List Bytes
        → (C → Credential → Verified E I)
        → Option Bytes
        → Option (Verified E I)
    verified c name scopes v none = none
    verified c name scopes v (some raw) =
        some (v c (record { scheme = name; raw = raw; scopes = scopes }))

    abbrev pub extracted :
        C
        → Bytes
        → List Bytes
        → Option (C → Credential → Verified E I)
        → Option (C → Option Bytes)
        → Option (Verified E I)
    extracted c name scopes none x = none
    extracted c name scopes (some v) none = none
    extracted c name scopes (some v) (some x) = verified c name scopes v (x c)

    abbrev pub with_scheme : C → Bytes → List Bytes → Option (Scheme C E I) → Option (Verified E I)
    with_scheme c name scopes none = none
    with_scheme c name scopes (some s) = extracted c name scopes s.verify s.extract

    -- One requirement: none where the loop goes on without an error.
    abbrev pub attempt : C → List Bytes → List Bytes → Option (Verified E I)
    attempt c scopes [] = none
    attempt c scopes (name ∷ names) = with_scheme c name scopes (schemes name)

    abbrev pub answer_or : Option (Verified E I) → Kept E → (Kept E → Answer E I) → Answer E I
    answer_or none k more = more k
    answer_or (some (identity i)) k more = passed i
    answer_or (some (refused e)) k more = more (keep e k (resolve_auth_status e cases))

    unfoldable pub guard_loop : C → Option E → List Requirement → Kept E → Answer E I
    guard_loop c unauthorized [] k = last_answer unauthorized k
    guard_loop c unauthorized (req ∷ reqs) k =
        answer_or (attempt c req.scopes req.names) k (guard_loop c unauthorized reqs)

    -- `Guard`; without requirements the request is passed on with no identity.
    unfoldable pub guard : C → Option E → List Requirement → Option (Answer E I)
    guard c unauthorized [] = none
    guard c unauthorized (req ∷ reqs) =
        some (guard_loop c unauthorized (req ∷ reqs) (record { forbidden = none; auth_401 = none }))

abbrev pub any_given : {E : Type 0} → List (Option E) → Bool
any_given [] = false
any_given (none ∷ es) = any_given es
any_given (some e ∷ es) = true

-- `hasStatus`
unfoldable pub has_status : {E : Type 0} → List (ErrCase E) → ℕ → Bool
has_status [] status = false
has_status (c ∷ cs) status = (c.status == status && any_given c.errors) || has_status cs status

unfoldable pub requires_scopes : List Requirement → Bool
requires_scopes [] = false
requires_scopes (req ∷ reqs) = ltb 0 (length req.scopes) || requires_scopes reqs

pub data Panic : Type 0 where
  one_scheme : ℕ → ℕ → Panic
  needs_401 : Panic
  needs_403 : Panic

unfoldable pub check_names : ℕ → List Requirement → Option Panic
check_names i [] = none
check_names i (req ∷ reqs) =
    let rest = check_names (suc i) reqs in
    if length req.names == 1 then rest else some (one_scheme i (length req.names))

abbrev pub check_statuses : {E : Type 0} → List Requirement → List (ErrCase E) → Option Panic
check_statuses reqs cases =
    if not (has_status cases 401)
    then some needs_401
    else if requires_scopes reqs && not (has_status cases 403)
    then some needs_403
    else none

abbrev pub or_else : Option Panic → Option Panic → Option Panic
or_else none p = p
or_else (some q) p = some q

-- `ValidateRoute`, which panics or returns.
unfoldable pub validate_route :
    {E : Type 0} → List Requirement → List (ErrCase E) → Bool → Option Panic
validate_route [] cases describe = none
validate_route (req ∷ reqs) cases describe =
    if describe
    then none
    else or_else (check_names 0 (req ∷ reqs)) (check_statuses (req ∷ reqs) cases)
