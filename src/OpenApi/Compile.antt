-- ===== src/OpenApi/Compile.antt =====
-- The compilation of a route at its registration, pkg/http/openapi/internal/compile/compile.go.
--
-- Types and handlers are those of `Reflect`. A catalog entry is an address in the store, `none` a nil pointer.
pub mod Statuses
use xqua_go.Prelude.{
  ℕ, Bytes, Bool, true, false, not, ◌&&◌, List, [], ◌∷◌, ◌++◌, Option, none, some, ◌==◌,
  if◌then◌else◌, find_key,
}
use xqua_go.Errors.{Fields}
use xqua_go.Errors.Catalog.{Store, Catalog, contains}
use xqua_go.OpenApi.Reflect.{GoType, Types, indirect, parse_handler, has_bindable_fields}

pub record ErrCase : Type 0 where
  pub status : ℕ
  pub errors : List (Option ℕ)

pub record Input (H : Type 0) : Type 0 where
  pub describe : Bool
  pub handler : Option H
  pub request : Option GoType
  pub infer_success : Bool
  pub success_type : Option GoType
  pub err_cases : List ErrCase
  pub has_extra : Bool
  pub store : Store
  pub catalog : Catalog
  pub kind_statuses : List (Bytes × ℕ)
  pub default_status : ℕ

pub record Route : Type 0 where
  pub success_type : Option GoType
  pub in_type : Option GoType
  pub templates : List (Option ℕ)
  pub err_cases : List ErrCase
  pub err_index : List (ℕ × ℕ)
  pub unauthorized : Option (Option ℕ)

pub data Panic : Type 0 where
  describe_with_handler : Panic
  describe_without_response : Panic
  handler_required : Panic
  handler_shape : Panic
  success_mismatch : GoType → GoType → Panic
  nil_entry : ℕ → Panic
  not_in_catalog : ℕ → ℕ → Panic
  wrong_status : ℕ → ℕ → ℕ → Panic
  needs_422 : Panic

pub data Built (A : Type 0) : Type 0 where
  returned : A → Built A
  panicked : Panic → Built A

abbrev pub then_build : {A B : Type 0} → Built A → (A → Built B) → Built B
then_build (returned a) k = k a
then_build (panicked p) k = panicked p

-- `kindStatus`
abbrev pub status_or : Option ℕ → ℕ → ℕ
status_or none default_status = default_status
status_or (some code) default_status = code

unfoldable pub kind_status : List (Bytes × ℕ) → Bytes → ℕ → ℕ
kind_status kinds kind default_status = status_or (find_key kind kinds) default_status

module _ {H : Type 0} (input : Input H) where
  abbrev pub check_status : ℕ → ℕ → ℕ → Option Panic
  check_status status a resolved =
      if resolved == status then none else some (wrong_status status a resolved)

  abbrev pub check_fields : ℕ → ℕ → Option Fields → Option Panic
  check_fields status a none = some (not_in_catalog status a)
  check_fields status a (some f) =
      if not (contains input.store input.catalog f)
      then some (not_in_catalog status a)
      else check_status status a (kind_status input.kind_statuses f.kind input.default_status)

  abbrev pub check_entry : ℕ → Option ℕ → Option Panic
  check_entry status none = some (nil_entry status)
  check_entry status (some a) = check_fields status a (input.store.entry_at a)

  abbrev pub or_panic : Option Panic → Option Panic → Option Panic
  or_panic none q = q
  or_panic (some p) q = some p

  abbrev pub check_entries : ℕ → List (Option ℕ) → Option Panic
  check_entries status [] = none
  check_entries status (e ∷ es) = or_panic (check_entry status e) (check_entries status es)

  -- `validateErrCases`
  unfoldable pub validate_err_cases : List ErrCase → Option Panic
  validate_err_cases [] = none
  validate_err_cases (c ∷ cs) = or_panic (check_entries c.status c.errors) (validate_err_cases cs)

-- `validationTemplates`
unfoldable pub validation_templates : List ErrCase → List (Option ℕ)
validation_templates [] = []
validation_templates (c ∷ cs) =
    let rest = validation_templates cs in if c.status == 422 then c.errors ++ rest else rest

-- Writes to the map `errIndex`, the newest first; an entry that is nil has been refused before.
abbrev pub index_entries : ℕ → List (Option ℕ) → List (ℕ × ℕ) → List (ℕ × ℕ)
index_entries status [] m = m
index_entries status (none ∷ es) m = index_entries status es m
index_entries status (some a ∷ es) m = index_entries status es ((a, status) ∷ m)

unfoldable pub index_cases : List ErrCase → List (ℕ × ℕ) → List (ℕ × ℕ)
index_cases [] m = m
index_cases (c ∷ cs) m = index_cases cs (index_entries c.status c.errors m)

unfoldable pub find_status : ℕ → List (ℕ × ℕ) → Option ℕ
find_status a [] = none
find_status a ((b, status) ∷ m) = let rest = find_status a m in if b == a then some status else rest

abbrev pub first_of : List (Option ℕ) → Option (Option ℕ) → Option (Option ℕ)
first_of [] rest = rest
first_of (e ∷ es) rest = some e

unfoldable pub find_unauthorized : List ErrCase → Option (Option ℕ)
find_unauthorized [] = none
find_unauthorized (c ∷ cs) =
    let rest = find_unauthorized cs in if c.status == 401 then first_of c.errors rest else rest

module _ {H : Type 0} (types : Types H) (input : Input H) where
  -- The types of input and success.
  abbrev pub Shape : Type 0
  Shape = Option GoType × Option GoType

  abbrev pub success_or : GoType → GoType → Option GoType → Built Shape
  success_or in_type out none = returned (some in_type, some out)
  success_or in_type out (some t) =
      if input.infer_success
      then returned (some in_type, some out)
      else if types.same_type t out
      then returned (some in_type, some t)
      else panicked (success_mismatch t out)

  abbrev pub live_shape : Option (GoType × GoType) → Built Shape
  live_shape none = panicked handler_shape
  live_shape (some (in_type, out)) = success_or in_type out input.success_type

  abbrev pub request_type : Option GoType → Option GoType
  request_type none = none
  request_type (some t) = some (indirect t)

  abbrev pub describe_shape : Option GoType → Built Shape
  describe_shape (some t) = returned (request_type input.request, some t)
  describe_shape none =
      if input.has_extra
      then returned (request_type input.request, none)
      else panicked describe_without_response

  abbrev pub shape_of : Bool → Option H → Built Shape
  shape_of true (some h) = panicked describe_with_handler
  shape_of true none = describe_shape input.success_type
  shape_of false none = panicked handler_required
  shape_of false (some h) = live_shape (parse_handler types h)

  abbrev pub checked : Option Panic → Built Bool
  checked none = returned true
  checked (some p) = panicked p

  abbrev pub bindable : Option GoType → Bool
  bindable none = false
  bindable (some t) = not input.describe && has_bindable_fields t

  abbrev pub is_nil : List (Option ℕ) → Bool
  is_nil [] = true
  is_nil (e ∷ es) = false

  abbrev pub route_of : Shape → Route
  route_of (in_type, success) = record {
    success_type = success;
    in_type = in_type;
    templates = validation_templates input.err_cases;
    err_cases = input.err_cases;
    err_index = index_cases input.err_cases [];
    unauthorized = find_unauthorized input.err_cases;
  }

  abbrev pub needs_templates : Shape → Built Route
  needs_templates (in_type, success) =
      if bindable in_type && is_nil (validation_templates input.err_cases)
      then panicked needs_422
      else returned (route_of (in_type, success))

  -- `Build`
  unfoldable pub build : Built Route
  build = then_build (shape_of input.describe input.handler) (λ shape.
      then_build (checked (validate_err_cases input input.err_cases)) (λ _. needs_templates shape))
