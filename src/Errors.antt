-- ===== src/Errors.antt =====
-- Canonical errors, pkg/errors: errors.go, match.go, map.go, wrap.go.
--
-- An error is a tree. `plain` and `foreign` are the errors of other packages, without and with an
-- `Unwrap`; a canonical error has its fields and its cause; a collection has members, of which some
-- may be nil. The identity of a catalog entry is its address, which `Catalog.Define` gives.
pub mod Mapping
pub mod Catalog
mod Examples
use xqua_go.Prelude.{
  ℕ, Bytes, bytes_eq, Bool, true, false, ◌&&◌, ◌||◌, not, List, [], ◌∷◌, Option, none, some, ◌==◌,
  if◌then◌else◌,
}

-- The fields of `Error` but its cause.
pub record Fields : Type 0 where
  pub kind : Bytes
  pub code : Bytes
  pub message : Bytes
  pub source : Bytes
  pub entry : Option ℕ

mutual
  pub data Err : Type 0 where
    plain : ℕ → Err
    foreign : ℕ → Err → Err
    canonical : Fields → Cause → Err
    collection : Members → Err

  pub data Cause : Type 0 where
    no_cause : Cause
    cause : Err → Cause

  pub data Members : Type 0 where
    no_members : Members
    nil_member : Members → Members
    member : Fields → Cause → Members → Members

-- `Error.Is`: whether the entry is that of the target, which is a catalog entry.
abbrev pub same_entry : Option ℕ → ℕ → Bool
same_entry none target = false
same_entry (some a) target = a == target

-- `Is`, with `Error.Is`, `Errors.Is` and `Unwrap` where the standard library calls them.
unfoldable mutual
  pub is : Err → ℕ → Bool
  is (plain n) target = false
  is (foreign n e) target = is e target
  is (canonical f c) target = same_entry f.entry target || is_cause c target
  is (collection ms) target = is_member ms target

  pub is_cause : Cause → ℕ → Bool
  is_cause no_cause target = false
  is_cause (cause e) target = is e target

  pub is_member : Members → ℕ → Bool
  is_member no_members target = false
  is_member (nil_member ms) target = is_member ms target
  is_member (member f c ms) target =
      (same_entry f.entry target || is_cause c target) || is_member ms target

-- `IsKind`, past the test for an empty kind.
unfoldable mutual
  pub has_kind : Err → Bytes → Bool
  has_kind (plain n) kind = false
  has_kind (foreign n e) kind = has_kind e kind
  has_kind (canonical f c) kind = bytes_eq f.kind kind || has_kind_cause c kind
  has_kind (collection ms) kind = has_kind_member ms kind

  pub has_kind_cause : Cause → Bytes → Bool
  has_kind_cause no_cause kind = false
  has_kind_cause (cause e) kind = has_kind e kind

  pub has_kind_member : Members → Bytes → Bool
  has_kind_member no_members kind = false
  has_kind_member (nil_member ms) kind = has_kind_member ms kind
  has_kind_member (member f c ms) kind =
      (bytes_eq f.kind kind || has_kind_cause c kind) || has_kind_member ms kind

unfoldable pub is_kind : Err → Bytes → Bool
is_kind e kind = if bytes_eq kind [] then false else has_kind e kind

-- `errors.As` for a canonical error, which does not look into a collection: it has no `Unwrap`.
unfoldable pub is_structured_as : Err → Bool
is_structured_as (plain n) = false
is_structured_as (foreign n e) = is_structured_as e
is_structured_as (canonical f c) = true
is_structured_as (collection ms) = false

-- Whether `AsErrors` finds anything: a collection that is not empty, or a canonical error down the
-- chain of `Unwrap`.
unfoldable pub is_structured : Err → Bool
is_structured (plain n) = false
is_structured (foreign n e) = is_structured_as e
is_structured (canonical f c) = true
is_structured (collection no_members) = false
is_structured (collection (nil_member ms)) = true
is_structured (collection (member f c ms)) = true

-- `Wrap`, for an error and a cause that are not nil.
unfoldable pub wrap : Err → Fields → Err
wrap e f = canonical f (cause e)

-- A mapper gives the fields of a canonical error, where it recognizes the error.
abbrev pub Mapper : Type 0
Mapper = Err → Option Fields

-- `Pair`, for entries that are not nil.
unfoldable pub pair_mapper : ℕ → Fields → Mapper
pair_mapper from to e = if is e from then some to else none

abbrev pub first_match : Option Fields → Option Fields → Option Fields
first_match (some f) rest = some f
first_match none rest = rest

-- The first of the mappers that recognizes the error; a nil mapper is `none`.
unfoldable pub mappers : List (Option Mapper) → Mapper
mappers [] e = none
mappers (none ∷ ms) e = mappers ms e
mappers (some m ∷ ms) e = first_match (m e) (mappers ms e)

-- The loop over the mappers in `Map` and `MapOr`, which have no nil among them.
unfoldable pub first_mapped : List Mapper → Mapper
first_mapped [] e = none
first_mapped (m ∷ ms) e = first_match (m e) (first_mapped ms e)

abbrev pub map_with : Option Fields → Err → Option Err
map_with (some f) e = some (wrap e f)
map_with none e = if is_structured e then some e else none

-- `Map`
unfoldable pub map_err : Err → List Mapper → Option Err
map_err e ms = map_with (first_mapped ms e) e

-- `Or`
unfoldable pub or_err : Err → Fields → Err
or_err e fallback = if is_structured e then e else wrap e fallback

abbrev pub map_or_with : Option Fields → Err → Fields → Err
map_or_with (some f) e fallback = wrap e f
map_or_with none e fallback = wrap e fallback

-- `MapOr`
unfoldable pub map_or : Err → Fields → List Mapper → Err
map_or e fallback ms = map_or_with (first_mapped ms e) e fallback
