-- ===== src/Errors/Examples.antt =====
-- The theorems about errors at a plain error, an entry and a pair.
use xqua_go.Prelude.{
  ℕ, bytes, true, false, List, [], ◌∷◌, ◌++◌, none, some, ◌==◌, if◌then◌else◌, ◌≡◌, ◌≢◌, arith,
  refl, sym, ap, bytes_eq, bytes_eq_iff, Bool-cases, inl, inr, ◌<◌, trim_space, find_key,
}
use xqua_go.Errors.Catalog.{
  Def, Catalog, Store, Panic, returned, panicked, Defined, define, add_entry, new_entry, lookup,
  contains,
}
use xqua_go.Errors.Catalog.Identity.{IsAllocated, define-is_isolated, define_once}
use xqua_go.Errors.{
  Err, Fields, Mapper, is, wrap, first_mapped, map_err, map_or, pair_mapper, plain, canonical,
  no_cause,
}
use xqua_go.Errors.Mapping.{map_or-pair}

abbrev entry_at : ℕ → Fields
entry_at a = record {
  kind = bytes "store";
  code = bytes "not_found";
  message = bytes "";
  source = bytes "";
  entry = some a;
}

abbrev not_found : Err
not_found = wrap (plain 9) (entry_at 1)

matches_itself : is not_found 1 ≡ true
unfolding wrap is
matches_itself = refl

other_pair_passes : first_mapped (pair_mapper 5 (entry_at 6) ∷ []) not_found ≡ none
unfolding first_mapped pair_mapper wrap is
other_pair_passes = refl

abbrev pairs : List Mapper
pairs = (pair_mapper 5 (entry_at 6) ∷ []) ++ pair_mapper 1 (entry_at 2) ∷ []

map_or-pair_example :
    (is (map_or not_found (entry_at 3) pairs) 2 ≡ true)
    × (map_err not_found pairs ≡ some (map_or not_found (entry_at 3) pairs))
map_or-pair_example =
    map_or-pair not_found (entry_at 3) (entry_at 2) (pair_mapper 5 (entry_at 6) ∷ []) [] 1 2
      other_pair_passes matches_itself refl

abbrev base : Catalog
base = record { name = bytes "store"; entries = (bytes "not_found", 0) ∷ [] }

abbrev empty_catalog : Catalog
empty_catalog = record { name = bytes "users"; entries = [] }

abbrev one_entry : Store
one_entry = record { entry_at = λ a. if a == 0 then some (entry_at 0) else none; fresh = 1 }

abbrev timeout_def : Def
timeout_def = record {
  kind = bytes "";
  code = bytes " timeout ";
  message = bytes "timed out";
  source = bytes "";
}

abbrev defined : Defined
defined =
    add_entry one_entry empty_catalog (bytes "timeout")
      (new_entry one_entry (bytes "users") (bytes "timeout") (bytes "timed out") (bytes ""))

defines : define one_entry empty_catalog timeout_def ≡ returned defined
unfolding define find_key trim_space bytes_eq
defines = refl

base-IsAllocated : IsAllocated one_entry base
unfolding find_key
base-IsAllocated code a h = elim (Bool-cases (bytes_eq (bytes "not_found") code)) [
  | inl own ↦
      let first : 0 ≡ a = ground arith in
      let same : bytes "not_found" ≡ code = ground (arith, bytes_eq_iff (bytes "not_found") code) in
      (omega arith, entry_at 0, ap one_entry.entry_at (sym first), same)
  | inr other ↦ absurd (ground arith)
]

below : 0 < 1
below = omega arith

define-is_isolated_example :
    (contains defined.store defined.catalog defined.entry ≡ true)
    × (lookup defined.catalog (trim_space (bytes " timeout ")) ≡ some 1)
    × (contains defined.store base defined.entry ≡ false)
    × (is (canonical defined.entry no_cause) 1 ≡ true)
    × (is (canonical defined.entry no_cause) 0 ≡ false)
define-is_isolated_example =
    define-is_isolated one_entry empty_catalog base timeout_def defined 0 defines base-IsAllocated
      below

other_code : trim_space (bytes " timeout ") ≢ bytes "gone"
unfolding trim_space
other_code h = cc

define_once_example :
    (define defined.store defined.catalog timeout_def
      ≡ panicked (Panic.duplicate_code (bytes "users") (trim_space (bytes " timeout "))))
    × (lookup defined.catalog (bytes "gone") ≡ lookup empty_catalog (bytes "gone"))
define_once_example =
    define_once one_entry empty_catalog timeout_def defined (bytes "gone") defines other_code
