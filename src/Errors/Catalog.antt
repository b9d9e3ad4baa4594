-- ===== src/Errors/Catalog.antt =====
-- Catalogs of errors, pkg/errors/catalog.go: `NewCatalog`, `Define`, `Lookup`, `Entries`,
-- `Contains`.
--
-- An `*Error` that a catalog holds is an address in the store of the defined entries.
pub mod Identity
use xqua_go.Prelude.{
  ℕ, suc, Bytes, bytes_eq, Bool, true, false, List, [], ◌∷◌, Option, none, some, ltb, ◌==◌,
  if◌then◌else◌, find_key, set_key, trim_space,
}
use xqua_go.Errors.{Fields}

pub record Def : Type 0 where
  pub kind : Bytes
  pub code : Bytes
  pub message : Bytes
  pub source : Bytes

pub record Catalog : Type 0 where
  pub name : Bytes
  pub entries : List (Bytes × ℕ)

-- The entries by address; those from `fresh` on are not allocated.
pub record Store : Type 0 where
  pub entry_at : ℕ → Option Fields
  pub fresh : ℕ

pub data Panic : Type 0 where
  name_required : Panic
  code_required : Panic
  duplicate_code : Bytes → Bytes → Panic

pub data Outcome (A : Type 0) : Type 0 where
  returned : A → Outcome A
  panicked : Panic → Outcome A

-- `NewCatalog`
unfoldable pub new_catalog : Bytes → Outcome Catalog
new_catalog name =
    if bytes_eq (trim_space name) []
    then panicked name_required
    else returned (record { name = trim_space name; entries = [] })

abbrev pub kind_or : Bytes → Bytes → Bytes
kind_or kind name = if bytes_eq kind [] then name else kind

-- `newEntry`, at a fresh address, which is the entry's own identity.
abbrev pub new_entry : Store → Bytes → Bytes → Bytes → Bytes → Fields
new_entry s kind code message source = record {
  kind = kind;
  code = code;
  message = message;
  source = source;
  entry = some s.fresh;
}

abbrev pub allocated : Store → Fields → Store
allocated s f = record {
  entry_at = λ a. if a == s.fresh then some f else s.entry_at a;
  fresh = suc s.fresh;
}

-- What `Define` leaves, and the entry that it returns.
pub record Defined : Type 0 where
  pub store : Store
  pub catalog : Catalog
  pub entry : Fields

abbrev pub add_entry : Store → Catalog → Bytes → Fields → Defined
add_entry s c code f = record {
  store = allocated s f;
  catalog = record c { entries = set_key code s.fresh c.entries };
  entry = f;
}

abbrev pub define_code : Store → Catalog → Def → Bytes → Option ℕ → Outcome Defined
define_code s c d code (some a) = panicked (duplicate_code c.name code)
define_code s c d code none =
    returned (
      add_entry s c code (new_entry s (kind_or (trim_space d.kind) c.name) code d.message d.source))

-- `Define`
unfoldable pub define : Store → Catalog → Def → Outcome Defined
define s c d =
    if bytes_eq (trim_space d.code) []
    then panicked code_required
    else define_code s c d (trim_space d.code) (find_key (trim_space d.code) c.entries)

-- `Lookup`
unfoldable pub lookup : Catalog → Bytes → Option ℕ
lookup c code = find_key code c.entries

abbrev pub holds : Option ℕ → ℕ → Bool
holds none a = false
holds (some b) a = b == a

abbrev pub contains_entry : Catalog → ℕ → Option Fields → Bool
contains_entry c a none = false
contains_entry c a (some f) = holds (find_key f.code c.entries) a

-- `Contains`, by the entry that the error was cloned from.
unfoldable pub contains : Store → Catalog → Fields → Bool
contains s c f = elim f.entry [ none ↦ false | some a ↦ contains_entry c a (s.entry_at a) ]

-- The order of Go on texts, which is that of their bytes.
unfoldable pub bytes_lt : Bytes → Bytes → Bool
bytes_lt [] [] = false
bytes_lt [] (_ ∷ _) = true
bytes_lt (_ ∷ _) [] = false
bytes_lt (a ∷ s) (b ∷ t) =
    let rest = bytes_lt s t in if ltb a b then true else if a == b then rest else false

-- `sort.Slice` by code; no code stands twice in a catalog.
unfoldable pub insert_by_code : Bytes × ℕ → List (Bytes × ℕ) → List (Bytes × ℕ)
insert_by_code (k, a) [] = (k, a) ∷ []
insert_by_code (k, a) ((j, b) ∷ m) =
    let rest = insert_by_code (k, a) m in
    if bytes_lt k j then (k, a) ∷ (j, b) ∷ m else (j, b) ∷ rest

-- `Entries`: the codes with their entries, sorted by code.
unfoldable pub entries : List (Bytes × ℕ) → List (Bytes × ℕ)
entries [] = []
entries (e ∷ m) = insert_by_code e (entries m)
