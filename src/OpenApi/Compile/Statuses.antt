-- ===== src/OpenApi/Compile/Statuses.antt =====
-- The statuses of a compiled route: every listed entry is one of the catalog, and is indexed under
-- the status of its case, which is the one of its kind, wherever else it is listed.
use mathlib.Core.List.{Memᴰ}
use mathlib.Core.List.Memᴰ
use xqua_go.Prelude.{ℕ, true, List, [], ◌∷◌, Option, none, some, ◌≡◌}
use xqua_go.Errors.{Fields}
use xqua_go.Errors.Catalog.{contains}
use xqua_go.OpenApi.Compile.{ErrCase, Input, kind_status, find_status}

module _ {H : Type 0} (input : Input H) where
  -- The entry is in the catalog and its kind has this status.
  pub record HasStatus (a status : ℕ) : Type 0 where
    pub fields : Fields
    pub stored : input.store.entry_at a ≡ some fields
    pub in_catalog : contains input.store input.catalog fields ≡ true
    pub resolved : kind_status input.kind_statuses fields.kind input.default_status ≡ status

  -- Every pair of the index is one of an entry with its status.
  abbrev AllTrue : List (ℕ × ℕ) → Type 0
  AllTrue [] = Unit {0}
  AllTrue ((a, status) ∷ m) = HasStatus a status × AllTrue m

  abbrev IsFound : ℕ → List (ℕ × ℕ) → Type 0
  IsFound a m = (status : ℕ) × (find_status a m ≡ some status)

  -- The entries of a case are there, and indexed under its status, which they have.
  abbrev pub AllIndexed : List (ℕ × ℕ) → ℕ → List (Option ℕ) → Type 0
  AllIndexed m status [] = Unit {0}
  AllIndexed m status (none ∷ es) = ⊥
  AllIndexed m status (some a ∷ es) =
      (find_status a m ≡ some status) × HasStatus a status × AllIndexed m status es

  abbrev pub AllCasesIndexed : List (ℕ × ℕ) → List ErrCase → Type 0
  AllCasesIndexed m [] = Unit {0}
  AllCasesIndexed m (c ∷ cs) = AllIndexed m c.status c.errors × AllCasesIndexed m cs
