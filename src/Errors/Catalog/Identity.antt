-- ===== src/Errors/Catalog/Identity.antt =====
-- Identity of catalog entries: an entry is found under its code, is contained in the catalog that
-- defined it and in no other, and is matched by no entry that was there before.
use xqua_go.Prelude.{
  ℕ, ◌<◌, Bytes, bytes_eq, bytes_eq_iff, bytes_eq_refl, true, false, Bool-cases, [], Option, none,
  some, ◌≡◌, ◌≢◌, inl, inr, refl, sym, ◌∙◌, subst, arith, ◌==◌, if◌then◌else◌, find_key,
  find_key-set_key, trim_space,
}
use xqua_go.Errors.{Fields, canonical, no_cause, is}
use xqua_go.Errors.Catalog.{
  Def, Catalog, Store, returned, panicked, Panic, Defined, define, define_code, add_entry, lookup,
  contains, holds, allocated,
}

-- Every entry that the catalog lists is allocated, under its own code.
abbrev pub IsAllocated : Store → Catalog → Type 0
IsAllocated s c =
    (code : Bytes) (a : ℕ)
    → find_key code c.entries ≡ some a
    → (a < s.fresh) × (f : Fields) × (s.entry_at a ≡ some f) × (f.code ≡ code)

-- A successful `Define` adds a fresh entry under a code that was free.
define-returned :
    (s : Store) (c : Catalog) (d : Def) (r : Defined)
    → define s c d ≡ returned r
    → (find_key (trim_space d.code) c.entries ≡ none)
      × (f : Fields) × (f.entry ≡ some s.fresh)
      × (f.code ≡ trim_space d.code)
      × (r ≡ add_entry s c (trim_space d.code) f)
unfolding define
define-returned s c d r h = elim (Bool-cases (bytes_eq (trim_space d.code) [])) [
  | inl empty ↦ ground arith
  | inr given ↦ found (find_key (trim_space d.code) c.entries) refl (rw given at h)
]
  where
    found :
        (o : Option ℕ)
        → find_key (trim_space d.code) c.entries ≡ o
        → define_code s c d (trim_space d.code) o ≡ returned r
        → (find_key (trim_space d.code) c.entries ≡ none)
          × (f : Fields) × (f.entry ≡ some s.fresh)
          × (f.code ≡ trim_space d.code)
          × (r ≡ add_entry s c (trim_space d.code) f)
    found none e h = (e, r.entry, cc, cc, cc)
    found (some a) e h = cc

entry_at-allocated : (s : Store) (f : Fields) → (allocated s f).entry_at s.fresh ≡ some f
entry_at-allocated s f = ground arith

-- What the new catalog lists under a code.
listed :
    (s : Store) (c : Catalog) (code k : Bytes) (f : Fields)
    → find_key k (add_entry s c code f).catalog.entries
      ≡ (if bytes_eq code k then some s.fresh else find_key k c.entries)
listed s c code k f = find_key-set_key code k s.fresh c.entries

-- An old address is not the fresh one.
old_kept :
    (s : Store) (f : Fields) (a : ℕ) → a < s.fresh → (allocated s f).entry_at a ≡ s.entry_at a
old_kept s f a h = ground arith

IsAllocated-later :
    (s : Store) (o : Catalog) (f : Fields) → IsAllocated s o → IsAllocated (allocated s f) o
IsAllocated-later s o f h code a e =
    let (lt, g, at, same) = h code a e in (omega arith, g, old_kept s f a lt ∙ at, same)

add_entry-IsAllocated :
    (s : Store) (c : Catalog) (code : Bytes) (f : Fields)
    → f.code ≡ code
    → IsAllocated s c
    → IsAllocated (add_entry s c code f).store (add_entry s c code f).catalog
add_entry-IsAllocated s c code f same h k a e = elim (Bool-cases (bytes_eq code k)) [
  | inl own ↦
      let fresh : s.fresh ≡ a = ground (arith, listed s c code k f) in
      let under : code ≡ k = ground (arith, bytes_eq_iff code k) in
      (omega arith, f, ground arith, same ∙ under)
  | inr other ↦ IsAllocated-later s c f h k a (ground (arith, listed s c code k f))
]

-- `Define` keeps what every catalog lists allocated: the one that it adds to, and all others.
define-IsAllocated :
    (s : Store) (c o : Catalog) (d : Def) (r : Defined)
    → define s c d ≡ returned r
    → IsAllocated s c
    → IsAllocated s o
    → IsAllocated r.store r.catalog × IsAllocated r.store o
define-IsAllocated s c o d r h hc ho =
    let (free, f, own, code, e) = define-returned s c d r h in
    subst (λ (x : Defined). IsAllocated x.store x.catalog × IsAllocated x.store o) (sym e)
      (add_entry-IsAllocated s c (trim_space d.code) f code hc, IsAllocated-later s o f ho)

contains_entry-old :
    (s : Store) (o : Catalog) (f : Fields)
    → IsAllocated s o
    → (x : Option ℕ) → find_key f.code o.entries ≡ x
    → holds x s.fresh ≡ false
contains_entry-old s o f h none e = refl
contains_entry-old s o f h (some b) e = let (lt, g, at, same) = h f.code b e in ground arith

contains-at :
    (s : Store) (c : Catalog) (f g : Fields) (a : ℕ)
    → f.entry ≡ some a
    → s.entry_at a ≡ some g
    → contains s c f ≡ holds (find_key g.code c.entries) a
unfolding contains
contains-at s c f g a e at = rw e (rw at refl)

is-entry : (f : Fields) (a b : ℕ) → f.entry ≡ some a → is (canonical f no_cause) b ≡ (a == b)
unfolding is
is-entry f a b e = rw e (ground arith)

-- What an added entry is found by.
add_entry-found :
    (s : Store) (c : Catalog) (code : Bytes) (f : Fields)
    → find_key code (add_entry s c code f).catalog.entries ≡ some s.fresh
add_entry-found s c code f = listed s c code code f ∙ rw (bytes_eq_refl code) refl

add_entry-is_isolated :
    (s : Store) (c o : Catalog) (code : Bytes) (f : Fields) (old : ℕ)
    → f.entry ≡ some s.fresh
    → f.code ≡ code
    → IsAllocated s o
    → old < s.fresh
    → (contains (allocated s f) (add_entry s c code f).catalog f ≡ true)
      × (lookup (add_entry s c code f).catalog code ≡ some s.fresh)
      × (contains (allocated s f) o f ≡ false)
      × (is (canonical f no_cause) s.fresh ≡ true)
      × (is (canonical f no_cause) old ≡ false)
unfolding lookup
add_entry-is_isolated s c o code f old own same ho lt =
    let at : (allocated s f).entry_at s.fresh ≡ some f = entry_at-allocated s f in
    (
      contains-at (allocated s f) (add_entry s c code f).catalog f f s.fresh own at
          ∙ rw same (rw (add_entry-found s c code f) (ground arith)),
      add_entry-found s c code f,
      contains-at (allocated s f) o f f s.fresh own at
          ∙ contains_entry-old s o f ho (find_key f.code o.entries) refl,
      is-entry f s.fresh s.fresh own ∙ ground arith,
      is-entry f s.fresh old own ∙ ground arith,
    )

-- An entry that `Define` returns is contained in the catalog that it was defined in, and found
-- there under its code with the surrounding space cut; no other catalog contains it, whatever its
-- name, kinds and codes are. It matches its own address and none that was allocated before.
pub define-is_isolated :
    (s : Store) (c o : Catalog) (d : Def) (r : Defined) (old : ℕ)
    → define s c d ≡ returned r
    → IsAllocated s o
    → old < s.fresh
    → (contains r.store r.catalog r.entry ≡ true)
      × (lookup r.catalog (trim_space d.code) ≡ some s.fresh)
      × (contains r.store o r.entry ≡ false)
      × (is (canonical r.entry no_cause) s.fresh ≡ true)
      × (is (canonical r.entry no_cause) old ≡ false)
define-is_isolated s c o d r old h ho lt =
    let (free, f, own, code, e) = define-returned s c d r h in
    subst
      (λ (x : Defined).
        (contains x.store x.catalog x.entry ≡ true)
        × (lookup x.catalog (trim_space d.code) ≡ some s.fresh)
        × (contains x.store o x.entry ≡ false)
        × (is (canonical x.entry no_cause) s.fresh ≡ true)
        × (is (canonical x.entry no_cause) old ≡ false))
      (sym e) (add_entry-is_isolated s c o (trim_space d.code) f old own code ho lt)

define-code_given :
    (s : Store) (c : Catalog) (d : Def) (r : Defined)
    → define s c d ≡ returned r
    → bytes_eq (trim_space d.code) [] ≡ false
unfolding define
define-code_given s c d r h = elim (Bool-cases (bytes_eq (trim_space d.code) [])) [
  | inl empty ↦ ground arith
  | inr given ↦ given
]

define_again :
    (s : Store) (c : Catalog) (d : Def) (a : ℕ)
    → bytes_eq (trim_space d.code) [] ≡ false
    → find_key (trim_space d.code) c.entries ≡ some a
    → define s c d ≡ panicked (Panic.duplicate_code c.name (trim_space d.code))
unfolding define
define_again s c d a given found = rw given (rw found refl)

-- A code is defined once: after `Define` the same definition panics as a duplicate, and `Lookup`
-- answers as before for every other code.
pub define_once :
    (s : Store) (c : Catalog) (d : Def) (r : Defined) (k : Bytes)
    → define s c d ≡ returned r
    → trim_space d.code ≢ k
    → (define r.store r.catalog d ≡ panicked (Panic.duplicate_code c.name (trim_space d.code)))
      × (lookup r.catalog k ≡ lookup c k)
unfolding lookup
define_once s c d r k h ne =
    let (free, f, own, code, e) = define-returned s c d r h in
    subst
      (λ (x : Defined).
        (define x.store x.catalog d ≡ panicked (Panic.duplicate_code c.name (trim_space d.code)))
        × (find_key k x.catalog.entries ≡ find_key k c.entries))
      (sym e)
      (
        define_again (allocated s f) (add_entry s c (trim_space d.code) f).catalog d s.fresh
            (define-code_given s c d r h) (add_entry-found s c (trim_space d.code) f),
        ground (arith, listed s c (trim_space d.code) k f, bytes_eq_iff (trim_space d.code) k),
      )
