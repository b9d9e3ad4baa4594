-- ===== src/Bus/Registry.antt =====
-- The registry of pkg/bus/local.go: the index from patterns to entries, the list of wildcard
-- entries, and `register`, `deregister`, `addWild`, `removeWild`, `collect`.
--
-- An entry is named by its address; the index and the wildcard list hold addresses, as in the
-- source, so that both see one entry. Each operation runs alone, which the entry's lock gives:
-- the dead flag and the removal from the index change together under that lock.
pub mod Consistent
mod Enter
mod Leave
pub mod Register
pub mod Deregister
mod Walk
pub mod Collect
pub mod Route
use xqua_go.Prelude.{
  ℕ, suc, Bytes, bytes_eq, Bool, true, false, not, ◌&&◌, ◌||◌, List, [], ◌∷◌, ◌++◌, Option, none,
  some, ◌==◌, if◌then◌else◌,
}
use xqua_go.Bus.Subject.{match_pattern}
use xqua_go.Bus.Snapshot.{SubRef, SubState, clone_add, clone_remove, append_refs, is_empty}

pub record Entry : Type 0 where
  pub pattern : Bytes
  pub is_wild : Bool
  pub tokens : List Bytes
  pub dead : Bool
  pub state : Option SubState

pub record Registry : Type 0 where
  pub index : Bytes → Option ℕ
  pub entries : ℕ → Option Entry
  pub fresh : ℕ
  pub wild : List ℕ

abbrev pub no_registry : Registry
no_registry = record { index = λ _. none; entries = λ _. none; fresh = 0; wild = [] }

abbrev pub put_entry : Registry → ℕ → Entry → Registry
put_entry r id e = record r { entries = λ j. if j == id then some e else r.entries j }

abbrev pub put_index : Registry → Bytes → Option ℕ → Registry
put_index r p v = record r { index = λ q. if bytes_eq p q then v else r.index q }

-- `LoadOrStore` of a new entry.
unfoldable pub load_or_store : Registry → Bytes → Bool → ℕ × Registry
load_or_store r pattern is_wild = elim (r.index pattern) [
  | some id ↦ (id, r)
  | none ↦ (
    r.fresh,
    put_entry (put_index (record r { fresh = suc r.fresh }) pattern (some r.fresh)) r.fresh
        (record { pattern = pattern; is_wild = is_wild; tokens = []; dead = false; state = none }),
  )
]

abbrev pub is_none {ℓ} : {A : Type ℓ} → Option A → Bool
is_none none = true
is_none (some _) = false

unfoldable pub add_wild : Registry → ℕ → Registry
add_wild r id = record r { wild = r.wild ++ id ∷ [] }

unfoldable pub without : ℕ → List ℕ → List ℕ
without id [] = []
without id (x ∷ xs) = let rest = without id xs in if x == id then rest else x ∷ rest

unfoldable pub remove_wild : Registry → ℕ → Registry
unfolding without
remove_wild r id = record r { wild = without id r.wild }

-- The new snapshot under the entry's lock, and the entry's place in the wildcard list.
pub enter : Registry → ℕ → Entry → Bool → List Bytes → Bytes → SubRef → Registry
unfolding add_wild
enter r id e is_wild tokens queue ref =
    let r' = put_entry r id (record e {
      tokens = if is_wild && is_empty e.tokens then tokens else e.tokens;
      state = some (clone_add e.state queue ref);
    }) in
    if is_wild && is_none e.state then add_wild r' id else r'

-- The round of the loop after the load. `none` where the indexed entry is dead or missing: there
-- the loop of the source would go round for ever, since nothing else runs.
pub register_in : ℕ × Registry → Bool → List Bytes → Bytes → SubRef → Option Registry
unfolding enter
register_in (id, r) is_wild tokens queue ref = elim (r.entries id) [
  | none ↦ none
  | some e ↦ if e.dead then none else some (enter r id e is_wild tokens queue ref)
]

unfoldable pub register : Registry → Bytes → Bool → List Bytes → Bytes → SubRef → Option Registry
unfolding load_or_store register_in
register r pattern is_wild tokens queue ref =
    register_in (load_or_store r pattern is_wild) is_wild tokens queue ref

-- The entry is dropped with its last subscriber.
pub leave : Registry → ℕ → Entry → Bytes → Bool → Option SubState → Registry
unfolding remove_wild
leave r id e pattern is_wild (some ns) = put_entry r id (record e { state = some ns })
leave r id e pattern is_wild none =
    let r' = put_index (put_entry r id (record e { dead = true; state = none })) pattern none in
    if is_wild then remove_wild r' id else r'

unfoldable pub deregister : Registry → Bytes → Bool → Bytes → SubRef → Registry
unfolding leave
deregister r pattern is_wild queue ref = elim (r.index pattern) [
  | none ↦ r
  | some id ↦ elim (r.entries id) [
    | none ↦ r
    | some e ↦ leave r id e pattern is_wild (clone_remove e.state queue ref)
  ]
]

-- The targets at one entry, with the cursors of its groups moved.
collect_state : Registry → ℕ → Entry → List SubRef → Option SubState → List SubRef × Registry
collect_state r id e out none = (out, r)
collect_state r id e out (some st) =
    let (out', st') = append_refs out st in (out', put_entry r id (record e { state = some st' }))

collect_at : Registry → ℕ → Entry → List SubRef → List SubRef × Registry
unfolding collect_state
collect_at r id e out = collect_state r id e out e.state

pub collect_exact : Registry → Bytes → List SubRef → List SubRef × Registry
unfolding collect_at
collect_exact r subject out = elim (r.index subject) [
  | none ↦ (out, r)
  | some id ↦ elim (r.entries id) [
    | none ↦ (out, r)
    | some e ↦ if not e.is_wild then collect_at r id e out else (out, r)
  ]
]

pub collect_wild_at : Registry → Bytes → ℕ → List SubRef → List SubRef × Registry
unfolding collect_at
collect_wild_at r subject id out = elim (r.entries id) [
  | none ↦ (out, r)
  | some e ↦ if match_pattern e.tokens subject then collect_at r id e out else (out, r)
]

pub collect_wild : Registry → Bytes → List ℕ → List SubRef → List SubRef × Registry
unfolding collect_wild_at
collect_wild r subject [] out = (out, r)
collect_wild r subject (id ∷ ids) out =
    let (out', r') = collect_wild_at r subject id out in collect_wild r' subject ids out'

unfoldable pub collect : Registry → Bytes → List SubRef → List SubRef × Registry
unfolding collect_exact collect_wild
collect r subject out =
    let (out', r') = collect_exact r subject out in collect_wild r' subject r'.wild out'
