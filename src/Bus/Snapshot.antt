-- ===== src/Bus/Snapshot.antt =====
-- The copy-on-write snapshots of pkg/bus/local.go: `subState`, `queueGroup`, `subRef`, and
-- `cloneAdd`, `cloneRemove`, `removeRef`, `appendRefs`.
--
-- A subscription is named by a number, its address, and so is a stop channel; the mailbox of a
-- reference is that of its subscription. A Go map is an association list, in the order in which
-- the code would range over it. A snapshot owns its queue groups: a group that two snapshots
-- share in the source is in the older one only for readers that loaded it before.
pub mod View
pub mod Pick
pub mod Targets
unfoldable pub use xqua_go.Prelude.{find_key, set_key, drop_key}
use xqua_go.Prelude.{
  ℕ, suc, ◌+◌, ◌%◌, ◌^◌, Bytes, bytes_eq, Bool, true, false, not, ◌&&◌, List, [], ◌∷◌, ◌++◌, Option,
  none, some, ◌==◌, if◌then◌else◌, length, get_elem?,
}

pub record SubRef : Type 0 where
  pub sub : ℕ
  pub gen : ℕ
  pub stop : ℕ

pub record QueueGroup : Type 0 where
  pub subs : List SubRef
  pub next : ℕ

pub record SubState : Type 0 where
  pub fanout : List SubRef
  pub queues : List (Bytes × QueueGroup)

abbrev pub is_empty {ℓ} : {A : Type ℓ} → List A → Bool
is_empty [] = true
is_empty (_ ∷ _) = false

abbrev pub same_ref : SubRef → SubRef → Bool
same_ref a b = a.sub == b.sub && a.gen == b.gen

unfoldable pub remove_ref : List SubRef → SubRef → List SubRef
remove_ref [] target = []
remove_ref (r ∷ refs) target = if same_ref r target then refs else r ∷ remove_ref refs target

grown_group : Option QueueGroup → SubRef → QueueGroup
grown_group none ref = record { subs = ref ∷ []; next = 0 }
grown_group (some g) ref = record { subs = g.subs ++ ref ∷ []; next = g.next }

unfoldable pub clone_add : Option SubState → Bytes → SubRef → SubState
unfolding grown_group
clone_add none [] ref = record { fanout = ref ∷ []; queues = [] }
clone_add none (c ∷ q) ref = record {
  fanout = [];
  queues = (c ∷ q, record { subs = ref ∷ []; next = 0 }) ∷ [];
}
clone_add (some old) [] ref = record old { fanout = old.fanout ++ ref ∷ [] }
clone_add (some old) (c ∷ q) ref = record old {
  queues = set_key (c ∷ q) (grown_group (find_key (c ∷ q) old.queues) ref) old.queues;
}

-- The short cut for the sole fan-out member.
sole_member : SubState → SubRef → Bool
sole_member old ref = elim old.fanout [
  | [] ↦ false
  | r ∷ more ↦ is_empty more && (is_empty old.queues && same_ref r ref)
]

-- `none` is the source's `(nil, true)`, `some ns` its `(ns, false)`.
unless_empty : List SubRef → List (Bytes × QueueGroup) → Option SubState
unless_empty fanout queues =
    if is_empty fanout && is_empty queues
    then none
    else some (record { fanout = fanout; queues = queues })

remove_from_group : SubState → Bytes → SubRef → Option QueueGroup → Option SubState
unfolding unless_empty
remove_from_group old queue ref none = unless_empty old.fanout old.queues
remove_from_group old queue ref (some g) =
    let nsubs = remove_ref g.subs ref in
    let others = drop_key queue old.queues in
    unless_empty old.fanout (
      if is_empty nsubs
      then others
      else set_key queue (record { subs = nsubs; next = g.next }) others)

unfoldable pub clone_remove : Option SubState → Bytes → SubRef → Option SubState
unfolding sole_member remove_from_group unless_empty
clone_remove none queue ref = none
clone_remove (some old) [] ref =
    if sole_member old ref then none else unless_empty (remove_ref old.fanout ref) old.queues
clone_remove (some old) (c ∷ q) ref =
    remove_from_group old (c ∷ q) ref (find_key (c ∷ q) old.queues)

-- `qg.next.Add(1)`: the cursor is a uint64.
abbrev pub u64 : ℕ → ℕ
u64 n = n % 2 ^ 64

-- One member of a group by its round-robin cursor, `(next.Add(1) - 1) % n`, and the group with
-- the cursor moved. An empty group gives none and keeps its cursor.
unfoldable pub pick : QueueGroup → Option SubRef × QueueGroup
pick g =
    if is_empty g.subs
    then (none, g)
    else (get_elem? g.subs (g.next % length g.subs), record g { next = u64 (g.next + 1) })

abbrev and_picked : Option SubRef → List SubRef → List SubRef
and_picked none refs = refs
and_picked (some r) refs = r ∷ refs

unfoldable pub pick_all : List (Bytes × QueueGroup) → List SubRef × List (Bytes × QueueGroup)
unfolding pick
pick_all [] = ([], [])
pick_all ((k, g) ∷ m) =
    let (refs, m') = pick_all m in (and_picked (pick g).0 refs, (k, (pick g).1) ∷ m')

-- The targets of one message, in order, and the snapshot with its cursors moved.
unfoldable pub append_refs : List SubRef → SubState → List SubRef × SubState
unfolding pick_all
append_refs out st =
    let (picked, queues) = pick_all st.queues in
    (out ++ (st.fanout ++ picked), record st { queues = queues })
