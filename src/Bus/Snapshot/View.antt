-- ===== src/Bus/Snapshot/View.antt =====
-- The abstract view of a snapshot: for each queue name the list of its subscribers, the fan-out
-- ones under the empty name. Adding and removing are an append and a removal at one name.
use xqua_go.Prelude.{
  ℕ, Bytes, bytes_eq, bytes_eq_iff, Bool-cases, List, [], ◌∷◌, ◌++◌, Option, none, some, ◌≡◌, ◌≢◌,
  ◌∙◌, refl, true, inl, inr, arith, if◌then◌else◌,
}
use xqua_go.Bus.Snapshot.{
  SubRef, QueueGroup, SubState, find_key, set_key, drop_key, remove_ref, is_empty, clone_add,
  clone_remove, sole_member, unless_empty, remove_from_group, grown_group,
}
use xqua_go.Prelude.{find_key-set_key, find_key-drop_key}

abbrev pub group_subs : Option QueueGroup → List SubRef
group_subs none = []
group_subs (some g) = g.subs

unfoldable pub subscribers : Option SubState → Bytes → List SubRef
subscribers none q = []
subscribers (some st) [] = st.fanout
subscribers (some st) (c ∷ q) = group_subs (find_key (c ∷ q) st.queues)

group_subs-grown :
    (o : Option QueueGroup) (ref : SubRef) → (grown_group o ref).subs ≡ group_subs o ++ ref ∷ []
unfolding grown_group
group_subs-grown none ref = refl
group_subs-grown (some g) ref = refl

add_keyed :
    (old : SubState) (k : Bytes) (ref : SubRef) (j : Bytes)
    → group_subs (find_key j (set_key k (grown_group (find_key k old.queues) ref) old.queues)) ≡ (
        if bytes_eq k j
        then group_subs (find_key k old.queues) ++ ref ∷ []
        else group_subs (find_key j old.queues))
add_keyed old k ref j = ground (
  arith,
  group_subs-grown (find_key k old.queues) ref,
  find_key-set_key k j (grown_group (find_key k old.queues) ref) old.queues,
)

-- After a registration the subscribers under its queue name are those before it and the new one
-- at the end, and under every other name those before it.
pub subscribers-clone_add :
    (old : Option SubState) (q : Bytes) (ref : SubRef) (j : Bytes)
    → subscribers (some (clone_add old q ref)) j
      ≡ (if bytes_eq q j then subscribers old q ++ ref ∷ [] else subscribers old j)
unfolding subscribers clone_add bytes_eq find_key
subscribers-clone_add none [] ref [] = refl
subscribers-clone_add none [] ref (d ∷ j) = refl
subscribers-clone_add none (c ∷ q) ref [] = refl
subscribers-clone_add none (c ∷ q) ref (d ∷ j) = ground arith
subscribers-clone_add (some old) [] ref [] = refl
subscribers-clone_add (some old) [] ref (d ∷ j) = refl
subscribers-clone_add (some old) (c ∷ q) ref [] = refl
subscribers-clone_add (some old) (c ∷ q) ref (d ∷ j) = add_keyed old (c ∷ q) ref (d ∷ j)

subscribers-unless_empty :
    (fanout : List SubRef) (queues : List (Bytes × QueueGroup)) (j : Bytes)
    → subscribers (unless_empty fanout queues) j
      ≡ subscribers (some (record { fanout = fanout; queues = queues })) j
unfolding subscribers unless_empty find_key
subscribers-unless_empty [] [] [] = refl
subscribers-unless_empty [] [] (d ∷ j) = refl
subscribers-unless_empty [] (x ∷ m) j = refl
subscribers-unless_empty (r ∷ refs) m j = refl

sole_member_none :
    (old : SubState) (ref : SubRef) (j : Bytes)
    → sole_member old ref ≡ true
    → (remove_ref old.fanout ref ≡ []) × (old.queues ≡ [])
unfolding sole_member remove_ref
sole_member_none old ref j h = go old.fanout old.queues h
  where
    go :
        (fanout : List SubRef) (queues : List (Bytes × QueueGroup))
        → sole_member (record { fanout = fanout; queues = queues }) ref ≡ true
        → (remove_ref fanout ref ≡ []) × (queues ≡ [])
    go [] queues h = ground arith
    go (r ∷ []) [] h = (ground arith, refl)
    go (r ∷ []) (x ∷ m) h = ground arith
    go (r ∷ s ∷ more) queues h = ground arith

remove_unkeyed :
    (old : SubState) (ref : SubRef) (j : Bytes)
    → subscribers (clone_remove (some old) [] ref) j
      ≡ subscribers (some (record old { fanout = remove_ref old.fanout ref })) j
unfolding clone_remove
remove_unkeyed old ref j = elim (Bool-cases (sole_member old ref)) [
  | inl e ↦ rw (e) (ground (arith, sole_member_none old ref j e, subscribers-unless_empty [] [] j))
  | inr e ↦ rw e (subscribers-unless_empty (remove_ref old.fanout ref) old.queues j)
]

regrouped :
    (k j : Bytes) (n : List SubRef) (next : ℕ) (m : List (Bytes × QueueGroup))
    → group_subs (
        find_key j (
          if is_empty n
          then drop_key k m
          else set_key k (record { subs = n; next = next }) (drop_key k m)))
      ≡ (if bytes_eq k j then n else group_subs (find_key j m))
regrouped k j [] next m = ground (arith, find_key-drop_key k j m)
regrouped k j (r ∷ n) next m = ground (
  arith,
  find_key-drop_key k j m,
  find_key-set_key k j (record { subs = r ∷ n; next = next }) (drop_key k m),
)

remove_keyed :
    (old : SubState) (k : Bytes) (ref : SubRef) (j : Bytes) (o : Option QueueGroup)
    → find_key k old.queues ≡ o
    → k ≢ []
    → subscribers (remove_from_group old k ref o) j
      ≡ (if bytes_eq k j then remove_ref (group_subs o) ref else subscribers (some old) j)
unfolding remove_from_group subscribers remove_ref
remove_keyed old k ref j none e ne = rw (subscribers-unless_empty old.fanout old.queues j) (same j)
  where
    same :
        (j : Bytes)
        → subscribers (some old) j ≡ (if bytes_eq k j then [] else subscribers (some old) j)
    same [] = ground (arith, bytes_eq_iff k [])
    same (d ∷ j) = ground (arith, bytes_eq_iff k (d ∷ j))
remove_keyed old k ref j (some g) e ne = subscribers-unless_empty old.fanout _ j ∙ changed j
  where
    changed :
        (j : Bytes)
        → subscribers
            (some (record {
              fanout = old.fanout;
              queues =
                  if is_empty (remove_ref g.subs ref)
                  then drop_key k old.queues
                  else set_key k
                      (record { subs = remove_ref g.subs ref; next = g.next })
                      (drop_key k old.queues);
            }))
            j
          ≡ (if bytes_eq k j then remove_ref g.subs ref else subscribers (some old) j)
    changed [] = ground (arith, bytes_eq_iff k [])
    changed (d ∷ j) = regrouped k (d ∷ j) (remove_ref g.subs ref) g.next old.queues

-- After a removal the subscribers under its queue name are those before it less the first that is
-- the same activation of the same subscription, and under every other name those before it.
pub subscribers-clone_remove :
    (old : Option SubState) (q : Bytes) (ref : SubRef) (j : Bytes)
    → subscribers (clone_remove old q ref) j
      ≡ (if bytes_eq q j then remove_ref (subscribers old q) ref else subscribers old j)
unfolding subscribers clone_remove remove_ref bytes_eq
subscribers-clone_remove none [] ref j = ground arith
subscribers-clone_remove none (c ∷ q) ref j = ground arith
subscribers-clone_remove (some old) [] ref [] = remove_unkeyed old ref []
subscribers-clone_remove (some old) [] ref (d ∷ j) = remove_unkeyed old ref (d ∷ j)
subscribers-clone_remove (some old) (c ∷ q) ref j =
    remove_keyed old (c ∷ q) ref j (find_key (c ∷ q) old.queues) refl (λ e. cc)
