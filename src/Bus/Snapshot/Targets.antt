-- ===== src/Bus/Snapshot/Targets.antt =====
-- What `appendRefs` takes from a snapshot: every fan-out subscriber, members of its groups, and
-- nothing else; and it moves no subscriber.
use mathlib.Core.List.{Memᴰ}
use mathlib.Core.List.Memᴰ
use mathlib.Core.Logic.{⊎_elim}
use xqua_go.Prelude.{
  ℕ, zero, suc, Bytes, Bool-cases, List, [], ◌∷◌, Option, none, some, ◌≡◌, ◌∙◌, subst, ◌↔◌, ◌⊎◌,
  inl, inr, refl, sym, ap, arith, get_elem?,
}
use xqua_go.Bus.Snapshot.{
  SubRef, QueueGroup, SubState, pick, pick_all, append_refs, and_picked, is_empty,
}

pick-subs : (g : QueueGroup) → (pick g).1.subs ≡ g.subs
unfolding pick
pick-subs g = ground arith

get_elem?-mem {ℓ} : {A : Type ℓ} (xs : List A) (i : ℕ) (a : A) → get_elem? xs i ≡ some a → Memᴰ a xs
get_elem?-mem [] i a h = cc
get_elem?-mem (x ∷ xs) zero a h = Memᴰ.head (cc)
get_elem?-mem (x ∷ xs) (suc i) a h = Memᴰ.tail (get_elem?-mem xs i a h)

pick-mem : (g : QueueGroup) (ref : SubRef) → (pick g).0 ≡ some ref → Memᴰ ref g.subs
unfolding pick
pick-mem g ref h = elim (Bool-cases (is_empty g.subs)) [
  | inl e ↦ ground arith
  | inr e ↦ get_elem?-mem g.subs _ ref (rw e at h)
]

-- A member of a group of the map.
abbrev pub InGroup : SubRef → List (Bytes × QueueGroup) → Type 0
InGroup ref [] = ⊥
InGroup ref ((k, g) ∷ m) = Memᴰ ref g.subs ⊎ InGroup ref m

and_picked-InGroup :
    (k : Bytes) (g : QueueGroup) (m : List (Bytes × QueueGroup)) (ref : SubRef) (o : Option SubRef)
    → (pick g).0 ≡ o
    → (Memᴰ ref (pick_all m).0 → InGroup ref m)
    → Memᴰ ref (and_picked o (pick_all m).0)
    → InGroup ref ((k, g) ∷ m)
and_picked-InGroup k g m ref none e below h = inr (below h)
and_picked-InGroup k g m ref (some r) e below h = elim (Memᴰ.cases_cons h) [
  | inl same ↦ inl (pick-mem g ref (e ∙ ap some (sym same)))
  | inr more ↦ inr (below more)
]

pick_all-InGroup :
    (m : List (Bytes × QueueGroup)) (ref : SubRef) → Memᴰ ref (pick_all m).0 → InGroup ref m
unfolding pick_all
pick_all-InGroup [] ref h = absurd (Memᴰ.not-nil h)
pick_all-InGroup ((k, g) ∷ m) ref h =
    and_picked-InGroup k g m ref (pick g).0 refl (pick_all-InGroup m ref) h

pick_all-calm :
    (m : List (Bytes × QueueGroup)) (ref : SubRef) → InGroup ref (pick_all m).1 ↔ InGroup ref m
unfolding pick_all
pick_all-calm [] ref = (λ h. h, λ h. h)
pick_all-calm ((k, g) ∷ m) ref = (
  ⊎_elim (λ h. inl (subst (Memᴰ ref) (pick-subs g) h)) (λ h. inr ((pick_all-calm m ref).0 h)),
  ⊎_elim (λ h. inl (subst (Memᴰ ref) (sym (pick-subs g)) h)) (λ h. inr ((pick_all-calm m ref).1 h)),
)

-- A subscriber of a snapshot, as a fan-out one or in some group.
abbrev pub Subscribed : SubRef → Option SubState → Type 0
Subscribed ref none = ⊥
Subscribed ref (some st) = Memᴰ ref st.fanout ⊎ InGroup ref st.queues

abbrev pub fanout_of : Option SubState → List SubRef
fanout_of none = []
fanout_of (some st) = st.fanout

module _ (out : List SubRef) (st : SubState) where
  pub append_refs-fanout : (append_refs out st).1.fanout ≡ st.fanout
  unfolding append_refs
  append_refs-fanout = refl

  pub append_refs-keeps : (ref : SubRef) → Memᴰ ref out → Memᴰ ref (append_refs out st).0
  unfolding append_refs
  append_refs-keeps ref h = Memᴰ.append_left _ h

  pub append_refs-all_fanout : (ref : SubRef) → Memᴰ ref st.fanout → Memᴰ ref (append_refs out st).0
  unfolding append_refs
  append_refs-all_fanout ref h = Memᴰ.append_right out (Memᴰ.append_left _ h)

  pub append_refs-Subscribed :
      (ref : SubRef) → Memᴰ ref (append_refs out st).0 → Memᴰ ref out ⊎ Subscribed ref (some st)
  unfolding append_refs
  append_refs-Subscribed ref h = elim (Memᴰ.append_cases out h) [
    | inl old ↦ inl old
    | inr new ↦
        inr (
          ⊎_elim inl (λ p. inr (pick_all-InGroup st.queues ref p))
            (Memᴰ.append_cases st.fanout new))
  ]

  pub append_refs-calm :
      (ref : SubRef) → Subscribed ref (some (append_refs out st).1) ↔ Subscribed ref (some st)
  append_refs-calm ref =
      unfold append_refs in
      (
        ⊎_elim inl (λ h. inr ((pick_all-calm st.queues ref).0 h)),
        ⊎_elim inl (λ h. inr ((pick_all-calm st.queues ref).1 h)),
      )
