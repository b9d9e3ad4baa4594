-- ===== src/Bus/Local/Subscribe.antt =====
-- What `addSub` does on an open bus, which others may close or drain meanwhile.
use xqua_go.Prelude.{
  ℕ, suc, Bytes, bytes_eq, false, ◌&&◌, ◌||◌, List, [], ◌∷◌, ◌++◌, some, ◌≡◌, ◌∙◌, sym, subst, refl,
  if◌then◌else◌, ap, arith, Bool, not, Bool-cases, inl, inr, bytes_eq_iff, bytes_eq_refl,
}
use xqua_go.Bus.Subject.{is_wildcard}
use xqua_go.Bus.Registry.{Registry, register, deregister}
use xqua_go.Bus.Registry.Consistent.{IsConsistent, subs_at, tokens_for}
use xqua_go.Bus.Registry.Register.{register-refines}
use xqua_go.Bus.Message.{Handler, closed}
use xqua_go.Bus.Snapshot.{SubRef, same_ref, remove_ref}
use xqua_go.Bus.Registry.Deregister.{Removes, deregister-refines}
use xqua_go.Bus.Local.{
  Local, Subscription, Reply, SubHandle, ok, err, recycle_sub, put_sub, get_sub, get_sub_from,
  activated, ref_of, join_bus, activate, add_sub,
}

get_sub-registry : (b : Local) → (get_sub b).1.registry ≡ b.registry
unfolding get_sub
get_sub-registry b = go b.sub_pool
  where
    go : (pool : List ℕ) → (get_sub_from b pool).1.registry ≡ b.registry
    go [] = refl
    go (id ∷ pool) = refl

get_sub_open :
    (b : Local)
    → (b.is_closed || b.draining) ≡ false
    → ((get_sub b).1.is_closed || (get_sub b).1.draining) ≡ false
unfolding get_sub
get_sub_open b o = go b.sub_pool
  where
    go :
        (pool : List ℕ)
        → ((get_sub_from b pool).1.is_closed || (get_sub_from b pool).1.draining) ≡ false
    go [] = o
    go (id ∷ pool) = o

-- The bus once the activation `s` is registered.
abbrev pub joined : ℕ → Local → Subscription → Registry → Local
joined id b s r = record (put_sub b id s) {
  registry = r;
  fresh_stop = suc b.fresh_stop;
  active = b.active ++ id ∷ [];
}

activate_registered :
    (meanwhile : Local → Local) (id : ℕ) (b : Local) (old : Subscription) (p q : Bytes)
    (h : Handler) (r : Registry)
    → register b.registry p (is_wildcard p) (tokens_for p) q (ref_of id (activated b old p q h))
      ≡ some r
    → activate meanwhile (id, b) old p q h
      ≡ some
          (join_bus (meanwhile (joined id b (activated b old p q h) r)) id (activated b old p q h))
unfolding activate activated
activate_registered meanwhile id b old p q h r e = rw (e, activate)

add_sub_open :
    (meanwhile : Local → Local) (b : Local) (c : ℕ) (p q : Bytes) (h : Handler) (old : Subscription)
    → (b.is_closed || b.draining) ≡ false
    → (get_sub b).1.sub_at (get_sub b).0 ≡ some old
    → add_sub meanwhile b (c ∷ p) q (some h) ≡ activate meanwhile (get_sub b) old (c ∷ p) q h
unfolding add_sub
add_sub_open meanwhile b c p q h old o x = rw (o, x)

-- Whether an activation is in a list of subscribers.
abbrev pub has_ref : SubRef → List SubRef → Bool
has_ref ref [] = false
has_ref ref (r ∷ refs) = same_ref r ref || has_ref ref refs

remove_ref-append :
    (refs : List SubRef) (ref : SubRef)
    → has_ref ref refs ≡ false
    → remove_ref (refs ++ ref ∷ []) ref ≡ refs
unfolding remove_ref
remove_ref-append [] ref h = ground arith
remove_ref-append (r ∷ refs) ref h =
    let other : same_ref r ref ≡ false = ground arith in
    rw other (ap (◌∷◌ r) (remove_ref-append refs ref (ground arith)))

-- A registration that is taken back leaves the subscribers of every pattern and queue as they were.
deregister-undoes :
    (r d : Registry) (p q : Bytes) (ref : SubRef)
    → has_ref ref (subs_at r p q) ≡ false
    → IsConsistent d
    → ((p' q' : Bytes)
        → subs_at d p' q'
          ≡ (if bytes_eq p p' && bytes_eq q q' then subs_at r p q ++ ref ∷ [] else subs_at r p' q'))
    → let g = deregister d p (is_wildcard p) q ref in
      IsConsistent g × ((p' q' : Bytes) → subs_at g p' q' ≡ subs_at r p' q')
deregister-undoes r d p q ref new k view = (removed.0, λ p' q'. removed.1 p' q' ∙ back p' q')
  where
    removed : Removes d p q ref (deregister d p (is_wildcard p) q ref)
    removed = deregister-refines d p q ref k

    added : subs_at d p q ≡ subs_at r p q ++ ref ∷ []
    added = view p q ∙ rw (bytes_eq_refl p) (rw (bytes_eq_refl q) refl)

    back :
        (p' q' : Bytes)
        → (if bytes_eq p p' && bytes_eq q q'
            then remove_ref (subs_at d p q) ref
            else subs_at d p' q')
          ≡ subs_at r p' q'
    back p' q' = elim (Bool-cases (bytes_eq p p' && bytes_eq q q')) [
      | inl own ↦
          let same_p : p ≡ p' = ground (arith, bytes_eq_iff p p') in
          let same_q : q ≡ q' = ground (arith, bytes_eq_iff q q') in
          let there : subs_at r p q ≡ subs_at r p' q' = cc in
          rw own (rw added (remove_ref-append (subs_at r p q) ref new ∙ there))
      | inr other ↦ rw other (view p' q' ∙ rw other refl)
    ]

recycle_sub-registry : (b : Local) (id : ℕ) → (recycle_sub b id).registry ≡ b.registry
unfolding recycle_sub
recycle_sub-registry b id = ground arith

-- What the check after the registration owes for an activation `ref` of the pattern `p` and the
-- queue `q`: all of the subscription, or nothing of it.
abbrev pub Settles : Registry → Bytes → Bytes → SubRef → Bool → Reply SubHandle × Local → Type 0
Settles r p q ref stopped (reply, b') =
    (reply ≡ (if stopped then err closed else ok (record { sub = ref.sub; gen = ref.gen })))
    × IsConsistent b'.registry
    × ((p' q' : Bytes)
        → subs_at b'.registry p' q' ≡ (
            if not stopped && (bytes_eq p p' && bytes_eq q q')
            then subs_at r p q ++ ref ∷ []
            else subs_at r p' q'))

join_bus-Settles :
    (d : Local) (id : ℕ) (b : Local) (old : Subscription) (p q : Bytes) (h : Handler) (r : Registry)
    → let ref = ref_of id (activated b old p q h) in
      has_ref ref (subs_at r p q) ≡ false
      → IsConsistent d.registry
      → ((p' q' : Bytes)
          → subs_at d.registry p' q' ≡ (
              if bytes_eq p p' && bytes_eq q q'
              then subs_at r p q ++ ref ∷ []
              else subs_at r p' q'))
      → Settles r p q ref (d.is_closed || d.draining) (join_bus d id (activated b old p q h))
unfolding join_bus activated
join_bus-Settles d id b old p q h r new k view = elim (Bool-cases (d.is_closed || d.draining)) [
  | inr open_yet ↦ rw open_yet (refl, k, view)
  | inl stopped ↦
      let undone =
        subst (λ g. IsConsistent g × ((p' q' : Bytes) → subs_at g p' q' ≡ subs_at r p' q'))
          (sym (recycle_sub-registry _ id))
          (deregister-undoes r d.registry p q (ref_of id (activated b old p q h)) new k view) in
      rw stopped (refl, undone.0, undone.1)
]

-- Subscribing a handler to a pattern that is not empty, on an open bus with a consistent registry,
-- ends, whatever others do meanwhile but for the registry, in which the new activation is not yet.
-- Where the bus is still open after the registration, it returns a handle on the activation, which
-- is added under its own pattern and queue name only. Where it was closed or drained meanwhile, it
-- returns `closed`, and every pattern and queue name has the subscribers that it had before.
pub add_sub-subscribes :
    (meanwhile : Local → Local) (b : Local) (c : ℕ) (p q : Bytes) (h : Handler) (old : Subscription)
    → ((d : Local) → (meanwhile d).registry ≡ d.registry)
    → (b.is_closed || b.draining) ≡ false
    → (get_sub b).1.sub_at (get_sub b).0 ≡ some old
    → IsConsistent b.registry
    → has_ref
        (ref_of (get_sub b).0 (activated (get_sub b).1 old (c ∷ p) q h))
        (subs_at b.registry (c ∷ p) q)
      ≡ false
    → let id = (get_sub b).0 in
      let s = activated (get_sub b).1 old (c ∷ p) q h in
      (r : Registry) × let d = meanwhile (joined id (get_sub b).1 s r) in
        (out : Reply SubHandle × Local) × (add_sub meanwhile b (c ∷ p) q (some h) ≡ some out)
        × Settles b.registry (c ∷ p) q (ref_of id s) (d.is_closed || d.draining) out
add_sub-subscribes meanwhile b c p q h old keeps o x k new =
    let id = (get_sub b).0 in
    let b1 = (get_sub b).1 in
    let s = activated b1 old (c ∷ p) q h in
    let (r, e, k', view) = register-refines b.registry (c ∷ p) q (ref_of id s) k in
    let d = meanwhile (joined id b1 s r) in
    let same : r ≡ d.registry = sym (keeps (joined id b1 s r)) in
    let (kd, viewd) =
      subst
        (λ g.
          IsConsistent g
          × ((p' q' : Bytes)
              → subs_at g p' q' ≡ (
                  if bytes_eq (c ∷ p) p' && bytes_eq q q'
                  then subs_at b.registry (c ∷ p) q ++ ref_of id s ∷ []
                  else subs_at b.registry p' q')))
        same (k', view) in
    (
      r,
      (
        join_bus d id s,
        add_sub_open meanwhile b c p q h old o x
            ∙ activate_registered meanwhile id b1 old (c ∷ p) q h r (
                subst
                  (λ g.
                    register g (c ∷ p) (is_wildcard (c ∷ p)) (tokens_for (c ∷ p)) q (ref_of id s)
                    ≡ some r)
                  (sym (get_sub-registry b)) e),
        join_bus-Settles d id b1 old (c ∷ p) q h b.registry new kd viewd,
      ),
    )
