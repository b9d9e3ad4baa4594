-- ===== src/Bus/Registry/Deregister.antt =====
-- `deregister` against the abstract registry, a list of subscribers for each pattern and queue.
use xqua_go.Prelude.{
  ℕ, Bytes, bytes_eq, bytes_eq_iff, Bool, ◌&&◌, [], Option, none, some, if◌then◌else◌, ◌≡◌, sym,
  subst, inl, inr, refl, arith, Option-cases,
}
use xqua_go.Bus.Subject.{is_wildcard}
use xqua_go.Bus.Snapshot.{SubRef, SubState, clone_remove, remove_ref}
use xqua_go.Bus.Registry.{Entry, Registry, put_entry, leave, deregister}
use xqua_go.Bus.Registry.Consistent.{
  elem, Described, IsConsistent, subs_at, subs_at_missing, entry_of,
}
use xqua_go.Bus.Registry.Leave.{
  shrunk-IsConsistent, shrunk-subs_at, dropped-IsConsistent, dropped-subs_at,
}

deregister_missing :
    (r : Registry) (p q : Bytes) (w : Bool) (ref : SubRef)
    → r.index p ≡ none
    → deregister r p w q ref ≡ r
unfolding deregister
deregister_missing r p q w ref x = rw (x, deregister)

deregister_found :
    (r : Registry) (p q : Bytes) (w : Bool) (ref : SubRef) (id : ℕ) (e : Entry)
    → r.index p ≡ some id
    → r.entries id ≡ some e
    → deregister r p w q ref ≡ leave r id e p w (clone_remove e.state q ref)
deregister_found r p q w ref id e x y = unfold deregister in rw (x, deregister) (rw y)

remove_ref_nil : (ref : SubRef) → remove_ref [] ref ≡ []
unfolding remove_ref
remove_ref_nil ref = refl

leave-some :
    (r : Registry) (id : ℕ) (e : Entry) (p : Bytes) (w : Bool) (ns : SubState)
    → leave r id e p w (some ns) ≡ put_entry r id (record e { state = some ns })
unfolding leave
leave-some r id e p w ns = refl

-- What a removal owes: a consistent registry, and one list of subscribers shorter by `ref`.
abbrev pub Removes : Registry → Bytes → Bytes → SubRef → Registry → Type 0
Removes r p q ref r' =
    IsConsistent r'
    × ((p' q' : Bytes)
        → subs_at r' p' q' ≡ (
            if bytes_eq p p' && bytes_eq q q'
            then remove_ref (subs_at r p q) ref
            else subs_at r p' q'))

-- Deregistering keeps the registry consistent, and takes the given activation out of the list of
-- its own pattern and queue name and out of no other list.
pub deregister-refines :
    (r : Registry) (p q : Bytes) (ref : SubRef)
    → IsConsistent r
    → Removes r p q ref (deregister r p (is_wildcard p) q ref)
deregister-refines r p q ref h = elim (Option-cases (r.index p)) [
  | inl x ↦ subst (Removes r p q ref) (sym (deregister_missing r p q _ ref x)) (
    h,
    λ p' q'. ground (
      arith,
      bytes_eq_iff p p',
      bytes_eq_iff q q',
      subs_at_missing r p q x,
      subs_at_missing r p q' x,
      remove_ref_nil ref,
    ),
  )
  | inr (id, x) ↦
      let (e, y, d) = entry_of r p id h x in
      subst (Removes r p q ref) (sym (deregister_found r p q _ ref id e x y))
        (written id e x y d (clone_remove e.state q ref) refl)
]
  where
    written :
        (id : ℕ) (e : Entry)
        → r.index p ≡ some id
        → r.entries id ≡ some e
        → Described (some e) p (elem id r.wild)
        → (o : Option SubState) → clone_remove e.state q ref ≡ o
        → Removes r p q ref (leave r id e p (is_wildcard p) o)
    written id e x y d none c =
        (dropped-IsConsistent h p id e x y d, dropped-subs_at h p id e x y d q ref c)
    written id e x y d (some ns) c =
        subst (Removes r p q ref) (sym (leave-some r id e p _ ns))
          (shrunk-IsConsistent h p id e x y d ns, shrunk-subs_at h p id e x y d ns q ref c)
