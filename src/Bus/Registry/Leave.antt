-- ===== src/Bus/Registry/Leave.antt =====
-- The two ways in which `leave` writes back what `cloneRemove` returns.
use xqua_go.Prelude.{
  ℕ, Bytes, bytes_eq, bytes_eq_refl, bytes_eq_cases, true, false, ◌&&◌, [], none, some, ◌==◌,
  if◌then◌else◌, ◌≡◌, ◌≢◌, ◌∙◌, sym, ap, subst, inl, inr, refl, arith,
}
use xqua_go.Bus.Subject.{is_wildcard}
use xqua_go.Bus.Snapshot.{SubRef, SubState, clone_remove, remove_ref}
use xqua_go.Bus.Snapshot.View.{subscribers, subscribers-clone_remove}
use xqua_go.Bus.Registry.{Entry, Registry, put_entry, leave}
use xqua_go.Bus.Registry.Consistent.{
  elem, elem-without, Described, IsConsistent, subs_at, subs_at-some, subs_at_missing, subs_at_same,
  same_pattern,
}

-- The entry keeps subscribers: only its snapshot changes.
module _ {r : Registry} (h : IsConsistent r) (p : Bytes) (id : ℕ) (e : Entry)
    (x : r.index p ≡ some id) (y : r.entries id ≡ some e)
    (d : Described (some e) p (elem id r.wild)) (ns : SubState) where
  abbrev shrunk : Registry
  shrunk = put_entry r id (record e { state = some ns })

  shrunk-indexed :
      (p' : Bytes) (id' : ℕ)
      → r.index p' ≡ some id'
      → Described (shrunk.entries id') p' (elem id' r.wild)
  shrunk-indexed p' id' x' = elim (bytes_eq_cases p p') [
    | inl (b, same) ↦
        let ids : id ≡ id' = cc (x, x', ap r.index same) in
        subst (λ k. Described (shrunk.entries k) p' (elem k r.wild)) ids
          (subst (λ s. Described (shrunk.entries id) s (elem id r.wild)) same
            (subst (λ o. Described o p (elem id r.wild)) (sym here)
              (d.0, d.1, d.2, refl, d.4, d.5)))
    | inr (b, differ) ↦
        let ne : id' ≢ id = λ k. differ (same_pattern h p p' id x (x' ∙ ap some k)) in
        let away : shrunk.entries id' ≡ r.entries id' = ground arith in
        subst (λ o. Described o p' (elem id' r.wild)) (sym away) (h.indexed p' id' x')
  ]
    where
      here : shrunk.entries id ≡ some (record e { state = some ns })
      here = ground arith

  pub shrunk-IsConsistent : IsConsistent shrunk
  shrunk-IsConsistent = record {
    indexed = shrunk-indexed;
    listed = h.listed;
    unused = λ id' z. ground (arith, h.unused id' z, y);
  }

  pub shrunk-subs_at :
      (q : Bytes) (ref : SubRef)
      → clone_remove e.state q ref ≡ some ns
      → (p' q' : Bytes)
      → subs_at shrunk p' q' ≡ (
          if bytes_eq p p' && bytes_eq q q'
          then remove_ref (subs_at r p q) ref
          else subs_at r p' q')
  shrunk-subs_at q ref c p' q' = elim (bytes_eq_cases p p') [
    | inl (b, same) ↦
        rw (b, ← same)
          (subs_at-some shrunk p {e = record e { state = some ns }} q' x (ground arith)
            ∙ ap (λ o. subscribers o q') (sym c)
            ∙ subscribers-clone_remove e.state q ref q'
            ∙ ground (arith, subs_at-some r p q x y, subs_at-some r p q' x y))
    | inr (b, differ) ↦ rw b (
        subs_at_same shrunk r p' q' refl (λ id' x'.
          let ne : id' ≢ id = λ k. differ (same_pattern h p p' id x (x' ∙ ap some k)) in
          ground arith))
  ]

subscribers-none : (q : Bytes) → [] ≡ subscribers none q
unfolding subscribers
subscribers-none q = refl

-- The entry loses its last subscriber: it dies and leaves the index and the wildcard list.
module _ {r : Registry} (h : IsConsistent r) (p : Bytes) (id : ℕ) (e : Entry)
    (x : r.index p ≡ some id) (y : r.entries id ≡ some e)
    (d : Described (some e) p (elem id r.wild)) where
  abbrev dropped : Registry
  dropped = leave r id e p (is_wildcard p) none

  dropped-index : (p' : Bytes) → dropped.index p' ≡ (if bytes_eq p p' then none else r.index p')
  unfolding leave
  dropped-index p' = ground arith

  dropped-fresh : dropped.fresh ≡ r.fresh
  unfolding leave
  dropped-fresh = ground arith

  dropped-entries : (id' : ℕ) → id' ≢ id → dropped.entries id' ≡ r.entries id'
  unfolding leave
  dropped-entries id' ne = ground arith

  dropped-elem :
      (id' : ℕ)
      → elem id' dropped.wild ≡ (
          if is_wildcard p then (if id' == id then false else elem id' r.wild) else elem id' r.wild)
  unfolding leave
  dropped-elem id' = ground (arith, elem-without id' id r.wild)

  still :
      (p' : Bytes) (id' : ℕ)
      → dropped.index p' ≡ some id'
      → (p ≢ p') × (r.index p' ≡ some id') × (id' ≢ id)
  still p' id' x' = elim (bytes_eq_cases p p') [
    | inl (b, same) ↦ absurd (ground (arith, dropped-index p'))
    | inr (b, differ) ↦
        let x2 : r.index p' ≡ some id' = ground (arith, dropped-index p') in
        (differ, x2, λ k. differ (same_pattern h p p' id x (x2 ∙ ap some k)))
  ]

  dropped-listed :
      (id' : ℕ) → elem id' dropped.wild ≡ true → (p' : Bytes) × (dropped.index p' ≡ some id')
  dropped-listed id' l =
      let ne : id' ≢ id = λ k. ground (arith, dropped-elem id', d.5, ap (λ i. elem i r.wild) k) in
      let old : elem id' r.wild ≡ true = ground (arith, dropped-elem id') in
      let (p', x') = h.listed id' old in (p', keep p' x' ne)
    where
      keep : (p' : Bytes) → r.index p' ≡ some id' → id' ≢ id → dropped.index p' ≡ some id'
      keep p' x' ne = elim (bytes_eq_cases p p') [
        | inl (b, same) ↦ absurd (ne (cc (x, x', ap r.index same)))
        | inr (b, differ) ↦ ground (arith, dropped-index p')
      ]

  pub dropped-IsConsistent : IsConsistent dropped
  dropped-IsConsistent = record {
    indexed = λ p' id' x'.
        let (differ, x2, ne) = still p' id' x' in
        let same : elem id' dropped.wild ≡ elem id' r.wild = ground (arith, dropped-elem id') in
        subst (λ o. Described o p' (elem id' dropped.wild)) (sym (dropped-entries id' ne))
          (subst (λ b. Described (r.entries id') p' b) (sym same) (h.indexed p' id' x2));
    listed = dropped-listed;
    unused = λ id' z.
        let free = h.unused id' (rw (← dropped-fresh) z) in
        dropped-entries id' (λ k. cc (y, free, ap r.entries k)) ∙ free;
  }

  pub dropped-subs_at :
      (q : Bytes) (ref : SubRef)
      → clone_remove e.state q ref ≡ none
      → (p' q' : Bytes)
      → subs_at dropped p' q' ≡ (
          if bytes_eq p p' && bytes_eq q q'
          then remove_ref (subs_at r p q) ref
          else subs_at r p' q')
  dropped-subs_at q ref c p' q' = elim (bytes_eq_cases p p') [
    | inl (b, same) ↦
        let gone : dropped.index p ≡ none = ground (arith, dropped-index p, bytes_eq_refl p) in
        rw (b, ← same)
          (subs_at_missing dropped p q' gone
            ∙ subscribers-none q'
            ∙ ap (λ o. subscribers o q') (sym c)
            ∙ subscribers-clone_remove e.state q ref q'
            ∙ ground (arith, subs_at-some r p q x y, subs_at-some r p q' x y))
    | inr (b, differ) ↦ rw b (
        subs_at_same dropped r p' q' (ground (arith, dropped-index p'))
          (λ id' x'. dropped-entries id' (λ k. differ (same_pattern h p p' id x (x' ∙ ap some k)))))
  ]
