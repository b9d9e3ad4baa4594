-- ===== src/Bus/Registry/Enter.antt =====
-- Entering a subscriber at an address: `enter` keeps the registry consistent and changes one list.
use xqua_go.Prelude.{
  ℕ, ◌≤◌, Bytes, bytes_eq, bytes_eq_cases, true, false, not, ◌&&◌, ◌||◌, List, [], ◌∷◌, ◌++◌, none,
  some, ◌==◌, if◌then◌else◌, ◌≡◌, ◌≢◌, ◌∙◌, sym, ap, subst, inl, inr, refl, arith, Bool-cases,
}
use xqua_go.Bus.Subject.{dot, onto_first, split, is_wildcard}
use xqua_go.Bus.Snapshot.{SubRef, clone_add, is_empty}
use xqua_go.Bus.Snapshot.View.{subscribers-clone_add}
use xqua_go.Bus.Registry.{Entry, Registry, enter, add_wild, is_none}
use xqua_go.Bus.Registry.Consistent.{
  elem, elem-append, Described, IsConsistent, subs_at, subs_at-some, subs_at_same, tokens_for,
}

-- What `register` finds at the address that it enters: an entry for the pattern, new or in use,
-- and all other entries in order.
pub record Entering (r : Registry) (id : ℕ) (e : Entry) (p : Bytes) : Type 0 where
  pub at_index : r.index p ≡ some id
  pub at_entry : r.entries id ≡ some e
  pub pattern : e.pattern ≡ p
  pub alive : e.dead ≡ false
  pub wildness : e.is_wild ≡ is_wildcard p
  pub tokens : e.tokens ≡ (if is_none e.state || not (is_wildcard p) then e.tokens else split p)
  pub blank : is_none e.state ≡ true → e.tokens ≡ []
  pub in_list : elem id r.wild ≡ (is_wildcard p && not (is_none e.state))
  pub others :
      (p' : Bytes) (id' : ℕ)
      → r.index p' ≡ some id'
      → p ≢ p'
      → (id' ≢ id) × Described (r.entries id') p' (elem id' r.wild)
  pub listed : (id' : ℕ) → elem id' r.wild ≡ true → (p' : Bytes) × (r.index p' ≡ some id')
  pub unused : (id' : ℕ) → r.fresh ≤ id' → (id' ≢ id) × (r.entries id' ≡ none)

split-is_empty : (s : Bytes) → is_empty (split s) ≡ false
unfolding split
split-is_empty [] = refl
split-is_empty (c ∷ s) = elim (Bool-cases (c == dot)) [ inl e ↦ rw e | inr e ↦ rw e (go (split s)) ]
  where
    go : (ts : List Bytes) → is_empty (onto_first c ts) ≡ false
    go [] = refl
    go (t ∷ ts) = refl

module _ {r : Registry} {id : ℕ} {e : Entry} {p : Bytes} (q : Bytes) (ref : SubRef)
    (h : Entering r id e p) where
  abbrev pub after_enter : Registry
  after_enter = enter r id e (is_wildcard p) (tokens_for p) q ref

  abbrev new_entry : Entry
  new_entry = record e {
    tokens = if is_wildcard p && is_empty e.tokens then tokens_for p else e.tokens;
    state = some (clone_add e.state q ref);
  }

  enter-index : (p' : Bytes) → after_enter.index p' ≡ r.index p'
  unfolding enter add_wild
  enter-index p' = ground arith

  enter-fresh : after_enter.fresh ≡ r.fresh
  unfolding enter add_wild
  enter-fresh = ground arith

  enter-entries :
      (id' : ℕ) → after_enter.entries id' ≡ (if id' == id then some new_entry else r.entries id')
  unfolding enter add_wild
  enter-entries id' = ground arith

  enter-elem :
      (id' : ℕ)
      → elem id' after_enter.wild
        ≡ (elem id' r.wild || (id == id' && (is_wildcard p && is_none e.state)))
  unfolding enter add_wild
  enter-elem id' = ground (arith, elem-append id' id r.wild)

  new_entry-tokens : is_wildcard p ≡ true → new_entry.tokens ≡ split p
  new_entry-tokens w = ground (arith, h.tokens, h.blank, split-is_empty p)

  enter-Described : Described (some new_entry) p (elem id after_enter.wild)
  enter-Described = (
    h.pattern,
    h.alive,
    h.wildness,
    refl,
    new_entry-tokens,
    rw (enter-elem id, h.in_list) (ground arith),
  )

  enter-indexed :
      (p' : Bytes) (id' : ℕ)
      → after_enter.index p' ≡ some id'
      → Described (after_enter.entries id') p' (elem id' after_enter.wild)
  enter-indexed p' id' x = elim (bytes_eq_cases p p') [
    | inl (b, same) ↦
        subst (λ k. Described (after_enter.entries k) p' (elem k after_enter.wild))
          (found same (enter-index p') x)
          (subst (λ s. Described (after_enter.entries id) s (elem id after_enter.wild)) same
            (subst (λ o. Described o p (elem id after_enter.wild)) (sym here) enter-Described))
    | inr (b, differ) ↦
        let old = h.others p' id' (sym (enter-index p') ∙ x) differ in
        let e1 : after_enter.entries id' ≡ r.entries id' =
          ground (arith, enter-entries id', old.0) in
        let e2 : elem id' after_enter.wild ≡ elem id' r.wild =
          ground (arith, enter-elem id', old.0) in
        subst (λ o. Described o p' (elem id' after_enter.wild)) (sym e1)
          (subst (λ b. Described (r.entries id') p' b) (sym e2) old.1)
  ]
    where
      found :
          p ≡ p' → after_enter.index p' ≡ r.index p' → after_enter.index p' ≡ some id' → id ≡ id'
      found same e x = cc (h.at_index, ap r.index same, e, x)

      here : after_enter.entries id ≡ some new_entry
      here = ground (arith, enter-entries id)

  enter-listed :
      (id' : ℕ)
      → elem id' after_enter.wild ≡ true
      → (p' : Bytes) × (after_enter.index p' ≡ some id')
  enter-listed id' x = elim (Bool-cases (elem id' r.wild)) [
    | inl old ↦ ((h.listed id' old).0, enter-index _ ∙ (h.listed id' old).1)
    | inr new ↦ (p, enter-index p ∙ h.at_index ∙ ap some (ground (arith, enter-elem id')))
  ]

  enter-unused : (id' : ℕ) → after_enter.fresh ≤ id' → after_enter.entries id' ≡ none
  enter-unused id' x = ground (arith, enter-entries id', h.unused id' (rw (← enter-fresh) x))

  pub enter-IsConsistent : IsConsistent after_enter
  enter-IsConsistent = record {
    indexed = enter-indexed;
    listed = enter-listed;
    unused = enter-unused;
  }

  pub enter-subs_at :
      (p' q' : Bytes)
      → subs_at after_enter p' q'
        ≡ (if bytes_eq p p' && bytes_eq q q' then subs_at r p q ++ ref ∷ [] else subs_at r p' q')
  enter-subs_at p' q' = elim (bytes_eq_cases p p') [
    | inl (b, same) ↦
        rw (b, ← same)
          (subs_at-some after_enter p {e = new_entry} q' (enter-index p ∙ h.at_index)
              (ground (arith, enter-entries id))
            ∙ subscribers-clone_add e.state q ref q'
            ∙ ground (
              arith,
              subs_at-some r p q h.at_index h.at_entry,
              subs_at-some r p q' h.at_index h.at_entry,
            ))
    | inr (b, differ) ↦ rw b (
        subs_at_same after_enter r p' q' (enter-index p')
          (λ id' x. ground (arith, enter-entries id', (h.others p' id' x differ).0)))
  ]
