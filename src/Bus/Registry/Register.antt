-- ===== src/Bus/Registry/Register.antt =====
-- `register` against the abstract registry, a list of subscribers for each pattern and queue.
use xqua_go.Prelude.{
  ℕ, suc, Bytes, bytes_eq, bytes_eq_iff, bytes_eq_refl, bytes_eq_cases, Bool, false, ◌&&◌, List, [],
  ◌∷◌, ◌++◌, none, some, if◌then◌else◌, ◌≡◌, ◌≢◌, ◌∙◌, sym, ap, subst, inl, inr, refl, arith,
  Bool-cases, Option-cases,
}
use xqua_go.Bus.Subject.{is_wildcard}
use xqua_go.Bus.Snapshot.{SubRef}
use xqua_go.Bus.Snapshot.View.{subscribers}
use xqua_go.Bus.Registry.{
  Entry, Registry, put_entry, put_index, load_or_store, enter, register, register_in,
}
use xqua_go.Bus.Registry.Consistent.{
  tokens_for, elem, Described, IsConsistent, subs_at, subs_at-some, subs_at_missing, subs_at_same,
  fresh_free, same_pattern, entry_of,
}
use xqua_go.Bus.Registry.Enter.{Entering, after_enter, enter-IsConsistent, enter-subs_at}

module _ {r : Registry} (h : IsConsistent r) (p : Bytes) where
  abbrev blank_entry : Entry
  blank_entry = record {
    pattern = p;
    is_wild = is_wildcard p;
    tokens = [];
    dead = false;
    state = none;
  }

  abbrev stored : Registry
  stored =
      put_entry (put_index (record r { fresh = suc r.fresh }) p (some r.fresh)) r.fresh blank_entry

  fresh_unlisted : elem r.fresh r.wild ≡ false
  fresh_unlisted = elim (Bool-cases (elem r.fresh r.wild)) [
    | inl e ↦ absurd (fresh_free h (h.listed r.fresh e).0 (h.listed r.fresh e).1)
    | inr e ↦ e
  ]

  stored-others :
      (p' : Bytes) (id' : ℕ)
      → stored.index p' ≡ some id'
      → p ≢ p'
      → (id' ≢ r.fresh) × Described (stored.entries id') p' (elem id' stored.wild)
  stored-others p' id' x differ =
      let y : r.index p' ≡ some id' = ground (arith, bytes_eq_iff p p') in
      let ne : id' ≢ r.fresh = λ e. fresh_free h p' (y ∙ ap some e) in
      let same : stored.entries id' ≡ r.entries id' = ground arith in
      (ne, subst (λ o. Described o p' (elem id' r.wild)) (sym same) (h.indexed p' id' y))

  stored-Entering : r.index p ≡ none → Entering stored r.fresh blank_entry p
  stored-Entering missing = record {
    at_index = ground (arith, bytes_eq_refl p);
    at_entry = ground arith;
    pattern = refl;
    alive = refl;
    wildness = refl;
    tokens = refl;
    blank = λ _. refl;
    in_list = rw fresh_unlisted (ground arith);
    others = stored-others;
    listed = λ id' x. ((h.listed id' x).0, kept (h.listed id' x).0 id' (h.listed id' x).1);
    unused = λ id' x. (omega arith, ground (arith, h.unused id' (omega arith)));
  }
    where
      kept : (p' : Bytes) (id' : ℕ) → r.index p' ≡ some id' → stored.index p' ≡ some id'
      kept p' id' x = ground (arith, bytes_eq_iff p p', bytes_eq_cases p p')

-- An entry that is in use is entered as it stands.
found-Entering :
    {r : Registry} {p : Bytes} {id : ℕ} (e : Entry)
    → IsConsistent r
    → r.index p ≡ some id
    → r.entries id ≡ some e
    → Described (some e) p (elem id r.wild)
    → Entering r id e p
found-Entering {r} {p} {id} e h x y d = record {
  at_index = x;
  at_entry = y;
  pattern = d.0;
  alive = d.1;
  wildness = d.2;
  tokens = ground (arith, d.4);
  blank = λ z. ground arith;
  in_list = ground arith;
  others = λ p' id' x' differ.
      ((λ same. differ (same_pattern h p p' id x (x' ∙ ap some same))), h.indexed p' id' x');
  listed = h.listed;
  unused = λ id' z. ((λ same. cc (y, h.unused id' z, ap r.entries same)), h.unused id' z);
}

register_in-enter :
    (r : Registry) (id : ℕ) (e : Entry) (q : Bytes) (w : Bool) (tokens : List Bytes) (ref : SubRef)
    → r.entries id ≡ some e
    → e.dead ≡ false
    → register_in (id, r) w tokens q ref ≡ some (enter r id e w tokens q ref)
unfolding register_in
register_in-enter r id e q w tokens ref x alive = rw (x, register_in) (rw (alive, if◌then◌else◌))

register_at :
    (r r' : Registry) (p q : Bytes) (w : Bool) (tokens : List Bytes) (ref : SubRef) (id : ℕ)
    (e : Entry)
    → load_or_store r p w ≡ (id, r')
    → r'.entries id ≡ some e
    → e.dead ≡ false
    → register r p w tokens q ref ≡ some (enter r' id e w tokens q ref)
register_at r r' p q w tokens ref id e l x alive =
    unfold register in
    ap (λ s. register_in s w tokens q ref) l ∙ register_in-enter r' id e q w tokens ref x alive

store_missing :
    (r : Registry) (p : Bytes) (w : Bool)
    → r.index p ≡ none
    → load_or_store r p w ≡ (
      r.fresh,
      put_entry
          (put_index (record r { fresh = suc r.fresh }) p (some r.fresh))
          r.fresh
          (record { pattern = p; is_wild = w; tokens = []; dead = false; state = none }),
    )
unfolding load_or_store
store_missing r p w x = rw (x, load_or_store)

load_found :
    (r : Registry) (p : Bytes) (w : Bool) (id : ℕ)
    → r.index p ≡ some id
    → load_or_store r p w ≡ (id, r)
unfolding load_or_store
load_found r p w id x = rw (x, load_or_store)

stored-subs_at :
    {r : Registry} (h : IsConsistent r) (p : Bytes)
    → r.index p ≡ none
    → (p' q' : Bytes) → subs_at (stored h p) p' q' ≡ subs_at r p' q'
stored-subs_at {r} h p x p' q' = elim (bytes_eq_cases p p') [
  | inl (b, same) ↦ rw (← same) (
      subs_at-some (stored h p) p {e = blank_entry h p} q' (stored-Entering h p x).at_index
        (stored-Entering h p x).at_entry
      ∙ unfold subscribers in sym (subs_at_missing r p q' x))
  | inr (b, differ) ↦
      subs_at_same (stored h p) r p' q' (ground arith)
        (λ id' y. let ne : id' ≢ r.fresh = λ e. fresh_free h p' (y ∙ ap some e) in ground arith)
]

-- Registering under a pattern always ends, keeps the registry consistent, and adds the new
-- subscriber at the end of its own pattern and queue name and nowhere else.
pub register-refines :
    (r : Registry) (p q : Bytes) (ref : SubRef)
    → IsConsistent r
    → (r' : Registry) × (register r p (is_wildcard p) (tokens_for p) q ref ≡ some r')
      × IsConsistent r'
      × ((p' q' : Bytes)
          → subs_at r' p' q' ≡ (
              if bytes_eq p p' && bytes_eq q q'
              then subs_at r p q ++ ref ∷ []
              else subs_at r p' q'))
register-refines r p q ref h = elim (Option-cases (r.index p)) [
  | inl x ↦
      let en = stored-Entering h p x in
      (
        after_enter q ref en,
        register_at r (stored h p) p q _ _ ref r.fresh (blank_entry h p) (store_missing r p _ x)
            en.at_entry refl,
        enter-IsConsistent q ref en,
        λ p' q'.
            enter-subs_at q ref en p' q'
            ∙ ground (arith, stored-subs_at h p x p q, stored-subs_at h p x p' q'),
      )
  | inr (id, x) ↦
      let (e, y, d) = entry_of r p id h x in
      let en = found-Entering e h x y d in
      (
        after_enter q ref en,
        register_at r r p q _ _ ref id e (load_found r p _ id x) y d.1,
        enter-IsConsistent q ref en,
        enter-subs_at q ref en,
      )
]
