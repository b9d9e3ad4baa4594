-- ===== src/Bus/Registry/Consistent.antt =====
-- What holds of the registry between two operations, and what each operation does to the
-- subscribers of every pattern.
use xqua_go.Prelude.{
  ℕ, ◌≤◌, Bytes, Bool, true, false, ◌||◌, List, [], ◌∷◌, ◌++◌, Option, none, some, ◌==◌,
  if◌then◌else◌, ◌≡◌, ◌≢◌, ◌∙◌, sym, subst, inl, inr, refl, arith, Option-cases,
}
use xqua_go.Bus.Subject.{split, is_wildcard}
use xqua_go.Bus.Snapshot.{SubRef, SubState}
use xqua_go.Bus.Snapshot.View.{subscribers}
use xqua_go.Bus.Registry.{Entry, Registry, without, is_none}

abbrev pub elem : ℕ → List ℕ → Bool
elem a [] = false
elem a (x ∷ xs) = x == a || elem a xs

-- The tokens that `addSub` gives with a pattern.
abbrev pub tokens_for : Bytes → List Bytes
tokens_for p = if is_wildcard p then split p else []

-- An indexed entry: its pattern, alive, with subscribers, and in the wildcard list exactly when
-- the pattern has a wildcard.
abbrev pub Described : Option Entry → Bytes → Bool → Type 0
Described none p listed = ⊥
Described (some e) p listed =
    (e.pattern ≡ p)
    × (e.dead ≡ false)
    × (e.is_wild ≡ is_wildcard p)
    × (is_none e.state ≡ false)
    × (is_wildcard p ≡ true → e.tokens ≡ split p)
    × (listed ≡ is_wildcard p)

pub record IsConsistent (r : Registry) : Type 0 where
  pub indexed :
      (p : Bytes) (id : ℕ) → r.index p ≡ some id → Described (r.entries id) p (elem id r.wild)
  pub listed : (id : ℕ) → elem id r.wild ≡ true → (p : Bytes) × (r.index p ≡ some id)
  pub unused : (id : ℕ) → r.fresh ≤ id → r.entries id ≡ none

-- The subscribers that are registered under a pattern and a queue name.
abbrev pub state_of : Option Entry → Option SubState
state_of none = none
state_of (some e) = e.state

unfoldable pub subs_at : Registry → Bytes → Bytes → List SubRef
subs_at r p q = elim (r.index p) [ none ↦ [] | some id ↦ subscribers (state_of (r.entries id)) q ]

pub elem-append : (a b : ℕ) (xs : List ℕ) → elem a (xs ++ b ∷ []) ≡ (elem a xs || b == a)
elem-append a b [] = ground arith
elem-append a b (x ∷ xs) = ground (arith, elem-append a b xs)

pub elem-without :
    (a b : ℕ) (xs : List ℕ) → elem a (without b xs) ≡ (if a == b then false else elem a xs)
unfolding without
elem-without a b [] = ground arith
elem-without a b (x ∷ xs) = ground (arith, elem-without a b xs)

pub subs_at-some :
    (r : Registry) (p : Bytes) {id : ℕ} {e : Entry} (q : Bytes)
    → r.index p ≡ some id
    → r.entries id ≡ some e
    → subs_at r p q ≡ subscribers e.state q
unfolding subs_at
subs_at-some r p q x y = rw (x, subs_at) (rw (y, state_of))

pub subs_at_missing : (r : Registry) (p q : Bytes) → r.index p ≡ none → subs_at r p q ≡ []
unfolding subs_at
subs_at_missing r p q x = rw (x, subs_at)

pub subs_at_same :
    (r s : Registry) (p q : Bytes)
    → r.index p ≡ s.index p
    → ((id : ℕ) → s.index p ≡ some id → r.entries id ≡ s.entries id)
    → subs_at r p q ≡ subs_at s p q
unfolding subs_at
subs_at_same r s p q x f = elim (Option-cases (s.index p)) [
  | inl e ↦ rw (x, e, subs_at)
  | inr (id, e) ↦ rw (x, e, subs_at) (rw (f id e))
]

-- Nothing is indexed at the address that is given out next.
pub fresh_free : {r : Registry} → IsConsistent r → (p : Bytes) → r.index p ≢ some r.fresh
fresh_free {r} h p x =
    subst (λ o. Described o p (elem r.fresh r.wild)) (h.unused r.fresh (omega arith))
      (h.indexed p r.fresh x)

Described-pattern :
    (o : Option Entry) (p p' : Bytes) (b c : Bool) → Described o p b → Described o p' c → p ≡ p'
Described-pattern none p p' b c d d' = absurd d
Described-pattern (some e) p p' b c d d' = sym d.0 ∙ d'.0

-- Two patterns have two entries.
pub same_pattern :
    {r : Registry}
    → IsConsistent r
    → (p p' : Bytes) (id : ℕ) → r.index p ≡ some id
    → r.index p' ≡ some id
    → p ≡ p'
same_pattern {r} h p p' id x x' =
    Described-pattern (r.entries id) p p' _ _ (h.indexed p id x) (h.indexed p' id x')

-- The entry of an indexed pattern.
pub entry_of :
    (r : Registry) (p : Bytes) (id : ℕ)
    → IsConsistent r
    → r.index p ≡ some id
    → (e : Entry) × (r.entries id ≡ some e) × Described (some e) p (elem id r.wild)
entry_of r p id h x = go (r.entries id) refl
  where
    go :
        (o : Option Entry)
        → r.entries id ≡ o
        → (e : Entry) × (r.entries id ≡ some e) × Described (some e) p (elem id r.wild)
    go none y = absurd (subst (λ o. Described o p (elem id r.wild)) y (h.indexed p id x))
    go (some e) y = (e, y, subst (λ o. Described o p (elem id r.wild)) y (h.indexed p id x))
