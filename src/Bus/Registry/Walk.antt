-- ===== src/Bus/Registry/Walk.antt =====
-- One step of `collect`: what a visit to one entry of the registry finds and what it changes.
use mathlib.Core.List.{Memᴰ}
use mathlib.Core.List.Memᴰ
use mathlib.Core.Logic.{⊎_elim}
use xqua_go.Prelude.{
  ℕ, Bytes, Bool, true, false, not, List, Option, none, some, ◌==◌, if◌then◌else◌, ◌≡◌, ◌∙◌, ◌⊎◌,
  inl, inr, sym, ap, subst, refl, arith, Bool-cases,
}
use xqua_go.Bus.Subject.{match_pattern}
use xqua_go.Bus.Snapshot.{SubRef, SubState, append_refs}
use xqua_go.Bus.Snapshot.Targets.{
  Subscribed, fanout_of, append_refs-fanout, append_refs-keeps, append_refs-all_fanout,
  append_refs-Subscribed, append_refs-calm,
}
use xqua_go.Bus.Registry.{
  Entry, Registry, put_entry, collect_state, collect_at, collect_exact, collect_wild_at,
}

-- Two states of one entry that differ at most in the cursors.
abbrev pub Calm : Option Entry → Option Entry → Type 0
Calm none none = Unit {0}
Calm none (some _) = ⊥
Calm (some _) none = ⊥
Calm (some e) (some f) =
    (e.tokens ≡ f.tokens)
    × (e.is_wild ≡ f.is_wild)
    × (fanout_of e.state ≡ fanout_of f.state)
    × ((ref : SubRef) → Subscribed ref f.state → Subscribed ref e.state)

Calm-refl : (o : Option Entry) → Calm o o
Calm-refl none = tt
Calm-refl (some e) = (refl, refl, refl, λ ref h. h)

Calm-trans : (a b c : Option Entry) → Calm a b → Calm b c → Calm a c
Calm-trans none none none h k = tt
Calm-trans none none (some _) h k = k
Calm-trans none (some _) c h k = absurd h
Calm-trans (some _) none c h k = absurd h
Calm-trans (some _) (some _) none h k = k
Calm-trans (some e) (some f) (some g) h k =
    (h.0 ∙ k.0, h.1 ∙ k.1, h.2 ∙ k.2, λ ref s. h.3 ref (k.3 ref s))

-- The walk so far: the registry as it was but for cursors, and what it found.
pub record Walk (r : Registry) (out : List SubRef) (r' : Registry) (out' : List SubRef)
    : Type 0 where
  pub wild : r.wild ≡ r'.wild
  pub entries : (id : ℕ) → Calm (r.entries id) (r'.entries id)
  pub keeps : (ref : SubRef) → Memᴰ ref out → Memᴰ ref out'

pub Walk-refl : (r : Registry) (out : List SubRef) → Walk r out r out
Walk-refl r out = record { wild = refl; entries = λ id. Calm-refl _; keeps = λ ref h. h }

pub Walk-trans :
    {r s t : Registry} {out out' out2 : List SubRef}
    → Walk r out s out'
    → Walk s out' t out2
    → Walk r out t out2
Walk-trans a b = record {
  wild = a.wild ∙ b.wild;
  entries = λ id. Calm-trans _ _ _ (a.entries id) (b.entries id);
  keeps = λ ref h. b.keeps ref (a.keeps ref h);
}

-- A step of the walk at the entry `id`: all fan-out subscribers, and subscribers only.
record Visit (r : Registry) (out : List SubRef) (e : Entry) (r' : Registry) (out' : List SubRef)
    : Type 0 where
  walk : Walk r out r' out'
  reached : (ref : SubRef) → Memᴰ ref (fanout_of e.state) → Memᴰ ref out'
  only : (ref : SubRef) → Memᴰ ref out' → Memᴰ ref out ⊎ Subscribed ref e.state

Calm-put :
    (r : Registry) (id : ℕ) (e : Entry) (st : SubState) (out : List SubRef)
    → r.entries id ≡ some e
    → e.state ≡ some st
    → (j : ℕ)
    → Calm
        (r.entries j)
        ((put_entry r id (record e { state = some (append_refs out st).1 })).entries j)
Calm-put r id e st out x y j = elim (Bool-cases (j == id)) [
  | inl same ↦
      let at : r.entries j ≡ some e = ap r.entries (ground arith) ∙ x in
      rw (same, at)
        (
          refl,
          refl,
          ap fanout_of y ∙ sym (append_refs-fanout out st),
          λ ref s. subst (Subscribed ref) (sym y) ((append_refs-calm out st ref).0 s),
        )
  | inr other ↦ rw other (Calm-refl (r.entries j))
]

Visit-state :
    (r : Registry) (id : ℕ) (e : Entry) (out : List SubRef)
    → r.entries id ≡ some e
    → (o : Option SubState) → e.state ≡ o
    → Visit r out e (collect_state r id e out o).1 (collect_state r id e out o).0
unfolding collect_state
Visit-state r id e out x none y = record {
  walk = Walk-refl r out;
  reached = λ ref h. absurd (Memᴰ.not-nil (subst (λ o. Memᴰ ref (fanout_of o)) y h));
  only = λ ref h. inl h;
}
Visit-state r id e out x (some st) y = record {
  walk = record {
    wild = refl;
    entries = Calm-put r id e st out x y;
    keeps = append_refs-keeps out st;
  };
  reached = λ ref h. append_refs-all_fanout out st ref (subst (λ o. Memᴰ ref (fanout_of o)) y h);
  only = λ ref h.
      ⊎_elim inl (λ s. inr (subst (Subscribed ref) (sym y) s))
        (append_refs-Subscribed out st ref h);
}

Visit-at :
    (r : Registry) (id : ℕ) (e : Entry) (out : List SubRef)
    → r.entries id ≡ some e
    → Visit r out e (collect_at r id e out).1 (collect_at r id e out).0
unfolding collect_at
Visit-at r id e out x = Visit-state r id e out x e.state refl

-- What is owed at an address under a test: if the entry passes, a visit, and else nothing.
pub record Visited (r : Registry) (out : List SubRef) (id : ℕ) (Hit : Entry → Type 0)
    (r' : Registry) (out' : List SubRef) : Type 0 where
  pub walk : Walk r out r' out'
  pub reached :
      (e : Entry) (ref : SubRef)
      → r.entries id ≡ some e
      → Hit e
      → Memᴰ ref (fanout_of e.state)
      → Memᴰ ref out'
  pub only :
      (ref : SubRef)
      → Memᴰ ref out'
      → Memᴰ ref out ⊎ ((e : Entry) × (r.entries id ≡ some e) × Hit e × Subscribed ref e.state)

visit_if :
    (r : Registry) (id : ℕ) (e : Entry) (out : List SubRef) (test : Entry → Bool) (b : Bool)
    → r.entries id ≡ some e
    → test e ≡ b
    → Visited r out id
        (λ f. test f ≡ true)
        (if b then collect_at r id e out else (out, r)).1
        (if b then collect_at r id e out else (out, r)).0
visit_if r id e out test true x t = record {
  walk = v.walk;
  reached = λ f ref y hit m. v.reached ref (subst (λ g. Memᴰ ref (fanout_of g.state)) (the f y) m);
  only = λ ref m. ⊎_elim inl (λ s. inr (e, x, t, s)) (v.only ref m);
}
  where
    v : Visit r out e (collect_at r id e out).1 (collect_at r id e out).0
    v = Visit-at r id e out x

    the : (f : Entry) → r.entries id ≡ some f → f ≡ e
    the f y = cc (x, y)
visit_if r id e out test false x t = record {
  walk = Walk-refl r out;
  reached = λ f ref y hit m. absurd (miss f y hit);
  only = λ ref m. inl m;
}
  where
    miss : (f : Entry) → r.entries id ≡ some f → test f ≡ true → ⊥
    miss f y hit = let same : f ≡ e = cc (x, y) in cc (ap test same, t, hit)

visit_none :
    (r : Registry) (id : ℕ) (out : List SubRef) (test : Entry → Bool)
    → r.entries id ≡ none
    → Visited r out id (λ f. test f ≡ true) r out
visit_none r id out test x = record {
  walk = Walk-refl r out;
  reached = λ f ref y hit m. absurd (gone f y);
  only = λ ref m. inl m;
}
  where
    gone : (f : Entry) → r.entries id ≡ some f → ⊥
    gone f y = cc (x, y)

-- The two kinds of address: the subject's own, and one in the wildcard list.
abbrev at_wild : Registry → Bytes → ℕ → List SubRef → Option Entry → List SubRef × Registry
at_wild r subject id out none = (out, r)
at_wild r subject id out (some e) =
    if match_pattern e.tokens subject then collect_at r id e out else (out, r)

collect_wild_at-Visited :
    (r : Registry) (subject : Bytes) (id : ℕ) (out : List SubRef) (o : Option Entry)
    → r.entries id ≡ o
    → Visited r out id
        (λ f. match_pattern f.tokens subject ≡ true)
        (at_wild r subject id out o).1
        (at_wild r subject id out o).0
collect_wild_at-Visited r subject id out none x =
    visit_none r id out (λ f. match_pattern f.tokens subject) x
collect_wild_at-Visited r subject id out (some e) x =
    visit_if r id e out (λ f. match_pattern f.tokens subject) _ x refl

at_wild_lem :
    (r : Registry) (subject : Bytes) (id : ℕ) (out : List SubRef) (o : Option Entry)
    → r.entries id ≡ o
    → collect_wild_at r subject id out ≡ at_wild r subject id out o
unfolding collect_wild_at
at_wild_lem r subject id out none x = rw (x, collect_wild_at)
at_wild_lem r subject id out (some e) x = rw (x, collect_wild_at)

pub wild_at-Visited :
    (r : Registry) (subject : Bytes) (id : ℕ) (out : List SubRef)
    → Visited r out id
        (λ f. match_pattern f.tokens subject ≡ true)
        (collect_wild_at r subject id out).1
        (collect_wild_at r subject id out).0
wild_at-Visited r subject id out =
    rw (at_wild_lem r subject id out (r.entries id) refl)
      (collect_wild_at-Visited r subject id out (r.entries id) refl)

abbrev at_exact : Registry → ℕ → List SubRef → Option Entry → List SubRef × Registry
at_exact r id out none = (out, r)
at_exact r id out (some e) = if not e.is_wild then collect_at r id e out else (out, r)

exact_at-Visited :
    (r : Registry) (id : ℕ) (out : List SubRef) (o : Option Entry)
    → r.entries id ≡ o
    → Visited r out id (λ f. not f.is_wild ≡ true) (at_exact r id out o).1 (at_exact r id out o).0
exact_at-Visited r id out none x = visit_none r id out (λ f. not f.is_wild) x
exact_at-Visited r id out (some e) x = visit_if r id e out (λ f. not f.is_wild) _ x refl

at_exact_lem :
    (r : Registry) (subject : Bytes) (id : ℕ) (out : List SubRef) (o : Option Entry)
    → r.index subject ≡ some id
    → r.entries id ≡ o
    → collect_exact r subject out ≡ at_exact r id out o
unfolding collect_exact
at_exact_lem r subject id out none i x = rw (i, collect_exact) (rw x)
at_exact_lem r subject id out (some e) i x = rw (i, collect_exact) (rw x)

pub exact-Visited :
    (r : Registry) (subject : Bytes) (id : ℕ) (out : List SubRef)
    → r.index subject ≡ some id
    → Visited r out id
        (λ f. not f.is_wild ≡ true)
        (collect_exact r subject out).1
        (collect_exact r subject out).0
exact-Visited r subject id out i =
    rw (at_exact_lem r subject id out (r.entries id) i refl)
      (exact_at-Visited r id out (r.entries id) refl)

pub exact_missing :
    (r : Registry) (subject : Bytes) (out : List SubRef)
    → r.index subject ≡ none
    → collect_exact r subject out ≡ (out, r)
unfolding collect_exact
exact_missing r subject out x = rw (x, collect_exact)

-- An entry after a walk is the entry before it, but for cursors.
pub Calm-some :
    (o : Option Entry) (e : Entry)
    → Calm (some e) o
    → (f : Entry) × (o ≡ some f) × Calm (some e) (some f)
Calm-some none e h = absurd h
Calm-some (some f) e h = (f, refl, h)

pub Calm-back :
    (o : Option Entry) (f : Entry)
    → Calm o (some f)
    → (e : Entry) × (o ≡ some e) × Calm (some e) (some f)
Calm-back none f h = absurd h
Calm-back (some e) f h = (e, refl, h)
