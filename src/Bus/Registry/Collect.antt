-- ===== src/Bus/Registry/Collect.antt =====
-- The two parts of `collect`: the walk over the wildcard list, and the exact lookup before it.
use mathlib.Core.List.{Memᴰ}
use mathlib.Core.List.Memᴰ
use mathlib.Core.Logic.{⊎_elim}
use xqua_go.Prelude.{
  ℕ, Bytes, true, false, List, [], ◌∷◌, Option, none, some, ◌==◌, ◌≡◌, ◌∙◌, ◌⊎◌, inl, inr, sym, ap,
  subst, refl, arith, Bool-cases,
}
use xqua_go.Bus.Subject.{match_pattern}
use xqua_go.Bus.Snapshot.{SubRef}
use xqua_go.Bus.Snapshot.Targets.{Subscribed, fanout_of}
use xqua_go.Bus.Registry.{Entry, Registry, collect_exact, collect_wild_at, collect_wild}
use xqua_go.Bus.Registry.Consistent.{elem}
use xqua_go.Bus.Registry.Walk.{
  Calm, Walk, Visited, Walk-refl, Walk-trans, wild_at-Visited, exact-Visited, exact_missing,
  Calm-some, Calm-back,
}

-- An entry of the registry that a message on `subject` reaches by the wildcard list `ids`.
abbrev pub HitBy : Registry → Bytes → List ℕ → SubRef → Type 0
HitBy r subject ids ref =
    (id : ℕ) × (e : Entry) × (elem id ids ≡ true)
    × (r.entries id ≡ some e)
    × (match_pattern e.tokens subject ≡ true)
    × Subscribed ref e.state

pub record Swept (r : Registry) (subject : Bytes) (ids : List ℕ) (out : List SubRef) (r' : Registry)
    (out' : List SubRef) : Type 0 where
  pub walk : Walk r out r' out'
  pub reached :
      (id : ℕ) (e : Entry) (ref : SubRef)
      → elem id ids ≡ true
      → r.entries id ≡ some e
      → match_pattern e.tokens subject ≡ true
      → Memᴰ ref (fanout_of e.state)
      → Memᴰ ref out'
  pub only : (ref : SubRef) → Memᴰ ref out' → Memᴰ ref out ⊎ HitBy r subject ids ref

-- One visit and then the rest of the list.
Swept-cons :
    {r r1 r2 : Registry} (subject : Bytes) (j : ℕ) (ids : List ℕ) {out out1 out2 : List SubRef}
    → Visited r out j (λ f. match_pattern f.tokens subject ≡ true) r1 out1
    → Swept r1 subject ids out1 r2 out2
    → Swept r subject (j ∷ ids) out r2 out2
Swept-cons {r} {r1} {r2} subject j ids {out} {out1} {out2} v w = record {
  walk = Walk-trans v.walk w.walk;
  reached = reached;
  only = λ ref m. ⊎_elim (first ref) (λ h. inr (later ref h)) (w.only ref m);
}
  where
    reached :
        (id : ℕ) (e : Entry) (ref : SubRef)
        → elem id (j ∷ ids) ≡ true
        → r.entries id ≡ some e
        → match_pattern e.tokens subject ≡ true
        → Memᴰ ref (fanout_of e.state)
        → Memᴰ ref out2
    reached id e ref l x hit m = elim (Bool-cases (j == id)) [
      | inl same ↦ w.walk.keeps ref (v.reached e ref (ap r.entries (ground arith) ∙ x) hit m)
      | inr other ↦
          let (f, y, c) =
            Calm-some (r1.entries id) e
              (subst (λ o. Calm o (r1.entries id)) x (v.walk.entries id)) in
          w.reached id f ref (ground arith) y (subst (λ t. match_pattern t subject ≡ true) c.0 hit)
            (subst (Memᴰ ref) c.2 m)
    ]

    first : (ref : SubRef) → Memᴰ ref out1 → Memᴰ ref out ⊎ HitBy r subject (j ∷ ids) ref
    first ref m = ⊎_elim inl (λ h. inr (j, h.0, ground arith, h.1, h.2, h.3)) (v.only ref m)

    later : (ref : SubRef) → HitBy r1 subject ids ref → HitBy r subject (j ∷ ids) ref
    later ref (id, f, l, y, hit, sub) =
        let (e, x, c) =
          Calm-back (r.entries id) f (subst (λ o. Calm (r.entries id) o) y (v.walk.entries id)) in
        (
          id,
          e,
          ground arith,
          x,
          subst (λ t. match_pattern t subject ≡ true) (sym c.0) hit,
          c.3 ref sub,
        )

pub collect_wild-Swept :
    (r : Registry) (subject : Bytes) (ids : List ℕ) (out : List SubRef)
    → Swept r subject ids out (collect_wild r subject ids out).1 (collect_wild r subject ids out).0
unfolding collect_wild
collect_wild-Swept r subject [] out = record {
  walk = Walk-refl r out;
  reached = λ id e ref l. absurd (cc l);
  only = λ ref m. inl m;
}
collect_wild-Swept r subject (j ∷ ids) out =
    Swept-cons subject j ids (wild_at-Visited r subject j out) (
      collect_wild-Swept (collect_wild_at r subject j out).1 subject ids
        (collect_wild_at r subject j out).0)

-- The exact part of `collect` as a walk, whatever the index holds.
pub record Started (r : Registry) (subject : Bytes) (r' : Registry) (out : List SubRef)
    : Type 0 where
  pub walk : Walk r [] r' out
  pub reached :
      (id : ℕ) (e : Entry) (ref : SubRef)
      → r.index subject ≡ some id
      → r.entries id ≡ some e
      → e.is_wild ≡ false
      → Memᴰ ref (fanout_of e.state)
      → Memᴰ ref out
  pub only :
      (ref : SubRef)
      → Memᴰ ref out
      → (id : ℕ) × (e : Entry) × (r.index subject ≡ some id)
        × (r.entries id ≡ some e)
        × (e.is_wild ≡ false)
        × Subscribed ref e.state

pub collect_exact-Started :
    (r : Registry) (subject : Bytes)
    → Started r subject (collect_exact r subject []).1 (collect_exact r subject []).0
collect_exact-Started r subject = go (r.index subject) refl
  where
    go :
        (o : Option ℕ)
        → r.index subject ≡ o
        → Started r subject (collect_exact r subject []).1 (collect_exact r subject []).0
    go none x = rw (exact_missing r subject [] x) (record {
      walk = Walk-refl r [];
      reached = λ id e ref y. absurd (cc (x, y));
      only = λ ref m. absurd (Memᴰ.not-nil m);
    })
    go (some j) x =
        let v = exact-Visited r subject j [] x in
        record {
          walk = v.walk;
          reached = λ id e ref y z w m. v.reached e ref (ap r.entries (cc (x, y)) ∙ z) (rw w) m;
          only = λ ref m.
              ⊎_elim (λ n. absurd (Memᴰ.not-nil n))
                (λ h. (j, h.0, x, h.1, ground (arith, h.2), h.3)) (v.only ref m);
        }
