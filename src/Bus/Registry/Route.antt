-- ===== src/Bus/Registry/Route.antt =====
-- What a published or requested message is sent to: `collect` gives every fan-out subscriber whose
-- pattern matches the subject, and nothing that is not subscribed under a matching pattern.
use mathlib.Core.List.{Memᴰ}
use mathlib.Core.List.Memᴰ
use mathlib.Core.Logic.{⊎_elim}
use xqua_go.Prelude.{
  ℕ, Bytes, true, false, List, [], Option, none, some, ◌≡◌, ◌∙◌, ◌⊎◌, inl, inr, sym, ap, subst,
  refl, Bool-cases, Option-cases,
}
use xqua_go.Bus.Subject.{split, is_wildcard, match_pattern}
use xqua_go.Bus.Subject.Literal.{match_pattern-literal}
use xqua_go.Bus.Snapshot.{SubRef, SubState}
use xqua_go.Bus.Snapshot.View.{subscribers}
use xqua_go.Bus.Snapshot.Targets.{Subscribed, fanout_of}
use xqua_go.Bus.Registry.{Entry, Registry, collect_exact, collect}
use xqua_go.Bus.Registry.Consistent.{
  elem, IsConsistent, Described, entry_of, subs_at, subs_at-some, subs_at_missing,
}
use xqua_go.Bus.Registry.Walk.{Calm, Calm-some, Calm-back}
use xqua_go.Bus.Registry.Collect.{HitBy, Swept, Started, collect_wild-Swept, collect_exact-Started}

-- A subscriber, fan-out or in a queue group, of a pattern that matches the subject.
pub record Wants (r : Registry) (subject : Bytes) (ref : SubRef) : Type 0 where
  pub pattern : Bytes
  pub id : ℕ
  pub entry : Entry
  pub at_index : r.index pattern ≡ some id
  pub at_entry : r.entries id ≡ some entry
  pub matching : match_pattern (split pattern) subject ≡ true
  pub subscribed : Subscribed ref entry.state

subscribers_nil : (o : Option SubState) → subscribers o [] ≡ fanout_of o
unfolding subscribers
subscribers_nil none = refl
subscribers_nil (some st) = refl

module _ {r r1 r2 : Registry} {subject : Bytes} {out out2 : List SubRef} (h : IsConsistent r)
    (s : Started r subject r1 out) (w : Swept r1 subject r1.wild out r2 out2) where
  reached :
      (p : Bytes) (ref : SubRef)
      → match_pattern (split p) subject ≡ true
      → Memᴰ ref (subs_at r p [])
      → Memᴰ ref out2
  reached p ref hit m = elim (Option-cases (r.index p)) [
    | inl x ↦ absurd (Memᴰ.not-nil (subst (Memᴰ ref) (subs_at_missing r p [] x) m))
    | inr (id, x) ↦
        let (e, y, d) = entry_of r p id h x in
        at_entry id e x y d (subst (Memᴰ ref) (subs_at-some r p [] x y ∙ subscribers_nil e.state) m)
          (Bool-cases (is_wildcard p))
  ]
    where
      at_entry :
          (id : ℕ) (e : Entry)
          → r.index p ≡ some id
          → r.entries id ≡ some e
          → Described (some e) p (elem id r.wild)
          → Memᴰ ref (fanout_of e.state)
          → (is_wildcard p ≡ true) ⊎ (is_wildcard p ≡ false)
          → Memᴰ ref out2
      at_entry id e x y d m (inl wild) =
          let (f, z, c) =
            Calm-some (r1.entries id) e
              (subst (λ o. Calm o (r1.entries id)) y (s.walk.entries id)) in
          w.reached id f ref (ap (elem id) (sym s.walk.wild) ∙ d.5 ∙ wild) z
            (subst (λ t. match_pattern t subject ≡ true) (sym (d.4 wild) ∙ c.0) hit)
            (subst (Memᴰ ref) c.2 m)
      at_entry id e x y d m (inr plain) =
          let same = (match_pattern-literal p subject plain).0 hit in
          w.walk.keeps ref (s.reached id e ref (ap r.index (sym same) ∙ x) y (d.2 ∙ plain) m)

  wanted_exact :
      (ref : SubRef)
      → (id : ℕ) (e : Entry) → r.index subject ≡ some id
      → r.entries id ≡ some e
      → e.is_wild ≡ false
      → Subscribed ref e.state
      → Wants r subject ref
  wanted_exact ref id e x y plain sub = record {
    pattern = subject;
    id = id;
    entry = e;
    at_index = x;
    at_entry = y;
    matching =
        (match_pattern-literal subject subject (
            sym (subst (λ o. Described o subject (elem id r.wild)) y (h.indexed subject id x)).2
            ∙ plain)).1
          refl;
    subscribed = sub;
  }

  wanted_wild : (ref : SubRef) → HitBy r1 subject r1.wild ref → Wants r subject ref
  wanted_wild ref (id, f, l, z, hit, sub) =
      let (e, y, c) =
        Calm-back (r.entries id) f (subst (λ o. Calm (r.entries id) o) z (s.walk.entries id)) in
      let listed : elem id r.wild ≡ true = ap (elem id) s.walk.wild ∙ l in
      let (p, x) = h.listed id listed in
      let d = subst (λ o. Described o p (elem id r.wild)) y (h.indexed p id x) in
      record {
        pattern = p;
        id = id;
        entry = e;
        at_index = x;
        at_entry = y;
        matching =
            subst (λ t. match_pattern t subject ≡ true) (sym c.0 ∙ d.4 (sym d.5 ∙ listed)) hit;
        subscribed = c.3 ref sub;
      }

  wanted : (ref : SubRef) → Memᴰ ref out2 → Wants r subject ref
  wanted ref m =
      ⊎_elim (λ m'. let t = s.only ref m' in wanted_exact ref t.0 t.1 t.2 t.3 t.4 t.5)
        (wanted_wild ref) (w.only ref m)

-- The targets of a message hold every fan-out subscriber of every registered pattern that matches
-- the subject, and each target is a subscriber of a registered pattern that matches it.
pub collect-routes :
    (r : Registry) (subject : Bytes)
    → IsConsistent r
    → ((p : Bytes) (ref : SubRef)
        → match_pattern (split p) subject ≡ true
        → Memᴰ ref (subs_at r p [])
        → Memᴰ ref (collect r subject []).0)
      × ((ref : SubRef) → Memᴰ ref (collect r subject []).0 → Wants r subject ref)
unfolding collect
collect-routes r subject h =
    let s = collect_exact-Started r subject in
    let r1 = (collect_exact r subject []).1 in
    let w = collect_wild-Swept r1 subject r1.wild (collect_exact r subject []).0 in
    (reached h s w, wanted h s w)
