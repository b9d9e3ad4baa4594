-- ===== src/OpenApi/Validate/Schema/Traversal.antt =====
-- The traversal of schemas ends, also where they refer to one another in circles, and it checks
-- every schema that it can reach.
use mathlib.Core.List.{Memᴰ}
use mathlib.Core.List.Memᴰ
use xqua_go.Prelude.{
  ℕ, zero, suc, ◌<◌, Bytes, true, false, Bool-cases, List, [], ◌∷◌, ◌++◌, Option, none, some, ◌≡◌,
  ◌⊎◌, inl, inr, refl, sym, ap, ◌∙◌, subst, arith,
}
use xqua_go.OpenApi.Spec.Schemas.{Schema, Heap}
use xqua_go.OpenApi.Validate.{Problem, Urls}
use xqua_go.OpenApi.Validate.Keywords.{own_problems}
use xqua_go.OpenApi.Validate.Schema.{
  children, is_visited, Walked, then_walk, each, visit, validate_schema,
}
use xqua_go.OpenApi.Validate.Schema.Visited.{
  unvisited, Grows, Grows-trans, unvisited-Grows, unvisited-length, unvisited-lt,
}

module _ (urls : Urls) (heap : Heap) (version : Bytes) where
  -- From a schema to one that it refers to, and on
  pub data Reaches : ℕ → ℕ → Type 0 where
    itself : {a b : ℕ} → a ≡ b → Reaches a b
    onward :
        {a c : ℕ} (s : Schema) (suffix : Bytes) (b : ℕ)
        → heap a ≡ some s
        → Memᴰ (suffix, some b) (children s)
        → Reaches b c
        → Reaches a c

  abbrev Reached : Option ℕ → List ℕ → Type 0
  Reached o v = (a : ℕ) (s : Schema) → o ≡ some a → heap a ≡ some s → is_visited a v ≡ true

  abbrev AllReached : List (Bytes × Option ℕ) → List ℕ → Type 0
  AllReached l v = (suffix : Bytes) (o : Option ℕ) → Memᴰ (suffix, o) l → Reached o v

  abbrev pub IsWithin : List Problem → List Problem → Type 0
  IsWithin ps qs = (p : Problem) → Memᴰ p ps → Memᴰ p qs

  -- The problems of the schema at `b` are reported, and the schemas in it visited.
  record IsChecked (b : ℕ) (v : List ℕ) (errs : List Problem) : Type 0 where
    schema : Schema
    context : Bytes
    stored : heap b ≡ some schema
    reported : IsWithin (own_problems urls context schema version) errs
    inside : AllReached (children schema) v

  -- What a traversal that begins with `v` and ends with `w` has done
  record Covers (v w : List ℕ) (errs : List Problem) : Type 0 where
    grows : Grows v w
    checked : (b : ℕ) → is_visited b w ≡ true → (is_visited b v ≡ true) ⊎ IsChecked b w errs

  IsChecked-later :
      (b : ℕ) (v w : List ℕ) (ps qs : List Problem)
      → Grows v w
      → IsWithin ps qs
      → IsChecked b v ps
      → IsChecked b w qs
  IsChecked-later b v w ps qs g i c = record {
    schema = c.schema;
    context = c.context;
    stored = c.stored;
    reported = λ p m. i p (c.reported p m);
    inside = λ suffix o m a s e h. g a (c.inside suffix o m a s e h);
  }

  Covers-trans :
      (u v w : List ℕ) (ps qs : List Problem)
      → Covers u v ps
      → Covers v w qs
      → Covers u w (ps ++ qs)
  Covers-trans u v w ps qs c d = record {
    grows = Grows-trans u v w c.grows d.grows;
    checked = λ b e. elim (d.checked b e) [
      | inr later ↦
          inr (IsChecked-later b w w qs (ps ++ qs) (λ x y. y) (λ p m. Memᴰ.append_right ps m) later)
      | inl before ↦ elim (c.checked b before) [
        | inl old ↦ inl old
        | inr own ↦
            inr (IsChecked-later b v w ps (ps ++ qs) d.grows (λ p m. Memᴰ.append_left qs m) own)
      ]
    ];
  }

  Covers-refl : (v : List ℕ) → Covers v v []
  Covers-refl v = record { grows = λ b e. e; checked = λ b e. inl e }

  -- A traversal returns, having covered what it began with and reached its schemas.
  record Outcome (r : Walked) (l : List (Bytes × Option ℕ)) (v : List ℕ) : Type 0 where
    errs : List Problem
    visited : List ℕ
    returns : r ≡ some (errs, visited)
    covers : Covers v visited errs
    reached : AllReached l visited

  then_walk-some :
      (ps qs : List Problem) (v w : List ℕ) (r : Walked) (more : List ℕ → Walked)
      → r ≡ some (ps, v)
      → more v ≡ some (qs, w)
      → then_walk r more ≡ some (ps ++ qs, w)
  then_walk-some ps qs v w r more e f = rw e (rw f refl)

  AllReached-cons :
      (suffix : Bytes) (o : Option ℕ) (l : List (Bytes × Option ℕ)) (v : List ℕ)
      → Reached o v
      → AllReached l v
      → AllReached ((suffix, o) ∷ l) v
  AllReached-cons suffix o l v own rest t p m a s e h = elim (Memᴰ.cases_cons m) [
    | inl same ↦
        let eq : o ≡ p = sym (ap (λ (x : Bytes × Option ℕ). x.1) same) in own a s (eq ∙ e) h
    | inr later ↦ rest t p later a s e h
  ]

  module _ (n : ℕ) where
    -- The traversals that these calls make return where fewer than `fuel` are not visited.
    abbrev IsGood : ℕ → (Bytes → Option ℕ → List ℕ → Walked) → Type 0
    IsGood fuel walk =
        (context suffix : Bytes) (o : Option ℕ) (v : List ℕ)
        → unvisited n v < fuel
        → Outcome (walk context o v) ((suffix, o) ∷ []) v

    each-Outcome :
        (fuel : ℕ) (walk : Bytes → Option ℕ → List ℕ → Walked) (context : Bytes)
        (l : List (Bytes × Option ℕ)) (v : List ℕ)
        → IsGood fuel walk
        → unvisited n v < fuel
        → Outcome (each walk context l v) l v
    each-Outcome fuel walk context [] v good h = record {
      errs = [];
      visited = v;
      returns = refl;
      covers = Covers-refl v;
      reached = λ suffix o m. absurd (Memᴰ.not-nil m);
    }
    each-Outcome fuel walk context ((suffix, o) ∷ l) v good h =
        let first = good (context ++ suffix) suffix o v h in
        let fewer = unvisited-Grows n v first.visited first.covers.grows in
        let rest = each-Outcome fuel walk context l first.visited good (omega arith) in
        record {
          errs = first.errs ++ rest.errs;
          visited = rest.visited;
          returns =
              then_walk-some first.errs rest.errs first.visited rest.visited
                (walk (context ++ suffix) o v) (each walk context l) first.returns rest.returns;
          covers =
              Covers-trans v first.visited rest.visited first.errs rest.errs first.covers
                rest.covers;
          reached =
              AllReached-cons suffix o l rest.visited
                (λ a s e k. rest.covers.grows a (first.reached suffix o (Memᴰ.head refl) a s e k))
                rest.reached;
        }

    -- A schema that is entered is checked when the schemas in it have been traversed.
    Covers-enter :
        (a : ℕ) (s : Schema) (context : Bytes) (v w : List ℕ) (errs : List Problem)
        → heap a ≡ some s
        → Covers (a ∷ v) w errs
        → AllReached (children s) w
        → Covers v w (own_problems urls context s version ++ errs)
    Covers-enter a s context v w errs e c r = record {
      grows = λ b h. c.grows b (rw h (ground arith));
      checked = λ b h. elim (c.checked b h) [
        | inr later ↦ inr (
            IsChecked-later b w w errs (own_problems urls context s version ++ errs) (λ x y. y)
              (λ p m. Memᴰ.append_right (own_problems urls context s version) m) later)
        | inl entered ↦ elim (Bool-cases (is_visited b v)) [
          | inl old ↦ inl old
          | inr new ↦
              let same : a ≡ b = ground arith in
              inr (record {
                schema = s;
                context = context;
                stored = ap heap (sym same) ∙ e;
                reported = λ p m. Memᴰ.append_left errs m;
                inside = r;
              })
        ]
      ];
    }

    -- A schema that has been visited, or is not there, leaves everything as it was.
    Outcome-skips :
        (suffix : Bytes) (o : Option ℕ) (v : List ℕ)
        → Reached o v
        → Outcome (some ([], v)) ((suffix, o) ∷ []) v
    Outcome-skips suffix o v r = record {
      errs = [];
      visited = v;
      returns = refl;
      covers = Covers-refl v;
      reached = AllReached-cons suffix o [] v r (λ t p m. absurd (Memᴰ.not-nil m));
    }

    visit-Outcome :
        (fuel : ℕ) (context suffix : Bytes) (a : ℕ) (v : List ℕ) (o : Option Schema)
        → ((b : ℕ) (s : Schema) → heap b ≡ some s → b < n)
        → IsGood fuel (λ c o v. validate_schema urls heap version fuel c o v)
        → is_visited a v ≡ false
        → unvisited n v < suc fuel
        → heap a ≡ o
        → Outcome
            (visit urls heap version
              (λ c o v. validate_schema urls heap version fuel c o v)
              context
              a
              o
              v)
            ((suffix, some a) ∷ [])
            v
    visit-Outcome fuel context suffix a v none finite good new h e =
        Outcome-skips suffix (some a) v (λ b s k f.
          let same : a ≡ b = cc in let gone : heap b ≡ none = ap heap (sym same) ∙ e in cc)
    visit-Outcome fuel context suffix a v (some s) finite good new h e =
        let fewer = unvisited-lt n a v (finite a s e) new in
        let own = own_problems urls context s version in
        let rest =
          each-Outcome fuel (λ c o v. validate_schema urls heap version fuel c o v) context
            (children s) (a ∷ v) good (omega arith) in
        record {
          errs = own ++ rest.errs;
          visited = rest.visited;
          returns =
              then_walk-some own rest.errs (a ∷ v) rest.visited (some (own, a ∷ v))
                (each (λ c o v. validate_schema urls heap version fuel c o v) context (children s))
                refl rest.returns;
          covers = Covers-enter a s context v rest.visited rest.errs e rest.covers rest.reached;
          reached =
              AllReached-cons suffix (some a) [] rest.visited
                (λ b t k f.
                  let same : a ≡ b = cc in
                  subst (λ c. is_visited c rest.visited ≡ true) same
                    (rest.covers.grows a (ground arith)))
                (λ t p m. absurd (Memᴰ.not-nil m));
        }

    -- Fuel for every address that has not been visited, and one more, is enough.
    validate_schema-IsGood :
        (fuel : ℕ)
        → ((b : ℕ) (s : Schema) → heap b ≡ some s → b < n)
        → IsGood fuel (λ c o v. validate_schema urls heap version fuel c o v)
    unfolding validate_schema
    validate_schema-IsGood zero finite context suffix o v h = absurd (omega arith)
    validate_schema-IsGood (suc fuel) finite context suffix none v h =
        Outcome-skips suffix none v (λ b s k f. cc)
    validate_schema-IsGood (suc fuel) finite context suffix (some a) v h =
        elim (Bool-cases (is_visited a v)) [
          | inl old ↦ rw old (
              Outcome-skips suffix (some a) v
                (λ b s k f. let same : a ≡ b = cc in subst (λ c. is_visited c v ≡ true) same old))
          | inr new ↦ rw new (
              visit-Outcome fuel context suffix a v (heap a) finite
                (validate_schema-IsGood fuel finite) new h refl)
        ]

  -- Where everything that was visited has been checked, so has what it reaches.
  Reaches-visited :
      (v : List ℕ) (errs : List Problem) (a b : ℕ) (s : Schema)
      → Covers [] v errs
      → is_visited a v ≡ true
      → Reaches a b
      → heap b ≡ some s
      → is_visited b v ≡ true
  Reaches-visited v errs a b s c h (itself e) k = subst (λ d. is_visited d v ≡ true) e h
  Reaches-visited v errs a b s c h (onward t suffix d stored inside on) k = elim (c.checked a h) [
    | inl never ↦ absurd (ground arith)
    | inr own ↦
        let same : own.schema ≡ t = cc in
        let (u, there) = stored_first d b s on k in
        let reached =
          own.inside suffix (some d)
            (subst (λ (x : Schema). Memᴰ (suffix, some d) (children x)) (sym same) inside) d u refl
            there in
        Reaches-visited v errs d b s c reached on k
  ]
    where
      stored_first :
          (d b : ℕ) (s : Schema) → Reaches d b → heap b ≡ some s → (u : Schema) × (heap d ≡ some u)
      stored_first d b s (itself e) k = (s, ap heap e ∙ k)
      stored_first d b s (onward u suffix c stored inside on) k = (u, stored)

-- With one call deeper than there are schemas, the traversal from a schema returns, and whatever
-- refers to whatever, it reports for every schema that it can reach all problems of that schema, in
-- some context.
pub validate_schema-checks_all :
    (urls : Urls) (heap : Heap) (version : Bytes) (n : ℕ) (context : Bytes) (a b : ℕ) (s : Schema)
    → ((c : ℕ) (t : Schema) → heap c ≡ some t → c < n)
    → Reaches urls heap version a b
    → heap b ≡ some s
    → (errs : List Problem) × (visited : List ℕ) × (validate_schema urls heap version
          (suc n)
          context
          (some a)
          []
        ≡ some (errs, visited))
      × (at_context : Bytes) × IsWithin urls heap version
          (own_problems urls at_context s version)
          errs
validate_schema-checks_all urls heap version n context a b s finite reaches stored =
    let bound = unvisited-length n in
    let r =
      validate_schema-IsGood urls heap version n (suc n) finite context [] (some a) []
        (omega arith) in
    let first = first_stored a b reaches stored in
    let start = r.reached [] (some a) (Memᴰ.head refl) a first.0 refl first.1 in
    let there =
      Reaches-visited urls heap version r.visited r.errs a b s r.covers start reaches stored in
    elim (r.covers.checked b there) [
      | inl never ↦ absurd (ground arith)
      | inr own ↦
          let same : own.schema ≡ s = cc in
          (
            r.errs,
            r.visited,
            r.returns,
            own.context,
            subst
                (λ (t : Schema).
                  IsWithin urls heap version (own_problems urls own.context t version) r.errs)
                same own.reported,
          )
    ]
  where
    first_stored :
        (d c : ℕ)
        → Reaches urls heap version d c
        → heap c ≡ some s
        → (u : Schema) × (heap d ≡ some u)
    first_stored d c (itself e) k = (s, ap heap e ∙ k)
    first_stored d c (onward u suffix f held inside on) k = (u, held)
