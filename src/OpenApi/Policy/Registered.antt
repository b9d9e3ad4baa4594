-- ===== src/OpenApi/Policy/Registered.antt =====
-- What the registration of a live secured route guarantees together with the guard: only a request
-- that a registered scheme's own `Verify` accepts gets through, although a scheme without one
-- would be wrapped into a scheme that accepts everybody.
use xqua_go.Prelude.{
  ℕ, suc, Bytes, Bool, true, false, Bool-cases, List, [], ◌∷◌, Option, none, some, ◌≡◌, inl, inr,
  refl, sym, ap, ◌∙◌, arith, length, ◌==◌, if◌then◌else◌,
}
use xqua_go.Security.{
  Requirement, Credential, Scheme, Verified, identity, ErrCase, passed, guard, validate_route,
}
use xqua_go.Security.Access.{IsVerified, SomeVerified, here, there, guard-SomeVerified}
use xqua_go.OpenApi.Policy.{
  SecurityRequirement, Panic, or_panic, validate_requirements, to_requirement,
  to_security_requirements, wrapped_verify, wrapped_extract, to_scheme, map_scheme,
  to_security_schemes, check_verify, check_scheme, check_requirement, check_schemes, lift_panic,
  validate_secured_route,
}

or_panic-none : (p q : Option Panic) → or_panic p q ≡ none → (p ≡ none) × (q ≡ none)
or_panic-none none q h = (refl, h)
or_panic-none (some x) q h = cc

module _ {C E I : Type 0} (schemes : Bytes → Option (Scheme C E I)) where
  -- A scheme of the requirement is registered, and its own functions extract and verify.
  pub record IsAccepted (c : C) (req : SecurityRequirement) (i : I) : Type 0 where
    pub name : Bytes
    pub scopes : List Bytes
    pub raw : Bytes
    pub scheme : Scheme C E I
    pub verify : C → Credential → Verified E I
    pub extract : C → Option Bytes
    pub named : req ≡ (name, scopes) ∷ []
    pub registered : schemes name ≡ some scheme
    pub verifies : scheme.verify ≡ some verify
    pub extracts : scheme.extract ≡ some extract
    pub carried : extract c ≡ some raw
    pub accepted : verify c (record { scheme = name; raw = raw; scopes = scopes }) ≡ identity i

  pub data SomeAccepted (c : C) (i : I) : List SecurityRequirement → Type 0 where
    here_accepted :
        {req : SecurityRequirement} {reqs : List SecurityRequirement}
        → IsAccepted c req i
        → SomeAccepted c i (req ∷ reqs)
    there_accepted :
        {req : SecurityRequirement} {reqs : List SecurityRequirement}
        → SomeAccepted c i reqs
        → SomeAccepted c i (req ∷ reqs)

  -- The requirement names one scheme, which is registered and has a `Verify`.
  pub record IsSound (req : SecurityRequirement) : Type 0 where
    pub name : Bytes
    pub scopes : List Bytes
    pub scheme : Scheme C E I
    pub verify : C → Credential → Verified E I
    pub named : req ≡ (name, scopes) ∷ []
    pub registered : schemes name ≡ some scheme
    pub verifies : scheme.verify ≡ some verify

  abbrev AllSound : List SecurityRequirement → Type 0
  AllSound [] = Unit {0}
  AllSound (req ∷ reqs) = IsSound req × AllSound reqs

  check_requirement-IsSound :
      (req : SecurityRequirement)
      → (length req == 1) ≡ true
      → check_requirement schemes req ≡ none
      → IsSound req
  check_requirement-IsSound [] one h = ground arith
  check_requirement-IsSound ((name, scopes) ∷ e ∷ req) one h = ground arith
  check_requirement-IsSound ((name, scopes) ∷ []) one h =
      let (first, _) = or_panic-none (check_scheme schemes name (schemes name)) none h in
      found (schemes name) refl first
    where
      given :
          (s : Scheme C E I) (v : Option (C → Credential → Verified E I))
          → schemes name ≡ some s
          → s.verify ≡ v
          → check_verify schemes name v ≡ none
          → IsSound ((name, scopes) ∷ [])
      given s none g e k = cc
      given s (some v) g e k = record {
        name = name;
        scopes = scopes;
        scheme = s;
        verify = v;
        named = refl;
        registered = g;
        verifies = e;
      }

      found :
          (o : Option (Scheme C E I))
          → schemes name ≡ o
          → check_scheme schemes name o ≡ none
          → IsSound ((name, scopes) ∷ [])
      found none g k = cc
      found (some s) g k = given s s.verify g refl k

  one_scheme-given :
      (i : ℕ) (req : SecurityRequirement)
      → (if length req == 1 then none else some (Panic.one_scheme i (length req))) ≡ none
      → (length req == 1) ≡ true
  one_scheme-given i req h = elim (Bool-cases (length req == 1)) [
    | inl one ↦ one
    | inr not_one ↦ ground arith
  ]

  checks-AllSound :
      (i : ℕ) (reqs : List SecurityRequirement)
      → validate_requirements i reqs ≡ none
      → check_schemes schemes reqs ≡ none
      → AllSound reqs
  unfolding validate_requirements check_schemes
  checks-AllSound i [] v s = tt
  checks-AllSound i (req ∷ reqs) v s =
      let (one, v') =
        or_panic-none (if length req == 1 then none else some (Panic.one_scheme i (length req)))
          (validate_requirements (suc i) reqs) v in
      let (own, s') =
        or_panic-none (check_requirement schemes req) (check_schemes schemes reqs) s in
      (
        check_requirement-IsSound req (one_scheme-given i req one) own,
        checks-AllSound (suc i) reqs v' s',
      )

  module _ (no_identity : I) where
    -- What the wrapped schemes verify is what the registered ones verify.
    IsVerified-IsAccepted :
        (c : C) (req : SecurityRequirement) (i : I)
        → IsSound req
        → IsVerified
            (to_security_schemes no_identity schemes)
            c
            (to_requirement req (record { names = []; scopes = [] }))
            i
        → IsAccepted c req i
    unfolding to_security_schemes
    IsVerified-IsAccepted c req i s v =
        let q : to_requirement req (record { names = []; scopes = [] })
            ≡ record { names = s.name ∷ []; scopes = s.scopes } =
          ap (λ r. to_requirement r (record { names = []; scopes = [] })) s.named in
        let names : s.name ∷ [] ≡ v.name ∷ v.names =
          sym (ap (λ (r : Requirement). r.names) q) ∙ v.named in
        let scopes : (to_requirement req (record { names = []; scopes = [] })).scopes ≡ s.scopes =
          ap (λ (r : Requirement). r.scopes) q in
        let name : s.name ≡ v.name = cc in
        let found : some (to_scheme no_identity s.scheme) ≡ some v.scheme =
          sym (ap (map_scheme no_identity) s.registered)
          ∙ ap (λ n. map_scheme no_identity (schemes n)) name
          ∙ v.registered in
        let scheme : to_scheme no_identity s.scheme ≡ v.scheme = cc in
        let verify : some (wrapped_verify no_identity s.scheme.verify) ≡ some v.verify =
          ap (λ (x : Scheme C E I). x.verify) scheme ∙ v.verifies in
        let extract : some (wrapped_extract s.scheme.extract) ≡ some v.extract =
          ap (λ (x : Scheme C E I). x.extract) scheme ∙ v.extracts in
        let own_verify : wrapped_verify no_identity (some s.verify) ≡ v.verify =
          ap (wrapped_verify no_identity) (sym s.verifies) ∙ cc in
        let own_extract : wrapped_extract s.scheme.extract ≡ v.extract = cc in
        let accepted : s.verify c (record { scheme = s.name; raw = v.raw; scopes = s.scopes })
            ≡ identity i =
          ap (λ n. s.verify c (record { scheme = n; raw = v.raw; scopes = s.scopes })) name
          ∙ ap (λ l. s.verify c (record { scheme = v.name; raw = v.raw; scopes = l })) (sym scopes)
          ∙ ap
              (λ f. f c (record {
                scheme = v.name;
                raw = v.raw;
                scopes = (to_requirement req (record { names = []; scopes = [] })).scopes;
              }))
              own_verify
          ∙ v.accepted in
        carried s.scheme.extract refl accepted (ap (λ f. f c) own_extract ∙ v.carried)
      where
        carried :
            (x : Option (C → Option Bytes))
            → s.scheme.extract ≡ x
            → s.verify c (record { scheme = s.name; raw = v.raw; scopes = s.scopes }) ≡ identity i
            → wrapped_extract x c ≡ some v.raw
            → IsAccepted c req i
        carried none e a h = cc
        carried (some x) e a h = record {
          name = s.name;
          scopes = s.scopes;
          raw = v.raw;
          scheme = s.scheme;
          verify = s.verify;
          extract = x;
          named = s.named;
          registered = s.registered;
          verifies = s.verifies;
          extracts = e;
          carried = h;
          accepted = a;
        }

    SomeVerified-SomeAccepted :
        (c : C) (i : I) (reqs : List SecurityRequirement)
        → AllSound reqs
        → SomeVerified (to_security_schemes no_identity schemes) c i (to_security_requirements reqs)
        → SomeAccepted c i reqs
    unfolding to_security_requirements
    SomeVerified-SomeAccepted c i [] s v = elim v [ ]
    SomeVerified-SomeAccepted c i (req ∷ reqs) (own, s) (here v) =
        here_accepted (IsVerified-IsAccepted c req i own v)
    SomeVerified-SomeAccepted c i (req ∷ reqs) (own, s) (there v) =
        there_accepted (SomeVerified-SomeAccepted c i reqs s v)

-- Where the registration of a live route with these requirements does not panic, its guard passes a
-- request on with an identity only if a scheme that one of the requirements names is registered
-- with a `Verify` and an `Extract` of its own, which took a credential from the request and
-- accepted it as that identity.
pub validate_secured_route-SomeAccepted :
    {C E I : Type 0} (is_error : E → Option E → Bool) (as_errors : E → List E) (no_identity : I)
    (schemes : Bytes → Option (Scheme C E I)) (cases : List (ErrCase E))
    (reqs : List SecurityRequirement) (c : C) (unauthorized : Option E) (i : I)
    → validate_secured_route schemes reqs cases false ≡ none
    → guard is_error as_errors
        (to_security_schemes no_identity schemes)
        cases
        c
        unauthorized
        (to_security_requirements reqs)
      ≡ some (passed i)
    → SomeAccepted schemes c i reqs
unfolding validate_secured_route
validate_secured_route-SomeAccepted is_error as_errors no_identity schemes cases reqs c unauthorized
      i v h =
    SomeVerified-SomeAccepted schemes no_identity c i reqs (sound reqs v) (
      guard-SomeVerified is_error as_errors (to_security_schemes no_identity schemes) cases c
        unauthorized (to_security_requirements reqs) i h)
  where
    sound :
        (rs : List SecurityRequirement)
        → validate_secured_route schemes rs cases false ≡ none
        → AllSound schemes rs
    sound [] e = tt
    sound (r ∷ rs) e =
        let (one, more) =
          or_panic-none (validate_requirements 0 (r ∷ rs))
            (or_panic (check_schemes schemes (r ∷ rs))
              (lift_panic schemes (validate_route (to_security_requirements (r ∷ rs)) cases false)))
            e in
        let (known, _) =
          or_panic-none (check_schemes schemes (r ∷ rs))
            (lift_panic schemes (validate_route (to_security_requirements (r ∷ rs)) cases false))
            more in
        checks-AllSound schemes 0 (r ∷ rs) one known
