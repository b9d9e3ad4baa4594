-- ===== src/Security/Access.antt =====
-- Who gets past the guard: only a request that carries a credential which the scheme of one of the
-- route's requirements verifies.
use xqua_go.Prelude.{Bytes, Bool, List, [], ◌∷◌, Option, none, some, ◌≡◌, ◌≢◌, ◌∙◌, refl}
use xqua_go.Security.{
  Requirement, Credential, Scheme, Verified, identity, refused, ErrCase, Answer, passed,
  plain_unauthorized, Kept, guard, guard_loop, attempt, with_scheme, extracted, verified, answer_or,
  first_of,
}

module _ {C E I : Type 0} where
  -- The first scheme that a requirement names extracts a credential and verifies it.
  pub record IsVerified (schemes : Bytes → Option (Scheme C E I)) (c : C) (req : Requirement)
      (i : I) : Type 0 where
    pub name : Bytes
    pub names : List Bytes
    pub raw : Bytes
    pub scheme : Scheme C E I
    pub verify : C → Credential → Verified E I
    pub extract : C → Option Bytes
    pub named : req.names ≡ name ∷ names
    pub registered : schemes name ≡ some scheme
    pub verifies : scheme.verify ≡ some verify
    pub extracts : scheme.extract ≡ some extract
    pub carried : extract c ≡ some raw
    pub accepted : verify c (record { scheme = name; raw = raw; scopes = req.scopes }) ≡ identity i

  -- Some requirement of the list is verified.
  pub data SomeVerified (schemes : Bytes → Option (Scheme C E I)) (c : C) (i : I)
      : List Requirement → Type 0 where
    here :
        {req : Requirement} {reqs : List Requirement}
        → IsVerified schemes c req i
        → SomeVerified schemes c i (req ∷ reqs)
    there :
        {req : Requirement} {reqs : List Requirement}
        → SomeVerified schemes c i reqs
        → SomeVerified schemes c i (req ∷ reqs)

module _ {C E I : Type 0} (is_error : E → Option E → Bool) (as_errors : E → List E)
    (schemes : Bytes → Option (Scheme C E I)) (cases : List (ErrCase E)) where
  attempt-IsVerified :
      (c : C) (req : Requirement) (i : I)
      → attempt is_error as_errors schemes cases c req.scopes req.names ≡ some (identity i)
      → IsVerified schemes c req i
  attempt-IsVerified c req i h = named req.names refl h
    where
      carried :
          (name : Bytes) (names : List Bytes) (s : Scheme C E I) (v : C → Credential → Verified E I)
          (x : C → Option Bytes) (r : Option Bytes)
          → req.names ≡ name ∷ names
          → schemes name ≡ some s
          → s.verify ≡ some v
          → s.extract ≡ some x
          → x c ≡ r
          → verified is_error as_errors schemes cases c name req.scopes v r ≡ some (identity i)
          → IsVerified schemes c req i
      carried name names s v x none n g a b e h = cc
      carried name names s v x (some raw) n g a b e h = record {
        name = name;
        names = names;
        raw = raw;
        scheme = s;
        verify = v;
        extract = x;
        named = n;
        registered = g;
        verifies = a;
        extracts = b;
        carried = e;
        accepted = cc;
      }

      given :
          (name : Bytes) (names : List Bytes) (s : Scheme C E I)
          (v : Option (C → Credential → Verified E I)) (x : Option (C → Option Bytes))
          → req.names ≡ name ∷ names
          → schemes name ≡ some s
          → s.verify ≡ v
          → s.extract ≡ x
          → extracted is_error as_errors schemes cases c name req.scopes v x ≡ some (identity i)
          → IsVerified schemes c req i
      given name names s none x n g a b h = cc
      given name names s (some v) none n g a b h = cc
      given name names s (some v) (some x) n g a b h = carried name names s v x (x c) n g a b refl h

      registered :
          (name : Bytes) (names : List Bytes) (o : Option (Scheme C E I))
          → req.names ≡ name ∷ names
          → schemes name ≡ o
          → with_scheme is_error as_errors schemes cases c name req.scopes o ≡ some (identity i)
          → IsVerified schemes c req i
      registered name names none n g h = cc
      registered name names (some s) n g h = given name names s s.verify s.extract n g refl refl h

      named :
          (names : List Bytes)
          → req.names ≡ names
          → attempt is_error as_errors schemes cases c req.scopes names ≡ some (identity i)
          → IsVerified schemes c req i
      named [] n h = cc
      named (name ∷ names) n h = registered name names (schemes name) n refl h

  first_of-not_passed :
      (o : Option E) (a : Answer E I) (i : I)
      → first_of is_error as_errors o a ≡ passed i
      → a ≡ passed i
  first_of-not_passed none a i h = h
  first_of-not_passed (some e) a i h = cc

  guard_loop-SomeVerified :
      (c : C) (unauthorized : Option E) (reqs : List Requirement) (k : Kept E) (i : I)
      → guard_loop is_error as_errors schemes cases c unauthorized reqs k ≡ passed i
      → SomeVerified schemes c i reqs
  unfolding guard_loop
  guard_loop-SomeVerified c unauthorized [] k i h = absurd (
      no_plain (
        first_of-not_passed unauthorized _ i
          (first_of-not_passed k.auth_401 _ i (first_of-not_passed k.forbidden _ i h))))
    where
      no_plain : (◌≢◌ {A = Answer E I} plain_unauthorized (passed i))
      no_plain e = cc
  guard_loop-SomeVerified c unauthorized (req ∷ reqs) k i h =
      tried (λ k'. guard_loop-SomeVerified c unauthorized reqs k' i)
        (attempt is_error as_errors schemes cases c req.scopes req.names) refl h
    where
      tried :
          ((k' : Kept E)
            → guard_loop is_error as_errors schemes cases c unauthorized reqs k' ≡ passed i
            → SomeVerified schemes c i reqs)
          → (o : Option (Verified E I))
          → attempt is_error as_errors schemes cases c req.scopes req.names ≡ o
          → answer_or is_error as_errors schemes cases o k
              (guard_loop is_error as_errors schemes cases c unauthorized reqs)
            ≡ passed i
          → SomeVerified schemes c i (req ∷ reqs)
      tried rec none a h = there (rec k h)
      tried rec (some (identity j)) a h =
          let same : ◌≡◌ {A = Option (Verified E I)} (some (identity j)) (some (identity i)) = cc in
          here (attempt-IsVerified c req i (a ∙ same))
      tried rec (some (refused e)) a h = there (rec _ h)

  -- A guard passes a request on with an identity only where the scheme of one of the requirements
  -- has extracted a credential from the request and verified it as that identity.
  pub guard-SomeVerified :
      (c : C) (unauthorized : Option E) (reqs : List Requirement) (i : I)
      → guard is_error as_errors schemes cases c unauthorized reqs ≡ some (passed i)
      → SomeVerified schemes c i reqs
  unfolding guard
  guard-SomeVerified c unauthorized [] i h = cc
  guard-SomeVerified c unauthorized (req ∷ reqs) i h =
      guard_loop-SomeVerified c unauthorized (req ∷ reqs)
        (record { forbidden = none; auth_401 = none }) i cc
