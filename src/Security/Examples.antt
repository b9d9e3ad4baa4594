-- ===== src/Security/Examples.antt =====
-- The theorems about the guard at a route with one scheme, whose credentials and identities are
-- texts.
use xqua_go.Prelude.{Bytes, bytes, Bool, false, List, [], ◌∷◌, Option, none, some, ◌≡◌, refl}
use xqua_go.Security.{Requirement, Scheme, identity, passed, guard, guard_loop}
use xqua_go.Security.Access.{SomeVerified, guard-SomeVerified}

abbrev bearer : Scheme Bytes Bytes Bytes
bearer = record { verify = some (λ c cred. identity (cred.raw)); extract = some (λ c. some c) }

abbrev schemes : Bytes → Option (Scheme Bytes Bytes Bytes)
schemes name = some bearer

abbrev is_error : Bytes → Option Bytes → Bool
is_error e t = false

abbrev as_errors : Bytes → List Bytes
as_errors e = e ∷ []

abbrev requirements : List Requirement
requirements =
    record { names = []; scopes = [] } ∷ record { names = bytes "bearer" ∷ []; scopes = [] } ∷ []

passes :
    guard is_error as_errors schemes [] (bytes "ann") none requirements
    ≡ some (passed (bytes "ann"))
unfolding guard guard_loop
passes = refl

guard-SomeVerified_example : SomeVerified schemes (bytes "ann") (bytes "ann") requirements
guard-SomeVerified_example =
    guard-SomeVerified is_error as_errors schemes [] (bytes "ann") none requirements (bytes "ann")
      passes
