-- ===== src/OpenApi/Policy/Effective.antt =====
-- Which declaration of security applies to a route: the last explicit one, from the default over
-- the groups, outermost first, to the route itself.
use xqua_go.Prelude.{
  ℕ, zero, suc, ◌≤◌, Bool, false, List, [], ◌∷◌, ◌++◌, some, ◌≡◌, refl, sym, ap, ◌∙◌, arith, length,
  get_elem?, take, if◌then◌else◌,
}
use xqua_go.OpenApi.Policy.{
  SecuritySpec, SecurityRequirement, declared, declared_or, resolve_groups, resolve_security,
}

-- An explicit declaration takes the place of what was inherited.
abbrev pub override : SecuritySpec → SecuritySpec → SecuritySpec
override inherited s = if s.explicit then s else inherited

abbrev pub override_all : SecuritySpec → List SecuritySpec → SecuritySpec
override_all inherited [] = inherited
override_all inherited (s ∷ ss) = override_all (override inherited s) ss

-- What applies where nothing is explicit: no requirement, and not public.
abbrev pub applied : SecuritySpec → List SecurityRequirement × Bool
applied s = if s.explicit then declared s else ([], false)

override_all-snoc :
    (inherited s : SecuritySpec) (ss : List SecuritySpec)
    → override_all inherited (ss ++ s ∷ []) ≡ override (override_all inherited ss) s
override_all-snoc inherited s [] = refl
override_all-snoc inherited s (t ∷ ss) = override_all-snoc (override inherited t) s ss

applied-override :
    (inherited s : SecuritySpec)
    → applied (override inherited s) ≡ declared_or (some s) (applied inherited)
applied-override inherited s = ground arith

take-suc :
    {A : Type 0} (xs : List A) (n : ℕ)
    → suc n ≤ length xs
    → (x : A) × (get_elem? xs n ≡ some x) × (take (suc n) xs ≡ take n xs ++ x ∷ [])
take-suc [] n h = ground arith
take-suc (x ∷ xs) zero h = (x, refl, refl)
take-suc (x ∷ xs) (suc n) h =
    let (y, e, t) = take-suc xs n (omega arith) in (y, e, ap (λ l. x ∷ l) t)

take-length : {A : Type 0} (xs : List A) → take (length xs) xs ≡ xs
take-length [] = refl
take-length (x ∷ xs) = ap (λ l. x ∷ l) (take-length xs)

resolve_groups-applied :
    (groups : List SecuritySpec) (default_spec : SecuritySpec) (n : ℕ)
    → n ≤ length groups
    → resolve_groups groups n (applied default_spec)
      ≡ applied (override_all default_spec (take n groups))
unfolding resolve_groups
resolve_groups-applied groups default_spec zero h = refl
resolve_groups-applied groups default_spec (suc n) h =
    let (s, e, t) = take-suc groups n h in
    rw e (
      rw t (
        rw (override_all-snoc default_spec s (take n groups)) (
          ap (declared_or (some s)) (resolve_groups-applied groups default_spec n (omega arith))
          ∙ sym (applied-override (override_all default_spec (take n groups)) s))))

-- The security of a route is that of the last explicit declaration among the default, its groups
-- from the outermost on, and the route: none where it is public, its requirements otherwise, and
-- no requirement where there is no explicit declaration.
pub resolve_security-last_explicit :
    (route : SecuritySpec) (groups : List SecuritySpec) (default_spec : SecuritySpec)
    → resolve_security route groups default_spec
      ≡ applied (override_all default_spec (groups ++ route ∷ []))
unfolding resolve_security
resolve_security-last_explicit route groups default_spec =
    rw (override_all-snoc default_spec route groups) (
      ap (declared_or (some route)) (
        resolve_groups-applied groups default_spec (length groups) (omega arith)
        ∙ ap (λ l. applied (override_all default_spec l)) (take-length groups))
      ∙ sym (applied-override (override_all default_spec groups) route))
