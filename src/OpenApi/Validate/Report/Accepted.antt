-- ===== src/OpenApi/Validate/Report/Accepted.antt =====
-- What is accepted: problems of which none is an error, in parts.
use xqua_go.Prelude.{
  Bool, true, false, Bool-cases, ◌||◌, List, [], ◌∷◌, ◌++◌, none, some, ◌≡◌, inl, inr, refl, ap,
  arith,
}
use xqua_go.OpenApi.Validate.{Problem, severity_error, when}
use xqua_go.OpenApi.Validate.Report.{
  same_severity, collect_validation_errors, join_errors, has_severity,
}

-- No problem is an error.
abbrev pub IsAccepted : List Problem → Type 0
IsAccepted errs = has_severity errs severity_error ≡ false

-- Where nothing is joined, no problem is an error.
pub join_errors-IsAccepted : (errs : List Problem) → join_errors errs ≡ none → IsAccepted errs
unfolding join_errors has_severity collect_validation_errors
join_errors-IsAccepted [] h = refl
join_errors-IsAccepted (p ∷ ps) h = elim (Bool-cases (same_severity p.severity severity_error)) [
  | inl bad ↦ absurd (refused (rw bad at h))
  | inr fine ↦ rw fine (join_errors-IsAccepted ps (rw fine at h))
]
  where
    refused : some (p ∷ collect_validation_errors ps severity_error true) ≡ none → ⊥
    refused e = cc

-- What is accepted together is accepted in its parts.
pub IsAccepted-append :
    (ps qs : List Problem) → IsAccepted (ps ++ qs) → IsAccepted ps × IsAccepted qs
unfolding has_severity
IsAccepted-append [] qs h = (refl, h)
IsAccepted-append (p ∷ ps) qs h = elim (Bool-cases (same_severity p.severity severity_error)) [
  | inl bad ↦ absurd (ground arith)
  | inr fine ↦ let (own, rest) = IsAccepted-append ps qs (rw fine at h) in (rw fine own, rest)
]

-- A test that would report an error fails.
pub IsAccepted-when :
    (test : Bool) (p : Problem)
    → p.severity ≡ severity_error
    → IsAccepted (when test p)
    → test ≡ false
unfolding has_severity
IsAccepted-when true p e h = absurd (other (ap (λ s. same_severity s severity_error) e) h)
  where
    other :
        same_severity p.severity severity_error ≡ true
        → (same_severity p.severity severity_error || false) ≡ false
        → ⊥
    other e h = ground arith
IsAccepted-when false p e h = refl

-- An error is not accepted.
pub IsAccepted-cons :
    (p : Problem) (ps : List Problem) → p.severity ≡ severity_error → ¬ IsAccepted (p ∷ ps)
unfolding has_severity
IsAccepted-cons p ps e h = other (ap (λ s. same_severity s severity_error) e) h
  where
    other :
        same_severity p.severity severity_error ≡ true
        → (same_severity p.severity severity_error || has_severity ps severity_error) ≡ false
        → ⊥
    other e h = ground arith
