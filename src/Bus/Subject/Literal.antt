-- ===== src/Bus/Subject/Literal.antt =====
-- A pattern without a wildcard matches itself and nothing else, so the exact lookup of a subject
-- in the index finds what a scan by `match_pattern` would.
use xqua_go.Prelude.{
  ℕ, Bytes, bytes_eq, bytes_eq_iff, Bool-cases, true, false, List, [], ◌∷◌, ◌++◌, ◌≡◌, refl, sym,
  ◌∙◌, ap, subst, ◌↔◌, ◌==◌, inl, inr, arith,
}
use xqua_go.Bus.Subject.{
  dot, star, rest_mark, onto_first, split, any_wild, is_wildcard, match_pattern,
}
use xqua_go.Bus.Subject.Matching.{Matches, done, one, same, rest, up_to_rest, match_pattern_iff}

-- Go's `strings.Join(tokens, ".")`.
join : List Bytes → Bytes
join [] = []
join (t ∷ []) = t
join (t ∷ u ∷ ts) = t ++ dot ∷ join (u ∷ ts)

join-onto_first : (c : ℕ) (ts : List Bytes) → join (onto_first c ts) ≡ c ∷ join ts
unfolding join
join-onto_first c [] = refl
join-onto_first c (t ∷ []) = refl
join-onto_first c (t ∷ u ∷ ts) = refl

join-dot : (s : Bytes) → join ([] ∷ split s) ≡ dot ∷ join (split s)
unfolding join split
join-dot [] = refl
join-dot (c ∷ s) = elim (Bool-cases (c == dot)) [ inl e ↦ rw e | inr e ↦ rw e (onto (split s)) ]
  where
    onto : (ts : List Bytes) → join ([] ∷ onto_first c ts) ≡ dot ∷ join (onto_first c ts)
    onto [] = refl
    onto (t ∷ ts) = refl

join-split : (s : Bytes) → join (split s) ≡ s
unfolding split
join-split [] = unfold join in refl
join-split (c ∷ s) = elim (Bool-cases (c == dot)) [
  | inl e ↦ rw e (join-dot s ∙ ground (arith, join-split s))
  | inr e ↦ rw e (join-onto_first c (split s) ∙ ap (◌∷◌ c) (join-split s))
]

Matches-literal : {toks ss : List Bytes} → any_wild toks ≡ false → Matches toks ss → toks ≡ ss
unfolding any_wild
Matches-literal w done = refl
Matches-literal w (one {tok = tok} e m) = ground (arith, bytes_eq_iff tok star)
Matches-literal w (same {toks = toks} e m) = ground (arith, Matches-literal {toks = toks} _ m)
Matches-literal w (rest {tok = tok} e) = ground (arith, bytes_eq_iff tok rest_mark)

Matches_refl : (toks : List Bytes) → Matches toks toks
Matches_refl [] = done
Matches_refl (t ∷ ts) = same refl (Matches_refl ts)

up_to_rest-literal : (toks : List Bytes) → any_wild toks ≡ false → up_to_rest toks ≡ toks
unfolding any_wild
up_to_rest-literal [] w = refl
up_to_rest-literal (tok ∷ toks) w =
    let plain : bytes_eq tok rest_mark ≡ false = ground arith in
    rw plain (ap (◌∷◌ tok) (up_to_rest-literal toks (ground arith)))

-- A pattern without wildcard tokens matches a subject exactly when it is that subject.
pub match_pattern-literal :
    (pattern subject : Bytes)
    → is_wildcard pattern ≡ false
    → (match_pattern (split pattern) subject ≡ true) ↔ (pattern ≡ subject)
unfolding is_wildcard
match_pattern-literal pattern subject w = (
  λ h.
      sym (join-split pattern)
      ∙ ap join (
          Matches-literal w (
            subst (λ ts. Matches ts (split subject)) (up_to_rest-literal (split pattern) w)
              ((match_pattern_iff (split pattern) subject).0 h)))
      ∙ join-split subject,
  λ e. (match_pattern_iff (split pattern) subject).1 (
      subst (λ ts. Matches ts (split subject)) (sym (up_to_rest-literal (split pattern) w))
        (subst (λ s. Matches (split pattern) (split s)) e (Matches_refl (split pattern)))),
)
