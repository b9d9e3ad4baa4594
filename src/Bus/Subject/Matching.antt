-- ===== src/Bus/Subject/Matching.antt =====
-- What a pattern means: `Matches` relates the tokens of a pattern to those of a subject, and
-- `match_pattern` decides it in one walk over the subject.
use xqua_go.Prelude.{
  ℕ, Bytes, bytes_eq, bytes_eq_iff, bytes_eq_cases, Bool, Bool-cases, true, false, List, [], ◌∷◌,
  ◌++◌, append_assoc, append-nil, ◌≡◌, refl, sym, ◌∙◌, ◌↔◌, ◌==◌, ◌||◌, ◌&&◌, inl, inr, arith, ap,
  if◌then◌else◌,
}
use xqua_go.Bus.Subject.{dot, star, rest_mark, onto_first, split, match_from, match_pattern}

-- "*" takes one token, ">" takes the one or more that are left where it is the last of the pattern,
-- any token takes itself.
pub data Matches : List Bytes → List Bytes → Type 0 where
  done : Matches [] []
  one :
      {tok s : Bytes} {toks ss : List Bytes}
      → tok ≡ star
      → Matches toks ss
      → Matches (tok ∷ toks) (s ∷ ss)
  same :
      {tok s : Bytes} {toks ss : List Bytes}
      → tok ≡ s
      → Matches toks ss
      → Matches (tok ∷ toks) (s ∷ ss)
  rest : {tok s : Bytes} {ss : List Bytes} → tok ≡ rest_mark → Matches (tok ∷ []) (s ∷ ss)

-- The tokens up to the first ">", with it: of a pattern that has ">" at its end only, all of them.
abbrev pub up_to_rest : List Bytes → List Bytes
up_to_rest [] = []
up_to_rest (tok ∷ toks) =
    let more = up_to_rest toks in tok ∷ (if bytes_eq tok rest_mark then [] else more)

-- The segment read so far goes to the front of the first token that is still to come.
abbrev with_seg : Bytes → List Bytes → List Bytes
with_seg seg [] = seg ∷ []
with_seg seg (t ∷ ts) = (seg ++ t) ∷ ts

with_seg-onto_first :
    (seg : Bytes) (c : ℕ) (ts : List Bytes)
    → with_seg seg (onto_first c ts) ≡ with_seg (seg ++ c ∷ []) ts
with_seg-onto_first seg c [] = refl
with_seg-onto_first seg c (t ∷ ts) = rw append_assoc

-- The same walk over the tokens of the subject.
match_tokens : List Bytes → List Bytes → Bool
match_tokens [] [] = true
match_tokens [] (_ ∷ _) = false
match_tokens (_ ∷ _) [] = false
match_tokens (tok ∷ toks) (s ∷ ss) =
    bytes_eq tok rest_mark || ((bytes_eq tok star || bytes_eq tok s) && match_tokens toks ss)

split-cons : (s : Bytes) → with_seg [] (split s) ≡ split s
unfolding split
split-cons [] = refl
split-cons (c ∷ s) = elim (Bool-cases (c == dot)) [ inl e ↦ rw e | inr e ↦ rw e (onto s) ]
  where
    onto : (s : Bytes) → with_seg [] (onto_first c (split s)) ≡ onto_first c (split s)
    onto s = elim (split s) as (λ ts. with_seg [] (onto_first c ts) ≡ onto_first c ts) [
      | [] ↦ refl
      | t ∷ ts ↦ refl
    ]

match_from-eq :
    (toks : List Bytes) (seg s : Bytes)
    → match_from toks seg s ≡ match_tokens toks (with_seg seg (split s))
unfolding match_from split match_tokens
match_from-eq [] seg [] = refl
match_from-eq (tok ∷ []) seg [] = simp append-nil (ground arith)
match_from-eq (tok ∷ next ∷ toks) seg [] = simp append-nil (ground arith)
match_from-eq [] seg (c ∷ s) = elim (Bool-cases (c == dot)) [
  | inl e ↦ rw e
  | inr e ↦ rw (e, with_seg-onto_first seg c (split s)) (match_from-eq [] (seg ++ c ∷ []) s)
]
match_from-eq (tok ∷ toks) seg (c ∷ s) = elim (Bool-cases (c == dot)) [
  | inl e ↦ rw (e, append-nil seg, match_from-eq toks [] s, split-cons s) (ground arith)
  | inr e ↦
      rw (e, with_seg-onto_first seg c (split s)) (match_from-eq (tok ∷ toks) (seg ++ c ∷ []) s)
]

match_tokens-sound :
    (toks ss : List Bytes) → match_tokens toks ss ≡ true → Matches (up_to_rest toks) ss
unfolding match_tokens
match_tokens-sound [] [] h = done
match_tokens-sound [] (s ∷ ss) h = ground arith
match_tokens-sound (tok ∷ toks) [] h = ground arith
match_tokens-sound (tok ∷ toks) (s ∷ ss) h = elim (bytes_eq_cases tok rest_mark) [
  | inl (b, e) ↦ rw b (rest e)
  | inr (b, _) ↦ rw b (elim (bytes_eq_cases tok star) [
    | inl (b', e) ↦ one e (match_tokens-sound toks ss (ground arith))
    | inr (b', _) ↦ elim (bytes_eq_cases tok s) [
      | inl (b2, e) ↦ same e (match_tokens-sound toks ss (ground arith))
      | inr (b2, _) ↦ ground arith
    ]
  ])
]

-- The walk over all tokens, once those up to the first ">" match.
match_tokens_complete :
    {us ss : List Bytes}
    → Matches us ss
    → (toks : List Bytes) → up_to_rest toks ≡ us
    → match_tokens toks ss ≡ true
unfolding match_tokens
match_tokens_complete done [] e = refl
match_tokens_complete done (tok ∷ toks) e = cc
match_tokens_complete (one o m) [] e = cc
match_tokens_complete (one o m) (tok ∷ toks) e = elim (bytes_eq_cases tok rest_mark) [
  | inl (b, _) ↦ rw b
  | inr (b, _) ↦
      let unmarked = rw b at e in
      let here_ : tok ≡ star = cc in
      let deeper = match_tokens_complete m toks (cc) in
      ground (arith, deeper, bytes_eq_iff tok star)
]
match_tokens_complete (same o m) [] e = cc
match_tokens_complete (same {s = s} o m) (tok ∷ toks) e = elim (bytes_eq_cases tok rest_mark) [
  | inl (b, _) ↦ rw b
  | inr (b, _) ↦
      let unmarked = rw b at e in
      let here_ : tok ≡ s = cc in
      let deeper = match_tokens_complete m toks (cc) in ground (arith, deeper, bytes_eq_iff tok s)
]
match_tokens_complete (rest o) [] e = cc
match_tokens_complete (rest o) (tok ∷ toks) e =
    let marked : tok ≡ rest_mark = cc in ground (arith, bytes_eq_iff tok rest_mark)

-- `match_pattern` holds of a pattern's tokens and a subject exactly when the tokens of the subject
-- match those of the pattern up to its first ">": what a pattern has after it is not looked at.
pub match_pattern_iff :
    (tokens : List Bytes) (subject : Bytes)
    → (match_pattern tokens subject ≡ true) ↔ Matches (up_to_rest tokens) (split subject)
unfolding match_pattern
match_pattern_iff tokens subject = (
  λ h. match_tokens-sound tokens (split subject) (sym (eq tokens subject) ∙ h),
  λ m. eq tokens subject ∙ match_tokens_complete m tokens refl,
)
  where
    eq : (ts : List Bytes) (s : Bytes) → match_from ts [] s ≡ match_tokens ts (split s)
    eq ts s = match_from-eq ts [] s ∙ ap (match_tokens ts) (split-cons s)
