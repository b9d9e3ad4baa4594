-- ===== src/Bus/Subject.antt =====
-- Subjects and patterns of pkg/bus/local.go: `isWildcard` and `matchPattern`. A subject is a list
-- of bytes; `split` is Go's `strings.Split(s, ".")`.
pub mod Matching
pub mod Literal
use xqua_go.Prelude.{
  ℕ, Bytes, bytes_eq, bytes, Bool, true, false, not, ◌&&◌, ◌||◌, List, [], ◌∷◌, ◌++◌, ◌==◌,
  if◌then◌else◌,
}

abbrev pub dot : ℕ
dot = b'.'

abbrev pub star : Bytes
star = bytes "*"

abbrev pub rest_mark : Bytes
rest_mark = bytes ">"

-- One more byte at the front of the first token.
abbrev pub onto_first : ℕ → List Bytes → List Bytes
onto_first c [] = (c ∷ []) ∷ []
onto_first c (t ∷ ts) = (c ∷ t) ∷ ts

unfoldable pub split : Bytes → List Bytes
split [] = [] ∷ []
split (c ∷ s) = let rest = split s in if c == dot then [] ∷ rest else onto_first c rest

any_wild : List Bytes → Bool
any_wild [] = false
any_wild (tok ∷ toks) = (bytes_eq tok star || bytes_eq tok rest_mark) || any_wild toks

unfoldable pub is_wildcard : Bytes → Bool
unfolding any_wild split
is_wildcard pattern = any_wild (split pattern)

-- The loop of `matchPattern` at one position: the arguments are `tokens[ti:]`,
-- `subject[start:i]` and `subject[i:]`. The last clauses of each case are the round `i == n`.
match_from : List Bytes → Bytes → Bytes → Bool
match_from [] seg [] = false
match_from (tok ∷ toks) seg [] =
    if bytes_eq tok rest_mark
    then true
    else if not (bytes_eq tok star) && not (bytes_eq tok seg)
    then false
    else elim toks [ [] ↦ true | _ ∷ _ ↦ false ]
match_from [] seg (c ∷ s) =
    let onward = match_from [] (seg ++ c ∷ []) s in if c == dot then false else onward
match_from (tok ∷ toks) seg (c ∷ s) =
    let onward = match_from (tok ∷ toks) (seg ++ c ∷ []) s in
    let next = match_from toks [] s in
    if not (c == dot)
    then onward
    else if bytes_eq tok rest_mark
    then true
    else if not (bytes_eq tok star) && not (bytes_eq tok seg)
    then false
    else next

unfoldable pub match_pattern : List Bytes → Bytes → Bool
unfolding match_from
match_pattern tokens subject = match_from tokens [] subject
