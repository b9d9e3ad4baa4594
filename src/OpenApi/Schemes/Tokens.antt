-- ===== src/OpenApi/Schemes/Tokens.antt =====
-- A token is extracted as it was sent, whatever the case of the scheme and the blanks around it.
use xqua_go.Prelude.{
  lower, ℕ, suc, ◌<◌, ◌++◌, Bytes, bytes, true, false, [], ◌∷◌, some, ltb, leb, ◌==◌, length, drop,
  length-append, ◌≡◌, refl, ap, ◌∙◌, arith,
}
use xqua_go.OpenApi.Schemes.{
  equal_fold_prefix, is_blank, skip_blank, keep_unless_blank, cut_blank, trim_blank, unless_empty,
  extract_bearer, extract_basic, extract_http_scheme,
}

abbrev pub AllBlank : Bytes → Type 0
AllBlank [] = Unit {0}
AllBlank (c ∷ s) = (is_blank c ≡ true) × AllBlank s

-- The text is not empty and does not begin with a blank.
abbrev pub BeginsSolid : Bytes → Type 0
BeginsSolid [] = ⊥
BeginsSolid (c ∷ s) = is_blank c ≡ false

-- The text is not empty and does not end with a blank.
abbrev pub EndsSolid : Bytes → Type 0
EndsSolid [] = ⊥
EndsSolid (c ∷ []) = is_blank c ≡ false
EndsSolid (c ∷ d ∷ s) = EndsSolid (d ∷ s)

-- The texts differ in the case of letters at most.
abbrev pub IsFold : Bytes → Bytes → Type 0
IsFold [] [] = Unit {0}
IsFold [] (p ∷ ps) = ⊥
IsFold (c ∷ s) [] = ⊥
IsFold (c ∷ s) (p ∷ ps) = ((lower c == lower p) ≡ true) × IsFold s ps

skip_blank-append :
    (before token : Bytes) → AllBlank before → skip_blank (before ++ token) ≡ skip_blank token
unfolding skip_blank
skip_blank-append [] token b = refl
skip_blank-append (c ∷ before) token (own, b) = rw own (skip_blank-append before token b)

skip_blank-solid : (s t : Bytes) → BeginsSolid s → skip_blank (s ++ t) ≡ s ++ t
unfolding skip_blank
skip_blank-solid [] t h = elim h [ ]
skip_blank-solid (c ∷ s) t h = rw h refl

cut_blank-blank : (s : Bytes) → AllBlank s → cut_blank s ≡ []
unfolding cut_blank
cut_blank-blank [] b = refl
cut_blank-blank (c ∷ s) (own, b) = rw (cut_blank-blank s b) (rw own refl)

cut_blank-append : (s after : Bytes) → AllBlank after → cut_blank (s ++ after) ≡ cut_blank s
unfolding cut_blank
cut_blank-append [] after b = cut_blank-blank after b
cut_blank-append (c ∷ s) after b = ap (keep_unless_blank c) (cut_blank-append s after b)

cut_blank-solid : (s : Bytes) → EndsSolid s → cut_blank s ≡ s
unfolding cut_blank
cut_blank-solid [] h = elim h [ ]
cut_blank-solid (c ∷ []) h = rw h refl
cut_blank-solid (c ∷ d ∷ s) h = ap (keep_unless_blank c) (cut_blank-solid (d ∷ s) h)

trim_blank-token :
    (before token after : Bytes)
    → AllBlank before
    → AllBlank after
    → BeginsSolid token
    → EndsSolid token
    → trim_blank (before ++ (token ++ after)) ≡ token
trim_blank-token before token after b a first last =
    ap cut_blank (skip_blank-append before (token ++ after) b ∙ skip_blank-solid token after first)
    ∙ cut_blank-append token after a
    ∙ cut_blank-solid token last

equal_fold_prefix-append :
    (p name rest : Bytes)
    → IsFold p name
    → equal_fold_prefix (p ++ (b' ' ∷ rest)) (name ++ b' ' ∷ []) ≡ true
unfolding equal_fold_prefix
equal_fold_prefix-append [] [] rest f = refl
equal_fold_prefix-append [] (c ∷ name) rest f = elim f [ ]
equal_fold_prefix-append (c ∷ p) [] rest f = elim f [ ]
equal_fold_prefix-append (c ∷ p) (d ∷ name) rest (own, f) =
    rw own (equal_fold_prefix-append p name rest f)

drop-prefix :
    (p name rest : Bytes)
    → IsFold p name
    → drop (length (name ++ b' ' ∷ [])) (p ++ (b' ' ∷ rest)) ≡ rest
drop-prefix [] [] rest f = refl
drop-prefix [] (c ∷ name) rest f = elim f [ ]
drop-prefix (c ∷ p) [] rest f = elim f [ ]
drop-prefix (c ∷ p) (d ∷ name) rest (own, f) = drop-prefix p name rest f

longer :
    (p name before token after : Bytes)
    → IsFold p name
    → BeginsSolid token
    → length (name ++ b' ' ∷ []) < length (p ++ (b' ' ∷ (before ++ (token ++ after))))
longer [] [] before [] after f h = elim h [ ]
longer [] [] before (t ∷ token) after f h =
    omega (arith, length-append {0} before ((t ∷ token) ++ after))
longer [] (c ∷ name) before token after f h = elim f [ ]
longer (c ∷ p) [] before token after f h = elim f [ ]
longer (c ∷ p) (d ∷ name) before token after (own, f) h =
    let rest = longer p name before token after f h in omega arith

solid-some : (token : Bytes) → BeginsSolid token → unless_empty token ≡ some token
solid-some [] h = elim h [ ]
solid-some (c ∷ s) h = refl

-- A header of a scheme in any case, a space, and a token with blanks around it yields the token:
-- the token is not empty, and neither begins nor ends with a blank.
pub extract_http_scheme-token :
    (name p before token after : Bytes)
    → IsFold p name
    → AllBlank before
    → AllBlank after
    → BeginsSolid token
    → EndsSolid token
    → extract_http_scheme name (p ++ (b' ' ∷ (before ++ (token ++ after)))) ≡ some token
unfolding extract_http_scheme
extract_http_scheme-token name p before token after f b a first last =
    let long = longer p name before token after f first in
    let fits : leb (length (p ++ (b' ' ∷ (before ++ (token ++ after)))))
          (length (name ++ b' ' ∷ []))
        ≡ false =
      ground arith in
    rw fits (
      rw (equal_fold_prefix-append p name (before ++ (token ++ after)) f) (
        rw (drop-prefix p name (before ++ (token ++ after)) f) (
          ap unless_empty (trim_blank-token before token after b a first last)
          ∙ solid-some token first)))

-- The extractors of the bearer and the basic scheme are those of the schemes of that name.
pub extract_bearer-http_scheme :
    (auth : Bytes)
    → (extract_bearer auth ≡ extract_http_scheme (bytes "Bearer") auth)
      × (extract_basic auth ≡ extract_http_scheme (bytes "Basic") auth)
unfolding extract_bearer extract_basic extract_http_scheme
extract_bearer-http_scheme auth =
    (rw (shorter (length auth) 7) refl, rw (shorter (length auth) 6) refl)
  where
    shorter : (n k : ℕ) → ltb n (suc k) ≡ leb n k
    shorter n k = ground arith
