-- ===== src/OpenApi/Validate/Templates/Rendering.antt =====
-- A path that is written from pieces is read as these pieces.
use xqua_go.Prelude.{
  ℕ, Bytes, bytes, List, [], ◌∷◌, ◌++◌, Option, none, some, ◌≡◌, ◌≢◌, refl, ap, ◌∙◌, sym,
  append_assoc, append-nil,
}
use xqua_go.OpenApi.Validate.Templates.{
  Piece, literal, param, plain, brace, pieces, names_of, replaced, param_names, replace_params,
  normalize_templated_path, read_plain, kept, closed, piece_step,
}

abbrev pub AllPlain : Bytes → Type 0
AllPlain [] = Unit {0}
AllPlain (c ∷ s) = (brace c ≡ plain) × AllPlain s

-- The bytes and the names have no braces in them, and the names are not empty.
abbrev pub AllReadable : List Piece → Type 0
AllReadable [] = Unit {0}
AllReadable (literal c ∷ ps) = (brace c ≡ plain) × AllReadable ps
AllReadable (param name ∷ ps) = (name ≢ []) × AllPlain name × AllReadable ps

abbrev pub render : List Piece → Bytes
render [] = []
render (literal c ∷ ps) = c ∷ render ps
render (param name ∷ ps) = 123 ∷ (name ++ (125 ∷ render ps))

pieces-plain :
    (acc : Option Bytes) (c : ℕ) (s : Bytes)
    → brace c ≡ plain
    → pieces acc (c ∷ s) ≡ kept acc c ++ pieces (read_plain acc c) s
unfolding pieces
pieces-plain acc c s h = ap (λ b. piece_step b acc c (λ o. pieces o s)) h

pieces-closes : (acc : Option Bytes) (s : Bytes) → pieces acc (125 ∷ s) ≡ closed acc (pieces none s)
unfolding pieces brace
pieces-closes acc s = refl

pieces-opens : (s : Bytes) → pieces none (123 ∷ s) ≡ pieces (some []) s
unfolding pieces brace
pieces-opens s = refl

pieces-name :
    (acc name rest : Bytes)
    → AllPlain name
    → pieces (some acc) (name ++ (125 ∷ rest)) ≡ closed (some (acc ++ name)) (pieces none rest)
pieces-name acc [] rest h =
    pieces-closes (some acc) rest
    ∙ ap (λ n. closed (some n) (pieces none rest)) (sym (append-nil acc))
pieces-name acc (c ∷ name) rest (own, h) =
    pieces-plain (some acc) c (name ++ (125 ∷ rest)) own
    ∙ (pieces-name (acc ++ c ∷ []) name rest h
        ∙ ap (λ n. closed (some n) (pieces none rest)) (append_assoc acc (c ∷ []) name))

closed-param :
    (name : Bytes) (ps : List Piece) → name ≢ [] → closed (some name) ps ≡ param name ∷ ps
closed-param [] ps ne = absurd (ne refl)
closed-param (c ∷ name) ps ne = refl

-- A path is read as the pieces that it was written from.
pieces-render : (ps : List Piece) → AllReadable ps → pieces none (render ps) ≡ ps
unfolding pieces
pieces-render [] h = refl
pieces-render (literal c ∷ ps) (own, h) =
    pieces-plain none c (render ps) own ∙ ap (λ l. literal c ∷ l) (pieces-render ps h)
pieces-render (param name ∷ ps) (ne, own, h) =
    pieces-opens (name ++ (125 ∷ render ps))
    ∙ pieces-name [] name (render ps) own
    ∙ closed-param name (pieces none (render ps)) ne
    ∙ ap (λ l. param name ∷ l) (pieces-render ps h)

-- A path that is written from plain bytes and from names in braces, which are not empty and have no
-- braces in them, has these names as its parameters, and is normalized to the same path with the
-- names left out.
pub param_names-render :
    (ps : List Piece)
    → AllReadable ps
    → (param_names (render ps) ≡ names_of ps)
      × (normalize_templated_path (render ps) ≡ replaced (bytes "{}") ps)
unfolding param_names normalize_templated_path replace_params
param_names-render ps h =
    (ap names_of (pieces-render ps h), ap (replaced (bytes "{}")) (pieces-render ps h))
