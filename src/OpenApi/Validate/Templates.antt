-- ===== src/OpenApi/Validate/Templates.antt =====
-- Templated paths, `pathParamRe` and `NormalizeTemplatedPath` of utils.go.
--
-- A match of `\{([^{}]+)\}` begins at a brace that opens, whose text up to the next brace is not
-- empty, where that brace closes. The text is read once, with what was read since a brace opened.
pub mod Rendering
use xqua_go.Prelude.{
  ℕ, Bytes, bytes, Bool, true, false, List, [], ◌∷◌, ◌++◌, Option, none, some, ◌==◌, if◌then◌else◌,
}

-- A piece of a path: a byte, or a parameter by its name.
pub data Piece : Type 0 where
  literal : ℕ → Piece
  param : Bytes → Piece

pub data Brace : Type 0 where
  opens : Brace
  closes : Brace
  plain : Brace

unfoldable pub brace : ℕ → Brace
brace c = if c == 123 then opens else if c == 125 then closes else plain

abbrev pub literals : Bytes → List Piece
literals [] = []
literals (c ∷ s) = literal c ∷ literals s

-- What a brace that closes ends: nothing, a pair of braces, or a parameter.
abbrev pub closed : Option Bytes → List Piece → List Piece
closed none rest = literal 125 ∷ rest
closed (some []) rest = literal 123 ∷ literal 125 ∷ rest
closed (some (c ∷ name)) rest = param (c ∷ name) ∷ rest

-- What has been read since a brace opened is no parameter.
abbrev pub pending : Option Bytes → List Piece
pending none = []
pending (some name) = literal 123 ∷ literals name

abbrev pub read_plain : Option Bytes → ℕ → Option Bytes
read_plain none c = none
read_plain (some name) c = some (name ++ c ∷ [])

abbrev pub kept : Option Bytes → ℕ → List Piece
kept none c = literal c ∷ []
kept (some name) c = []

-- One byte, and the pieces of the rest by what is open.
abbrev pub piece_step : Brace → Option Bytes → ℕ → (Option Bytes → List Piece) → List Piece
piece_step opens acc c rest = pending acc ++ rest (some [])
piece_step closes acc c rest = closed acc (rest none)
piece_step plain acc c rest = kept acc c ++ rest (read_plain acc c)

unfoldable pub pieces : Option Bytes → Bytes → List Piece
pieces acc [] = pending acc
pieces acc (c ∷ s) = piece_step (brace c) acc c (λ o. pieces o s)

abbrev pub names_of : List Piece → List Bytes
names_of [] = []
names_of (literal c ∷ ps) = names_of ps
names_of (param name ∷ ps) = name ∷ names_of ps

abbrev pub replaced : Bytes → List Piece → Bytes
replaced by [] = []
replaced by (literal c ∷ ps) = c ∷ replaced by ps
replaced by (param name ∷ ps) = by ++ replaced by ps

-- `pathParamRe.FindAllStringSubmatch(path, -1)`, the names
unfoldable pub param_names : Bytes → List Bytes
param_names path = names_of (pieces none path)

-- `pathParamRe.ReplaceAllString(path, by)`
unfoldable pub replace_params : Bytes → Bytes → Bytes
replace_params path by = replaced by (pieces none path)

-- `NormalizeTemplatedPath`
unfoldable pub normalize_templated_path : Bytes → Bytes
normalize_templated_path path = replace_params path (bytes "{}")
