-- ===== src/OpenApi/Validate/Pointer/Escaping.antt =====
-- A name that is escaped in a reference is unescaped to itself.
use xqua_go.Prelude.{Bytes, List, [], ◌∷◌, ◌++◌, Option, some, ◌==◌, if◌then◌else◌}
use xqua_go.OpenApi.Spec.{Any}
use xqua_go.OpenApi.Validate.Pointer.{step_into, then_value}

-- The escape of RFC 6901
abbrev pub escape : Bytes → Bytes
escape [] = []
escape (c ∷ s) =
    let rest = escape s in
    if c == 126 then 126 ∷ 48 ∷ rest else if c == 47 then 126 ∷ 49 ∷ rest else c ∷ rest

-- What is left to unescape once `~1` is a slash
abbrev half_escape : Bytes → Bytes
half_escape [] = []
half_escape (c ∷ s) = let rest = half_escape s in if c == 126 then 126 ∷ 48 ∷ rest else c ∷ rest

-- A pointer to these tokens
abbrev pub pointer_to : List Bytes → Bytes
pointer_to [] = []
pointer_to (t ∷ ts) = 47 ∷ (escape t ++ pointer_to ts)

-- The value at the end of these tokens
abbrev pub descend : List Bytes → Any → Option Any
descend [] v = some v
descend (t ∷ ts) v = then_value (step_into t v) (descend ts)
