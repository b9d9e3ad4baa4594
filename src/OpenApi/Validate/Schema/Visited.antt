-- ===== src/OpenApi/Validate/Schema/Visited.antt =====
-- The set of visited schemas of the traversal in schema.go: it grows, and what is left to visit shrinks.
use xqua_go.Prelude.{
  ℕ, zero, suc, ◌+◌, ◌≤◌, ◌<◌, true, false, Bool-cases, List, [], ◌∷◌, ◌==◌, if◌then◌else◌, ◌≡◌,
  inl, inr, sym, ap, ◌∙◌, arith,
}
use xqua_go.OpenApi.Validate.Schema.{is_visited}

-- The addresses below `n` that have not been visited
abbrev pub unvisited : ℕ → List ℕ → ℕ
unvisited zero visited = 0
unvisited (suc n) visited = (if is_visited n visited then 0 else 1) + unvisited n visited

-- What has been visited stays visited.
abbrev pub Grows : List ℕ → List ℕ → Type 0
Grows v w = (b : ℕ) → is_visited b v ≡ true → is_visited b w ≡ true

pub Grows-trans : (u v w : List ℕ) → Grows u v → Grows v w → Grows u w
Grows-trans u v w g h b e = h b (g b e)

pub unvisited-Grows : (n : ℕ) (v w : List ℕ) → Grows v w → unvisited n w ≤ unvisited n v
unvisited-Grows zero v w g = omega arith
unvisited-Grows (suc n) v w g =
    let rest = unvisited-Grows n v w g in
    elim (Bool-cases (is_visited n v)) [
      | inl old ↦ rw old (rw (g n old) (omega arith))
      | inr new ↦ rw new (ground arith)
    ]

pub unvisited-length : (n : ℕ) → unvisited n [] ≤ n
unvisited-length zero = omega arith
unvisited-length (suc n) = let rest = unvisited-length n in omega arith

unvisited-cons : (n a : ℕ) (v : List ℕ) → unvisited n (a ∷ v) ≤ unvisited n v
unvisited-cons n a v = unvisited-Grows n v (a ∷ v) (λ b e. rw e (ground arith))

pub unvisited-lt :
    (n a : ℕ) (v : List ℕ) → a < n → is_visited a v ≡ false → unvisited n (a ∷ v) < unvisited n v
unvisited-lt zero a v h e = omega arith
unvisited-lt (suc n) a v h e = elim (Bool-cases (a == n)) [
  | inl last ↦
      let same : a ≡ n = ground arith in
      let rest = unvisited-cons n a v in
      let fresh : is_visited n v ≡ false = ap (λ m. is_visited m v) (sym same) ∙ e in
      rw fresh (ground arith)
  | inr lower ↦
      let below : a < n = ground arith in
      let rest = unvisited-lt n a v below e in rw lower (ground arith)
]
