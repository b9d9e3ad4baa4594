-- ===== src/Errors/Mapping.antt =====
-- What mapping at a boundary keeps: every entry that an error matches is still matched, and what
-- `MapOr` returns is structured and matches the entry that was chosen for it.
use xqua_go.Prelude.{ℕ, true, List, [], ◌∷◌, Option, none, some, ◌≡◌, refl, arith, ◌++◌}
use xqua_go.Errors.{
  Err, Fields, Mapper, is, wrap, first_mapped, map_err, map_or, pair_mapper, first_match,
}

wrap-has_entry :
    (e : Err) (f : Fields) (target : ℕ) → f.entry ≡ some target → is (wrap e f) target ≡ true
unfolding wrap is
wrap-has_entry e f target h = rw h (ground arith)

abbrev pub fields_or : Option Fields → Fields → Fields
fields_or none fallback = fallback
fields_or (some f) fallback = f

first_match-cases :
    (o rest : Option Fields) → first_match o rest ≡ none → (o ≡ none) × (rest ≡ none)
first_match-cases none rest h = (refl, h)
first_match-cases (some f) rest h = cc

pair-taken :
    (e : Err) (to : Fields) (before after : List Mapper) (from : ℕ)
    → is e from ≡ true
    → first_mapped before e ≡ none
    → first_mapped (before ++ pair_mapper from to ∷ after) e ≡ some to
unfolding first_mapped pair_mapper
pair-taken e to [] after from matches h = rw matches refl
pair-taken e to (m ∷ before) after from matches h =
    let (own, rest) = first_match-cases (m e) (first_mapped before e) h in
    rw own (pair-taken e to before after from matches rest)

-- A pair for an entry that the error matches is taken where no mapper before it recognizes the
-- error: the result matches the entry that the pair maps to, by `Map` and by `MapOr`.
pub map_or-pair :
    (e : Err) (fallback to : Fields) (before after : List Mapper) (from target : ℕ)
    → first_mapped before e ≡ none
    → is e from ≡ true
    → to.entry ≡ some target
    → (is (map_or e fallback (before ++ pair_mapper from to ∷ after)) target ≡ true)
      × (map_err e (before ++ pair_mapper from to ∷ after)
          ≡ some (map_or e fallback (before ++ pair_mapper from to ∷ after)))
unfolding map_or map_err
map_or-pair e fallback to before after from target none_before matches entry =
    rw (pair-taken e to before after from matches none_before)
      (wrap-has_entry e to target entry, refl)
