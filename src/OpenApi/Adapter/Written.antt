-- ===== src/OpenApi/Adapter/Written.antt =====
-- Which errors a route answers by itself: those whose canonical errors are all of the catalog and
-- all declared, with the greatest of their statuses. Every other error goes on to fiber.
use xqua_go.Prelude.{
  ℕ, ◌≤◌, Bool, true, Bool-cases, List, [], ◌∷◌, Option, none, some, ltb, ◌≡◌, ◌≢◌, inl, inr, ◌⊎◌,
  refl, sym, ap, ◌∙◌, arith,
}
use xqua_go.OpenApi.Compile.{ErrCase}
use xqua_go.OpenApi.Adapter.{
  written_error, declared_status, better, resolve_declared_status, all_contained, write_error,
  handle_entries, handle_handler_error,
}

module _ {X E : Type 0} (as_errors : X → List E) (contains : E → Bool)
    (is_error : E → Option ℕ → Bool) (cases : List ErrCase) where
  -- The errors are of the catalog and declared, with statuses up to `st`.
  abbrev pub AllAnswered : ℕ → List E → Type 0
  AllAnswered st [] = Unit {0}
  AllAnswered st (e ∷ es) =
      ((contains e ≡ true)
        × (own : ℕ) × (declared_status as_errors contains is_error cases e ≡ some own)
        × (own ≤ st))
      × AllAnswered st es

  -- One of the errors is declared with the status `st`.
  abbrev pub SomeDeclared : ℕ → List E → Type 0
  SomeDeclared st [] = ⊥
  SomeDeclared st (e ∷ es) =
      (declared_status as_errors contains is_error cases e ≡ some st) ⊎ SomeDeclared st es

  better-some :
      (best st : ℕ) (o : Option ℕ) (more : ℕ → Option ℕ)
      → better as_errors contains is_error cases best o more ≡ some st
      → (own next : ℕ) × (o ≡ some own)
        × (more next ≡ some st)
        × (best ≤ next)
        × (own ≤ next)
        × ((next ≡ best) ⊎ (next ≡ own))
  better-some best st none more h = cc
  better-some best st (some own) more h = elim (Bool-cases (ltb best own)) [
    | inl above ↦ (own, own, refl, rw above at h, ground arith, ground arith, inr refl)
    | inr below ↦ (own, best, refl, rw below at h, ground arith, ground arith, inl refl)
  ]

  resolve-bounds :
      (best st : ℕ) (es : List E)
      → resolve_declared_status as_errors contains is_error cases best es ≡ some st
      → all_contained as_errors contains is_error cases es ≡ true
      → AllAnswered st es × (best ≤ st) × ((st ≡ best) ⊎ SomeDeclared st es)
  unfolding resolve_declared_status
  resolve-bounds best st [] h k = (tt, ground arith, inl cc)
  resolve-bounds best st (e ∷ es) h k =
      let (own, next, d, m, b, o, choice) =
        better-some best st (declared_status as_errors contains is_error cases e)
          (λ x. resolve_declared_status as_errors contains is_error cases x es) h in
      let held : contains e ≡ true = ground arith in
      let rest : all_contained as_errors contains is_error cases es ≡ true = ground arith in
      let (all, at_least, reached) = resolve-bounds next st es m rest in
      (
        ((held, own, d, omega arith), all),
        omega arith,
        elim reached [
          | inr later ↦ inr (inr later)
          | inl here_ ↦ elim choice [
            | inl old ↦ inl (here_ ∙ old)
            | inr new ↦ inr (inl (d ∙ ap some (sym (here_ ∙ new))))
          ]
        ],
      )

  not_written :
      {O : Type 0} (err written : X) (st : ℕ)
      → write_error as_errors contains is_error cases {O = O} err none ≢ written_error written st
  not_written err written st h = cc

  write_error-written :
      {O : Type 0} (err written : X) (st : ℕ) (o : Option ℕ)
      → write_error as_errors contains is_error cases {O = O} err o ≡ written_error written st
      → (o ≡ some st) × (written ≡ err)
  write_error-written err written st none h = cc
  write_error-written err written st (some x) h = (cc, cc)

  -- A route writes an error response only for an error that has canonical errors in it, all of them
  -- of the catalog and declared by the route; the status is the greatest of those declared for them,
  -- and the error is the one that was handled.
  pub handle_handler_error-written :
      {O : Type 0} (err written : X) (st : ℕ)
      → handle_handler_error as_errors contains is_error cases {O = O} err
        ≡ written_error written st
      → (written ≡ err)
        × (as_errors err ≢ [])
        × AllAnswered st (as_errors err)
        × ((st ≡ 0) ⊎ SomeDeclared st (as_errors err))
  unfolding handle_handler_error
  handle_handler_error-written {O = O} err written st h = entries (as_errors err) h
    where
      entries :
          (es : List E)
          → handle_entries as_errors contains is_error cases {O = O} err es
            ≡ written_error written st
          → (written ≡ err) × (es ≢ []) × AllAnswered st es × ((st ≡ 0) ⊎ SomeDeclared st es)
      entries [] h = cc
      entries (e ∷ es) h =
          elim (Bool-cases (all_contained as_errors contains is_error cases (e ∷ es))) [
            | inr other ↦ absurd (not_written err written st (rw other at h))
            | inl all ↦
                let (r, w) =
                  write_error-written err written st
                    (resolve_declared_status as_errors contains is_error cases 0 (e ∷ es))
                    (rw all at h) in
                let (bounds, low, reached) = resolve-bounds 0 st (e ∷ es) r all in
                (w, (λ x. cc), bounds, reached)
          ]
