-- ===== src/OpenApi/Adapter.antt =====
-- The handler of a compiled route, pkg/http/openapi/internal/adapter/adapter.go.
--
-- An error is of type `X` and the canonical errors in it of type `E`; `as_errors`, `contains` and
-- `is_error` are `errors.AsErrors`, `Catalog.Contains` and `errors.Is`. Writing JSON to the
-- response is the answer, without its text.
pub mod Written
use xqua_go.Prelude.{
  ℕ, zero, Bool, true, false, ◌||◌, ◌&&◌, List, [], ◌∷◌, Option, none, some, ltb, if◌then◌else◌,
}
use xqua_go.OpenApi.Compile.{ErrCase}

-- What comes of a request: the error goes on to fiber, or a response is written, or none is.
pub data Answer (X O : Type 0) : Type 0 where
  forwarded : X → Answer X O
  written_error : X → ℕ → Answer X O
  written_success : O → Answer X O
  no_answer : Answer X O

pub data Called (X O : Type 0) : Type 0 where
  output : O → Called X O
  failed : X → Called X O

module _ {X E : Type 0} (as_errors : X → List E) (contains : E → Bool)
    (is_error : E → Option ℕ → Bool) (cases : List ErrCase) where
  abbrev pub any_is : E → List (Option ℕ) → Bool
  any_is e [] = false
  any_is e (tmpl ∷ tmpls) = is_error e tmpl || any_is e tmpls

  abbrev pub declared_in : E → List ErrCase → Option ℕ
  declared_in e [] = none
  declared_in e (c ∷ cs) =
      let rest = declared_in e cs in if any_is e c.errors then some c.status else rest

  -- `declaredStatus`
  unfoldable pub declared_status : E → Option ℕ
  declared_status e = declared_in e cases

  abbrev pub better : ℕ → Option ℕ → (ℕ → Option ℕ) → Option ℕ
  better best none more = none
  better best (some st) more = if ltb best st then more st else more best

  -- `resolveDeclaredStatus`, with the best status so far.
  unfoldable pub resolve_declared_status : ℕ → List E → Option ℕ
  resolve_declared_status best [] = some best
  resolve_declared_status best (e ∷ es) =
      better best (declared_status e) (λ b. resolve_declared_status b es)

  abbrev pub all_contained : List E → Bool
  all_contained [] = true
  all_contained (e ∷ es) = contains e && all_contained es

  abbrev pub write_error : {O : Type 0} → X → Option ℕ → Answer X O
  write_error err none = forwarded err
  write_error err (some status) = written_error err status

  abbrev pub handle_entries : {O : Type 0} → X → List E → Answer X O
  handle_entries err [] = forwarded err
  handle_entries err (e ∷ es) =
      if all_contained (e ∷ es)
      then write_error err (resolve_declared_status 0 (e ∷ es))
      else forwarded err

  -- `handleHandlerError`
  unfoldable pub handle_handler_error : {O : Type 0} → X → Answer X O
  handle_handler_error err = handle_entries err (as_errors err)

  abbrev pub finish : {O : Type 0} → Called X O → Answer X O
  finish (output out) = written_success out
  finish (failed err) = handle_handler_error err

  abbrev pub call_with : {I O : Type 0} → Option (I → Called X O) → I → Answer X O
  call_with none in_value = no_answer
  call_with (some call) in_value = finish (call in_value)

  abbrev pub after_binding : {I O : Type 0} → Option (I → Called X O) → Called X I → Answer X O
  after_binding call (output in_value) = call_with call in_value
  after_binding call (failed err) = handle_handler_error err

  -- `Handler`: the input is bound where the route has a binder, and is `no_input` where not.
  unfoldable pub handler :
      {C I O : Type 0} → Option (C → Called X I) → I → Option (I → Called X O) → C → Answer X O
  handler none no_input call c = call_with call no_input
  handler (some bind_request) no_input call c = after_binding call (bind_request c)
