-- ===== src/OpenApi/Validate/Schema.antt =====
-- `ValidateSchema` of schema.go: the traversal of the schemas that a schema refers to.
--
-- Schemas are addresses in a heap, and the map `visited` is the list of its keys. The recursion is
-- on fuel; `Traversal` shows how much is enough. A value of the type `Schema`, which the code
-- copies, has an address of its own, which only its holder refers to.
pub mod Visited
pub mod Traversal
use xqua_go.Prelude.{
  ℕ, zero, suc, Bytes, bytes, Bool, true, false, ◌||◌, List, [], ◌∷◌, ◌++◌, Option, none, some,
  ◌==◌, if◌then◌else◌, decimal,
}
use xqua_go.OpenApi.Spec.Schemas.{Schema, AnySchema, schema_at, other_value, Heap}
use xqua_go.OpenApi.Validate.{Problem, Urls}
use xqua_go.OpenApi.Validate.Keywords.{own_problems}

abbrev pub keyed :
    Bytes → List (Bytes × Option ℕ) → List (Bytes × Option ℕ) → List (Bytes × Option ℕ)
keyed prefix [] rest = rest
keyed prefix ((name, a) ∷ m) rest = (prefix ++ name, a) ∷ keyed prefix m rest

abbrev pub indexed : Bytes → ℕ → List (Option ℕ) → List (Bytes × Option ℕ) → List (Bytes × Option ℕ)
indexed prefix i [] rest = rest
indexed prefix i (a ∷ l) rest =
    (prefix ++ bytes "[" ++ decimal i ++ bytes "]", a) ∷ indexed prefix (suc i) l rest

-- `ValidateAnySchema`, by the schema that the value is
abbrev pub as_schema : Option AnySchema → Option ℕ
as_schema none = none
as_schema (some (schema_at a)) = some a
as_schema (some (other_value v)) = none

-- The schemas in a schema, with what is appended to the context, in the order of the calls.
unfoldable pub children : Schema → List (Bytes × Option ℕ)
children s = keyed (bytes ".$defs.") s.defs (
    keyed (bytes ".properties.") s.properties (
      keyed (bytes ".patternProperties.") s.pattern_properties (
        (bytes ".items", s.items)
        ∷ indexed (bytes ".prefixItems") 0 s.prefix_items (
            (bytes ".contains", s.contains)
            ∷ (bytes ".additionalProperties", as_schema s.additional_properties)
            ∷ (bytes ".unevaluatedProperties", as_schema s.unevaluated_properties)
            ∷ (bytes ".propertyNames", s.property_names)
            ∷ keyed (bytes ".dependentSchemas.") s.dependent_schemas (
                indexed (bytes ".allOf") 0 s.all_of (
                  indexed (bytes ".anyOf") 0 s.any_of (
                    indexed (bytes ".oneOf") 0 s.one_of (
                      (bytes ".not", s.not_)
                      ∷ (bytes ".if", s.if_)
                      ∷ (bytes ".then", s.then_)
                      ∷ (bytes ".else", s.else_)
                      ∷ (bytes ".contentSchema", s.content_schema)
                      ∷ []))))))))

abbrev pub is_visited : ℕ → List ℕ → Bool
is_visited a [] = false
is_visited a (b ∷ visited) = (b == a) || is_visited a visited

-- What a traversal reports, and what it has visited; none where the fuel is used up.
abbrev pub Walked : Type 0
Walked = Option (List Problem × List ℕ)

abbrev pub then_walk : Walked → (List ℕ → Walked) → Walked
then_walk none more = none
then_walk (some (errs, visited)) more = prepend errs (more visited)
  where
    prepend : List Problem → Walked → Walked
    prepend errs none = none
    prepend errs (some (errs', visited)) = some (errs ++ errs', visited)

-- The calls for a list of schemas, one after the other
abbrev pub each :
    (Bytes → Option ℕ → List ℕ → Walked) → Bytes → List (Bytes × Option ℕ) → List ℕ → Walked
each walk context [] visited = some ([], visited)
each walk context ((suffix, a) ∷ l) visited =
    then_walk (walk (context ++ suffix) a visited) (each walk context l)

module _ (urls : Urls) (heap : Heap) (version : Bytes) where
  -- A schema that the heap has, at an address that has not been visited
  abbrev pub visit :
      (Bytes → Option ℕ → List ℕ → Walked) → Bytes → ℕ → Option Schema → List ℕ → Walked
  visit walk context a none visited = some ([], visited)
  visit walk context a (some s) visited =
      then_walk (some (own_problems urls context s version, a ∷ visited))
        (each walk context (children s))

  -- `ValidateSchema`
  unfoldable pub validate_schema : ℕ → Bytes → Option ℕ → List ℕ → Walked
  validate_schema zero context o visited = none
  validate_schema (suc fuel) context none visited = some ([], visited)
  validate_schema (suc fuel) context (some a) visited =
      if is_visited a visited
      then some ([], visited)
      else visit (λ c o v. validate_schema fuel c o v) context a (heap a) visited
