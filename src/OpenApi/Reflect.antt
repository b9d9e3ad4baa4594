-- ===== src/OpenApi/Reflect.antt =====
-- Types as reflection shows them, with the helpers of pkg/http/openapi/internal/compile/compile.go
-- on them: `indirect`, `fieldTag`, `hasBindableFields`, `parseHandler`.
--
-- A type is its tree, which stops where a type contains itself; a tag of a field is looked up in
-- the list of its keys and values. A struct has a number, so that types of one shape differ.
pub mod Bindable
use xqua_go.Prelude.{
  ℕ, Bytes, bytes, bytes_eq, Bool, true, false, not, ◌&&◌, ◌||◌, ◌==◌, List, [], ◌∷◌, Option, none,
  some, if◌then◌else◌, find_key, trim_space,
}

pub record StructField : Type 0 where
  pub exported : Bool
  pub anonymous : Bool
  pub tag : List (Bytes × Bytes)

mutual
  pub data GoType : Type 0 where
    pointer : GoType → GoType
    struct_of : ℕ → Fields → GoType
    other : ℕ → GoType

  pub data Fields : Type 0 where
    no_fields : Fields
    field : StructField → GoType → Fields → Fields

-- `indirect`
unfoldable pub indirect : GoType → GoType
indirect (pointer t) = indirect t
indirect (struct_of n fs) = struct_of n fs
indirect (other n) = other n

-- `v[:strings.IndexByte(v, ',')]`
abbrev pub until_comma : Bytes → Bytes
until_comma [] = []
until_comma (c ∷ s) = let rest = until_comma s in if c == 44 then [] else c ∷ rest

abbrev pub tag_name : Option Bytes → Bytes
tag_name none = []
tag_name (some v) = if bytes_eq v (bytes "-") then [] else trim_space (until_comma v)

-- `fieldTag`
unfoldable pub field_tag : StructField → Bytes → Bytes
field_tag f key = tag_name (find_key key f.tag)

abbrev pub binding_keys : List Bytes
binding_keys =
    bytes "path"
    ∷ bytes "query"
    ∷ bytes "header"
    ∷ bytes "cookie"
    ∷ bytes "json"
    ∷ bytes "form"
    ∷ []

abbrev pub any_tag : StructField → List Bytes → Bool
any_tag f [] = false
any_tag f (key ∷ keys) = not (bytes_eq (field_tag f key) []) || any_tag f keys

abbrev pub is_struct : GoType → Bool
is_struct (struct_of n fs) = true
is_struct (pointer t) = false
is_struct (other n) = false

-- `hasBindableFields`; the embedded struct is reached through its pointers.
unfoldable mutual
  pub has_bindable_fields : GoType → Bool
  has_bindable_fields (pointer t) = has_bindable_fields t
  has_bindable_fields (struct_of n fs) = bindable_in fs
  has_bindable_fields (other n) = false

  pub bindable_in : Fields → Bool
  bindable_in no_fields = false
  bindable_in (field f t fs) =
      let inner = has_bindable_fields t in
      let rest = bindable_in fs in
      if not f.exported && not f.anonymous
      then rest
      else if f.anonymous && is_struct (indirect t)
      then inner || rest
      else any_tag f binding_keys || rest

-- What `reflect` answers about types and handlers, and the equality of types.
pub record Types (H : Type 0) : Type 0 where
  pub func_type : H → Option (List GoType × List GoType)
  pub implements_context : GoType → Bool
  pub implements_error : GoType → Bool
  pub same_type : GoType → GoType → Bool

module _ {H : Type 0} (types : Types H) where
  -- The parameters and the results of a function, where they are two and two.
  abbrev pub two_and_two : List GoType → List GoType → Option (GoType × GoType)
  two_and_two (ctx ∷ in_type ∷ []) (out ∷ err ∷ []) =
      if not (types.implements_context ctx)
      then none
      else if not (types.implements_error err)
      then none
      else some (indirect in_type, indirect out)
  two_and_two _ _ = none

  abbrev pub parsed : Option (List GoType × List GoType) → Option (GoType × GoType)
  parsed none = none
  parsed (some (ins, outs)) = two_and_two ins outs

  -- `parseHandler` by the types of input and output, none where it panics.
  unfoldable pub parse_handler : H → Option (GoType × GoType)
  parse_handler handler = parsed (types.func_type handler)
