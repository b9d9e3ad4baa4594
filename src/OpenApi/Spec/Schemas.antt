-- ===== src/OpenApi/Spec/Schemas.antt =====
-- Schemas, pkg/http/openapi/spec/schema.go. A schema refers to others by their addresses, so that
-- it can be reached from itself.
use xqua_go.Prelude.{ℕ, Bytes, Bool, List, Option}
use xqua_go.OpenApi.Spec.{Any, Extra, ExternalDocs}

pub record Discriminator : Type 0 where
  pub property_name : Bytes
  pub mapping : List (Bytes × Bytes)
  pub default_mapping : Bytes
  pub extra : Extra

pub record Xml : Type 0 where
  pub node_type : Bytes
  pub name : Bytes
  pub namespace : Bytes
  pub prefix : Bytes
  pub attribute : Bool
  pub wrapped : Bool
  pub extra : Extra

-- A value of the type `any` that may be a schema, by address.
pub data AnySchema : Type 0 where
  schema_at : ℕ → AnySchema
  other_value : Any → AnySchema

pub record Schema : Type 0 where
  pub ref : Bytes
  pub schema : Bytes
  pub id : Bytes
  pub defs : List (Bytes × Option ℕ)
  pub anchor : Bytes
  pub dynamic_anchor : Bytes
  pub dynamic_ref : Bytes
  pub vocabulary : List (Bytes × Bool)
  pub comment : Bytes
  pub title : Bytes
  pub description : Bytes
  pub type : Option Any
  pub format : Bytes
  pub nullable : Bool
  pub default : Option Any
  pub example : Option Any
  pub examples : List Any
  pub enum : List Any
  pub const : Option Any
  pub multiple_of : Option ℕ
  pub maximum : Option ℕ
  pub exclusive_maximum : Option Any
  pub minimum : Option ℕ
  pub exclusive_minimum : Option Any
  pub max_length : Option ℕ
  pub min_length : Option ℕ
  pub pattern : Bytes
  pub max_items : Option ℕ
  pub min_items : Option ℕ
  pub unique_items : Option Bool
  pub max_properties : Option ℕ
  pub min_properties : Option ℕ
  pub required : List Bytes
  pub properties : List (Bytes × Option ℕ)
  pub pattern_properties : List (Bytes × Option ℕ)
  pub items : Option ℕ
  pub prefix_items : List (Option ℕ)
  pub contains : Option ℕ
  pub max_contains : Option ℕ
  pub min_contains : Option ℕ
  pub additional_properties : Option AnySchema
  pub unevaluated_properties : Option AnySchema
  pub property_names : Option ℕ
  pub dependent_required : List (Bytes × List Bytes)
  pub dependent_schemas : List (Bytes × Option ℕ)
  pub all_of : List (Option ℕ)
  pub any_of : List (Option ℕ)
  pub one_of : List (Option ℕ)
  pub not_ : Option ℕ
  pub if_ : Option ℕ
  pub then_ : Option ℕ
  pub else_ : Option ℕ
  pub deprecated : Bool
  pub read_only : Bool
  pub write_only : Bool
  pub content_encoding : Bytes
  pub content_media_type : Bytes
  pub content_schema : Option ℕ
  pub discriminator : Option Discriminator
  pub xml : Option Xml
  pub external_docs : Option ExternalDocs
  pub extra : Extra

-- The schemas of a document by address.
abbrev pub Heap : Type 0
Heap = ℕ → Option Schema
