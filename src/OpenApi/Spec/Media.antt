-- ===== src/OpenApi/Spec/Media.antt =====
-- Media types, encodings and headers, pkg/http/openapi/spec/media.go and operation.go: they hold
-- one another. What an object holds beside these is its record of fields.
use xqua_go.Prelude.{ℕ, Bytes, Bool, List, Option}
use xqua_go.OpenApi.Spec.{Any, Extra, Example}

pub record HeaderFields : Type 0 where
  pub ref : Bytes
  pub summary : Bytes
  pub description : Bytes
  pub required : Bool
  pub deprecated : Bool
  pub allow_empty_value : Bool
  pub style : Bytes
  pub explode : Option Bool
  pub allow_reserved : Bool
  pub schema : Option ℕ
  pub example : Option Any
  pub examples : List (Bytes × Option Example)
  pub extra : Extra

pub record MediaFields : Type 0 where
  pub ref : Bytes
  pub summary : Bytes
  pub description : Bytes
  pub schema : Option ℕ
  pub item_schema : Option ℕ
  pub example : Option Any
  pub examples : List (Bytes × Option Example)
  pub extra : Extra

pub record EncodingFields : Type 0 where
  pub content_type : Bytes
  pub style : Bytes
  pub explode : Option Bool
  pub allow_reserved : Bool

-- A pointer that is nil has a constructor of its own. The parts of a media type are `Encoding`,
-- `PrefixEncoding` and `ItemEncoding`; those of an encoding begin with its headers.
mutual
  pub data Header : Type 0 where
    nil_header : Header
    header : HeaderFields → MediaTypes → Header

  pub data MediaType : Type 0 where
    nil_media : MediaType
    media_type : MediaFields → Encodings → Encodings → Encoding → MediaType

  pub data Encoding : Type 0 where
    nil_encoding : Encoding
    encoding : EncodingFields → Headers → Encodings → Encodings → Encoding → Encoding

  pub data Headers : Type 0 where
    no_headers : Headers
    add_header : Bytes → Header → Headers → Headers

  pub data MediaTypes : Type 0 where
    no_media : MediaTypes
    add_media : Bytes → MediaType → MediaTypes → MediaTypes

  pub data Encodings : Type 0 where
    no_encodings : Encodings
    add_encoding : Bytes → Encoding → Encodings → Encodings
