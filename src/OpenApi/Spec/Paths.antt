-- ===== src/OpenApi/Spec/Paths.antt =====
-- Parameters, operations, callbacks and paths, pkg/http/openapi/spec/path.go and operation.go, and
-- the document that has them.
use xqua_go.Prelude.{ℕ, Bytes, Bool, List, Option}
use xqua_go.OpenApi.Spec.{
  Any, Extra, ExternalDocs, Server, Example, Link, SecurityScheme, Info, Tag,
}
use xqua_go.OpenApi.Spec.Media.{MediaTypes, Headers}
use xqua_go.OpenApi.Policy.{SecurityRequirement}

pub record Parameter : Type 0 where
  pub ref : Bytes
  pub summary : Bytes
  pub name : Bytes
  pub in_ : Bytes
  pub description : Bytes
  pub required : Bool
  pub deprecated : Bool
  pub allow_empty_value : Bool
  pub style : Bytes
  pub explode : Option Bool
  pub allow_reserved : Bool
  pub schema : Option ℕ
  pub content : MediaTypes
  pub example : Option Any
  pub examples : List (Bytes × Option Example)
  pub extra : Extra

pub record RequestBody : Type 0 where
  pub ref : Bytes
  pub summary : Bytes
  pub description : Bytes
  pub content : MediaTypes
  pub required : Bool
  pub extra : Extra

pub record Response : Type 0 where
  pub ref : Bytes
  pub summary : Bytes
  pub description : Bytes
  pub headers : Headers
  pub content : MediaTypes
  pub links : List (Bytes × Option Link)
  pub extra : Extra

-- `Operation` without its callbacks
pub record OperationFields : Type 0 where
  pub tags : List Bytes
  pub summary : Bytes
  pub description : Bytes
  pub external_docs : Option ExternalDocs
  pub operation_id : Bytes
  pub parameters : List (Option Parameter)
  pub request_body : Option RequestBody
  pub responses : List (Bytes × Option Response)
  pub deprecated : Bool
  pub security : List SecurityRequirement
  pub servers : List Server

-- `PathItem` without its operations
pub record PathFields : Type 0 where
  pub ref : Bytes
  pub summary : Bytes
  pub description : Bytes
  pub servers : List Server
  pub parameters : List (Option Parameter)

pub record CallbackFields : Type 0 where
  pub ref : Bytes
  pub summary : Bytes
  pub description : Bytes
  pub extra : Extra

-- A path item has the nine fixed operations, from `Get` to `Query`, and the additional ones.
mutual
  pub data Operation : Type 0 where
    nil_operation : Operation
    operation : OperationFields → Callbacks → Operation

  pub data PathItem : Type 0 where
    nil_item : PathItem
    path_item :
        PathFields
        → Operation
        → Operation
        → Operation
        → Operation
        → Operation
        → Operation
        → Operation
        → Operation
        → Operation
        → Operations
        → PathItem

  pub data Operations : Type 0 where
    no_operations : Operations
    add_operation : Bytes → Operation → Operations → Operations

  pub data Callback : Type 0 where
    nil_callback : Callback
    callback : CallbackFields → PathItems → Callback

  pub data Callbacks : Type 0 where
    no_callbacks : Callbacks
    add_callback : Bytes → Callback → Callbacks → Callbacks

  pub data PathItems : Type 0 where
    no_paths : PathItems
    add_path : Bytes → PathItem → PathItems → PathItems

pub record Components : Type 0 where
  pub schemas : List (Bytes × Option ℕ)
  pub responses : List (Bytes × Option Response)
  pub parameters : List (Bytes × Option Parameter)
  pub examples : List (Bytes × Option Example)
  pub request_bodies : List (Bytes × Option RequestBody)
  pub headers : Headers
  pub security_schemes : List (Bytes × Option SecurityScheme)
  pub links : List (Bytes × Option Link)
  pub callbacks : Callbacks
  pub path_items : Option PathItems
  pub media_types : Option MediaTypes

pub record Document : Type 0 where
  pub open_api : Bytes
  pub self : Bytes
  pub info : Info
  pub json_schema_dialect : Bytes
  pub servers : List Server
  pub external_docs : Option ExternalDocs
  pub tags : List Tag
  pub security : List SecurityRequirement
  pub paths : Option PathItems
  pub webhooks : Option PathItems
  pub components : Option Components
