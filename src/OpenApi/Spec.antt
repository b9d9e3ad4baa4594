-- ===== src/OpenApi/Spec.antt =====
-- The objects of an OpenAPI document, pkg/http/openapi/spec: those that hold no other object that
-- can hold them. Its children have schemas, media types, and paths.
--
-- A map is the list of its keys and values, in the order in which a loop goes over it; where the
-- code asks whether a map or a slice is nil, it is an option. A schema is its address.
pub mod Schemas
pub mod Media
pub mod Paths
use xqua_go.Prelude.{
  ℕ, Bytes, bytes, bytes_eq, Bool, true, false, ◌||◌, List, [], ◌∷◌, Option, none, some,
}

-- Values of the type `any`
mutual
  pub data Any : Type 0 where
    text_value : Bytes → Any
    bool_value : Bool → Any
    number_value : ℕ → Any
    texts_value : List Bytes → Any
    list_value : Items → Any
    map_value : Members → Any

  pub data Items : Type 0 where
    no_items : Items
    item : Any → Items → Items

  pub data Members : Type 0 where
    no_members : Members
    member : Bytes → Any → Members → Members

abbrev pub Extra : Type 0
Extra = List (Bytes × Any)

abbrev pub is_some : {A : Type 0} → Option A → Bool
is_some none = false
is_some (some a) = true

abbrev pub is_filled : {A : Type 0} → List A → Bool
is_filled [] = false
is_filled (x ∷ xs) = true

pub record ExternalDocs : Type 0 where
  pub description : Bytes
  pub url : Bytes

pub record Contact : Type 0 where
  pub name : Bytes
  pub url : Bytes
  pub email : Bytes

pub record License : Type 0 where
  pub name : Bytes
  pub identifier : Bytes
  pub url : Bytes

pub record Info : Type 0 where
  pub title : Bytes
  pub summary : Bytes
  pub description : Option Bytes
  pub terms_of_service : Option Bytes
  pub contact : Option Contact
  pub license : Option License
  pub version : Bytes

pub record ServerVariable : Type 0 where
  pub enum : Option (List Bytes)
  pub default : Bytes
  pub description : Bytes

pub record Server : Type 0 where
  pub url : Bytes
  pub description : Option Bytes
  pub name : Bytes
  pub variables : List (Bytes × ServerVariable)

pub record Tag : Type 0 where
  pub name : Bytes
  pub summary : Bytes
  pub description : Bytes
  pub external_docs : Option ExternalDocs
  pub parent : Bytes
  pub kind : Bytes

pub record Example : Type 0 where
  pub ref : Bytes
  pub summary : Bytes
  pub description : Bytes
  pub data_value : Option Any
  pub value : Option Any
  pub external_value : Bytes
  pub serialized_value : Bytes
  pub serialized_example : Option Any
  pub extra : Extra

pub record Link : Type 0 where
  pub ref : Bytes
  pub summary : Bytes
  pub operation_ref : Bytes
  pub operation_id : Bytes
  pub parameters : List (Bytes × Any)
  pub request_body : Option Any
  pub description : Bytes
  pub server : Option Server
  pub extra : Extra

pub record OAuthFlow : Type 0 where
  pub authorization_url : Bytes
  pub device_authorization_url : Bytes
  pub token_url : Bytes
  pub refresh_url : Option Bytes
  pub scopes : Option (List (Bytes × Bytes))
  pub extra : Extra

pub record OAuthFlows : Type 0 where
  pub implicit : Option OAuthFlow
  pub password : Option OAuthFlow
  pub client_credentials : Option OAuthFlow
  pub authorization_code : Option OAuthFlow
  pub device_authorization : Option OAuthFlow
  pub extra : Extra

pub record SecurityScheme : Type 0 where
  pub ref : Bytes
  pub summary : Bytes
  pub type : Bytes
  pub description : Option Bytes
  pub name : Bytes
  pub in_ : Bytes
  pub scheme : Bytes
  pub bearer_format : Option Bytes
  pub flows : Option OAuthFlows
  pub open_id_connect_url : Bytes
  pub oauth2_metadata_url : Bytes
  pub deprecated : Bool
  pub extra : Extra
