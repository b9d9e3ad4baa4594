-- ===== src/OpenApi/Validate/Examples.antt =====
-- The theorems about documents at a small document, two schemas that refer to each other, a path
-- with a parameter, and a pointer.
use mathlib.Core.List.{Memᴰ}
use xqua_go.Prelude.{
  ℕ, zero, suc, Bytes, bytes, bytes_eq, true, false, List, [], ◌∷◌, none, some, ◌≡◌, refl, arith,
  has_prefix, find_key, set_key, ◌<◌, to_lower, to_upper,
}
use xqua_go.OpenApi.Spec.{
  Any, number_value, list_value, map_value, no_items, item, no_members, member,
}
use xqua_go.OpenApi.Spec.Media.{no_media, no_headers}
use xqua_go.OpenApi.Spec.Paths.{
  Parameter, Response, Operation, nil_operation, operation, PathItem, path_item, no_operations,
  no_callbacks, no_paths, add_path, Document,
}
use xqua_go.OpenApi.Spec.Schemas.{Schema, Heap}
use xqua_go.OpenApi.Validate.{
  Problem, Urls, is_open_api_30, is_open_api_31, is_open_api_32, is_uri_reference,
}
use xqua_go.OpenApi.Validate.Document.{
  validate_document, version_fields, document_info, top_level_requirements,
  servers_and_external_docs, with_operations, document_paths, conflict_problems,
}
use xqua_go.OpenApi.Validate.Document.Unique.{document_ids, validate_document-IsDistinct}
use xqua_go.OpenApi.Validate.Extras.{contains_text}
use xqua_go.OpenApi.Validate.Keywords.{own_problems}
use xqua_go.OpenApi.Validate.Operations.Ids.{IsDistinct}
use xqua_go.OpenApi.Validate.PathParams.{
  validate_path_params, validate_query_parameter_mix, declared_params,
}
use xqua_go.OpenApi.Validate.PathParams.Declared.{
  AllDeclared, AllTemplates, validate_path_params-AllDeclared,
}
use xqua_go.OpenApi.Validate.Report.{join_errors, collect_validation_errors, has_severity}
use xqua_go.OpenApi.Validate.Report.Accepted.{IsAccepted}
use xqua_go.OpenApi.Validate.Schema.{validate_schema, children}
use xqua_go.OpenApi.Validate.Schema.Traversal.{
  Reaches, itself, onward, IsWithin, validate_schema-checks_all,
}
use xqua_go.OpenApi.Validate.Templates.{
  Piece, literal, param, param_names, normalize_templated_path, replaced, names_of, brace, pieces,
  replace_params,
}
use xqua_go.OpenApi.Validate.Templates.Rendering.{render, param_names-render}
use xqua_go.OpenApi.Validate.Servers.{validate_info, validate_server_names}
use xqua_go.OpenApi.Validate.Objects.{validate_security_requirements, validate_links}
use xqua_go.OpenApi.Validate.Operations.{
  validate_path_item, validate_item_operations, item_problems, has_operation, operation_id_problems,
  operation_problems, params_problems,
}
use xqua_go.OpenApi.Validate.Parameters.{validate_parameters, resolve_parameter_refs}
use xqua_go.OpenApi.Validate.Bodies.{
  validate_request_body, response_problems, is_response_code, validate_response,
}
use xqua_go.OpenApi.Validate.Media.{validate_headers, validate_media_types}
use xqua_go.OpenApi.Validate.Tags.{validate_tags, tag_loop}

abbrev all_urls : Urls
all_urls = record {
  parses = λ s. true;
  is_abs = λ s. true;
  scheme = λ s. bytes "https";
  fragment = λ s. [];
}

abbrev user_path : List Piece
user_path = literal 47 ∷ param (bytes "id") ∷ []

param_names-render_example :
    (param_names (render user_path) ≡ names_of user_path)
    × (normalize_templated_path (render user_path) ≡ replaced (bytes "{}") user_path)
unfolding brace
param_names-render_example =
    param_names-render user_path (refl, ((λ e. cc), (refl, (refl, tt)), tt))

abbrev nested : Any
nested = map_value (member (bytes "a/~") (list_value (item (number_value 7) no_items)) no_members)

abbrev id_param : Parameter
id_param = record {
  ref = [];
  summary = [];
  name = bytes "id";
  in_ = bytes "path";
  description = [];
  required = true;
  deprecated = false;
  allow_empty_value = false;
  style = [];
  explode = none;
  allow_reserved = false;
  schema = some 0;
  content = no_media;
  example = none;
  examples = [];
  extra = [];
}

accepts_id : IsAccepted (validate_path_params (bytes "/{id}") (bytes "get") (some id_param ∷ []))
unfolding validate_path_params declared_params has_prefix param_names pieces brace find_key set_key
    contains_text has_severity bytes_eq
accepts_id = refl

slash_first : has_prefix (bytes "/{id}") (bytes "/") ≡ true
unfolding has_prefix
slash_first = refl

validate_path_params-AllDeclared_example :
    AllDeclared (some id_param ∷ []) (param_names (bytes "/{id}"))
    × AllTemplates (param_names (bytes "/{id}")) (some id_param ∷ [])
validate_path_params-AllDeclared_example =
    validate_path_params-AllDeclared (bytes "/{id}") (bytes "get") (some id_param ∷ []) slash_first
      accepts_id

abbrev blank_schema : Schema
blank_schema = record {
  ref = [];
  schema = [];
  id = [];
  defs = [];
  anchor = [];
  dynamic_anchor = [];
  dynamic_ref = [];
  vocabulary = [];
  comment = [];
  title = [];
  description = [];
  type = none;
  format = [];
  nullable = false;
  default = none;
  example = none;
  examples = [];
  enum = [];
  const = none;
  multiple_of = none;
  maximum = none;
  exclusive_maximum = none;
  minimum = none;
  exclusive_minimum = none;
  max_length = none;
  min_length = none;
  pattern = [];
  max_items = none;
  min_items = none;
  unique_items = none;
  max_properties = none;
  min_properties = none;
  required = [];
  properties = [];
  pattern_properties = [];
  items = none;
  prefix_items = [];
  contains = none;
  max_contains = none;
  min_contains = none;
  additional_properties = none;
  unevaluated_properties = none;
  property_names = none;
  dependent_required = [];
  dependent_schemas = [];
  all_of = [];
  any_of = [];
  one_of = [];
  not_ = none;
  if_ = none;
  then_ = none;
  else_ = none;
  deprecated = false;
  read_only = false;
  write_only = false;
  content_encoding = [];
  content_media_type = [];
  content_schema = none;
  discriminator = none;
  xml = none;
  external_docs = none;
  extra = [];
}

abbrev list_schema : Schema
list_schema = record blank_schema { items = some 1 }

abbrev node_schema : Schema
node_schema = record blank_schema { not_ = some 0; deprecated = true }

abbrev two_schemas : Heap
two_schemas zero = some list_schema
two_schemas (suc zero) = some node_schema
two_schemas (suc (suc n)) = none

only_two : (c : ℕ) (t : Schema) → two_schemas c ≡ some t → c < 2
only_two zero t e = omega arith
only_two (suc zero) t e = omega arith
only_two (suc (suc n)) t e = cc

items_inside : Memᴰ (bytes ".items", some 1) (children list_schema)
unfolding children
items_inside = Memᴰ.head refl

node_in_reach : Reaches all_urls two_schemas (bytes "3.0.0") 0 1
node_in_reach = onward list_schema (bytes ".items") 1 refl items_inside (itself refl)

validate_schema-checks_all_example :
    (errs : List Problem) × (visited : List ℕ) × (validate_schema all_urls two_schemas
        (bytes "3.0.0")
        3
        (bytes "list")
        (some 0)
        []
      ≡ some (errs, visited))
    × (at_context : Bytes) × IsWithin all_urls two_schemas
        (bytes "3.0.0")
        (own_problems all_urls at_context node_schema (bytes "3.0.0"))
        errs
validate_schema-checks_all_example =
    validate_schema-checks_all all_urls two_schemas (bytes "3.0.0") 2 (bytes "list") 0 1 node_schema
      only_two node_in_reach refl

abbrev ok_response : Response
ok_response = record {
  ref = [];
  summary = [];
  description = bytes "ok";
  headers = no_headers;
  content = no_media;
  links = [];
  extra = [];
}

abbrev named_operation : Bytes → Operation
named_operation id =
    operation
      (record {
        tags = [];
        summary = [];
        description = [];
        external_docs = none;
        operation_id = id;
        parameters = [];
        request_body = none;
        responses = (bytes "200", some ok_response) ∷ [];
        deprecated = false;
        security = [];
        servers = [];
      })
      no_callbacks

abbrev user_item : PathItem
user_item =
    path_item (record { ref = []; summary = []; description = []; servers = []; parameters = [] })
      (named_operation (bytes "a")) (named_operation (bytes "b")) nil_operation nil_operation
      nil_operation nil_operation nil_operation nil_operation nil_operation no_operations

abbrev small_document : Document
small_document = record {
  open_api = bytes "3.0.0";
  self = [];
  info = record {
    title = bytes "t";
    summary = [];
    description = none;
    terms_of_service = none;
    contact = none;
    license = none;
    version = bytes "1";
  };
  json_schema_dialect = [];
  servers = [];
  external_docs = none;
  tags = [];
  security = [];
  paths = some (add_path (bytes "/u") user_item no_paths);
  webhooks = none;
  components = none;
}

abbrev no_references : Document → List Problem
no_references doc = []

is_valid :
    join_errors
      (validate_document all_urls (bytes "3.0.0") two_schemas 2 no_references small_document)
    ≡ none
unfolding join_errors validate_document collect_validation_errors version_fields document_info
    top_level_requirements servers_and_external_docs with_operations document_paths
    conflict_problems is_open_api_30 is_open_api_31 is_open_api_32 is_uri_reference bytes_eq
    find_key set_key has_prefix normalize_templated_path replace_params pieces brace validate_info
    validate_server_names validate_security_requirements validate_links validate_path_item
    validate_item_operations item_problems has_operation operation_id_problems operation_problems
    params_problems validate_parameters resolve_parameter_refs validate_request_body
    response_problems is_response_code validate_response validate_headers validate_media_types
    validate_tags tag_loop validate_path_params validate_query_parameter_mix param_names
    contains_text to_upper to_lower declared_params
is_valid = refl

validate_document-IsDistinct_example : IsDistinct (document_ids small_document)
validate_document-IsDistinct_example =
    validate_document-IsDistinct all_urls (bytes "3.0.0") two_schemas 2 no_references small_document
      is_valid
