-- ===== src/OpenApi/Validate/Operations.antt =====
-- `ValidateOperation`, `ValidateCallback` of operation.go, `ValidatePathItem`,
-- `ValidatePathItemOperations`, `OperationsOf`, `IsFixedMethod` of path.go.
--
-- The map `operationIDs`, which all operations of a document share, is passed on and returned. In
-- the map of `OperationsOf` an additional operation takes the place of a fixed one of the same key.
pub mod Ids
pub mod Tracked
use xqua_go.Prelude.{
  ℕ, zero, suc, Bytes, bytes, bytes_eq, Bool, true, false, not, ◌&&◌, ◌||◌, List, [], ◌∷◌, ◌++◌,
  Option, none, some, if◌then◌else◌, find_key, set_key, has_prefix, to_lower, to_upper, decimal,
}
use xqua_go.OpenApi.Spec.{ExternalDocs, Server, SecurityScheme, is_filled}
use xqua_go.OpenApi.Spec.Schemas.{Heap}
use xqua_go.OpenApi.Spec.Paths.{
  OperationFields, PathFields, CallbackFields, Operation, nil_operation, operation, PathItem,
  nil_item, path_item, Operations, no_operations, add_operation, Callback, nil_callback, callback,
  Callbacks, no_callbacks, add_callback, PathItems, no_paths, add_path,
}
use xqua_go.OpenApi.Validate.{
  Problem, errorf, warningf, infof, when, text, Urls, is_uri_reference, is_open_api_30,
  is_open_api_32,
}
use xqua_go.OpenApi.Validate.Bodies.{validate_request_body, response_problems}
use xqua_go.OpenApi.Validate.Extras.{is_given, contains_text, has_invalid_reference_extra}
use xqua_go.OpenApi.Validate.Keywords.{error_at, error_when, docs_problems}
use xqua_go.OpenApi.Validate.Objects.{validate_security_requirements}
use xqua_go.OpenApi.Validate.Parameters.{Components, validate_parameters, resolve_parameter_refs}
use xqua_go.OpenApi.Validate.PathParams.{validate_path_params, validate_query_parameter_mix}
use xqua_go.OpenApi.Validate.Servers.{validate_server}

abbrev pub has_paths : PathItems → Bool
has_paths no_paths = false
has_paths (add_path name it its) = true

-- `CallbackRefHasInvalidSiblings`
unfoldable pub callback_ref_has_invalid_siblings : CallbackFields → PathItems → Bytes → Bool
callback_ref_has_invalid_siblings f expressions version =
    (is_open_api_30 version && (is_given f.summary || is_given f.description))
    || has_paths expressions
    || has_invalid_reference_extra f.extra version

abbrev fixed_methods : List Bytes
fixed_methods =
    bytes "get"
    ∷ bytes "put"
    ∷ bytes "post"
    ∷ bytes "delete"
    ∷ bytes "options"
    ∷ bytes "head"
    ∷ bytes "patch"
    ∷ bytes "trace"
    ∷ bytes "query"
    ∷ []

-- `IsFixedMethod`
unfoldable pub is_fixed_method : Bytes → Bool
is_fixed_method method = contains_text fixed_methods (to_lower method)

unfoldable pub has_operation : Bytes → Operations → Bool
has_operation method no_operations = false
has_operation method (add_operation name op ops) = bytes_eq name method || has_operation method ops

abbrev pub has_operations : Operations → Bool
has_operations no_operations = false
has_operations (add_operation name op ops) = true

abbrev pub is_operation : Operation → Bool
is_operation nil_operation = false
is_operation (operation f cbs) = true

abbrev pub fixed_method_problems : Bytes → Operations → List Problem
fixed_method_problems context no_operations = []
fixed_method_problems context (add_operation method op ops) =
    when (is_fixed_method method) (
      errorf "additionalOperations at %s must not contain fixed method %s"
        (text context ∷ text method ∷ []))
    ++ fixed_method_problems context ops

-- The operation identifiers that have been used, with their contexts
abbrev pub OperationIds : Type 0
OperationIds = List (Bytes × Bytes)

abbrev pub Checked : Type 0
Checked = List Problem × OperationIds

abbrev pub then_check : Checked → (OperationIds → Checked) → Checked
then_check (errs, ids) more = let (errs', ids') = more ids in (errs ++ errs', ids')

abbrev pub no_change : List Problem → OperationIds → Checked
no_change errs ids = (errs, ids)

-- Checks one after the other
abbrev pub run_turns : List (OperationIds → Checked) → OperationIds → Checked
run_turns [] ids = ([], ids)
run_turns (turn ∷ turns) ids = then_check (turn ids) (run_turns turns)

abbrev pub used_id : Bytes → Bytes → Option Bytes → OperationIds → Checked
used_id context id (some previous) ids = (
  errorf "%s operationId %q duplicates %s" (text context ∷ text id ∷ text previous ∷ []) ∷ [],
  ids,
)
used_id context id none ids = ([], set_key id context ids)

-- The first check of `ValidateOperation`
unfoldable pub operation_id_problems : Bytes → Bytes → OperationIds → Checked
operation_id_problems context id ids =
    if bytes_eq id []
    then (warningf "%s.operationId is recommended" (text context ∷ []) ∷ [], ids)
    else used_id context id (find_key id ids) ids

module _ (urls : Urls) (heap : Heap) (size : ℕ) (version : Bytes)
    (schemes : List (Bytes × Option SecurityScheme)) (components : Components) where
  abbrev pub servers_problems : Bytes → ℕ → List Server → List Problem
  servers_problems context i [] = []
  servers_problems context i (s ∷ ss) =
      validate_server urls (context ++ bytes ".servers[" ++ decimal i ++ bytes "]") s version
      ++ servers_problems context (suc i) ss

  -- `ValidateOperation` between the identifier and the callbacks
  unfoldable pub operation_problems : Bytes → OperationFields → List Problem
  operation_problems context f =
      when (not (is_filled f.tags)) (infof "%s.tags are missing" (text context ∷ []))
      ++ when (bytes_eq f.summary []) (warningf "%s.summary is recommended" (text context ∷ []))
      ++ when (bytes_eq f.description [])
          (warningf "%s.description is recommended" (text context ∷ []))
      ++ when f.deprecated (warningf "%s is deprecated" (text context ∷ []))
      ++ error_when (not (is_filled f.responses)) context "%s responses is required"
      ++ servers_problems context 0 f.servers
      ++ docs_problems urls context f.external_docs
      ++ validate_parameters urls heap size version components (context ++ bytes ".parameters") 0
          f.parameters []
      ++ validate_request_body urls heap size version (context ++ bytes ".requestBody")
          f.request_body
      ++ response_problems urls heap size version context f.responses

  abbrev pub security_problems : Bytes → OperationFields → List Problem
  security_problems context f =
      validate_security_requirements schemes version (context ++ bytes ".security") 0 f.security

  -- What a path item reports before its operations
  unfoldable pub item_problems : Bytes → PathFields → Operation → Operations → List Problem
  item_problems context f query additional =
      servers_problems context 0 f.servers
      ++ validate_parameters urls heap size version components (context ++ bytes ".parameters") 0
          f.parameters []
      ++ error_when (not (is_open_api_32 version) && is_operation query) context
          "QUERY operation at %s requires OpenAPI 3.2.0"
      ++ error_when (not (is_open_api_32 version) && has_operations additional) context
          "additionalOperations at %s requires OpenAPI 3.2.0"

  -- What is reported of the parameters of a path item and an operation of it together
  unfoldable pub params_problems : Bytes → Bytes → PathFields → OperationFields → List Problem
  params_problems context method item f =
      let params = resolve_parameter_refs (item.parameters ++ f.parameters) components in
      validate_path_params context method params
      ++ validate_query_parameter_mix (to_upper method ++ bytes " " ++ context) params

  abbrev pub of_operation : (OperationFields → List Problem) → Operation → List Problem
  of_operation more nil_operation = []
  of_operation more (operation f cbs) = more f

  abbrev pub at_method : Bytes → Bytes → Bytes
  at_method context method = to_upper method ++ bytes " " ++ context

  -- One turn of the loop over `OperationsOf`: a fixed operation is skipped where there is an
  -- additional one of the same key.
  abbrev pub check_method :
      Bytes
      → PathFields
      → Bool
      → Bytes
      → Operation
      → (OperationIds → Checked)
      → OperationIds
      → Checked
  check_method context item skipped method op run ids =
      if skipped
      then ([], ids)
      else then_check (run ids) (no_change (of_operation (params_problems context method item) op))

  abbrev pub expression_problems : Bytes → Bytes → PathItem → List Problem
  expression_problems context expression nil_item =
      errorf "%s.%s is required" (text context ∷ text expression ∷ []) ∷ []
  expression_problems context expression (path_item f a b c d e g h i j additional) = []

  unfoldable mutual
    -- `ValidateOperation`, of an operation that is not nil
    pub validate_operation : Bytes → Operation → OperationIds → Checked
    validate_operation context nil_operation ids = ([], ids)
    validate_operation context (operation f cbs) ids =
        then_check (operation_id_problems context f.operation_id ids) (λ ids'.
          then_check (no_change (operation_problems context f) ids') (λ ids'.
            then_check (validate_callbacks (context ++ bytes ".callbacks.") cbs ids')
              (no_change (security_problems context f))))

    pub validate_callbacks : Bytes → Callbacks → OperationIds → Checked
    validate_callbacks context no_callbacks ids = ([], ids)
    validate_callbacks context (add_callback name cb cbs) ids =
        then_check (validate_callback (context ++ name) cb ids)
          (λ ids'. validate_callbacks context cbs ids')

    -- `ValidateCallback`
    pub validate_callback : Bytes → Callback → OperationIds → Checked
    validate_callback context nil_callback ids = (error_at context "%s is required", ids)
    validate_callback context (callback f expressions) ids =
        let inner = validate_expressions context expressions ids in
        if is_given f.ref
        then (
          error_when (callback_ref_has_invalid_siblings f expressions version) context
              "%s must not define siblings with $ref",
          ids,
        )
        else then_check
            (no_change
              (error_when (not (has_paths expressions)) context
                "%s must define at least one callback expression")
              ids)
            (λ _. inner)

    pub validate_expressions : Bytes → PathItems → OperationIds → Checked
    validate_expressions context no_paths ids = ([], ids)
    validate_expressions context (add_path expression it its) ids =
        then_check (no_change (expression_problems context expression it) ids) (λ ids'.
          then_check (validate_item_operations (context ++ bytes "." ++ expression) it ids')
            (λ ids'. validate_expressions context its ids'))

    -- `ValidatePathItemOperations`
    pub validate_item_operations : Bytes → PathItem → OperationIds → Checked
    validate_item_operations context nil_item ids = ([], ids)
    validate_item_operations context
          (path_item f get put post delete options head patch trace query more) ids =
        then_check (no_change (item_problems context f query more) ids) (λ ids'.
          then_check
            (run_turns
              (check_method context f (has_operation (bytes "get") more) (bytes "get") get
                  (λ i. validate_operation (at_method context (bytes "get")) get i)
                ∷ check_method context f (has_operation (bytes "put") more) (bytes "put") put
                    (λ i. validate_operation (at_method context (bytes "put")) put i)
                ∷ check_method context f (has_operation (bytes "post") more) (bytes "post") post
                    (λ i. validate_operation (at_method context (bytes "post")) post i)
                ∷ check_method context f (has_operation (bytes "delete") more) (bytes "delete")
                    delete (λ i. validate_operation (at_method context (bytes "delete")) delete i)
                ∷ check_method context f (has_operation (bytes "options") more) (bytes "options")
                    options
                    (λ i. validate_operation (at_method context (bytes "options")) options i)
                ∷ check_method context f (has_operation (bytes "head") more) (bytes "head") head
                    (λ i. validate_operation (at_method context (bytes "head")) head i)
                ∷ check_method context f (has_operation (bytes "patch") more) (bytes "patch") patch
                    (λ i. validate_operation (at_method context (bytes "patch")) patch i)
                ∷ check_method context f (has_operation (bytes "trace") more) (bytes "trace") trace
                    (λ i. validate_operation (at_method context (bytes "trace")) trace i)
                ∷ check_method context f (has_operation (bytes "query") more) (bytes "query") query
                    (λ i. validate_operation (at_method context (bytes "query")) query i)
                ∷ (λ i. validate_additional context f more i)
                ∷ [])
              ids')
            (no_change (fixed_method_problems context more)))

    pub validate_additional : Bytes → PathFields → Operations → OperationIds → Checked
    validate_additional context f no_operations ids = ([], ids)
    validate_additional context f (add_operation method op ops) ids =
        then_check
          (check_method context f false method op
            (λ i. validate_operation (at_method context method) op i) ids)
          (λ ids'. validate_additional context f ops ids')

  -- `ValidatePathItem`
  unfoldable pub validate_path_item : Bytes → PathItem → OperationIds → Checked
  validate_path_item path it ids =
      then_check
        (no_change
          (when (not (has_prefix path (bytes "/")))
            (errorf "path %q must start with /" (text path ∷ [])))
          ids)
        (λ ids'. validate_item_operations path it ids')
