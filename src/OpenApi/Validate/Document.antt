-- ===== src/OpenApi/Validate/Document.antt =====
-- `ValidateDocument` of document.go, with its parts.
--
-- `references` is what `ValidateReferenceTargets` reports, which walks the document by reflection.
pub mod Unique
use xqua_go.Prelude.{
  ℕ, zero, suc, Bytes, bytes, bytes_eq, Bool, true, false, not, ◌&&◌, ◌||◌, List, [], ◌∷◌, ◌++◌,
  Option, none, some, if◌then◌else◌, find_key, set_key, decimal,
}
use xqua_go.OpenApi.Spec.{ExternalDocs, Server, SecurityScheme, is_some, is_filled}
use xqua_go.OpenApi.Spec.Schemas.{Heap}
use xqua_go.OpenApi.Spec.Paths.{
  Parameter, PathItem, PathItems, no_paths, add_path, Components, Document,
}
use xqua_go.OpenApi.Validate.{
  Problem, errorf, infof, when, text, Urls, is_uri_reference, is_open_api_30, is_open_api_31,
  is_open_api_32,
}
use xqua_go.OpenApi.Validate.Components.{paths_of, path_items, validate_components}
use xqua_go.OpenApi.Validate.Extras.{is_given}
use xqua_go.OpenApi.Validate.Objects.{validate_security_requirements}
use xqua_go.OpenApi.Validate.Operations.{
  OperationIds, Checked, then_check, no_change, validate_path_item,
}
use xqua_go.OpenApi.Validate.Servers.{validate_info, validate_server, validate_server_names}
use xqua_go.OpenApi.Validate.Tags.{validate_tags}
use xqua_go.OpenApi.Validate.Templates.{normalize_templated_path}

abbrev pub schemes_of : Option Components → List (Bytes × Option SecurityScheme)
schemes_of none = []
schemes_of (some c) = c.security_schemes

abbrev pub parameters_of : Option Components → List (Bytes × Option Parameter)
parameters_of none = []
parameters_of (some c) = c.parameters

-- The paths by their normalized texts
abbrev pub Normalized : Type 0
Normalized = List (Bytes × Bytes)

abbrev pub conflict : Bytes → Bytes → Option Bytes → Normalized → List Problem × Normalized
conflict path normalized none m = ([], set_key normalized path m)
conflict path normalized (some previous) m =
    if bytes_eq previous path then ([], set_key normalized path m) else (
      errorf "path %q conflicts with equivalent templated path %q" (text path ∷ text previous ∷ [])
          ∷ [],
      m,
    )

unfoldable pub conflict_problems : Bytes → Normalized → List Problem × Normalized
conflict_problems path m =
    let normalized = normalize_templated_path path in
    if bytes_eq normalized path then ([], m) else conflict path normalized (find_key normalized m) m

module _ (urls : Urls) (version : Bytes) where
  -- `validateDocumentVersionFields`
  unfoldable pub version_fields : Document → List Problem
  version_fields doc =
      when (is_given doc.open_api && not (bytes_eq doc.open_api version))
        (errorf "openapi must be %s, got %s" (text version ∷ text doc.open_api ∷ []))
      ++ when (is_given doc.self && not (is_open_api_32 version))
          (errorf "$self requires OpenAPI 3.2.0" [])
      ++ when (is_given doc.self && not (is_uri_reference urls doc.self))
          (errorf "$self must be a URI reference" [])
      ++ when
          (is_given doc.json_schema_dialect && not (is_uri_reference urls doc.json_schema_dialect))
          (errorf "jsonSchemaDialect must be a URI" [])

  -- `validateDocumentInfo`
  unfoldable pub document_info : Document → List Problem
  document_info doc =
      when (bytes_eq doc.info.title []) (errorf "info.title is required" [])
      ++ when (bytes_eq doc.info.version []) (errorf "info.version is required" [])
      ++ validate_info urls doc.info version

  -- `validateDocumentTopLevelRequirements`
  unfoldable pub top_level_requirements : Document → List Problem
  top_level_requirements doc =
      when (is_open_api_30 version && not (is_some doc.paths)) (errorf "paths is required" [])
      ++ when (is_open_api_30 version && is_given doc.json_schema_dialect)
          (errorf "jsonSchemaDialect requires OpenAPI 3.1.x or 3.2.0" [])
      ++ when (is_open_api_30 version && is_some doc.webhooks)
          (errorf "webhooks requires OpenAPI 3.1.x or 3.2.0" [])
      ++ when
          ((is_open_api_31 version || is_open_api_32 version)
            && not (is_some doc.paths)
            && not (is_some doc.webhooks)
            && not (is_some doc.components))
          (errorf "one of paths, components, or webhooks is required" [])

  abbrev servers_problems : ℕ → List Server → List Problem
  servers_problems i [] = []
  servers_problems i (s ∷ ss) =
      validate_server urls (bytes "servers[" ++ decimal i ++ bytes "]") s version
      ++ servers_problems (suc i) ss

  abbrev docs_problems : Option ExternalDocs → List Problem
  docs_problems none = []
  docs_problems (some d) =
      when (bytes_eq d.url []) (errorf "externalDocs.url is required" [])
      ++ when (is_given d.url && not (is_uri_reference urls d.url))
          (errorf "externalDocs.url must be a URI" [])

  -- `validateDocumentServersAndExternalDocs`
  unfoldable pub servers_and_external_docs : Document → List Problem
  servers_and_external_docs doc =
      when (not (is_filled doc.servers)) (infof "servers array is empty" [])
      ++ servers_problems 0 doc.servers
      ++ validate_server_names 0 doc.servers version []
      ++ docs_problems doc.external_docs

  module _ (heap : Heap) (size : ℕ) (references : Document → List Problem) where
    abbrev pub after_conflict : List Problem × Normalized → (Normalized → Checked) → Checked
    after_conflict (errs, m) more = then_check (errs, []) (λ _. more m)

    -- The loop over the paths
    unfoldable pub document_paths :
        List (Bytes × Option SecurityScheme)
        → List (Bytes × Option Parameter)
        → PathItems
        → Normalized
        → OperationIds
        → Checked
    document_paths schemes parameters no_paths m ids = ([], ids)
    document_paths schemes parameters (add_path path it its) m ids =
        after_conflict (conflict_problems path m) (λ m'.
          then_check (validate_path_item urls heap size version schemes parameters path it ids)
            (λ ids'. document_paths schemes parameters its m' ids'))

    abbrev pub components_checked :
        List (Bytes × Option SecurityScheme)
        → List (Bytes × Option Parameter)
        → Option Components
        → OperationIds
        → Checked
    components_checked schemes parameters none ids = ([], ids)
    components_checked schemes parameters (some c) ids =
        validate_components urls heap size version schemes parameters c ids

    -- What uses the identifiers of operations: paths, webhooks and components
    unfoldable pub with_operations : Document → OperationIds → Checked
    with_operations doc ids =
        let schemes = schemes_of doc.components in
        let parameters = parameters_of doc.components in
        then_check (document_paths schemes parameters (paths_of doc.paths) [] ids) (λ ids'.
          then_check
            (path_items urls heap size version schemes parameters (bytes "webhooks.")
              (paths_of doc.webhooks) ids')
            (λ ids'. components_checked schemes parameters doc.components ids'))

    -- `ValidateDocument`
    unfoldable pub validate_document : Document → List Problem
    validate_document doc =
        version_fields doc
        ++ document_info doc
        ++ top_level_requirements doc
        ++ servers_and_external_docs doc
        ++ validate_security_requirements (schemes_of doc.components) version (bytes "security") 0
            doc.security
        ++ (with_operations doc []).0
        ++ validate_tags urls doc.tags version
        ++ references doc
