-- ===== src/OpenApi/Validate/Document/Unique.antt =====
-- The identifiers of the operations of a valid document are distinct.
use xqua_go.Prelude.{ℕ, Bytes, bytes, List, [], ◌∷◌, ◌++◌, Option, none, some, ◌≡◌, has_prefix, not}
use xqua_go.OpenApi.Spec.{SecurityScheme}
use xqua_go.OpenApi.Spec.Schemas.{Heap}
use xqua_go.OpenApi.Spec.Paths.{
  Parameter, PathItem, PathItems, no_paths, add_path, Components, Document,
}
use xqua_go.OpenApi.Validate.{Problem, Urls, errorf, when, text}
use xqua_go.OpenApi.Validate.Components.{
  paths_of, path_items, component_problems, media_of, media_problems, validate_components,
}
use xqua_go.OpenApi.Validate.Document.{
  schemes_of, parameters_of, Normalized, conflict_problems, after_conflict, document_paths,
  components_checked, with_operations, validate_document, version_fields, document_info,
  top_level_requirements, servers_and_external_docs,
}
use xqua_go.OpenApi.Validate.Objects.{validate_security_requirements}
use xqua_go.OpenApi.Validate.Operations.{
  OperationIds, Checked, then_check, no_change, validate_callbacks, validate_item_operations,
  validate_path_item,
}
use xqua_go.OpenApi.Validate.Operations.Ids.{
  callback_ids, path_ids, item_ids, IsDistinct, Tracks, Tracks-then, Tracks-none, Tracks-before,
  Tracks-after, AllNew-IsDistinct,
}
use xqua_go.OpenApi.Validate.Operations.Tracked.{item-Tracks, callbacks-Tracks}
use xqua_go.OpenApi.Validate.Report.{join_errors}
use xqua_go.OpenApi.Validate.Report.Accepted.{IsAccepted-append, join_errors-IsAccepted}
use xqua_go.OpenApi.Validate.Tags.{validate_tags}

-- The identifiers of the operations of the components
abbrev pub component_ids : Option Components → List Bytes
component_ids none = []
component_ids (some c) = callback_ids c.callbacks ++ path_ids (paths_of c.path_items)

-- Those of all operations of a document: of its paths, webhooks and components, callbacks included
abbrev pub document_ids : Document → List Bytes
document_ids doc =
    path_ids (paths_of doc.paths)
    ++ (path_ids (paths_of doc.webhooks) ++ component_ids doc.components)

module _ (urls : Urls) (version : Bytes) (heap : Heap) (size : ℕ)
    (references : Document → List Problem) (schemes : List (Bytes × Option SecurityScheme))
    (parameters : List (Bytes × Option Parameter)) where
  path_items-Tracks :
      (context : Bytes) (its : PathItems) (ids : OperationIds)
      → Tracks
          (path_items urls heap size version schemes parameters context its ids)
          ids
          (path_ids its)
  unfolding path_ids
  path_items-Tracks context no_paths ids = Tracks-none [] ids
  path_items-Tracks context (add_path name it its) ids =
      let first =
        validate_item_operations urls heap size version schemes parameters (context ++ name) it
          ids in
      Tracks-then first (path_items urls heap size version schemes parameters context its) ids
        (item_ids it) (path_ids its)
        (item-Tracks urls heap size version schemes parameters (context ++ name) it ids)
        (path_items-Tracks context its first.1)

  path_item-Tracks :
      (path : Bytes) (it : PathItem) (ids : OperationIds)
      → Tracks
          (validate_path_item urls heap size version schemes parameters path it ids)
          ids
          (item_ids it)
  unfolding validate_path_item
  path_item-Tracks path it ids =
      Tracks-before
        (when (not (has_prefix path (bytes "/")))
          (errorf "path %q must start with /" (text path ∷ [])))
        (validate_item_operations urls heap size version schemes parameters path it) ids
        (item_ids it) (item-Tracks urls heap size version schemes parameters path it ids)

  -- The conflict of a path is reported before it.
  Tracks-after_conflict :
      (c : List Problem × Normalized) (more : Normalized → Checked) (ids : OperationIds)
      (ks : List Bytes)
      → Tracks (more c.1) ids ks
      → Tracks (after_conflict urls version heap size references c more) ids ks
  unfolding Tracks
  Tracks-after_conflict c more ids ks t h = t (IsAccepted-append c.0 (more c.1).0 h).1

  document_paths-Tracks :
      (its : PathItems) (m : Normalized) (ids : OperationIds)
      → Tracks
          (document_paths urls version heap size references schemes parameters its m ids)
          ids
          (path_ids its)
  unfolding document_paths path_ids
  document_paths-Tracks no_paths m ids = Tracks-none [] ids
  document_paths-Tracks (add_path path it its) m ids =
      let first = validate_path_item urls heap size version schemes parameters path it ids in
      let found = conflict_problems path m in
      Tracks-after_conflict found
        (λ m'.
          then_check (validate_path_item urls heap size version schemes parameters path it ids)
            (λ ids'.
              document_paths urls version heap size references schemes parameters its m' ids'))
        ids (item_ids it ++ path_ids its)
        (Tracks-then first
          (λ ids'.
            document_paths urls version heap size references schemes parameters its found.1 ids')
          ids (item_ids it) (path_ids its) (path_item-Tracks path it ids)
          (document_paths-Tracks its found.1 first.1))

  components-Tracks :
      (c : Option Components) (ids : OperationIds)
      → Tracks
          (components_checked urls version heap size references schemes parameters c ids)
          ids
          (component_ids c)
  unfolding validate_components
  components-Tracks none ids = Tracks-none [] ids
  components-Tracks (some c) ids =
      let callbacks =
        validate_callbacks urls heap size version schemes parameters (bytes "components.callbacks.")
          c.callbacks ids in
      let its = paths_of c.path_items in
      let paths =
        path_items urls heap size version schemes parameters (bytes "components.pathItems.") its
          callbacks.1 in
      let last =
        media_problems urls heap size version schemes parameters (media_of c.media_types) in
      let then_paths : OperationIds → Checked = λ i.
        then_check
          (path_items urls heap size version schemes parameters (bytes "components.pathItems.") its
            i)
          (no_change last) in
      let then_callbacks : OperationIds → Checked = λ i.
        then_check
          (validate_callbacks urls heap size version schemes parameters
            (bytes "components.callbacks.") c.callbacks i)
          then_paths in
      Tracks-before (component_problems urls heap size version schemes parameters c) then_callbacks
        ids (callback_ids c.callbacks ++ path_ids its)
        (Tracks-then callbacks then_paths ids (callback_ids c.callbacks) (path_ids its)
          (callbacks-Tracks urls heap size version schemes parameters
            (bytes "components.callbacks.") c.callbacks ids)
          (Tracks-after paths last callbacks.1 (path_ids its)
            (path_items-Tracks (bytes "components.pathItems.") its callbacks.1)))

with_operations-Tracks :
    (urls : Urls) (version : Bytes) (heap : Heap) (size : ℕ) (references : Document → List Problem)
    (doc : Document) (ids : OperationIds)
    → Tracks (with_operations urls version heap size references doc ids) ids (document_ids doc)
unfolding with_operations
with_operations-Tracks urls version heap size references doc ids =
    let schemes = schemes_of doc.components in
    let parameters = parameters_of doc.components in
    let paths =
      document_paths urls version heap size references schemes parameters (paths_of doc.paths) []
        ids in
    let hooks =
      path_items urls heap size version schemes parameters (bytes "webhooks.")
        (paths_of doc.webhooks) paths.1 in
    let then_components : OperationIds → Checked = λ i.
      components_checked urls version heap size references schemes parameters doc.components i in
    let then_hooks : OperationIds → Checked = λ i.
      then_check
        (path_items urls heap size version schemes parameters (bytes "webhooks.")
          (paths_of doc.webhooks) i)
        then_components in
    Tracks-then paths then_hooks ids (path_ids (paths_of doc.paths))
      (path_ids (paths_of doc.webhooks) ++ component_ids doc.components)
      (document_paths-Tracks urls version heap size references schemes parameters
        (paths_of doc.paths) [] ids)
      (Tracks-then hooks then_components paths.1 (path_ids (paths_of doc.webhooks))
        (component_ids doc.components)
        (path_items-Tracks urls version heap size references schemes parameters (bytes "webhooks.")
          (paths_of doc.webhooks) paths.1)
        (components-Tracks urls version heap size references schemes parameters doc.components
          hooks.1))

-- Where the errors of a document are joined to none, its operations have distinct identifiers: those
-- of its paths, webhooks and components, with their callbacks, leaving aside operations without an
-- identifier and callbacks that are references.
pub validate_document-IsDistinct :
    (urls : Urls) (version : Bytes) (heap : Heap) (size : ℕ) (references : Document → List Problem)
    (doc : Document)
    → join_errors (validate_document urls version heap size references doc) ≡ none
    → IsDistinct (document_ids doc)
unfolding validate_document Tracks
validate_document-IsDistinct urls version heap size references doc h =
    let checked = with_operations urls version heap size references doc [] in
    let before =
      version_fields urls version doc
      ++ document_info urls version doc
      ++ top_level_requirements urls version doc
      ++ servers_and_external_docs urls version doc
      ++ validate_security_requirements (schemes_of doc.components) version (bytes "security") 0
          doc.security in
    let tags = validate_tags urls doc.tags version in
    let accepted = join_errors-IsAccepted (before ++ checked.0 ++ tags ++ references doc) h in
    let (a, _) = IsAccepted-append (before ++ checked.0 ++ tags) (references doc) accepted in
    let (b, _) = IsAccepted-append (before ++ checked.0) tags a in
    let (_, c) = IsAccepted-append before checked.0 b in
    AllNew-IsDistinct (document_ids doc) []
      (with_operations-Tracks urls version heap size references doc [] c).0
