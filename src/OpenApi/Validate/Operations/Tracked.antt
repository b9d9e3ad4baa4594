-- ===== src/OpenApi/Validate/Operations/Tracked.antt =====
-- Every check of an operation, of a path item and of a callback tracks the identifiers that it has.
use xqua_go.Prelude.{Bytes, bytes, Bool, true, false, not, List, [], ◌++◌, Option, if◌then◌else◌, ℕ}
use xqua_go.OpenApi.Spec.{SecurityScheme}
use xqua_go.OpenApi.Spec.Schemas.{Heap}
use xqua_go.OpenApi.Spec.Paths.{
  PathFields, Operation, nil_operation, operation, PathItem, nil_item, path_item, Operations,
  no_operations, add_operation, Callback, nil_callback, callback, Callbacks, no_callbacks,
  add_callback, PathItems, no_paths, add_path,
}
use xqua_go.OpenApi.Validate.{Problem, Urls}
use xqua_go.OpenApi.Validate.Extras.{is_given}
use xqua_go.OpenApi.Validate.Keywords.{error_at, error_when}
use xqua_go.OpenApi.Validate.Operations.{
  OperationIds, Checked, then_check, no_change, run_turns, operation_id_problems, has_operation,
  at_method, callback_ref_has_invalid_siblings, check_method, of_operation, params_problems,
  expression_problems, operation_problems, security_problems, item_problems, fixed_method_problems,
  has_paths, validate_operation, validate_callbacks, validate_callback, validate_expressions,
  validate_item_operations, validate_additional,
}
use xqua_go.OpenApi.Validate.Parameters.{Components}
use xqua_go.OpenApi.Validate.Operations.Ids.{
  unless_empty_id, unless, concat_ids, operation_ids, callback_ids, ids_of_callback, path_ids,
  item_ids, additional_ids, Tracks, Tracks-then, Tracks-none, Tracks-before, Tracks-after,
  operation_id-Tracks, AllTrack, no_turn, add_turn, run_turns-Tracks,
}

module _ (urls : Urls) (heap : Heap) (size : ℕ) (version : Bytes)
    (schemes : List (Bytes × Option SecurityScheme)) (components : Components) where
  -- The turn of a method tracks what its operation does, unless it is skipped.
  check_method-Tracks :
      (context : Bytes) (item : PathFields) (skipped : Bool) (method : Bytes) (op : Operation)
      (run : OperationIds → Checked) (ids : OperationIds) (ks : List Bytes)
      → Tracks (run ids) ids ks
      → Tracks
          (check_method urls heap size version schemes components context item skipped method op run
            ids)
          ids
          (unless skipped ks)
  check_method-Tracks context item true method op run ids ks t = Tracks-none [] ids
  check_method-Tracks context item false method op run ids ks t =
      Tracks-after (run ids)
        (of_operation urls heap size version schemes components
          (params_problems urls heap size version schemes components context method item) op)
        ids ks t

  -- The turn of a method with what its operation does
  method-Tracks :
      (context : Bytes) (item : PathFields) (skipped : Bool) (method : Bytes) (op : Operation)
      (run : OperationIds → Checked) (ks : List Bytes)
      → ((i : OperationIds) → Tracks (run i) i ks)
      → (i : OperationIds)
      → Tracks
          (check_method urls heap size version schemes components context item skipped method op run
            i)
          i
          (unless skipped ks)
  method-Tracks context item skipped method op run ks t i =
      check_method-Tracks context item skipped method op run i ks (t i)

  entered :
      (is_ref : Bool) (inner : Checked) (ks : List Bytes) (siblings empty : List Problem)
      (ids : OperationIds)
      → Tracks inner ids ks
      → Tracks
          (if is_ref then (siblings, ids) else then_check (no_change empty ids) (λ _. inner))
          ids
          (unless is_ref ks)
  entered true inner ks siblings empty ids t = Tracks-none siblings ids
  entered false inner ks siblings empty ids t = Tracks-before empty (λ _. inner) ids ks t

  after_turns :
      (turns : List (OperationIds → Checked)) (kss : List (List Bytes))
      (before after : List Problem) (ids : OperationIds)
      → AllTrack turns kss
      → Tracks
          (then_check
            (no_change before ids)
            (λ ids'. then_check (run_turns turns ids') (no_change after)))
          ids
          (concat_ids kss)
  after_turns turns kss before after ids t =
      Tracks-before before (λ ids'. then_check (run_turns turns ids') (no_change after)) ids
        (concat_ids kss)
        (Tracks-after (run_turns turns ids) after ids (concat_ids kss)
          (run_turns-Tracks turns kss ids t))

  mutual
    unfolding validate_operation operation_ids

    operation-Tracks :
        (context : Bytes) (op : Operation) (ids : OperationIds)
        → Tracks
            (validate_operation urls heap size version schemes components context op ids)
            ids
            (operation_ids op)
    operation-Tracks context nil_operation ids = Tracks-none [] ids
    operation-Tracks context (operation f cbs) ids =
        let first = operation_id_problems context f.operation_id ids in
        Tracks-then first
          (λ ids'.
            then_check
              (no_change (operation_problems urls heap size version schemes components context f)
                ids')
              (λ ids'.
                then_check
                  (validate_callbacks urls heap size version schemes components
                    (context ++ bytes ".callbacks.") cbs ids')
                  (no_change
                    (security_problems urls heap size version schemes components context f))))
          ids (unless_empty_id f.operation_id) (callback_ids cbs)
          (operation_id-Tracks context f.operation_id ids)
          (Tracks-before (operation_problems urls heap size version schemes components context f)
            (λ ids'.
              then_check
                (validate_callbacks urls heap size version schemes components
                  (context ++ bytes ".callbacks.") cbs ids')
                (no_change (security_problems urls heap size version schemes components context f)))
            first.1 (callback_ids cbs)
            (Tracks-after
              (validate_callbacks urls heap size version schemes components
                (context ++ bytes ".callbacks.") cbs first.1)
              (security_problems urls heap size version schemes components context f) first.1
              (callback_ids cbs) (callbacks-Tracks (context ++ bytes ".callbacks.") cbs first.1)))

    pub callbacks-Tracks :
        (context : Bytes) (cbs : Callbacks) (ids : OperationIds)
        → Tracks
            (validate_callbacks urls heap size version schemes components context cbs ids)
            ids
            (callback_ids cbs)
    callbacks-Tracks context no_callbacks ids = Tracks-none [] ids
    callbacks-Tracks context (add_callback name cb cbs) ids =
        let first =
          validate_callback urls heap size version schemes components (context ++ name) cb ids in
        Tracks-then first (validate_callbacks urls heap size version schemes components context cbs)
          ids (ids_of_callback cb) (callback_ids cbs) (callback-Tracks (context ++ name) cb ids)
          (callbacks-Tracks context cbs first.1)

    callback-Tracks :
        (context : Bytes) (cb : Callback) (ids : OperationIds)
        → Tracks
            (validate_callback urls heap size version schemes components context cb ids)
            ids
            (ids_of_callback cb)
    callback-Tracks context nil_callback ids = Tracks-none (error_at context "%s is required") ids
    callback-Tracks context (callback f expressions) ids =
        entered (is_given f.ref)
          (validate_expressions urls heap size version schemes components context expressions ids)
          (path_ids expressions)
          (error_when (callback_ref_has_invalid_siblings f expressions version) context
            "%s must not define siblings with $ref")
          (error_when (not (has_paths expressions)) context
            "%s must define at least one callback expression")
          ids (expressions-Tracks context expressions ids)

    expressions-Tracks :
        (context : Bytes) (its : PathItems) (ids : OperationIds)
        → Tracks
            (validate_expressions urls heap size version schemes components context its ids)
            ids
            (path_ids its)
    expressions-Tracks context no_paths ids = Tracks-none [] ids
    expressions-Tracks context (add_path expression it its) ids =
        Tracks-before
          (expression_problems urls heap size version schemes components context expression it)
          (λ i.
            then_check
              (validate_item_operations urls heap size version schemes components
                (context ++ bytes "." ++ expression) it i)
              (validate_expressions urls heap size version schemes components context its))
          ids (item_ids it ++ path_ids its)
          (Tracks-then
            (validate_item_operations urls heap size version schemes components
              (context ++ bytes "." ++ expression) it ids)
            (validate_expressions urls heap size version schemes components context its) ids
            (item_ids it) (path_ids its) (item-Tracks (context ++ bytes "." ++ expression) it ids)
            (expressions-Tracks context its
              (validate_item_operations urls heap size version schemes components
                (context ++ bytes "." ++ expression) it ids).1))

    pub item-Tracks :
        (context : Bytes) (it : PathItem) (ids : OperationIds)
        → Tracks
            (validate_item_operations urls heap size version schemes components context it ids)
            ids
            (item_ids it)
    item-Tracks context nil_item ids = Tracks-none [] ids
    item-Tracks context (path_item f get put post delete options head patch trace query more) ids =
        after_turns _ _
          (item_problems urls heap size version schemes components context f query more)
          (fixed_method_problems context more) ids
          (add_turn
            (method-Tracks context f (has_operation (bytes "get") more) (bytes "get") get
              (λ i.
                validate_operation urls heap size version schemes components
                  (at_method urls heap size version schemes components context (bytes "get")) get i)
              (operation_ids get)
              (operation-Tracks
                (at_method urls heap size version schemes components context (bytes "get")) get))
            (add_turn
              (method-Tracks context f (has_operation (bytes "put") more) (bytes "put") put
                (λ i.
                  validate_operation urls heap size version schemes components
                    (at_method urls heap size version schemes components context (bytes "put")) put
                    i)
                (operation_ids put)
                (operation-Tracks
                  (at_method urls heap size version schemes components context (bytes "put")) put))
              (add_turn
                (method-Tracks context f (has_operation (bytes "post") more) (bytes "post") post
                  (λ i.
                    validate_operation urls heap size version schemes components
                      (at_method urls heap size version schemes components context (bytes "post"))
                      post i)
                  (operation_ids post)
                  (operation-Tracks
                    (at_method urls heap size version schemes components context (bytes "post"))
                    post))
                (add_turn
                  (method-Tracks context f (has_operation (bytes "delete") more) (bytes "delete")
                    delete
                    (λ i.
                      validate_operation urls heap size version schemes components
                        (at_method urls heap size version schemes components context
                          (bytes "delete"))
                        delete i)
                    (operation_ids delete)
                    (operation-Tracks
                      (at_method urls heap size version schemes components context (bytes "delete"))
                      delete))
                  (add_turn
                    (method-Tracks context f (has_operation (bytes "options") more)
                      (bytes "options") options
                      (λ i.
                        validate_operation urls heap size version schemes components
                          (at_method urls heap size version schemes components context
                            (bytes "options"))
                          options i)
                      (operation_ids options)
                      (operation-Tracks
                        (at_method urls heap size version schemes components context
                          (bytes "options"))
                        options))
                    (add_turn
                      (method-Tracks context f (has_operation (bytes "head") more) (bytes "head")
                        head
                        (λ i.
                          validate_operation urls heap size version schemes components
                            (at_method urls heap size version schemes components context
                              (bytes "head"))
                            head i)
                        (operation_ids head)
                        (operation-Tracks
                          (at_method urls heap size version schemes components context
                            (bytes "head"))
                          head))
                      (add_turn
                        (method-Tracks context f (has_operation (bytes "patch") more)
                          (bytes "patch") patch
                          (λ i.
                            validate_operation urls heap size version schemes components
                              (at_method urls heap size version schemes components context
                                (bytes "patch"))
                              patch i)
                          (operation_ids patch)
                          (operation-Tracks
                            (at_method urls heap size version schemes components context
                              (bytes "patch"))
                            patch))
                        (add_turn
                          (method-Tracks context f (has_operation (bytes "trace") more)
                            (bytes "trace") trace
                            (λ i.
                              validate_operation urls heap size version schemes components
                                (at_method urls heap size version schemes components context
                                  (bytes "trace"))
                                trace i)
                            (operation_ids trace)
                            (operation-Tracks
                              (at_method urls heap size version schemes components context
                                (bytes "trace"))
                              trace))
                          (add_turn
                            (method-Tracks context f (has_operation (bytes "query") more)
                              (bytes "query") query
                              (λ i.
                                validate_operation urls heap size version schemes components
                                  (at_method urls heap size version schemes components context
                                    (bytes "query"))
                                  query i)
                              (operation_ids query)
                              (operation-Tracks
                                (at_method urls heap size version schemes components context
                                  (bytes "query"))
                                query))
                            (add_turn (additional-Tracks context f more) no_turn))))))))))

    additional-Tracks :
        (context : Bytes) (f : PathFields) (ops : Operations) (ids : OperationIds)
        → Tracks
            (validate_additional urls heap size version schemes components context f ops ids)
            ids
            (additional_ids ops)
    additional-Tracks context f no_operations ids = Tracks-none [] ids
    additional-Tracks context f (add_operation method op ops) ids =
        let run : OperationIds → Checked = λ i.
          validate_operation urls heap size version schemes components
            (at_method urls heap size version schemes components context method) op i in
        let turn =
          check_method urls heap size version schemes components context f false method op run
            ids in
        Tracks-then turn
          (validate_additional urls heap size version schemes components context f ops) ids
          (operation_ids op) (additional_ids ops)
          (method-Tracks context f false method op run (operation_ids op)
            (operation-Tracks (at_method urls heap size version schemes components context method)
              op)
            ids)
          (additional-Tracks context f ops turn.1)
