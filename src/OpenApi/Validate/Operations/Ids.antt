-- ===== src/OpenApi/Validate/Operations/Ids.antt =====
-- The identifiers of operations: those that are accepted one after the other are distinct.
use xqua_go.Prelude.{
  Bytes, bytes, bytes_eq, bytes_eq_refl, bytes_eq_cases, Bool, true, false, Bool-cases, ◌||◌, List,
  [], ◌∷◌, ◌++◌, Option, none, some, if◌then◌else◌, find_key, find_key-set_key, ◌≡◌, inl, inr, refl,
  ap, ◌∙◌, subst, arith, append-nil,
}
use xqua_go.OpenApi.Spec.Paths.{
  Operation, nil_operation, operation, PathItem, nil_item, path_item, Operations, no_operations,
  add_operation, Callback, nil_callback, callback, Callbacks, no_callbacks, add_callback, PathItems,
  no_paths, add_path,
}
use xqua_go.OpenApi.Validate.{Problem, errorf, text}
use xqua_go.OpenApi.Validate.Extras.{is_given, contains_text}
use xqua_go.OpenApi.Validate.Operations.{
  OperationIds, Checked, then_check, no_change, run_turns, used_id, operation_id_problems,
  has_operation,
}
use xqua_go.OpenApi.Validate.Report.Accepted.{IsAccepted, IsAccepted-append, IsAccepted-cons}

abbrev pub unless_empty_id : Bytes → List Bytes
unless_empty_id id = if bytes_eq id [] then [] else id ∷ []

abbrev pub unless : Bool → List Bytes → List Bytes
unless true ids = []
unless false ids = ids

abbrev pub concat_ids : List (List Bytes) → List Bytes
concat_ids [] = []
concat_ids (ids ∷ more) = ids ++ concat_ids more

-- The identifiers that the operations have, in the order of the validation. A callback that is a
-- reference is not entered.
unfoldable mutual
  pub operation_ids : Operation → List Bytes
  operation_ids nil_operation = []
  operation_ids (operation f cbs) = unless_empty_id f.operation_id ++ callback_ids cbs

  pub callback_ids : Callbacks → List Bytes
  callback_ids no_callbacks = []
  callback_ids (add_callback name cb cbs) = ids_of_callback cb ++ callback_ids cbs

  pub ids_of_callback : Callback → List Bytes
  ids_of_callback nil_callback = []
  ids_of_callback (callback f expressions) = unless (is_given f.ref) (path_ids expressions)

  pub path_ids : PathItems → List Bytes
  path_ids no_paths = []
  path_ids (add_path path it its) = item_ids it ++ path_ids its

  pub item_ids : PathItem → List Bytes
  item_ids nil_item = []
  item_ids (path_item f get put post delete options head patch trace query more) = concat_ids (
      unless (has_operation (bytes "get") more) (operation_ids get)
      ∷ unless (has_operation (bytes "put") more) (operation_ids put)
      ∷ unless (has_operation (bytes "post") more) (operation_ids post)
      ∷ unless (has_operation (bytes "delete") more) (operation_ids delete)
      ∷ unless (has_operation (bytes "options") more) (operation_ids options)
      ∷ unless (has_operation (bytes "head") more) (operation_ids head)
      ∷ unless (has_operation (bytes "patch") more) (operation_ids patch)
      ∷ unless (has_operation (bytes "trace") more) (operation_ids trace)
      ∷ unless (has_operation (bytes "query") more) (operation_ids query)
      ∷ additional_ids more
      ∷ [])

  pub additional_ids : Operations → List Bytes
  additional_ids no_operations = []
  additional_ids (add_operation method op ops) = operation_ids op ++ additional_ids ops

abbrev is_there : Option Bytes → Bool
is_there none = false
is_there (some context) = true

abbrev pub is_known : Bytes → OperationIds → Bool
is_known id ids = is_there (find_key id ids)

-- The identifiers are distinct, and none has been used.
abbrev pub AllNew : List Bytes → OperationIds → Type 0
AllNew [] ids = Unit {0}
AllNew (k ∷ ks) ids = (is_known k ids ≡ false) × (contains_text ks k ≡ false) × AllNew ks ids

abbrev pub IsDistinct : List Bytes → Type 0
IsDistinct [] = Unit {0}
IsDistinct (k ∷ ks) = (contains_text ks k ≡ false) × IsDistinct ks

abbrev Adds : List Bytes → OperationIds → OperationIds → Type 0
Adds ks ids ids' = (k : Bytes) → is_known k ids' ≡ (is_known k ids || contains_text ks k)

-- A check that is accepted has found these identifiers new, and marks them as used.
unfoldable pub Tracks : Checked → OperationIds → List Bytes → Type 0
Tracks c ids ks = IsAccepted c.0 → AllNew ks ids × Adds ks ids c.1

pub AllNew-IsDistinct : (ks : List Bytes) (ids : OperationIds) → AllNew ks ids → IsDistinct ks
AllNew-IsDistinct [] ids h = tt
AllNew-IsDistinct (k ∷ ks) ids (new, own, rest) = (own, AllNew-IsDistinct ks ids rest)

contains-append :
    (ks ls : List Bytes) (k : Bytes)
    → contains_text (ks ++ ls) k ≡ (contains_text ks k || contains_text ls k)
unfolding contains_text
contains-append [] ls k = refl
contains-append (j ∷ ks) ls k = ground (arith, contains-append ks ls k)

AllNew-known :
    (ks : List Bytes) (ids : OperationIds) (k : Bytes)
    → AllNew ks ids
    → contains_text ks k ≡ true
    → is_known k ids ≡ false
unfolding contains_text
AllNew-known [] ids k h e = ground arith
AllNew-known (j ∷ ks) ids k (new, own, rest) e = elim (bytes_eq_cases j k) [
  | inl (eq, same) ↦ subst (λ x. is_known x ids ≡ false) same new
  | inr (diff, ne) ↦ AllNew-known ks ids k rest (rw diff at e)
]

AllNew-earlier :
    (ls : List Bytes) (ids ids' : OperationIds)
    → ((k : Bytes) → is_known k ids ≡ true → is_known k ids' ≡ true)
    → AllNew ls ids'
    → AllNew ls ids
AllNew-earlier [] ids ids' s h = tt
AllNew-earlier (k ∷ ls) ids ids' s (new, own, rest) = (
  elim (Bool-cases (is_known k ids)) [
    | inr no_ ↦ no_
    | inl yes_ ↦ let now = s k yes_ in absurd (ground arith)
  ],
  own,
  AllNew-earlier ls ids ids' s rest,
)

AllNew-append :
    (ks ls : List Bytes) (ids ids' : OperationIds)
    → AllNew ks ids
    → ((k : Bytes) → is_known k ids ≡ true → is_known k ids' ≡ true)
    → ((k : Bytes) → contains_text ks k ≡ true → is_known k ids' ≡ true)
    → AllNew ls ids'
    → AllNew (ks ++ ls) ids
unfolding contains_text
AllNew-append [] ls ids ids' new old added later = AllNew-earlier ls ids ids' old later
AllNew-append (k ∷ ks) ls ids ids' (fresh, own, new) old added later = (
  fresh,
  contains-append ks ls k
      ∙ (let known = added k (ground (arith, bytes_eq_refl k)) in
          elim (Bool-cases (contains_text ls k)) [
            | inr no_ ↦ ground arith
            | inl yes_ ↦ let unknown = AllNew-known ls ids' k later yes_ in absurd (ground arith)
          ]),
  AllNew-append ks ls ids ids' new old (λ j e. added j (ground arith)) later,
)

pub Tracks-then :
    (c : Checked) (more : OperationIds → Checked) (ids : OperationIds) (ks ls : List Bytes)
    → Tracks c ids ks
    → Tracks (more c.1) c.1 ls
    → Tracks (then_check c more) ids (ks ++ ls)
unfolding Tracks
Tracks-then c more ids ks ls t u h =
    let (own, rest) = IsAccepted-append c.0 (more c.1).0 h in
    let (new, adds) = t own in
    let (later, more_adds) = u rest in
    (
      AllNew-append ks ls ids c.1 new (λ k e. adds k ∙ rw e refl)
          (λ k e. adds k ∙ rw e (ground arith)) later,
      λ k. more_adds k ∙ rw (adds k) (rw (contains-append ks ls k) (ground arith)),
    )

pub Tracks-none : (errs : List Problem) (ids : OperationIds) → Tracks (no_change errs ids) ids []
unfolding Tracks contains_text
Tracks-none errs ids h = (tt, λ k. ground arith)

-- A check without identifiers, before or after
pub Tracks-before :
    (errs : List Problem) (more : OperationIds → Checked) (ids : OperationIds) (ks : List Bytes)
    → Tracks (more ids) ids ks
    → Tracks (then_check (no_change errs ids) more) ids ks
Tracks-before errs more ids ks t =
    Tracks-then (no_change errs ids) more ids [] ks (Tracks-none errs ids) t

pub Tracks-after :
    (c : Checked) (errs : List Problem) (ids : OperationIds) (ks : List Bytes)
    → Tracks c ids ks
    → Tracks (then_check c (no_change errs)) ids ks
Tracks-after c errs ids ks t =
    subst (Tracks (then_check c (no_change errs)) ids) (append-nil ks)
      (Tracks-then c (no_change errs) ids ks [] t (Tracks-none errs c.1))

pub operation_id-Tracks :
    (context id : Bytes) (ids : OperationIds)
    → Tracks (operation_id_problems context id ids) ids (unless_empty_id id)
unfolding Tracks operation_id_problems contains_text
operation_id-Tracks context id ids h = elim (Bool-cases (bytes_eq id [])) [
  | inl empty ↦ rw empty (tt, λ k. ground arith)
  | inr given ↦ rw given (used (find_key id ids) refl (rw given at h))
]
  where
    used :
        (o : Option Bytes)
        → find_key id ids ≡ o
        → IsAccepted (used_id context id o ids).0
        → AllNew (id ∷ []) ids × Adds (id ∷ []) ids (used_id context id o ids).1
    used (some previous) e h = absurd (
        IsAccepted-cons
          (errorf "%s operationId %q duplicates %s" (text context ∷ text id ∷ text previous ∷ []))
          [] refl h)
    used none e h = (
      (ap is_there e, refl, tt),
      λ k. ap is_there (find_key-set_key id k context ids) ∙ added k (bytes_eq id k),
    )
      where
        added :
            (k : Bytes) (b : Bool)
            → is_there (if b then some context else find_key k ids)
              ≡ (is_known k ids || (b || false))
        added k true = ground arith
        added k false = ground arith

-- Each check tracks its identifiers.
pub data AllTrack : List (OperationIds → Checked) → List (List Bytes) → Type 0 where
  no_turn : AllTrack [] []
  add_turn :
      {turn : OperationIds → Checked} {turns : List (OperationIds → Checked)} {ks : List Bytes}
      {kss : List (List Bytes)}
      → ((i : OperationIds) → Tracks (turn i) i ks)
      → AllTrack turns kss
      → AllTrack (turn ∷ turns) (ks ∷ kss)

pub run_turns-Tracks :
    (turns : List (OperationIds → Checked)) (kss : List (List Bytes)) (ids : OperationIds)
    → AllTrack turns kss
    → Tracks (run_turns turns ids) ids (concat_ids kss)
run_turns-Tracks [] [] ids no_turn = Tracks-none [] ids
run_turns-Tracks [] (ks ∷ kss) ids h = elim h [ ]
run_turns-Tracks (turn ∷ turns) [] ids h = elim h [ ]
run_turns-Tracks (turn ∷ turns) (ks ∷ kss) ids (add_turn own rest) =
    Tracks-then (turn ids) (run_turns turns) ids ks (concat_ids kss) (own ids)
      (run_turns-Tracks turns kss (turn ids).1 rest)
