-- ===== src/OpenApi/Validate/Tags.antt =====
-- `ValidateTags` and `ValidateTagParents` of document.go.
--
-- The loop over the parents of a tag is on fuel; `Circular` shows how much is enough. A name that
-- no tag has is looked up as the index 0, the zero value of the map.
pub mod Circular
use xqua_go.Prelude.{
  ℕ, zero, suc, Bytes, bytes_eq, Bool, true, false, not, ◌&&◌, ◌||◌, List, [], ◌∷◌, ◌++◌, Option,
  none, some, if◌then◌else◌, find_key, set_key, get_elem?, length,
}
use xqua_go.OpenApi.Spec.{ExternalDocs, Tag}
use xqua_go.OpenApi.Validate.Extras.{is_given}
use xqua_go.OpenApi.Validate.{
  Problem, errorf, when, text, number, Urls, is_uri_reference, is_open_api_32,
}

abbrev docs_problems : Urls → ℕ → Option ExternalDocs → List Problem
docs_problems urls i none = []
docs_problems urls i (some docs) =
    when (bytes_eq docs.url []) (errorf "tags[%d].externalDocs.url is required" (number i ∷ []))
    ++ when (is_given docs.url && not (is_uri_reference urls docs.url))
        (errorf "tags[%d].externalDocs.url must be a URI" (number i ∷ []))

-- The problems of a name, and the map of the names with it.
abbrev pub name_problems : ℕ → Bytes → Option ℕ → List (Bytes × ℕ) → List Problem × List (Bytes × ℕ)
name_problems i name (some previous) by_name =
    if bytes_eq name []
    then (errorf "tags[%d].name is required" (number i ∷ []) ∷ [], by_name)
    else (
      errorf "tags[%d].name %q duplicates tags[%d].name"
            (number i ∷ text name ∷ number previous ∷ [])
          ∷ [],
      by_name,
    )
name_problems i name none by_name =
    if bytes_eq name []
    then (errorf "tags[%d].name is required" (number i ∷ []) ∷ [], by_name)
    else ([], set_key name i by_name)

abbrev field_problems : Urls → Bytes → ℕ → Tag → List Problem
field_problems urls version i tag =
    when
      (not (is_open_api_32 version)
        && (is_given tag.summary || is_given tag.parent || is_given tag.kind))
      (errorf "tags[%d] summary, parent, and kind require OpenAPI 3.2.0" (number i ∷ []))
    ++ docs_problems urls i tag.external_docs

abbrev pub after_name :
    Urls → Bytes → ℕ → Tag → List Problem × List (Bytes × ℕ) → List Problem × List (Bytes × ℕ)
after_name urls version i tag (errs, by_name) = (errs ++ field_problems urls version i tag, by_name)

abbrev pub append_problems :
    List Problem × List (Bytes × ℕ)
    → (List (Bytes × ℕ) → List Problem × List (Bytes × ℕ))
    → List Problem × List (Bytes × ℕ)
append_problems (errs, by_name) more =
    let (errs', by_name') = more by_name in (errs ++ errs', by_name')

-- The first loop, from an index on.
unfoldable pub tag_loop :
    Urls → Bytes → ℕ → List Tag → List (Bytes × ℕ) → List Problem × List (Bytes × ℕ)
tag_loop urls version i [] by_name = ([], by_name)
tag_loop urls version i (tag ∷ tags) by_name =
    append_problems
      (after_name urls version i tag (name_problems i tag.name (find_key tag.name by_name) by_name))
      (tag_loop urls version (suc i) tags)

abbrev pub index_or_zero : Option ℕ → ℕ
index_or_zero none = 0
index_or_zero (some i) = i

-- An index out of range, which a list that is not empty does not give, reads as no parent.
abbrev pub parent_at : Option Tag → Bytes
parent_at none = []
parent_at (some tag) = tag.parent

-- `tags[tagByName[parent]].Parent`
unfoldable pub next_parent : List Tag → List (Bytes × ℕ) → Bytes → Bytes
next_parent tags by_name parent =
    parent_at (get_elem? tags (index_or_zero (find_key parent by_name)))

abbrev pub seen_name : Bytes → List Bytes → Bool
seen_name name [] = false
seen_name name (s ∷ seen) = bytes_eq s name || seen_name name seen

-- Whether the chain of parents is circular; none where the fuel is used up.
unfoldable pub is_circular : ℕ → List Tag → List (Bytes × ℕ) → List Bytes → Bytes → Option Bool
is_circular zero tags by_name seen parent = none
is_circular (suc fuel) tags by_name seen parent =
    let rest = is_circular fuel tags by_name (parent ∷ seen) (next_parent tags by_name parent) in
    if bytes_eq parent [] then some false else if seen_name parent seen then some true else rest

abbrev pub circular_problem : ℕ → Option Bool → List Problem
circular_problem i none = []
circular_problem i (some circular) =
    when circular (errorf "tags[%d].parent creates a circular tag parent reference" (number i ∷ []))

abbrev pub parent_problem : List Tag → List (Bytes × ℕ) → ℕ → Tag → Option ℕ → List Problem
parent_problem tags by_name i tag none =
    errorf "tags[%d].parent %q must reference an existing tag" (number i ∷ text tag.parent ∷ [])
    ∷ []
parent_problem tags by_name i tag (some index) =
    circular_problem i (is_circular (suc (length tags)) tags by_name (tag.name ∷ []) tag.parent)

-- `ValidateTagParents` from an index on
unfoldable pub tag_parents : List Tag → List (Bytes × ℕ) → ℕ → List Tag → List Problem
tag_parents all by_name i [] = []
tag_parents all by_name i (tag ∷ tags) =
    (if bytes_eq tag.name [] || bytes_eq tag.parent []
      then []
      else parent_problem all by_name i tag (find_key tag.parent by_name))
    ++ tag_parents all by_name (suc i) tags

abbrev pub with_parents : Bytes → List Tag → List Problem × List (Bytes × ℕ) → List Problem
with_parents version tags (errs, by_name) =
    errs ++ (if is_open_api_32 version then tag_parents tags by_name 0 tags else [])

-- `ValidateTags`
unfoldable pub validate_tags : Urls → List Tag → Bytes → List Problem
validate_tags urls tags version = with_parents version tags (tag_loop urls version 0 tags [])
