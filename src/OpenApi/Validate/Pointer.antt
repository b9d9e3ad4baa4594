-- ===== src/OpenApi/Validate/Pointer.antt =====
-- JSON pointers: `ResolveJSONPointer` of utils.go, and the unescaping of names in references.
pub mod Escaping
use xqua_go.Prelude.{
  ℕ, zero, suc, ◌+◌, ◌*◌, ◌-◌, Bytes, bytes, bytes_eq, Bool, true, false, ◌&&◌, List, [], ◌∷◌, ◌++◌,
  Option, none, some, leb, ◌==◌, if◌then◌else◌,
}
use xqua_go.OpenApi.Spec.{
  Any, text_value, texts_value, list_value, bool_value, number_value, map_value, Items, no_items,
  item, Members, no_members, member,
}

pub data TildeStep : Type 0 where
  ends_pair : TildeStep
  starts_pair : TildeStep
  other_byte : TildeStep

abbrev pub tilde_kind : Bool → Bool → Bool → TildeStep
tilde_kind true true _ = ends_pair
tilde_kind true false true = starts_pair
tilde_kind true false false = other_byte
tilde_kind false _ true = starts_pair
tilde_kind false _ false = other_byte

abbrev pub held : Bool → Bytes
held true = 126 ∷ []
held false = []

abbrev pub tilde_step : TildeStep → Bool → ℕ → ℕ → (Bool → Bytes) → Bytes
tilde_step ends_pair pending by c rest = by ∷ rest false
tilde_step starts_pair pending by c rest = held pending ++ rest true
tilde_step other_byte pending by c rest = held pending ++ (c ∷ rest false)

-- `strings.ReplaceAll` of a tilde and a digit by a byte; `pending` is whether a tilde was read last.
unfoldable pub replace_tilde : ℕ → ℕ → Bool → Bytes → Bytes
replace_tilde digit by pending [] = held pending
replace_tilde digit by pending (c ∷ s) =
    tilde_step (tilde_kind pending (c == digit) (c == 126)) pending by c
      (λ p. replace_tilde digit by p s)

-- `~1` is `/` and `~0` is `~`.
unfoldable pub unescape_pointer : Bytes → Bytes
unescape_pointer token = replace_tilde 48 126 false (replace_tilde 49 47 false token)

-- `strings.Split(s, "/")`, a list that is never empty, as its first part and the rest
abbrev pub add_part : ℕ → Bytes × List Bytes → Bytes × List Bytes
add_part c (part, parts) = if c == 47 then ([], part ∷ parts) else (c ∷ part, parts)

unfoldable pub split_slash : Bytes → Bytes × List Bytes
split_slash [] = ([], [])
split_slash (c ∷ s) = add_part c (split_slash s)

abbrev pub is_digit : ℕ → Bool
is_digit c = leb 48 c && leb c 57

-- The digits of a number, with the number read so far; none where there is another byte.
abbrev pub digits : ℕ → Bytes → Option ℕ
digits n [] = some n
digits n (c ∷ s) = if is_digit c then digits (n * 10 + (c - 48)) s else none

abbrev pub some_digits : Bytes → Option ℕ
some_digits [] = none
some_digits (c ∷ s) = digits 0 (c ∷ s)

abbrev pub zero_only : Option ℕ → Option ℕ
zero_only none = none
zero_only (some zero) = some 0
zero_only (some (suc n)) = none

-- `strconv.Atoi`, where a negative number has no index, and one that is too large none in a list.
unfoldable pub index_of : Bytes → Option ℕ
index_of [] = none
index_of (c ∷ s) =
    if c == 43
    then some_digits s
    else if c == 45
    then zero_only (some_digits s)
    else some_digits (c ∷ s)

abbrev pub find_member : Bytes → Members → Option Any
find_member key no_members = none
find_member key (member k v ms) = if bytes_eq k key then some v else find_member key ms

abbrev pub item_at : ℕ → Items → Option Any
item_at n no_items = none
item_at zero (item v vs) = some v
item_at (suc n) (item v vs) = item_at n vs

abbrev pub item_at_index : Option ℕ → Items → Option Any
item_at_index none vs = none
item_at_index (some n) vs = item_at n vs

-- The value of one token; a value of JSON is no list of texts.
unfoldable pub step_into : Bytes → Any → Option Any
step_into token (map_value ms) = find_member token ms
step_into token (list_value vs) = item_at_index (index_of token) vs
step_into token (text_value s) = none
step_into token (texts_value l) = none
step_into token (bool_value b) = none
step_into token (number_value n) = none

abbrev pub then_value : Option Any → (Any → Option Any) → Option Any
then_value none more = none
then_value (some v) more = more v

abbrev pub step_through : List Bytes → Any → Option Any
step_through [] v = some v
step_through (token ∷ tokens) v =
    then_value (step_into (unescape_pointer token) v) (step_through tokens)

abbrev pub all_parts : Bytes × List Bytes → List Bytes
all_parts (part, parts) = part ∷ parts

-- `ResolveJSONPointer`
unfoldable pub resolve_json_pointer : Any → Bytes → Option Any
resolve_json_pointer root [] = some root
resolve_json_pointer root (c ∷ pointer) =
    if c == 47 then step_through (all_parts (split_slash pointer)) root else none
