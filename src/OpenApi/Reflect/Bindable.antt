-- ===== src/OpenApi/Reflect/Bindable.antt =====
-- Which types have fields that are bound: those with a tag of one of six kinds on a field, or on a
-- field of a struct that they embed.
use xqua_go.Prelude.{
  Bytes, bytes, bytes_eq, bytes_eq_cases, true, false, Bool-cases, ◌&&◌, ◌||◌, List, [], ◌∷◌,
  Option, none, some, find_key, trim_space, ◌≡◌, ◌≢◌, inl, inr, refl, sym, subst, arith, ℕ,
}
use xqua_go.OpenApi.Reflect.{
  StructField, GoType, Fields, pointer, struct_of, other, no_fields, field, indirect, any_tag,
  is_struct, binding_keys, has_bindable_fields, bindable_in, field_tag, tag_name, until_comma,
}

-- The kinds of values of a request that a field is bound to, by their keys.
pub data IsBindingKey (key : Bytes) : Type 0 where
  of_path : key ≡ bytes "path" → IsBindingKey key
  of_query : key ≡ bytes "query" → IsBindingKey key
  of_header : key ≡ bytes "header" → IsBindingKey key
  of_cookie : key ≡ bytes "cookie" → IsBindingKey key
  of_json : key ≡ bytes "json" → IsBindingKey key
  of_form : key ≡ bytes "form" → IsBindingKey key

-- A tag of the field gives it a name for one of the kinds: it is not the mark "-" for no name, and
-- the name before the first comma is not blank.
pub record IsBound (f : StructField) : Type 0 where
  pub key : Bytes
  pub is_key : IsBindingKey key
  pub value : Bytes
  pub tagged : find_key key f.tag ≡ some value
  pub not_skipped : value ≢ bytes "-"
  pub named : trim_space (until_comma value) ≢ []

-- A field of a type, one that is exported or embedded and is not an embedded struct, or such a field
-- of a struct that the type embeds; through pointers to the type.
mutual
  pub data HasField : GoType → StructField → Type 0 where
    through : {t : GoType} {g : StructField} → HasField t g → HasField (pointer t) g
    inside : {n : ℕ} {fs : Fields} {g : StructField} → SomeField fs g → HasField (struct_of n fs) g

  pub data SomeField : Fields → StructField → Type 0 where
    own :
        {f g : StructField} {t : GoType} {fs : Fields}
        → f ≡ g
        → (f.exported || f.anonymous) ≡ true
        → (f.anonymous && is_struct (indirect t)) ≡ false
        → SomeField (field f t fs) g
    embedded :
        {f g : StructField} {t : GoType} {fs : Fields}
        → (f.anonymous && is_struct (indirect t)) ≡ true
        → HasField t g
        → SomeField (field f t fs) g
    later :
        {f g : StructField} {t : GoType} {fs : Fields} → SomeField fs g → SomeField (field f t fs) g

-- Whether the field has a name under the key
field_tag-IsBound :
    (f : StructField) (key : Bytes) → IsBindingKey key → field_tag f key ≢ [] → IsBound f
unfolding field_tag
field_tag-IsBound f key k ne = given (find_key key f.tag) refl ne
  where
    given : (o : Option Bytes) → find_key key f.tag ≡ o → tag_name o ≢ [] → IsBound f
    given none e n = absurd (n refl)
    given (some v) e n = elim (bytes_eq_cases v (bytes "-")) [
      | inl (b, _) ↦ absurd (n (rw b refl))
      | inr (b, other_) ↦ record {
        key = key;
        is_key = k;
        value = v;
        tagged = e;
        not_skipped = other_;
        named = λ blank. n (rw b blank);
      }
    ]

abbrev AllKeys : List Bytes → Type 0
AllKeys [] = Unit {0}
AllKeys (key ∷ keys) = IsBindingKey key × AllKeys keys

some_tag-IsBound :
    (f : StructField) (keys : List Bytes) → AllKeys keys → any_tag f keys ≡ true → IsBound f
some_tag-IsBound f [] a h = cc
some_tag-IsBound f (key ∷ keys) (k, a) h = elim (bytes_eq_cases (field_tag f key) []) [
  | inl (b, _) ↦ some_tag-IsBound f keys a (rw b at h)
  | inr (_, ne) ↦ field_tag-IsBound f key k ne
]

any_tag-IsBound : (f : StructField) → any_tag f binding_keys ≡ true → IsBound f
any_tag-IsBound f h =
    some_tag-IsBound f binding_keys
      (
        of_path refl,
        (of_query refl, (of_header refl, (of_cookie refl, (of_json refl, (of_form refl, tt))))),
      )
      h

IsBound-field_tag : (f : StructField) (b : IsBound f) → bytes_eq (field_tag f b.key) [] ≡ false
unfolding field_tag
IsBound-field_tag f b = elim (bytes_eq_cases b.value (bytes "-")) [
  | inl (_, skipped) ↦ absurd (b.not_skipped skipped)
  | inr (given, _) ↦ elim (bytes_eq_cases (trim_space (until_comma b.value)) []) [
    | inl (_, blank) ↦ absurd (b.named blank)
    | inr (name, _) ↦ rw b.tagged (rw given name)
  ]
]

any_tag_complete : (f : StructField) → IsBound f → any_tag f binding_keys ≡ true
any_tag_complete f b = elim b.is_key [
  | of_path e ↦ let name = at (bytes "path") e in ground arith
  | of_query e ↦ let name = at (bytes "query") e in ground arith
  | of_header e ↦ let name = at (bytes "header") e in ground arith
  | of_cookie e ↦ let name = at (bytes "cookie") e in ground arith
  | of_json e ↦ let name = at (bytes "json") e in ground arith
  | of_form e ↦ let name = at (bytes "form") e in ground arith
]
  where
    at : (key : Bytes) → b.key ≡ key → bytes_eq (field_tag f key) [] ≡ false
    at key e = subst (λ k. bytes_eq (field_tag f k) [] ≡ false) e (IsBound-field_tag f b)

mutual
  unfolding has_bindable_fields bindable_in

  found : (t : GoType) → has_bindable_fields t ≡ true → (g : StructField) × HasField t g × IsBound g
  found (pointer t) h = let (g, has, bound) = found t h in (g, through has, bound)
  found (struct_of n fs) h = let (g, has, bound) = found_in fs h in (g, inside has, bound)
  found (other n) h = cc

  found_in : (fs : Fields) → bindable_in fs ≡ true → (g : StructField) × SomeField fs g × IsBound g
  found_in no_fields h = cc
  found_in (field f t fs) h = elim (Bool-cases (bindable_in fs)) [
    | inl rest ↦ let (g, has, bound) = found_in fs rest in (g, later has, bound)
    | inr none_later ↦ elim (Bool-cases (f.anonymous && is_struct (indirect t))) [
      | inl embeds ↦ let (g, has, bound) = found t (ground arith) in (g, embedded embeds has, bound)
      | inr plain ↦ (f, own refl (ground arith) plain, any_tag-IsBound f (ground arith))
    ]
  ]

mutual
  unfolding has_bindable_fields bindable_in

  complete :
      (t : GoType) (g : StructField) → HasField t g → IsBound g → has_bindable_fields t ≡ true
  complete (pointer t) g (through p) b = complete t g p b
  complete (struct_of n fs) g (inside p) b = complete_in fs g p b
  complete (other n) g p b = elim p [ ]

  complete_in : (fs : Fields) (g : StructField) → SomeField fs g → IsBound g → bindable_in fs ≡ true
  complete_in no_fields g p b = elim p [ ]
  complete_in (field f t fs) g (own e seen plain) b =
      let tag = any_tag_complete f (subst IsBound (sym e) b) in ground arith
  complete_in (field f t fs) g (embedded embeds p) b = let inner = complete t g p b in ground arith
  complete_in (field f t fs) g (later p) b = let rest = complete_in fs g p b in ground arith
