-- ===== src/OpenApi/Validate/PathParams/Declared.antt =====
-- A path whose parameters are accepted: its templates and the path parameters are the same, and
-- required.
use mathlib.Core.List.{Memᴰ}
use xqua_go.Prelude.{
  Bytes, bytes, bytes_eq, bytes_eq_iff, Bool, true, false, Bool-cases, not, ◌||◌, List, [], ◌∷◌,
  Option, none, some, find_key, set_key, find_key-set_key, has_prefix, ◌≡◌, ◌⊎◌, inl, inr, refl,
  sym, ap, ◌∙◌, subst, arith, to_upper,
}
use xqua_go.OpenApi.Spec.Paths.{Parameter}
use xqua_go.OpenApi.Validate.{Problem, errorf, text, when}
use xqua_go.OpenApi.Validate.Extras.{contains_text}
use xqua_go.OpenApi.Validate.Report.Accepted.{
  IsAccepted, IsAccepted-append, IsAccepted-when, IsAccepted-cons,
}
use xqua_go.OpenApi.Validate.Templates.{param_names}
use xqua_go.OpenApi.Validate.PathParams.{
  Declared, declare, is_direct_in, declared_params, required_problems, template_problems,
  validate_path_params,
}

-- A path parameter of this name that is no reference and is required
pub record IsDeclared (params : List (Option Parameter)) (name : Bytes) : Type 0 where
  pub parameter : Parameter
  pub listed : Memᴰ (some parameter) params
  pub direct : is_direct_in (bytes "path") (some parameter) ≡ true
  pub named : parameter.name ≡ name
  pub required : parameter.required ≡ true

abbrev pub AllDeclared : List (Option Parameter) → List Bytes → Type 0
AllDeclared params [] = Unit {0}
AllDeclared params (name ∷ names) = IsDeclared params name × AllDeclared params names

-- The path parameters are templates of the path.
abbrev pub AllTemplates : List Bytes → List (Option Parameter) → Type 0
AllTemplates names [] = Unit {0}
AllTemplates names (none ∷ params) = AllTemplates names params
AllTemplates names (some p ∷ params) =
    (not (is_direct_in (bytes "path") (some p)) || contains_text names p.name) ≡ true
    × AllTemplates names params

pub IsDeclared-later :
    (o : Option Parameter) (params : List (Option Parameter)) (name : Bytes)
    → IsDeclared params name
    → IsDeclared (o ∷ params) name
IsDeclared-later o params name d = record {
  parameter = d.parameter;
  listed = Memᴰ.tail d.listed;
  direct = d.direct;
  named = d.named;
  required = d.required;
}

module _ (path method : Bytes) (names : List Bytes) where
  declared-direct :
      (p : Parameter) (params : List (Option Parameter)) (declared : Declared) (b : Bool)
      → is_direct_in (bytes "path") (some p) ≡ b
      → declared_params path method names (some p ∷ params) declared
        ≡ declare path method names p b declared (λ d. declared_params path method names params d)
  unfolding declared_params
  declared-direct p params declared b h =
      ap
        (λ c.
          declare path method names p c declared (λ d. declared_params path method names params d))
        h

  -- What the map says after the first loop
  declared-IsDeclared :
      (params : List (Option Parameter)) (declared : Declared) (name : Bytes)
      → find_key name (declared_params path method names params declared).1 ≡ some true
      → (find_key name declared ≡ some true) ⊎ IsDeclared params name
  unfolding declared_params
  declared-IsDeclared [] declared name h = inl h
  declared-IsDeclared (none ∷ params) declared name h =
      elim (declared-IsDeclared params declared name h) [
        | inl before ↦ inl before
        | inr later ↦ inr (IsDeclared-later none params name later)
      ]
  declared-IsDeclared (some p ∷ params) declared name h =
      elim (Bool-cases (is_direct_in (bytes "path") (some p))) [
        | inr other ↦
            let rest =
              sym (
                ap (λ (x : List Problem × Declared). find_key name x.1)
                  (declared-direct p params declared false other))
              ∙ h in
            elim (declared-IsDeclared params declared name rest) [
              | inl before ↦ inl before
              | inr later ↦ inr (IsDeclared-later (some p) params name later)
            ]
        | inl direct ↦
            let rest =
              sym (
                ap (λ (x : List Problem × Declared). find_key name x.1)
                  (declared-direct p params declared true direct))
              ∙ h in
            elim (declared-IsDeclared params (set_key p.name p.required declared) name rest) [
              | inr later ↦ inr (IsDeclared-later (some p) params name later)
              | inl own ↦ own_or_before p params declared name direct own
            ]
      ]
    where
      own_or_before :
          (p : Parameter) (params : List (Option Parameter)) (declared : Declared) (name : Bytes)
          → is_direct_in (bytes "path") (some p) ≡ true
          → find_key name (set_key p.name p.required declared) ≡ some true
          → (find_key name declared ≡ some true) ⊎ IsDeclared (some p ∷ params) name
      own_or_before p params declared name direct own =
          let looked = sym (find_key-set_key p.name name p.required declared) ∙ own in
          elim (Bool-cases (bytes_eq p.name name)) [
            | inr diff ↦ inl (rw diff at looked)
            | inl same ↦
                let found : some p.required ≡ some true = rw same at looked in
                let needed : p.required ≡ true = cc in
                inr (record {
                  parameter = p;
                  listed = Memᴰ.head refl;
                  direct = direct;
                  named = (bytes_eq_iff p.name name).0 same;
                  required = needed;
                })
          ]

  -- What the first loop accepts
  declared-AllTemplates :
      (params : List (Option Parameter)) (declared : Declared)
      → IsAccepted (declared_params path method names params declared).0
      → AllTemplates names params
  unfolding declared_params
  declared-AllTemplates [] declared h = tt
  declared-AllTemplates (none ∷ params) declared h = declared-AllTemplates params declared h
  declared-AllTemplates (some p ∷ params) declared h =
      elim (Bool-cases (is_direct_in (bytes "path") (some p))) [
        | inr other ↦
            let rest =
              subst (λ (x : List Problem × Declared). IsAccepted x.0)
                (declared-direct p params declared false other) h in
            (rw other refl, declared-AllTemplates params declared rest)
        | inl direct ↦
            let both =
              subst (λ (x : List Problem × Declared). IsAccepted x.0)
                (declared-direct p params declared true direct) h in
            let (own, rest) =
              IsAccepted-append
                (when (not (contains_text names p.name)) (
                  errorf "%s %s path parameter %q must match a path template"
                    (text (to_upper method) ∷ text path ∷ text p.name ∷ [])))
                (declared_params path method names params (set_key p.name p.required declared)).0
                both in
            let known =
              IsAccepted-when (not (contains_text names p.name))
                (errorf "%s %s path parameter %q must match a path template"
                  (text (to_upper method) ∷ text path ∷ text p.name ∷ []))
                refl own in
            (ground arith, declared-AllTemplates params (set_key p.name p.required declared) rest)
      ]

  required-known :
      (name : Bytes) (o : Option Bool)
      → IsAccepted (required_problems path method name o)
      → o ≡ some true
  required-known name none h = absurd (
      IsAccepted-cons
        (errorf "%s %s missing path parameter %q"
          (text (to_upper method) ∷ text path ∷ text name ∷ []))
        [] refl h)
  required-known name (some required) h =
      let needed =
        IsAccepted-when (not required)
          (errorf "%s %s path parameter %q must be required"
            (text (to_upper method) ∷ text path ∷ text name ∷ []))
          refl h in
      ground arith

  -- What the second loop accepts
  templates-AllDeclared :
      (params : List (Option Parameter)) (wanted : List Bytes)
      → IsAccepted
          (template_problems path method wanted (declared_params path method names params []).1)
      → AllDeclared params wanted
  unfolding find_key
  templates-AllDeclared params [] h = tt
  templates-AllDeclared params (name ∷ wanted) h =
      let declared = (declared_params path method names params []).1 in
      let (own, rest) =
        IsAccepted-append (required_problems path method name (find_key name declared))
          (template_problems path method wanted declared) h in
      let found = required-known name (find_key name declared) own in
      elim (declared-IsDeclared params [] name found) [
        | inl never ↦ absurd (no_entry never)
        | inr own ↦ (own, templates-AllDeclared params wanted rest)
      ]
    where
      no_entry : none ≡ some true → ⊥
      no_entry e = cc

-- Where the parameters of an operation at a path that begins with a slash are accepted, every
-- template of the path is declared by a required path parameter, and every path parameter among
-- them, references aside, is a template of the path.
pub validate_path_params-AllDeclared :
    (path method : Bytes) (params : List (Option Parameter))
    → has_prefix path (bytes "/") ≡ true
    → IsAccepted (validate_path_params path method params)
    → AllDeclared params (param_names path) × AllTemplates (param_names path) params
unfolding validate_path_params
validate_path_params-AllDeclared path method params slash h =
    let names = param_names path in
    let first = declared_params path method names params [] in
    let (own, rest) =
      IsAccepted-append first.0 (template_problems path method names first.1) (rw slash at h) in
    (
      templates-AllDeclared path method names params names rest,
      declared-AllTemplates path method names params [] own,
    )
