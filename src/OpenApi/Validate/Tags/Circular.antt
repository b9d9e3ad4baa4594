-- ===== src/OpenApi/Validate/Tags/Circular.antt =====
-- The loop over the parents of a tag ends, and it finds a circle exactly where the chain of parents
-- never ends, among tags that all have a name of their own and parents that are tags. `Follows` is
-- the way that the loop takes, `EndsIn` the chain of the tags themselves.
use mathlib.Core.List.{Memᴰ}
use mathlib.Core.List.Memᴰ
use xqua_go.Prelude.{
  ℕ, zero, suc, ◌≤◌, ◌<◌, ◌+◌, Bytes, bytes_eq_cases, bytes_eq_refl, Bool, true, false, Bool-cases,
  List, [], ◌∷◌, Option, none, some, if◌then◌else◌, get_elem?, length, find_key, ◌≡◌, ◌≢◌, ◌↔◌, inl,
  inr, refl, sym, ap, ◌∙◌, subst, arith,
}
use xqua_go.OpenApi.Spec.{Tag}
use xqua_go.OpenApi.Validate.Tags.{next_parent, parent_at, index_or_zero, seen_name, is_circular}

-- The text is the parent of a tag of the list, or empty.
abbrev pub IsParent : List Tag → Bytes → Type 0
IsParent tags p = (tag : Tag) × Memᴰ tag tags × (tag.parent ≡ p)

-- The tags whose parents have not been seen.
abbrev unseen : List Bytes → List Tag → ℕ
unseen seen [] = 0
unseen seen (tag ∷ tags) = (if seen_name tag.parent seen then 0 else 1) + unseen seen tags

unseen-length : (seen : List Bytes) (tags : List Tag) → unseen seen tags ≤ length tags
unseen-length seen [] = omega arith
unseen-length seen (tag ∷ tags) = ground (arith, unseen-length seen tags)

unseen-cons :
    (p : Bytes) (seen : List Bytes) (tags : List Tag) → unseen (p ∷ seen) tags ≤ unseen seen tags
unseen-cons p seen [] = omega arith
unseen-cons p seen (tag ∷ tags) = ground (arith, unseen-cons p seen tags)

unseen-lt :
    (p : Bytes) (seen : List Bytes) (tags : List Tag) (tag : Tag)
    → Memᴰ tag tags
    → tag.parent ≡ p
    → seen_name p seen ≡ false
    → unseen (p ∷ seen) tags < unseen seen tags
unseen-lt p seen [] tag h e s = absurd (Memᴰ.not-nil h)
unseen-lt p seen (t ∷ tags) tag h e s = elim (Memᴰ.cases_cons h) [
  | inl here_ ↦
      let same : t.parent ≡ p = ap (λ (x : Tag). x.parent) (sym here_) ∙ e in
      rw same (rw s (rw (bytes_eq_refl p) (let rest = unseen-cons p seen tags in omega arith)))
  | inr later ↦ let rest = unseen-lt p seen tags tag later e s in ground (arith)
]

next_parent-IsParent :
    (tags : List Tag) (by_name : List (Bytes × ℕ)) (p : Bytes)
    → next_parent tags by_name p ≢ []
    → IsParent tags (next_parent tags by_name p)
unfolding next_parent
next_parent-IsParent tags by_name p ne =
    at (get_elem? tags (index_or_zero (find_key p by_name))) refl ne
  where
    found : (ts : List Tag) (i : ℕ) (tag : Tag) → get_elem? ts i ≡ some tag → Memᴰ tag ts
    found [] i tag e = cc
    found (t ∷ ts) zero tag e = Memᴰ.head (cc)
    found (t ∷ ts) (suc i) tag e = Memᴰ.tail (found ts i tag e)

    at :
        (o : Option Tag)
        → get_elem? tags (index_or_zero (find_key p by_name)) ≡ o
        → parent_at o ≢ []
        → IsParent tags (parent_at o)
    at none e n = absurd (n refl)
    at (some tag) e n = (tag, found tags (index_or_zero (find_key p by_name)) tag e, refl)

module _ (tags : List Tag) (by_name : List (Bytes × ℕ)) where
  -- The names that the loop follows, which end after `n` of them.
  data Follows : ℕ → Bytes → Type 0 where
    at_root : {n : ℕ} {p : Bytes} → n ≡ 0 → p ≡ [] → Follows n p
    above :
        {n : ℕ} {p : Bytes} (k : ℕ)
        → n ≡ suc k
        → p ≢ []
        → Follows k (next_parent tags by_name p)
        → Follows n p

  Follows-unique : (n m : ℕ) (p : Bytes) → Follows n p → Follows m p → n ≡ m
  Follows-unique n m p (at_root e r) (at_root f s) = e ∙ sym f
  Follows-unique n m p (at_root e r) (above k f s h) = absurd (s r)
  Follows-unique n m p (above k e r h) (at_root f s) = absurd (r s)
  Follows-unique n m p (above k e r h) (above l f s g) =
      let same = Follows-unique k l (next_parent tags by_name p) h g in omega arith

  Follows-below :
      (n m : ℕ) (p : Bytes) → p ≢ [] → Follows n p → Follows m (next_parent tags by_name p) → m < n
  Follows-below n m p ne (at_root e r) h = absurd (ne r)
  Follows-below n m p ne (above k e r g) h =
      let same = Follows-unique k m (next_parent tags by_name p) g h in omega arith

  -- From every name that has been seen the chain comes to `p` later.
  abbrev AllBefore : List Bytes → Bytes → Type 0
  AllBefore seen p =
      (s : Bytes) (n m : ℕ) → seen_name s seen ≡ true → Follows n s → Follows m p → m < n

  AllBefore-cons :
      (seen : List Bytes) (p : Bytes)
      → p ≢ []
      → AllBefore seen p
      → AllBefore (p ∷ seen) (next_parent tags by_name p)
  AllBefore-cons seen p ne b s n m h e f = elim (bytes_eq_cases p s) [
    | inl (eq, same) ↦ Follows-below n m p ne (subst (Follows n) (sym same) e) f
    | inr (diff, _) ↦
        let older : seen_name s seen ≡ true = rw diff at h in
        let step = b s n (suc m) older e (above m refl ne f) in omega arith
  ]

  no_circle-Follows :
      (fuel : ℕ) (seen : List Bytes) (p : Bytes)
      → is_circular fuel tags by_name seen p ≡ some false
      → (n : ℕ) × Follows n p
  unfolding is_circular
  no_circle-Follows zero seen p h = cc
  no_circle-Follows (suc fuel) seen p h = elim (bytes_eq_cases p []) [
    | inl (eq, root) ↦ (0, at_root refl root)
    | inr (diff, ne) ↦ elim (Bool-cases (seen_name p seen)) [
      | inl again ↦ ground arith
      | inr fresh ↦
          let rest : is_circular fuel tags by_name (p ∷ seen) (next_parent tags by_name p)
              ≡ some false =
            ground arith in
          let (n, e) = no_circle-Follows fuel (p ∷ seen) (next_parent tags by_name p) rest in
          (suc n, above n refl ne e)
    ]
  ]

  circle-endless :
      (fuel : ℕ) (seen : List Bytes) (p : Bytes) (n : ℕ)
      → AllBefore seen p
      → is_circular fuel tags by_name seen p ≡ some true
      → ¬ Follows n p
  unfolding is_circular
  circle-endless zero seen p n a h e = cc
  circle-endless (suc fuel) seen p n a h e = elim (bytes_eq_cases p []) [
    | inl (eq, root) ↦ ground arith
    | inr (diff, ne) ↦ elim (Bool-cases (seen_name p seen)) [
      | inl again ↦ let less = a p n n again e e in omega arith
      | inr fresh ↦
          let rest : is_circular fuel tags by_name (p ∷ seen) (next_parent tags by_name p)
              ≡ some true =
            ground arith in
          elim e [
            | at_root z root ↦ absurd (ne root)
            | above k z given up ↦
                circle-endless fuel (p ∷ seen) (next_parent tags by_name p) k
                  (AllBefore-cons seen p ne a) rest up
          ]
    ]
  ]

  -- Fuel for every tag and one more is enough.
  is_circular-ends :
      (fuel : ℕ) (seen : List Bytes) (p : Bytes)
      → unseen seen tags < fuel
      → (p ≢ [] → IsParent tags p)
      → (b : Bool) × (is_circular fuel tags by_name seen p ≡ some b)
  unfolding is_circular
  is_circular-ends zero seen p f h = absurd (omega arith)
  is_circular-ends (suc fuel) seen p f h = elim (bytes_eq_cases p []) [
    | inl (eq, root) ↦ (false, rw eq refl)
    | inr (diff, ne) ↦ elim (Bool-cases (seen_name p seen)) [
      | inl again ↦ (true, rw diff (rw again refl))
      | inr fresh ↦
          let (tag, listed, parent) = h ne in
          let fewer = unseen-lt p seen tags tag listed parent fresh in
          let (b, e) =
            is_circular-ends fuel (p ∷ seen) (next_parent tags by_name p) (omega arith)
              (next_parent-IsParent tags by_name p) in
          (b, rw diff (rw fresh e))
    ]
  ]

  AllBefore-own : (name : Bytes) → name ≢ [] → AllBefore (name ∷ []) (next_parent tags by_name name)
  AllBefore-own name ne s n m h e f = elim (bytes_eq_cases name s) [
    | inl (eq, same) ↦ Follows-below n m name ne (subst (Follows n) (sym same) e) f
    | inr (diff, _) ↦ ground arith
  ]

-- From a name the chain of parents ends after `n` tags.
pub data EndsIn (tags : List Tag) : ℕ → Bytes → Type 0 where
  at_end : {n : ℕ} {p : Bytes} → n ≡ 0 → p ≡ [] → EndsIn tags n p
  up_from :
      {n : ℕ} {p : Bytes} (k : ℕ) (tag : Tag)
      → n ≡ suc k
      → Memᴰ tag tags
      → tag.name ≡ p
      → EndsIn tags k tag.parent
      → EndsIn tags n p

module _ (tags : List Tag) (by_name : List (Bytes × ℕ))
    (indexed : (t : Tag)
      → Memᴰ t tags
      → (t.name ≢ []) × (i : ℕ) × (find_key t.name by_name ≡ some i) × (get_elem? tags i ≡ some t))
    (given : (t : Tag)
      → Memᴰ t tags
      → t.parent ≢ []
      → (u : Tag) × Memᴰ u tags × (u.name ≡ t.parent)) where
  next_parent-own :
      (tag : Tag) (p : Bytes)
      → Memᴰ tag tags
      → tag.name ≡ p
      → next_parent tags by_name p ≡ tag.parent
  unfolding next_parent
  next_parent-own tag p listed named =
      let (ne, i, found, there) = indexed tag listed in
      let at_p : find_key p by_name ≡ some i =
        subst (λ q. find_key q by_name ≡ some i) named found in
      rw at_p (rw there refl)

  EndsIn-Follows : (n : ℕ) (p : Bytes) → EndsIn tags n p → Follows tags by_name n p
  EndsIn-Follows n p (at_end e r) = at_root e r
  EndsIn-Follows n p (up_from k tag e listed named up) =
      above k e (λ r. (indexed tag listed).0 (named ∙ r))
        (subst (Follows tags by_name k) (sym (next_parent-own tag p listed named))
          (EndsIn-Follows k tag.parent up))

  Follows-EndsIn :
      (n : ℕ) (p : Bytes)
      → (p ≢ [] → (u : Tag) × Memᴰ u tags × (u.name ≡ p))
      → Follows tags by_name n p
      → EndsIn tags n p
  Follows-EndsIn n p g (at_root e r) = at_end e r
  Follows-EndsIn zero p g (above k e ne up) = absurd (omega arith)
  Follows-EndsIn (suc n) p g (above k e ne up) =
      let (u, listed, named) = g ne in
      let shorter : k ≡ n = omega arith in
      up_from n u refl listed named (
        Follows-EndsIn n u.parent (given u listed) (
          subst (λ j. Follows tags by_name j u.parent) shorter
            (subst (Follows tags by_name k) (next_parent-own u p listed named) up)))

  -- With one round for every tag and one more, the loop for a tag ends, and it reports no circle
  -- exactly if the chain of parents ends. The tags have names, the map gives the index of every tag
  -- for its name, and every parent that is not empty is the name of a tag.
  pub is_circular_iff :
      (tag : Tag)
      → Memᴰ tag tags
      → (b : Bool) × (is_circular (suc (length tags)) tags by_name (tag.name ∷ []) tag.parent
          ≡ some b)
        × ((b ≡ false) ↔ ((n : ℕ) × EndsIn tags n tag.parent))
  is_circular_iff tag listed =
      let bound = unseen-length (tag.name ∷ []) tags in
      let (b, e) =
        is_circular-ends tags by_name (suc (length tags)) (tag.name ∷ []) tag.parent (omega arith)
          (λ _. (tag, listed, refl)) in
      let before : AllBefore tags by_name (tag.name ∷ []) tag.parent =
        subst (AllBefore tags by_name (tag.name ∷ [])) (next_parent-own tag tag.name listed refl)
          (AllBefore-own tags by_name tag.name (indexed tag listed).0) in
      (
        b,
        e,
        (
          λ no_.
              let (n, f) =
                no_circle-Follows tags by_name (suc (length tags)) (tag.name ∷ []) tag.parent
                  (e ∙ ap some no_) in
              (n, Follows-EndsIn n tag.parent (given tag listed) f),
          λ (n, f). elim (Bool-cases b) [
            | inr no_ ↦ no_
            | inl yes_ ↦ absurd (
                circle-endless tags by_name (suc (length tags)) (tag.name ∷ []) tag.parent n before
                  (e ∙ ap some yes_) (EndsIn-Follows n tag.parent f))
          ],
        ),
      )
