-- ===== src/Parameters/Kinds.antt =====
-- The validation of one parameter follows its rule.
use mathlib.Core.Path.{subst}
use onshape_export.Base.{
  ◌++◌, ◌≡◌, ◌≢◌, ◌⊎◌, ◌∙◌, inl, inr, refl, sym, ap, Text, text, text_eq, text_eq_iff, Bool, true,
  false, Option, none, some, List, [], ◌∷◌, arith, any, Result, ok, err, if◌then◌else◌, Bool-cases,
}
use onshape_export.Parameters.{
  Parameter, ParameterKind, ParameterOption, plain_text, number, boolean, enumeration,
  unsupported_kind, text_value, enum_value, boolean_value, Entry, chosen, is_boolean,
  normalize_bool, accept_boolean, accept_enum, accept_value, accept_chosen, accept_kind, accept,
  some_entry,
}
use onshape_export.Parameters.Fits.{
  Supplies, Offers, Accepts, takes_nothing, takes_text, takes_number, takes_true, takes_false,
  takes_option, chosen-Supplies, Supplies-chosen,
}

any-Offers :
    (value : Text) (options : List ParameterOption)
    → any (λ (o : ParameterOption). text_eq o.value value) options ≡ true
    → Offers value options
any-Offers value [] h = absurd (cc h)
any-Offers value (o ∷ options) h = elim (Bool-cases (text_eq o.value value)) [
  | inl same ↦ inl ((text_eq_iff o.value value).0 same)
  | inr other ↦ inr (any-Offers value options (ground (arith, h, other)))
]

Offers-any :
    (value : Text) (options : List ParameterOption)
    → Offers value options
    → any (λ (o : ParameterOption). text_eq o.value value) options ≡ true
Offers-any value [] h = absurd h
Offers-any value (o ∷ options) (inl e) = ground (arith, (text_eq_iff o.value value).1 e)
Offers-any value (o ∷ options) (inr h) = ground (arith, Offers-any value options h)

boolean_words :
    (value : Text)
    → is_boolean value ≡ true
    → ((value ≡ text "true") ⊎ ((value ≡ text "on") ⊎ (value ≡ text "1")))
      ⊎ ((value ≡ text "false") ⊎ (value ≡ text "0"))
boolean_words value h = elim (Bool-cases (text_eq value (text "true"))) [
  | inl a ↦ inl (inl ((text_eq_iff value (text "true")).0 a))
  | inr not_true ↦ elim (Bool-cases (text_eq value (text "false"))) [
    | inl a ↦ inr (inl ((text_eq_iff value (text "false")).0 a))
    | inr not_false ↦ elim (Bool-cases (text_eq value (text "on"))) [
      | inl a ↦ inl (inr (inl ((text_eq_iff value (text "on")).0 a)))
      | inr not_on ↦ elim (Bool-cases (text_eq value (text "0"))) [
        | inl a ↦ inr (inr ((text_eq_iff value (text "0")).0 a))
        | inr not_0 ↦ elim (Bool-cases (text_eq value (text "1"))) [
          | inl a ↦ inl (inr (inr ((text_eq_iff value (text "1")).0 a)))
          | inr not_1 ↦ absurd (ground (arith, h, not_true, not_false, not_on, not_0, not_1))
        ]
      ]
    ]
  ]
]

abbrev truth_of : Bool → Entry
truth_of true = (text "true", boolean_value true)
truth_of false = (text "false", boolean_value false)

accept_boolean-true :
    (p : Parameter) (value : Text)
    → (value ≡ text "true") ⊎ ((value ≡ text "on") ⊎ (value ≡ text "1"))
    → accept_boolean p value ≡ ok (truth_of true)
unfolding accept_boolean normalize_bool text text_eq
accept_boolean-true p value (inl e) = ap (accept_boolean p) e
accept_boolean-true p value (inr (inl e)) = ap (accept_boolean p) e
accept_boolean-true p value (inr (inr e)) = ap (accept_boolean p) e

accept_boolean-false :
    (p : Parameter) (value : Text)
    → (value ≡ text "false") ⊎ (value ≡ text "0")
    → accept_boolean p value ≡ ok (truth_of false)
unfolding accept_boolean normalize_bool text text_eq
accept_boolean-false p value (inl e) = ap (accept_boolean p) e
accept_boolean-false p value (inr e) = ap (accept_boolean p) e

accept_boolean-ok :
    (p : Parameter) (value : Text) (e : Entry)
    → accept_boolean p value ≡ ok e
    → is_boolean value ≡ true
unfolding accept_boolean
accept_boolean-ok p value e h = elim (Bool-cases (is_boolean value)) [
  | inl word ↦ word
  | inr other ↦ absurd (ground (arith, h, other))
]

abbrev or_this : {A : Type 0} → A → Result Text A → A
or_this a (ok b) = b
or_this a (err message) = a

same_ok : {A : Type 0} (a b : A) (o : Result Text A) → o ≡ ok a → o ≡ ok b → a ≡ b
same_ok a b o h k = ap (or_this a) (sym h ∙ k)

entry_made :
    (o : Result Text Entry) (e : Option Entry)
    → some_entry o ≡ ok e
    → (x : Entry) × (o ≡ ok x) × (some x ≡ e)
entry_made (ok x) e h = (x, refl, same_ok (some x) e (ok (some x)) refl h)
entry_made (err message) e h = absurd (cc h)

module _ (accept_number : Parameter → Text → Result Text Entry) (submitted : List (Text × Text))
    (p : Parameter) where
  -- The rule of a kind, for the value that counts.
  abbrev rule : ParameterKind → Option Text → Result Text (Option Entry)
  rule unsupported_kind o = accept_kind accept_number unsupported_kind p o
  rule _ none = accept_chosen accept_number p none
  rule kind (some value) = some_entry (accept_value accept_number p kind value)

  rule_of :
      (kind : ParameterKind) (o : Option Text)
      → p.kind ≡ kind
      → accept_kind accept_number kind p o ≡ rule kind o
  rule_of unsupported_kind o e = refl
  rule_of plain_text none e = refl
  rule_of number none e = refl
  rule_of boolean none e = refl
  rule_of enumeration none e = refl
  rule_of plain_text (some v) e = ap (λ k. some_entry (accept_value accept_number p k v)) e
  rule_of number (some v) e = ap (λ k. some_entry (accept_value accept_number p k v)) e
  rule_of boolean (some v) e = ap (λ k. some_entry (accept_value accept_number p k v)) e
  rule_of enumeration (some v) e = ap (λ k. some_entry (accept_value accept_number p k v)) e

  accept_by :
      (kind : ParameterKind) (o : Option Text)
      → p.kind ≡ kind
      → chosen submitted p ≡ o
      → accept accept_number submitted p ≡ rule kind o
  accept_by kind o e c =
      ap (λ k. accept_kind accept_number k p (chosen submitted p)) e
      ∙ ap (accept_kind accept_number kind p) c
      ∙ rule_of kind o e

  value-Accepts :
      (kind : ParameterKind) (v : Text) (x : Entry)
      → p.kind ≡ kind
      → Supplies submitted p (some v)
      → accept_value accept_number p kind v ≡ ok x
      → Accepts accept_number submitted p (some x)
  unfolding accept_value accept_enum
  value-Accepts plain_text v x e s h =
      subst (λ y. Accepts accept_number submitted p (some y))
        (same_ok (v, text_value v) x (ok (v, text_value v)) refl h) (takes_text v e s)
  value-Accepts number v x e s h = takes_number v x e s h
  value-Accepts boolean v x e s h = elim (boolean_words v (accept_boolean-ok p v x h)) [
    | inl word ↦
        subst (λ y. Accepts accept_number submitted p (some y))
          (same_ok (truth_of true) x (accept_boolean p v) (accept_boolean-true p v word) h)
          (takes_true v e s word)
    | inr word ↦
        subst (λ y. Accepts accept_number submitted p (some y))
          (same_ok (truth_of false) x (accept_boolean p v) (accept_boolean-false p v word) h)
          (takes_false v e s word)
  ]
  value-Accepts enumeration v x e s h =
      elim (Bool-cases (any (λ (o : ParameterOption). text_eq o.value v) p.options)) [
        | inl offered ↦
            subst (λ y. Accepts accept_number submitted p (some y))
              (same_ok (v, enum_value v) x (ok (v, enum_value v)) refl (rw offered at h))
              (takes_option v e s (any-Offers v p.options offered))
        | inr other ↦ absurd (ground (arith, h, other))
      ]
  value-Accepts unsupported_kind v x e s h = absurd (cc h)

  nothing-Accepts :
      (kind : ParameterKind) (e : Option Entry)
      → p.kind ≡ kind
      → kind ≢ unsupported_kind
      → Supplies submitted p none
      → accept_chosen accept_number p none ≡ ok e
      → Accepts accept_number submitted p e
  nothing-Accepts kind e k other s h = elim (Bool-cases p.required) [
    | inl needed ↦ absurd (ground (arith, h, needed))
    | inr free ↦
        subst (Accepts accept_number submitted p) (same_ok none e (ok none) refl (rw free at h))
          (takes_nothing (λ u. other (sym k ∙ u)) free s)
  ]

  rule-Accepts :
      (kind : ParameterKind) (o : Option Text) (e : Option Entry)
      → p.kind ≡ kind
      → Supplies submitted p o
      → rule kind o ≡ ok e
      → Accepts accept_number submitted p e
  rule-Accepts unsupported_kind o e k s h = absurd (cc h)
  rule-Accepts plain_text none e k s h = nothing-Accepts plain_text e k (λ u. cc u) s h
  rule-Accepts number none e k s h = nothing-Accepts number e k (λ u. cc u) s h
  rule-Accepts boolean none e k s h = nothing-Accepts boolean e k (λ u. cc u) s h
  rule-Accepts enumeration none e k s h = nothing-Accepts enumeration e k (λ u. cc u) s h
  rule-Accepts kind (some v) e k s h =
      let (x, made, same) = entry_made (accept_value accept_number p kind v) e h in
      subst (Accepts accept_number submitted p) same (value-Accepts kind v x k s made)

  pub accept-Accepts :
      (e : Option Entry)
      → accept accept_number submitted p ≡ ok e
      → Accepts accept_number submitted p e
  accept-Accepts e h =
      rule-Accepts p.kind (chosen submitted p) e refl (chosen-Supplies submitted p)
        (sym (accept_by p.kind (chosen submitted p) refl refl) ∙ h)

  pub Accepts-accept :
      {e : Option Entry}
      → Accepts accept_number submitted p e
      → accept accept_number submitted p ≡ ok e
  unfolding accept_value accept_enum
  Accepts-accept (takes_text v k s) =
      accept_by plain_text (some v) k (Supplies-chosen submitted p s)
  Accepts-accept (takes_number v e k s h) =
      accept_by number (some v) k (Supplies-chosen submitted p s) ∙ ap some_entry h
  Accepts-accept (takes_true v k s word) =
      accept_by boolean (some v) k (Supplies-chosen submitted p s)
      ∙ ap some_entry (accept_boolean-true p v word)
  Accepts-accept (takes_false v k s word) =
      accept_by boolean (some v) k (Supplies-chosen submitted p s)
      ∙ ap some_entry (accept_boolean-false p v word)
  Accepts-accept (takes_option v k s offered) =
      accept_by enumeration (some v) k (Supplies-chosen submitted p s)
      ∙ ap
          (λ b.
            some_entry
              (if b then ok (v, enum_value v) else err (p.label ++ text " has an invalid option")))
          (Offers-any v p.options offered)
  Accepts-accept (takes_nothing other free s) = passed p.kind refl
    where
      unneeded : accept_chosen accept_number p none ≡ ok none
      unneeded = rw free refl

      passed : (kind : ParameterKind) → p.kind ≡ kind → accept accept_number submitted p ≡ ok none
      passed unsupported_kind k = absurd (other k)
      passed plain_text k = accept_by plain_text none k (Supplies-chosen submitted p s) ∙ unneeded
      passed number k = accept_by number none k (Supplies-chosen submitted p s) ∙ unneeded
      passed boolean k = accept_by boolean none k (Supplies-chosen submitted p s) ∙ unneeded
      passed enumeration k = accept_by enumeration none k (Supplies-chosen submitted p s) ∙ unneeded
