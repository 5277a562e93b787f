-- ===== src/Parameters/Collected.antt =====
-- The loop over the parameters: its errors, and what it holds under the id of each.
use onshape_export.Base.{
  ◌≡◌, refl, sym, ap, ◌∙◌, Text, text_eq, text_eq_iff, text_eq_refl, Bool, true, false, ◌&&◌, ◌||◌,
  Option, none, some, List, [], ◌∷◌, ◌++◌, arith, all, is_empty, All, All-map, HasUniqueKeys,
  Result, ok, err, if◌then◌else◌, Bool-cases, inl, inr,
}
use onshape_export.Parameters.{
  Parameter, CanonicalParameterValue, ValidatedConfiguration, Entry, Validation, insert_entry,
  settle, is_known, unknown_errors, take_unknown, finished, accept, collect, text_value,
}

abbrev pub is_ok : {A : Type 0} → Result Text A → Bool
is_ok (ok a) = true
is_ok (err e) = false

abbrev pub value_of : Option Entry → Option Text
value_of none = none
value_of (some (value, typed)) = some value

abbrev pub typed_of : Option Entry → Option CanonicalParameterValue
typed_of none = none
typed_of (some (value, typed)) = some typed

empty_append : (xs ys : List Text) → is_empty (xs ++ ys) ≡ (is_empty xs && is_empty ys)
empty_append [] ys = refl
empty_append (x ∷ xs) ys = refl

settle-errors :
    (p : Parameter) (o : Result Text (Option Entry)) (v : Validation)
    → is_empty (settle p o v).errors ≡ (is_empty v.errors && is_ok o)
settle-errors p (ok none) v = ground arith
settle-errors p (ok (some entry)) v = ground arith
settle-errors p (err message) v = empty_append v.errors (message ∷ [])

settle-apart :
    (p : Parameter) (o : Result Text (Option Entry)) (v : Validation) (key : Text)
    → text_eq p.id key ≡ false
    → ((settle p o v).values key ≡ v.values key)
      × ((settle p o v).typed_values key ≡ v.typed_values key)
settle-apart p (ok none) v key h = (refl, refl)
settle-apart p (ok (some (value, typed))) v key h = (ground (arith, h), ground (arith, h))
settle-apart p (err message) v key h = (refl, refl)

settle-here :
    (p : Parameter) (o : Option Entry) (v : Validation)
    → v.values p.id ≡ none
    → v.typed_values p.id ≡ none
    → ((settle p (ok o) v).values p.id ≡ value_of o)
      × ((settle p (ok o) v).typed_values p.id ≡ typed_of o)
settle-here p none v h k = (h, k)
settle-here p (some (value, typed)) v h k =
    (ground (arith, text_eq_refl p.id), ground (arith, text_eq_refl p.id))

pub unknown_errors-empty :
    (parameters : List Parameter) (submitted : List (Text × Text))
    → is_empty (unknown_errors parameters submitted)
      ≡ all (λ (e : Text × Text). is_known parameters e.0) submitted
unfolding unknown_errors
unknown_errors-empty parameters [] = refl
unknown_errors-empty parameters ((name, value) ∷ submitted) =
    ground (arith, unknown_errors-empty parameters submitted)

pub take_unknown-errors :
    (parameters : List Parameter) (submitted : List (Text × Text)) (v : Validation)
    → (take_unknown parameters submitted v).errors ≡ v.errors
unfolding take_unknown
take_unknown-errors parameters [] v = refl
take_unknown-errors parameters ((name, value) ∷ submitted) v =
    elim (Bool-cases (is_known parameters name || is_empty value)) [
      | inl passed ↦ rw passed (take_unknown-errors parameters submitted v)
      | inr taken ↦
          rw taken (
            take_unknown-errors parameters submitted
              (insert_entry name (value, text_value value) v))
    ]

-- Known names keep what they have.
pub take_unknown-known :
    (parameters : List Parameter) (submitted : List (Text × Text)) (v : Validation) (key : Text)
    → is_known parameters key ≡ true
    → ((take_unknown parameters submitted v).values key ≡ v.values key)
      × ((take_unknown parameters submitted v).typed_values key ≡ v.typed_values key)
unfolding take_unknown
take_unknown-known parameters [] v key known = (refl, refl)
take_unknown-known parameters ((name, value) ∷ submitted) v key known =
    elim (Bool-cases (is_known parameters name || is_empty value)) [
      | inl passed ↦ rw passed (take_unknown-known parameters submitted v key known)
      | inr taken ↦
          let (values, typed) =
            take_unknown-known parameters submitted (insert_entry name (value, text_value value) v)
              key known in
          let apart : text_eq name key ≡ false = elim (Bool-cases (text_eq name key)) [
            | inl same ↦ absurd (
                let e = ap (is_known parameters) ((text_eq_iff name key).0 same) in
                ground (arith, e, known, taken))
            | inr other ↦ other
          ] in
          rw taken (values ∙ ground (arith, apart), typed ∙ ground (arith, apart))
    ]

abbrev configuration_or :
    ValidatedConfiguration → Result (List Text) ValidatedConfiguration → ValidatedConfiguration
configuration_or c (ok made) = made
configuration_or c (err errors) = c

abbrev pub made_of : Validation → ValidatedConfiguration
made_of v = record { values = v.values; typed_values = v.typed_values }

pub finished_fine : (v : Validation) → is_empty v.errors ≡ true → finished v ≡ ok (made_of v)
finished_fine v fine = ap (λ b. if b then ok (made_of v) else err v.errors) fine

pub finished-ok :
    (v : Validation) (c : ValidatedConfiguration)
    → finished v ≡ ok c
    → (is_empty v.errors ≡ true) × (made_of v ≡ c)
finished-ok v c h = elim (Bool-cases (is_empty v.errors)) [
  | inl fine ↦
      let same : finished v ≡ ok (made_of v) =
        ap (λ b. if b then ok (made_of v) else err v.errors) fine in
      (fine, ap (configuration_or c) (sym same ∙ h))
  | inr bad ↦ absurd (
      let other : finished v ≡ err v.errors =
        ap (λ b. if b then ok (made_of v) else err v.errors) bad in
      cc (sym other ∙ h))
]

module _ (accept_number : Parameter → Text → Result Text Entry)
    (submitted : List (Text × Text)) where
  pub collect-errors :
      (parameters : List Parameter) (v : Validation)
      → is_empty (collect accept_number submitted parameters v).errors
        ≡ (is_empty v.errors && all (λ p. is_ok (accept accept_number submitted p)) parameters)
  unfolding collect
  collect-errors [] v = ground arith
  collect-errors (p ∷ parameters) v = ground (
    arith,
    collect-errors parameters (settle p (accept accept_number submitted p) v),
    settle-errors p (accept accept_number submitted p) v,
  )

  collect-apart :
      (parameters : List Parameter) (v : Validation) (key : Text)
      → All (λ (p : Parameter). text_eq p.id key ≡ false) parameters
      → ((collect accept_number submitted parameters v).values key ≡ v.values key)
        × ((collect accept_number submitted parameters v).typed_values key ≡ v.typed_values key)
  unfolding collect
  collect-apart [] v key h = (refl, refl)
  collect-apart (p ∷ parameters) v key (apart, h) =
      let (values, typed) = settle-apart p (accept accept_number submitted p) v key apart in
      let (later, later_typed) =
        collect-apart parameters (settle p (accept accept_number submitted p) v) key h in
      (later ∙ values, later_typed ∙ typed)

  -- The parameter is accepted, and the configuration holds under its id what it is accepted with.
  pub record IsAccepted (values : Text → Option Text)
      (typed : Text → Option CanonicalParameterValue) (p : Parameter) : Type 0 where
    pub entry : Option Entry
    pub accepted : accept accept_number submitted p ≡ ok entry
    pub value : values p.id ≡ value_of entry
    pub typed_value : typed p.id ≡ typed_of entry

  ok_of : (o : Result Text (Option Entry)) → is_ok o ≡ true → (e : Option Entry) × (o ≡ ok e)
  ok_of (ok e) h = (e, refl)
  ok_of (err message) h = absurd (cc h)

  abbrev pub IsFree : Validation → Parameter → Type 0
  IsFree v p = (v.values p.id ≡ none) × (v.typed_values p.id ≡ none)

  apart_sym : (a b : Text) → text_eq a b ≡ false → text_eq b a ≡ false
  apart_sym a b h = ground (arith, text_eq_iff a b, text_eq_iff b a, h)

  pub collect-IsAccepted :
      (parameters : List Parameter) (v : Validation)
      → HasUniqueKeys (λ (p : Parameter). p.id) parameters
      → All (λ p. is_ok (accept accept_number submitted p) ≡ true) parameters
      → All (IsFree v) parameters
      → All
          (IsAccepted
            (collect accept_number submitted parameters v).values
            (collect accept_number submitted parameters v).typed_values)
          parameters
  unfolding collect
  collect-IsAccepted [] v unique oks free = tt
  collect-IsAccepted (p ∷ parameters) v (apart, unique) (fine, oks) (free, frees) =
      let o = accept accept_number submitted p in
      let (e, is) = ok_of o fine in
      let (here, here_typed) = settle-here p e v free.0 free.1 in
      let others : All (λ (q : Parameter). text_eq q.id p.id ≡ false) parameters =
        All-map _ _ parameters (λ q h. apart_sym p.id q.id h) apart in
      let (kept, kept_typed) = collect-apart parameters (settle p o v) p.id others in
      (
        record {
          entry = e;
          accepted = is;
          value = kept ∙ ap (λ r. (settle p r v).values p.id) is ∙ here;
          typed_value = kept_typed ∙ ap (λ r. (settle p r v).typed_values p.id) is ∙ here_typed;
        },
        collect-IsAccepted parameters (settle p o v) unique oks (still_free parameters apart frees),
      )
    where
      still_free :
          (qs : List Parameter)
          → All (λ (q : Parameter). text_eq p.id q.id ≡ false) qs
          → All (IsFree v) qs
          → All (IsFree (settle p (accept accept_number submitted p) v)) qs
      still_free [] a f = tt
      still_free (q ∷ qs) (a, others) (f, fs) =
          let (values, typed) = settle-apart p (accept accept_number submitted p) v q.id a in
          ((values ∙ f.0, typed ∙ f.1), still_free qs others fs)
