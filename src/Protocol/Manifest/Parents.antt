-- ===== src/Protocol/Manifest/Parents.antt =====
-- The walk over the parents of input objects ends, and accepts exactly the forests.
use mathlib.Core.Path.{subst}
use mathlib.Core.Option.{some-injective}
use onshape_export.Base.{
  ℕ, suc, zero, ◌<◌, ◌≡◌, ◌≢◌, ◌↔◌, refl, sym, ap, ◌∙◌, Text, text_eq, text_eq_iff, false, not,
  Option, none, some, List, [], ◌∷◌, arith, any, is_none, All, ok, err, ensure, for_some,
  for_each-ok_iff, find_by-All, All-found, All-map, All-zip, HasUniqueKeys, >>-ne-err,
  ensure-ne-err, for_some-ne-err, for_each-ne-err, >>-eq-ok, Bool-cases, Option-cases, inl, inr,
}
use onshape_export.Protocol.{missing_parent, parent_cycle, walk_unfinished}
use onshape_export.Protocol.Manifest.{
  InputObject, object_of, parent_of, walk, walk_fuel, check_parent, check_parents,
}
use onshape_export.Protocol.Manifest.Walks.{unseen-le-length, walk_ends}

-- At the given distance from a root: an object without a parent.
abbrev pub IsRootedAt : List InputObject → ℕ → Text → Type 0
IsRootedAt objects zero identity =
    (o : InputObject) × (object_of identity objects ≡ some o) × (o.parent_object_identity ≡ none)
IsRootedAt objects (suc n) identity =
    (o : InputObject) × (parent : Text) × (object_of identity objects ≡ some o)
    × (o.parent_object_identity ≡ some parent)
    × IsRootedAt objects n parent

parent_at :
    (objects : List InputObject) (identity : Text) (o : InputObject) {parent : Option Text}
    → object_of identity objects ≡ some o
    → o.parent_object_identity ≡ parent
    → parent_of (object_of identity objects) ≡ parent
parent_at objects identity o e up = ap parent_of e ∙ up

distance_unique :
    (objects : List InputObject) (n m : ℕ) (identity : Text)
    → IsRootedAt objects n identity
    → IsRootedAt objects m identity
    → n ≡ m
distance_unique objects zero zero identity h k = refl
distance_unique objects zero (suc m) identity (o, e, top) (o', parent, e', up, k) =
    absurd (cc (sym (parent_at objects identity o e top) ∙ parent_at objects identity o' e' up))
distance_unique objects (suc n) zero identity (o, parent, e, up, h) (o', e', top) =
    absurd (cc (sym (parent_at objects identity o e up) ∙ parent_at objects identity o' e' top))
distance_unique objects (suc n) (suc m) identity (o, parent, e, up, h) (o', parent', e', up', k) =
    let same : parent ≡ parent' =
      some-injective parent parent'
        (sym (parent_at objects identity o e up) ∙ parent_at objects identity o' e' up') in
    ap suc (distance_unique objects n m parent h (subst (IsRootedAt objects m) (sym same) k))

-- What was visited is farther from its root than the current object.
abbrev IsBelow : List InputObject → ℕ → List Text → Type 0
IsBelow objects n visited = All (λ v. (m : ℕ) × IsRootedAt objects m v × (n < m)) visited

not_visited :
    (objects : List InputObject) (n : ℕ) (identity : Text) (visited : List Text)
    → IsRootedAt objects n identity
    → IsBelow objects n visited
    → any (λ v. text_eq v identity) visited ≡ false
not_visited objects n identity [] h below = refl
not_visited objects n identity (v ∷ visited) h ((m, k, far), below) =
    elim (Bool-cases (text_eq v identity)) [
      | inl same ↦
          let here = subst (IsRootedAt objects m) ((text_eq_iff v identity).0 same) k in
          absurd (omega (arith, distance_unique objects n m identity h here, far))
      | inr other ↦ ground (arith, other, not_visited objects n identity visited h below)
    ]

walk_step :
    (fuel : ℕ) (objects : List InputObject) (visited : List Text) (identity : Text)
    (next : Option Text)
    → any (λ v. text_eq v identity) visited ≡ false
    → parent_of (object_of identity objects) ≡ next
    → walk (suc fuel) objects visited (some identity) ≡ walk fuel objects (identity ∷ visited) next
unfolding walk
walk_step fuel objects visited identity next new up = rw (new, up) refl

walk_stops :
    (fuel : ℕ) (objects : List InputObject) (visited : List Text)
    → walk fuel objects visited none ≢ err walk_unfinished
    → walk fuel objects visited none ≡ ok tt
unfolding walk
walk_stops zero objects visited ends = absurd (ends refl)
walk_stops (suc fuel) objects visited ends = refl

-- From an object with a root the walk meets no cycle.
walk_rooted :
    (fuel n : ℕ) (objects : List InputObject) (identity : Text) (visited : List Text)
    → IsRootedAt objects n identity
    → IsBelow objects n visited
    → (walk fuel objects visited (some identity) ≢ err walk_unfinished)
    → walk fuel objects visited (some identity) ≡ ok tt
walk_rooted zero n objects identity visited h below ends = absurd (ends (unfold walk in refl))
walk_rooted (suc fuel) zero objects identity visited (o, e, top) below ends =
    let step =
      walk_step fuel objects visited identity none
        (not_visited objects zero identity visited (o, e, top) below)
        (parent_at objects identity o e top) in
    step ∙ walk_stops fuel objects (identity ∷ visited) (λ x. ends (step ∙ x))
walk_rooted (suc fuel) (suc n) objects identity visited (o, parent, e, up, h) below ends =
    let step =
      walk_step fuel objects visited identity (some parent)
        (not_visited objects (suc n) identity visited (o, parent, e, up, h) below)
        (parent_at objects identity o e up) in
    step
    ∙ walk_rooted fuel n objects parent (identity ∷ visited) h
        (
          (suc n, (o, parent, e, up, h), omega arith),
          All-map (λ v. (m : ℕ) × IsRootedAt objects m v × (suc n < m))
              (λ v. (m : ℕ) × IsRootedAt objects m v × (n < m)) visited
              (λ v (m, k, far). (m, k, omega (arith, far))) below,
        )
        (λ x. ends (step ∙ x))

-- An object that leads to a root.
abbrev pub IsRooted : List InputObject → Text → Type 0
IsRooted objects identity = (n : ℕ) × IsRootedAt objects n identity

abbrev HasParents : List InputObject → Type 0
HasParents objects =
    All
      (λ (o : InputObject).
        for_some o.parent_object_identity
          (λ parent. ensure (not (is_none (object_of parent objects))) missing_parent)
        ≡ ok tt)
      objects

walk_unfuelled :
    (objects : List InputObject) (visited : List Text) (current : Option Text)
    → walk zero objects visited current ≡ err walk_unfinished
unfolding walk
walk_unfuelled objects visited current = refl

walk_next :
    (fuel : ℕ) (objects : List InputObject) (visited : List Text) (identity : Text)
    → walk (suc fuel) objects visited (some identity) ≡ ok tt
    → walk fuel objects (identity ∷ visited) (parent_of (object_of identity objects)) ≡ ok tt
unfolding walk
walk_next fuel objects visited identity h =
    (>>-eq-ok (ensure (not (any (λ v. text_eq v identity) visited)) parent_cycle) _ h).1

-- Where every parent is there, a walk that succeeds has found a root.
walk_finds :
    (fuel : ℕ) (objects : List InputObject) (visited : List Text) (identity : Text)
    (o : InputObject)
    → HasParents objects
    → object_of identity objects ≡ some o
    → walk fuel objects visited (some identity) ≡ ok tt
    → IsRooted objects identity
walk_finds zero objects visited identity o parents e h =
    absurd (cc (sym (walk_unfuelled objects visited (some identity)) ∙ h))
walk_finds (suc fuel) objects visited identity o parents e h =
    elim (Option-cases o.parent_object_identity) [
      | inl top ↦ (zero, (o, e, top))
      | inr (parent, up) ↦ elim (Option-cases (object_of parent objects)) [
        | inl gone ↦ absurd (absent parent gone up)
        | inr (p, found) ↦
            let (n, rooted) = walk_finds fuel objects (identity ∷ visited) parent p parents found (
              subst (λ next. walk fuel objects (identity ∷ visited) next ≡ ok tt)
                (parent_at objects identity o e up) (walk_next fuel objects visited identity h)) in
            (suc n, (o, parent, e, up, rooted))
      ]
    ]
  where
    absent :
        (parent : Text)
        → object_of parent objects ≡ none
        → o.parent_object_identity ≡ some parent
        → ⊥
    absent parent gone up =
        let there =
          find_by-All (λ (x : InputObject). x.object_identity)
            (λ (x : InputObject).
              for_some x.parent_object_identity
                (λ p. ensure (not (is_none (object_of p objects))) missing_parent)
              ≡ ok tt)
            identity objects parents e in
        cc (rw (up, gone) at there)

-- Whatever the objects are, repeated identities and cycles included, the walks over their parents end
-- by themselves: the loop never runs out of its rounds.
pub check_parents_ends : (objects : List InputObject) → check_parents objects ≢ err walk_unfinished
unfolding check_parents check_parent
check_parents_ends objects = for_each-ne-err walk_unfinished (check_parent objects) objects (λ o.
    >>-ne-err walk_unfinished
      (for_some o.parent_object_identity
        (λ parent. ensure (not (is_none (object_of parent objects))) missing_parent))
      _
      (for_some-ne-err walk_unfinished o.parent_object_identity _
        (λ parent. ensure-ne-err walk_unfinished _ missing_parent (λ e. cc e)))
      (walk_ends (walk_fuel objects) objects [] (some o.object_identity)
        (omega (arith, unseen-le-length [] objects))))

accepted :
    (objects : List InputObject) (o : InputObject)
    → object_of o.object_identity objects ≡ some o
    → IsRooted objects o.object_identity
    → check_parent objects o ≡ ok tt
unfolding check_parent
accepted objects o here (n, rooted) =
    let walked = walk_rooted (walk_fuel objects) n objects o.object_identity [] rooted tt (
      walk_ends (walk_fuel objects) objects [] (some o.object_identity)
        (omega (arith, unseen-le-length [] objects))) in
    rw (parent_there n rooted) walked
  where
    found :
        (m : ℕ) (parent : Text)
        → IsRootedAt objects m parent
        → is_none (object_of parent objects) ≡ false
    found zero parent (p, e, _) = ap is_none e
    found (suc m) parent (p, _, e, _, _) = ap is_none e

    parent_there :
        (n : ℕ)
        → IsRootedAt objects n o.object_identity
        → for_some o.parent_object_identity
            (λ parent. ensure (not (is_none (object_of parent objects))) missing_parent)
          ≡ ok tt
    parent_there zero (o', e, top) =
        rw (sym (ap parent_of here) ∙ parent_at objects o.object_identity o' e top) refl
    parent_there (suc n) (o', parent, e, up, h) =
        rw (sym (ap parent_of here) ∙ parent_at objects o.object_identity o' e up)
          (rw (found n parent h) refl)

-- For objects with unique identities, as the loop before makes sure of: the walks accept exactly the
-- forests, in which each object leads, from parent to parent, to one without a parent.
pub check_parents_iff :
    (objects : List InputObject)
    → HasUniqueKeys (λ (o : InputObject). o.object_identity) objects
    → (check_parents objects ≡ ok tt)
      ↔ All (λ (o : InputObject). IsRooted objects o.object_identity) objects
unfolding check_parents check_parent
check_parents_iff objects unique =
    let here = All-found (λ (o : InputObject). o.object_identity) objects unique in
    let loop = for_each-ok_iff (check_parent objects) objects in
    let split = λ (o : InputObject) (h : check_parent objects o ≡ ok tt).
      >>-eq-ok
        (for_some o.parent_object_identity
          (λ parent. ensure (not (is_none (object_of parent objects))) missing_parent))
        (walk (walk_fuel objects) objects [] (some o.object_identity)) h in
    (
      λ h.
          let checked = loop.0 h in
          let parents = All-map _ _ objects (λ o k. (split o k).0) checked in
          All-map _ _ objects
            (λ o (k, e).
              walk_finds (walk_fuel objects) objects [] o.object_identity o parents e (split o k).1)
            (All-zip _ _ objects checked here),
      λ h.
          loop.1
            (All-map _ _ objects (λ o (k, e). accepted objects o e k) (All-zip _ _ objects h here)),
    )
