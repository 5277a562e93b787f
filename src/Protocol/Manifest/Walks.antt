-- ===== src/Protocol/Manifest/Walks.antt =====
-- The walks over the parents of objects end: each visits an object that it has not seen.
use onshape_export.Base.{
  ℕ, suc, zero, ◌+◌, ◌≤◌, ◌<◌, ◌≡◌, ◌≢◌, refl, sym, ◌∙◌, Text, text_eq, text_eq_iff, false, Option,
  none, some, List, [], ◌∷◌, arith, any, length, find_by, if◌then◌else◌, ok, err, Bool-cases,
  Option-cases, inl, inr,
}
use onshape_export.Protocol.{walk_unfinished}
use onshape_export.Protocol.Manifest.{InputObject, object_of, parent_of, walk}

-- The objects that the walk has not visited.
abbrev unseen : List Text → List InputObject → ℕ
unseen visited [] = 0
unseen visited (o ∷ objects) =
    (if any (λ v. text_eq v o.object_identity) visited then 0 else 1) + unseen visited objects

pub unseen-le-length :
    (visited : List Text) (objects : List InputObject) → unseen visited objects ≤ length objects
unseen-le-length visited [] = omega arith
unseen-le-length visited (o ∷ objects) = ground (arith, unseen-le-length visited objects)

unseen_visit :
    (identity : Text) (visited : List Text) (objects : List InputObject)
    → unseen (identity ∷ visited) objects ≤ unseen visited objects
unseen_visit identity visited [] = omega arith
unseen_visit identity visited (o ∷ objects) = ground (arith, unseen_visit identity visited objects)

-- A visit to an object that was not visited leaves fewer.
unseen_found :
    (identity : Text) (visited : List Text) (objects : List InputObject) (o : InputObject)
    → object_of identity objects ≡ some o
    → any (λ v. text_eq v identity) visited ≡ false
    → unseen (identity ∷ visited) objects < unseen visited objects
unfolding find_by
unseen_found identity visited [] o e new = absurd (cc e)
unseen_found identity visited (x ∷ objects) o e new = ground (
  arith,
  text_eq_iff x.object_identity identity,
  text_eq_iff identity x.object_identity,
  unseen_visit identity visited objects,
  unseen_found identity visited objects o,
)

walk_top :
    (fuel : ℕ) (objects : List InputObject) (visited : List Text)
    → 0 < fuel
    → walk fuel objects visited none ≡ ok tt
unfolding walk
walk_top zero objects visited h = absurd (omega (arith, h))
walk_top (suc fuel) objects visited h = refl

-- Fuel for the unseen objects, one identity that no object has, and the end is enough.
pub walk_ends :
    (fuel : ℕ) (objects : List InputObject) (visited : List Text) (current : Option Text)
    → unseen visited objects + 2 ≤ fuel
    → walk fuel objects visited current ≢ err walk_unfinished
unfolding walk
walk_ends zero objects visited current enough = absurd (omega (arith, enough))
walk_ends (suc fuel) objects visited none enough = λ e. cc e
walk_ends (suc fuel) objects visited (some identity) enough =
    elim (Bool-cases (any (λ v. text_eq v identity) visited)) [
      | inl old ↦ rw old (λ e. cc e)
      | inr new ↦ elim (Option-cases (object_of identity objects)) [
        | inl gone ↦
            rw (new, gone)
              (λ e.
                cc (sym (walk_top fuel objects (identity ∷ visited) (omega (arith, enough))) ∙ e))
        | inr (o, found) ↦ rw new (
            walk_ends fuel objects (identity ∷ visited) (parent_of (object_of identity objects))
              (omega (arith, enough, unseen_found identity visited objects o found new)))
      ]
    ]
