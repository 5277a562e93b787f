-- ===== src/Base/Splits.antt =====
-- `str::split` at a character, on texts whose pieces are known.
use Prim.Native.Nat.{ℕ}
use mathlib.Core.Path.{◌≡◌, refl}
use mathlib.Core.Bool.{Bool, true, not}
use mathlib.Core.List.{List, [], ◌∷◌, ◌++◌}
use native.Mathlib.Omega.{arith}
use onshape_export.Base.Tests.{◌==◌}
use onshape_export.Base.Lists.{all}
use onshape_export.Base.Texts.{Text, split, split_first}

-- The separator does not occur in the text.
abbrev pub lacks : ℕ → Text → Bool
lacks sep s = all (λ c. not (c == sep)) s

split_first-lacks : (sep : ℕ) (p : Text) → lacks sep p ≡ true → split_first sep p ≡ (p, [])
unfolding split_first
split_first-lacks sep [] h = refl
split_first-lacks sep (c ∷ p) h = ground (arith, split_first-lacks sep p)

split_first-piece :
    (sep : ℕ) (p rest : Text)
    → lacks sep p ≡ true
    → split_first sep (p ++ sep ∷ rest) ≡ (p, split sep rest)
unfolding split split_first
split_first-piece sep [] rest h = ground arith
split_first-piece sep (c ∷ p) rest h = ground (arith, split_first-piece sep p rest)

pub split-lacks : (sep : ℕ) (p : Text) → lacks sep p ≡ true → split sep p ≡ p ∷ []
unfolding split
split-lacks sep p h = ground (arith, split_first-lacks sep p h)

-- The first piece ends at the first separator.
pub split-piece :
    (sep : ℕ) (p rest : Text)
    → lacks sep p ≡ true
    → split sep (p ++ sep ∷ rest) ≡ p ∷ split sep rest
unfolding split
split-piece sep p rest h = ground (arith, split_first-piece sep p rest h)

-- `parts.join(sep)`, for a separator of one character
unfoldable pub join : ℕ → List Text → Text
join sep [] = []
join sep (part ∷ []) = part
join sep (part ∷ next ∷ parts) = part ++ sep ∷ join sep (next ∷ parts)

join-cons :
    (sep c : ℕ) (part : Text) (parts : List Text)
    → join sep ((c ∷ part) ∷ parts) ≡ c ∷ join sep (part ∷ parts)
unfolding join
join-cons sep c part [] = refl
join-cons sep c part (next ∷ parts) = refl

-- The pieces of a text, joined again, are the text.
pub join-split : (sep : ℕ) (s : Text) → join sep (split sep s) ≡ s
unfolding split split_first join
join-split sep [] = refl
join-split sep (c ∷ s) =
    ground (arith, join-split sep s, join-cons sep c (split_first sep s).0 (split_first sep s).1)
