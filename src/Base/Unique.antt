-- ===== src/Base/Unique.antt =====
-- Lists without repetition, as predicates by recursion.
use Prim.Native.Nat.{ℕ}
use mathlib.Core.Logic.{◌≢◌}
use mathlib.Core.List.{List, [], ◌∷◌, ◌++◌}
use native.Mathlib.Omega.{arith}

abbrev pub NotIn : ℕ → List ℕ → Type 0
NotIn a [] = Unit
NotIn a (x ∷ xs) = (a ≢ x) × NotIn a xs

abbrev pub Unique : List ℕ → Type 0
Unique [] = Unit
Unique (x ∷ xs) = NotIn x xs × Unique xs

pub NotIn-append : (a : ℕ) (xs ys : List ℕ) → NotIn a xs → NotIn a ys → NotIn a (xs ++ ys)
NotIn-append a [] ys p q = q
NotIn-append a (x ∷ xs) ys p q = (p.0, NotIn-append a xs ys p.1 q)

pub NotIn-append_left : (a : ℕ) (xs ys : List ℕ) → NotIn a (xs ++ ys) → NotIn a xs
NotIn-append_left a [] ys p = tt
NotIn-append_left a (x ∷ xs) ys p = (p.0, NotIn-append_left a xs ys p.1)

pub NotIn-append_right : (a : ℕ) (xs ys : List ℕ) → NotIn a (xs ++ ys) → NotIn a ys
NotIn-append_right a [] ys p = p
NotIn-append_right a (x ∷ xs) ys p = NotIn-append_right a xs ys p.1

-- An element in the middle can be taken out, or moved to the front.
NotIn-drop : (b a : ℕ) (xs ys : List ℕ) → NotIn b (xs ++ a ∷ ys) → (b ≢ a) × NotIn b (xs ++ ys)
NotIn-drop b a [] ys p = (p.0, p.1)
NotIn-drop b a (x ∷ xs) ys p = let (ne, rest) = NotIn-drop b a xs ys p.1 in (ne, (p.0, rest))

NotIn-put : (b a : ℕ) (xs ys : List ℕ) → b ≢ a → NotIn b (xs ++ ys) → NotIn b (xs ++ a ∷ ys)
NotIn-put b a [] ys ne p = (ne, p)
NotIn-put b a (x ∷ xs) ys ne p = (p.0, NotIn-put b a xs ys ne p.1)

pub Unique-to_front : (a : ℕ) (xs ys : List ℕ) → Unique (xs ++ a ∷ ys) → Unique (a ∷ xs ++ ys)
Unique-to_front a [] ys u = u
Unique-to_front a (x ∷ xs) ys u =
    let (fresh, rest) = Unique-to_front a xs ys u.1 in
    let (ne, out) = NotIn-drop x a xs ys u.0 in ((omega arith, fresh), (out, rest))

pub Unique-to_middle : (a : ℕ) (xs ys : List ℕ) → Unique (a ∷ xs ++ ys) → Unique (xs ++ a ∷ ys)
Unique-to_middle a [] ys u = u
Unique-to_middle a (x ∷ xs) ys u =
    (NotIn-put x a xs ys (omega arith) u.1.0, Unique-to_middle a xs ys (u.0.1, u.1.1))

pub Unique-append_right : (xs ys : List ℕ) → Unique (xs ++ ys) → Unique ys
Unique-append_right [] ys u = u
Unique-append_right (x ∷ xs) ys u = Unique-append_right xs ys u.1
