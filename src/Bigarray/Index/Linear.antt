-- ===== src/Bigarray/Index/Linear.antt =====
-- The row-major position of an element, and its bounds.
use mirage_kfreebsd.Base.{
  ℕ, zero, suc, ◌+◌, ◌*◌, ◌≤◌, ◌<◌, ◌≡◌, refl, List, [], ◌∷◌, ◌++◌, arith, ap,
}
use mathlib.Core.Path.{ap₂}
use mathlib.Core.List.{reverse, reverse_aux}
use mirage_kfreebsd.Bigarray.Alloc.Multov.{product}

-- The position in row-major order, from 0.
abbrev pub linear : List ℕ → List ℕ → ℕ
linear [] index = 0
linear (d ∷ dim) [] = 0
linear (d ∷ dim) (i ∷ index) = i * product dim + linear dim index

-- Each index is below its dimension, and there are as many.
abbrev pub InBounds : List ℕ → List ℕ → Type 0
InBounds [] [] = Unit
InBounds (d ∷ dim) (i ∷ index) = (i < d) × InBounds dim index
InBounds _ _ = ⊥

below_product : (i d p r : ℕ) → i < d → r < p → i * p + r < d * p
below_product i d p r h k = grind arith

pub linear-lt : (dim index : List ℕ) → InBounds dim index → linear dim index < product dim
linear-lt [] [] h = omega arith
linear-lt [] (i ∷ index) h = absurd h
linear-lt (d ∷ dim) [] h = absurd h
linear-lt (d ∷ dim) (i ∷ index) h =
    below_product i d (product dim) (linear dim index) h.0 (linear-lt dim index h.1)

same_quotient : (i j p r s : ℕ) → r < p → s < p → i * p + r ≡ j * p + s → (i ≡ j) × (r ≡ s)
same_quotient zero zero p r s hr hs e = omega arith
same_quotient zero (suc j) p r s hr hs e = absurd (omega arith)
same_quotient (suc i) zero p r s hr hs e = absurd (omega arith)
same_quotient (suc i) (suc j) p r s hr hs e =
    omega (arith, same_quotient i j p r s hr hs (omega arith))

-- Two elements at one position are the same element.
pub linear-injective :
    (dim index index' : List ℕ)
    → InBounds dim index
    → InBounds dim index'
    → linear dim index ≡ linear dim index'
    → index ≡ index'
linear-injective [] [] [] h k e = refl
linear-injective [] (i ∷ index) index' h k e = absurd h
linear-injective [] [] (j ∷ index') h k e = absurd k
linear-injective (d ∷ dim) [] index' h k e = absurd h
linear-injective (d ∷ dim) (i ∷ index) [] h k e = absurd k
linear-injective (d ∷ dim) (i ∷ index) (j ∷ index') h k e =
    let (same, rest) =
      same_quotient i j (product dim) (linear dim index) (linear dim index')
        (linear-lt dim index h.1) (linear-lt dim index' k.1) e in
    ap₂ ◌∷◌ same (linear-injective dim index index' h.1 k.1 rest)

pub product_pos : (dim index : List ℕ) → InBounds dim index → 1 ≤ product dim
product_pos dim index h = omega (arith, linear-lt dim index h)

product-append : (xs ys : List ℕ) → product (xs ++ ys) ≡ product xs * product ys
product-append [] ys = omega arith
product-append (x ∷ xs) ys = omega (arith, ap (λ n. x * n) (product-append xs ys))

product-reverse_aux : (xs ys : List ℕ) → product (reverse_aux xs ys) ≡ product xs * product ys
product-reverse_aux [] ys = omega arith
product-reverse_aux (x ∷ xs) ys = omega (arith, product-reverse_aux xs (x ∷ ys))

pub product-reverse : (xs : List ℕ) → product (reverse xs) ≡ product xs
product-reverse xs = omega (arith, product-reverse_aux xs [])
