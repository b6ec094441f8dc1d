-- ===== src/Prelude/Int.antt =====
-- Integers for the scores that may be negative, and the lexicographic order of Python's tuples.
use Prim.Native.Nat.{ℕ, ◌+◌, ◌-◌}
use mathlib.Core.Path.{◌≡◌, refl, ap, ◌∙◌}
use mathlib.Core.Bool.{Bool, true, false}
use mathlib.Core.List.{List, [], ◌∷◌}
use native.Mathlib.Omega.{arith}
use nexus_grid_grid.Prelude.Tests.{ltb, leb, if◌then◌else◌}

-- `negsuc n` is -(n + 1).
pub data ℤ : Type 0 where
  pos : ℕ → ℤ
  negsuc : ℕ → ℤ

-- a - b, as an integer.
unfoldable pub sub_ℕ : ℕ → ℕ → ℤ
sub_ℕ a b = if leb b a then pos (a - b) else negsuc (b - a - 1)

infixl 60 ◌+ℤ◌
abbrev pub ◌+ℤ◌ : ℤ → ℤ → ℤ
pos a +ℤ pos b = pos (a + b)
pos a +ℤ negsuc b = if ltb b a then pos (a - b - 1) else negsuc (b - a)
negsuc a +ℤ pos b = if ltb a b then pos (b - a - 1) else negsuc (a - b)
negsuc a +ℤ negsuc b = negsuc (a + b + 1)

pub add_zero : (x : ℤ) → x +ℤ pos 0 ≡ x
add_zero (pos a) = ground arith
add_zero (negsuc a) = ground arith

-- The order in which two amounts are added does not matter.
pub add_swap : (x y z : ℤ) → (x +ℤ y) +ℤ z ≡ (x +ℤ z) +ℤ y
add_swap (pos a) (pos b) (pos c) = ground arith
add_swap (pos a) (pos b) (negsuc c) = ground arith
add_swap (pos a) (negsuc b) (pos c) = ground arith
add_swap (pos a) (negsuc b) (negsuc c) = ground arith
add_swap (negsuc a) (pos b) (pos c) = ground arith
add_swap (negsuc a) (pos b) (negsuc c) = ground arith
add_swap (negsuc a) (negsuc b) (pos c) = ground arith
add_swap (negsuc a) (negsuc b) (negsuc c) = ground arith

pub zero_add : (x : ℤ) → pos 0 +ℤ x ≡ x
zero_add (pos a) = ground arith
zero_add (negsuc a) = ground arith

pub add_comm : (x y : ℤ) → x +ℤ y ≡ y +ℤ x
add_comm (pos a) (pos b) = ground arith
add_comm (pos a) (negsuc b) = ground arith
add_comm (negsuc a) (pos b) = ground arith
add_comm (negsuc a) (negsuc b) = ground arith

pub add_assoc : (x y z : ℤ) → (x +ℤ y) +ℤ z ≡ x +ℤ (y +ℤ z)
add_assoc x y z = ap (λ w. w +ℤ z) (add_comm x y) ∙ add_swap y x z ∙ add_comm (y +ℤ z) x

abbrev pub int_lt : ℤ → ℤ → Bool
int_lt (pos a) (pos b) = ltb a b
int_lt (pos a) (negsuc b) = false
int_lt (negsuc a) (pos b) = true
int_lt (negsuc a) (negsuc b) = ltb b a

pub int_lt_irrefl : (a : ℤ) → int_lt a a ≡ false
int_lt_irrefl (pos a) = ground arith
int_lt_irrefl (negsuc a) = ground arith

pub int_lt_asymm : (a b : ℤ) → int_lt a b ≡ true → int_lt b a ≡ false
int_lt_asymm (pos a) (pos b) h = ground arith
int_lt_asymm (pos a) (negsuc b) h = ground arith
int_lt_asymm (negsuc a) (pos b) h = refl
int_lt_asymm (negsuc a) (negsuc b) h = ground arith

-- What is not below what is not below: the order is total.
pub int_lt_neg_trans : (a b c : ℤ) → int_lt a b ≡ false → int_lt b c ≡ false → int_lt a c ≡ false
int_lt_neg_trans (pos a) (pos b) (pos c) h k = ground arith
int_lt_neg_trans (pos a) (negsuc b) (pos c) h k = ground arith
int_lt_neg_trans (pos a) b (negsuc c) h k = refl
int_lt_neg_trans (negsuc a) (pos b) c h k = ground arith
int_lt_neg_trans (negsuc a) (negsuc b) (pos c) h k = ground arith
int_lt_neg_trans (negsuc a) (negsuc b) (negsuc c) h k = ground arith

pub int_lt_sub : (a b c : ℕ) → int_lt (sub_ℕ a b) (sub_ℕ a c) ≡ ltb c b
unfolding sub_ℕ
int_lt_sub a b c = ground arith

-- Python's `xs < ys` on tuples of numbers.
unfoldable pub lex_lt : List ℤ → List ℤ → Bool
lex_lt [] [] = false
lex_lt [] (y ∷ ys) = true
lex_lt (x ∷ xs) [] = false
lex_lt (x ∷ xs) (y ∷ ys) =
    let rest = lex_lt xs ys in if int_lt x y then true else if int_lt y x then false else rest

pub lex_lt_irrefl : (xs : List ℤ) → lex_lt xs xs ≡ false
unfolding lex_lt
lex_lt_irrefl [] = refl
lex_lt_irrefl (x ∷ xs) = ground (arith, int_lt_irrefl x, lex_lt_irrefl xs)

pub lex_lt_asymm : (xs ys : List ℤ) → lex_lt xs ys ≡ true → lex_lt ys xs ≡ false
unfolding lex_lt
lex_lt_asymm [] [] h = refl
lex_lt_asymm [] (y ∷ ys) h = refl
lex_lt_asymm (x ∷ xs) [] h = ground arith
lex_lt_asymm (x ∷ xs) (y ∷ ys) h = ground (arith, int_lt_asymm x y, lex_lt_asymm xs ys)

pub lex_lt_neg_trans :
    (xs ys zs : List ℤ) → lex_lt xs ys ≡ false → lex_lt ys zs ≡ false → lex_lt xs zs ≡ false
unfolding lex_lt
lex_lt_neg_trans [] [] [] h k = refl
lex_lt_neg_trans [] [] (z ∷ zs) h k = ground arith
lex_lt_neg_trans [] (y ∷ ys) zs h k = ground arith
lex_lt_neg_trans (x ∷ xs) ys [] h k = refl
lex_lt_neg_trans (x ∷ xs) [] (z ∷ zs) h k = ground arith
lex_lt_neg_trans (x ∷ xs) (y ∷ ys) (z ∷ zs) h k = ground (
  arith,
  int_lt_neg_trans x y z,
  int_lt_neg_trans y z x,
  int_lt_neg_trans z x y,
  int_lt_neg_trans z y x,
  int_lt_neg_trans y x z,
  int_lt_neg_trans x z y,
  lex_lt_neg_trans xs ys zs,
)
