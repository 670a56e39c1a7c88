-- ===== src/Prelude/Sequences.antt =====
-- Python's `==` and `<` on tuples of numbers and on texts: the lexicographic order.
use Prim.Native.Nat.{ℕ}
use mathlib.Core.Path.{◌≡◌, refl, subst}
use mathlib.Core.Logic.{◌↔◌, inl, inr}
use mathlib.Core.Bool.{Bool, true, false}
use mathlib.Core.List.{List, [], ◌∷◌}
use native.Mathlib.Omega.{arith}
use trishul_snmp.Prelude.Tests.{ltb, ◌==◌, if◌then◌else◌, Bool-cases}

unfoldable pub seq_eq : List ℕ → List ℕ → Bool
seq_eq [] [] = true
seq_eq (a ∷ as') (b ∷ bs) = let rest = seq_eq as' bs in if a == b then rest else false
seq_eq _ _ = false

unfoldable pub seq_lt : List ℕ → List ℕ → Bool
seq_lt [] [] = false
seq_lt [] (b ∷ bs) = true
seq_lt (a ∷ as') [] = false
seq_lt (a ∷ as') (b ∷ bs) =
    let rest = seq_lt as' bs in if ltb a b then true else if a == b then rest else false

pub seq_eq_iff : (a b : List ℕ) → (seq_eq a b ≡ true) ↔ (a ≡ b)
unfolding seq_eq
seq_eq_iff [] [] = ground arith
seq_eq_iff [] (y ∷ b) = ground arith
seq_eq_iff (x ∷ a) [] = ground arith
seq_eq_iff (x ∷ a) (y ∷ b) = ground (arith, seq_eq_iff a b)

pub seq_eq_self : (a : List ℕ) → seq_eq a a ≡ true
seq_eq_self a = (seq_eq_iff a a).1 refl

pub seq_lt_irrefl : (a : List ℕ) → seq_lt a a ≡ false
unfolding seq_lt
seq_lt_irrefl [] = refl
seq_lt_irrefl (x ∷ a) = ground (arith, seq_lt_irrefl a)

pub seq_lt_trans : (a b c : List ℕ) → seq_lt a b ≡ true → seq_lt b c ≡ true → seq_lt a c ≡ true
unfolding seq_lt
seq_lt_trans [] [] c h k = cc
seq_lt_trans [] (y ∷ b) [] h k = cc
seq_lt_trans [] (y ∷ b) (z ∷ c) h k = refl
seq_lt_trans (x ∷ a) [] c h k = cc
seq_lt_trans (x ∷ a) (y ∷ b) [] h k = cc
seq_lt_trans (x ∷ a) (y ∷ b) (z ∷ c) h k = ground (arith, seq_lt_trans a b c)

-- Of two sequences neither of which is less than the other, both are one.
pub seq_lt_total : (a b : List ℕ) → seq_lt a b ≡ false → seq_lt b a ≡ false → a ≡ b
unfolding seq_lt
seq_lt_total [] [] h k = refl
seq_lt_total [] (y ∷ b) h k = cc
seq_lt_total (x ∷ a) [] h k = cc
seq_lt_total (x ∷ a) (y ∷ b) h k = ground (arith, seq_lt_total a b)

pub seq_lt_asymm : (a b : List ℕ) → seq_lt a b ≡ true → seq_lt b a ≡ false
unfolding seq_lt
seq_lt_asymm [] [] h = cc
seq_lt_asymm [] (y ∷ b) h = refl
seq_lt_asymm (x ∷ a) [] h = cc
seq_lt_asymm (x ∷ a) (y ∷ b) h = ground (arith, seq_lt_asymm a b)

-- a ≤ b < c
pub seq_le_lt_trans : (a b c : List ℕ) → seq_lt b a ≡ false → seq_lt b c ≡ true → seq_lt a c ≡ true
seq_le_lt_trans a b c h k = elim (Bool-cases (seq_lt a b)) [
  | inl less ↦ seq_lt_trans a b c less k
  | inr e ↦ subst (λ t. seq_lt t c ≡ true) (seq_lt_total b a h e) k
]
