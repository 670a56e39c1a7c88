-- ===== src/Responder/Bisect/Correct.antt =====
-- On a sorted list the binary search finds the place behind the elements that are not greater.
use trishul_snmp.Prelude.{
  ℕ, zero, suc, ◌+◌, ◌-◌, ◌/◌, ◌≤◌, ◌<◌, ◌≡◌, refl, ap, arith, List, [], ◌∷◌, ◌++◌, true, ltb, leb,
  seq_lt, length, get_elem?, Bool-cases, inl, inr, take, drop,
}
use trishul_snmp.Types.{Oid}
use trishul_snmp.Responder.Bisect.{is_below, bisect_loop, bisect_right, insort}
use trishul_snmp.Responder.Bisect.Sorted.{
  Above, IsSorted, count_le, Above-trans, insert_sorted, next_above,
}

Above-get_elem? :
    (x : Oid) (ys : List Oid) (i : ℕ)
    → Above x ys
    → i < length ys
    → is_below x (get_elem? ys i) ≡ true
unfolding is_below
Above-get_elem? x [] i h l = absurd (omega arith)
Above-get_elem? x (y ∷ ys) zero h l = h.0
Above-get_elem? x (y ∷ ys) (suc i) h l = Above-get_elem? x ys i h.1 (omega arith)

-- At an index below the count stands an element that is not greater; from it on, greater ones.
is_below-count_le :
    (xs : List Oid) (x : Oid) (i : ℕ)
    → IsSorted xs
    → i < length xs
    → is_below x (get_elem? xs i) ≡ leb (count_le x xs) i
unfolding count_le is_below
is_below-count_le [] x i s h = absurd (omega arith)
is_below-count_le (y ∷ ys) x zero s h = ground arith
is_below-count_le (y ∷ ys) x (suc i) s h = elim (Bool-cases (seq_lt x y)) [
  | inl less ↦
      rw less (ground (arith, Above-get_elem? x ys i (Above-trans x y ys less s.0) (omega arith)))
  | inr e ↦ rw e (ground (arith, is_below-count_le ys x i s.1))
]

pub count_le-le : (x : Oid) (xs : List Oid) → count_le x xs ≤ length xs
unfolding count_le
count_le-le x [] = omega arith
count_le-le x (y ∷ ys) = ground (arith, count_le-le x ys)

bisect_loop-count_le :
    (fuel : ℕ) (a : List Oid) (x : Oid) (lo hi : ℕ)
    → IsSorted a
    → hi ≤ length a
    → lo ≤ count_le x a
    → count_le x a ≤ hi
    → hi - lo ≤ fuel
    → bisect_loop fuel a x lo hi ≡ count_le x a
unfolding bisect_loop
bisect_loop-count_le zero a x lo hi s h l u f = omega arith
bisect_loop-count_le (suc fuel) a x lo hi s h l u f = elim (Bool-cases (ltb lo hi)) [
  | inl more ↦
      rw (more, is_below-count_le a x ((lo + hi) / 2) s (ground arith))
        (ground (
          arith,
          bisect_loop-count_le fuel a x lo ((lo + hi) / 2) s (ground arith) l,
          bisect_loop-count_le fuel a x ((lo + hi) / 2 + 1) hi s h,
        ))
  | inr done ↦ rw done (ground arith)
]

-- On a sorted list the binary search returns the number of elements that are not greater.
pub bisect_right-count_le : (a : List Oid) (x : Oid) → IsSorted a → bisect_right a x ≡ count_le x a
unfolding bisect_right
bisect_right-count_le a x s =
    bisect_loop-count_le (length a) a x 0 (length a) s (omega arith) (omega arith) (count_le-le x a)
      (omega arith)

split-insert_sorted :
    (x : Oid) (l : List Oid)
    → take (count_le x l) l ++ (x ∷ drop (count_le x l) l) ≡ insert_sorted x l
unfolding insert_sorted count_le
split-insert_sorted x [] = refl
split-insert_sorted x (y ∷ ys) = elim (Bool-cases (seq_lt x y)) [
  | inl less ↦ rw less refl
  | inr e ↦ rw e (ap (◌∷◌ y) (split-insert_sorted x ys))
]

pub insort-insert_sorted : (l : List Oid) (x : Oid) → IsSorted l → insort l x ≡ insert_sorted x l
unfolding insort
insort-insert_sorted l x s = rw (bisect_right-count_le l x s) (split-insert_sorted x l)

pub get_elem?-count_le : (x : Oid) (l : List Oid) → get_elem? l (count_le x l) ≡ next_above x l
unfolding count_le next_above
get_elem?-count_le x [] = refl
get_elem?-count_le x (y ∷ ys) = ground (arith, get_elem?-count_le x ys)
