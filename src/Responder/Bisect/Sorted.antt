-- ===== src/Responder/Bisect/Sorted.antt =====
-- Strictly ascending lists of object identifiers: insertion, removal and the next element.
use trishul_snmp.Prelude.{
  ℕ, suc, ◌≡◌, refl, arith, List, [], ◌∷◌, Bool, true, false, Option, none, some, seq_lt, seq_eq,
  seq_eq_iff, seq_lt_total, if◌then◌else◌, Bool-cases, inl, inr, seq_lt_trans, seq_lt_asymm,
  seq_lt_irrefl, All,
}
use trishul_snmp.Types.{Oid}
use trishul_snmp.Responder.Bisect.{remove_first}

-- Strictly ascending.
abbrev pub Above : Oid → List Oid → Type 0
Above x = All (λ y. seq_lt x y ≡ true)

abbrev pub IsSorted : List Oid → Type 0
IsSorted [] = Unit {0}
IsSorted (x ∷ xs) = Above x xs × IsSorted xs

-- The number of elements, from the front, that are not greater than `x`.
unfoldable pub count_le : Oid → List Oid → ℕ
count_le x [] = 0
count_le x (y ∷ ys) = let rest = count_le x ys in if seq_lt x y then 0 else suc rest

pub Above-trans : (x y : Oid) (zs : List Oid) → seq_lt x y ≡ true → Above y zs → Above x zs
Above-trans x y [] h k = tt
Above-trans x y (z ∷ zs) h k = (seq_lt_trans x y z h k.0, Above-trans x y zs h k.1)

-- The same place by recursion.
unfoldable pub insert_sorted : Oid → List Oid → List Oid
insert_sorted x [] = x ∷ []
insert_sorted x (y ∷ ys) =
    let rest = insert_sorted x ys in if seq_lt x y then x ∷ y ∷ ys else y ∷ rest

unfoldable pub member : Oid → List Oid → Bool
member x [] = false
member x (y ∷ ys) = let rest = member x ys in if seq_eq x y then true else rest

Above-insert_sorted :
    (a x : Oid) (l : List Oid) → seq_lt a x ≡ true → Above a l → Above a (insert_sorted x l)
unfolding insert_sorted
Above-insert_sorted a x [] h k = (h, tt)
Above-insert_sorted a x (y ∷ ys) h k = elim (Bool-cases (seq_lt x y)) [
  | inl less ↦ rw less (h, k)
  | inr e ↦ rw e (k.0, Above-insert_sorted a x ys h k.1)
]

-- A new element goes to its place, and the list stays strictly ascending.
pub insert_sorted-IsSorted :
    (x : Oid) (l : List Oid) → IsSorted l → member x l ≡ false → IsSorted (insert_sorted x l)
unfolding insert_sorted member
insert_sorted-IsSorted x [] s new = (tt, tt)
insert_sorted-IsSorted x (y ∷ ys) s new = elim (Bool-cases (seq_lt x y)) [
  | inl less ↦ rw less ((less, Above-trans x y ys less s.0), s)
  | inr e ↦ elim (Bool-cases (seq_eq x y)) [
    | inl same ↦ absurd (cc (rw same at new))
    | inr other ↦ elim (Bool-cases (seq_lt y x)) [
      | inl more ↦
          rw e
            (Above-insert_sorted y x ys more s.0, insert_sorted-IsSorted x ys s.1 (rw other at new))
      | inr f ↦ absurd (cc ((seq_eq_iff x y).1 (seq_lt_total x y e f)))
    ]
  ]
]

pub member-insert_sorted :
    (o x : Oid) (l : List Oid)
    → member o (insert_sorted x l) ≡ (if seq_eq o x then true else member o l)
unfolding insert_sorted member
member-insert_sorted o x [] = refl
member-insert_sorted o x (y ∷ ys) = ground (arith, member-insert_sorted o x ys)

Above-member :
    (x : Oid) (l : List Oid) → Above x l → (o : Oid) → member o l ≡ true → seq_lt x o ≡ true
unfolding member
Above-member x [] h o m = cc
Above-member x (y ∷ ys) h o m = ground (arith, seq_eq_iff o y, Above-member x ys h.1 o)

pub member-remove_first :
    (o x : Oid) (l : List Oid)
    → IsSorted l
    → member o (remove_first x l) ≡ (if seq_eq o x then false else member o l)
unfolding remove_first member
member-remove_first o x [] s = ground arith
member-remove_first o x (y ∷ ys) s = ground (
  arith,
  seq_eq_iff o x,
  seq_eq_iff x y,
  seq_eq_iff o y,
  Above-member y ys s.0 o,
  seq_lt_irrefl o,
  member-remove_first o x ys s.1,
)

Above-remove_first : (a x : Oid) (l : List Oid) → Above a l → Above a (remove_first x l)
unfolding remove_first
Above-remove_first a x [] h = tt
Above-remove_first a x (y ∷ ys) h = elim (Bool-cases (seq_eq x y)) [
  | inl same ↦ rw same h.1
  | inr other ↦ rw other (h.0, Above-remove_first a x ys h.1)
]

pub remove_first-IsSorted : (x : Oid) (l : List Oid) → IsSorted l → IsSorted (remove_first x l)
unfolding remove_first
remove_first-IsSorted x [] s = tt
remove_first-IsSorted x (y ∷ ys) s = elim (Bool-cases (seq_eq x y)) [
  | inl same ↦ rw same s.1
  | inr other ↦ rw other (Above-remove_first y x ys s.0, remove_first-IsSorted x ys s.1)
]

-- The first element that is greater.
unfoldable pub next_above : Oid → List Oid → Option Oid
next_above x [] = none
next_above x (y ∷ ys) = let rest = next_above x ys in if seq_lt x y then some y else rest

-- `y` is the least element of `l` above `x`.
pub record IsNext (x : Oid) (l : List Oid) (y : Oid) : Type 0 where
  pub above : seq_lt x y ≡ true
  pub listed : member y l ≡ true
  pub least : (p : Oid) → member p l ≡ true → seq_lt x p ≡ true → seq_lt p y ≡ false

pub next_above-IsNext :
    (x : Oid) (l : List Oid) (y : Oid) → IsSorted l → next_above x l ≡ some y → IsNext x l y
unfolding next_above member
next_above-IsNext x [] y s h = cc
next_above-IsNext x (z ∷ zs) y s h = elim (Bool-cases (seq_lt x z)) [
  | inl less ↦
      let e : some z ≡ some y = rw less at h in
      record {
        above = ground arith;
        listed = ground (arith, seq_eq_iff y z);
        least = λ p m k.
            ground
              (arith, seq_eq_iff p z, Above-member z zs s.0 p, seq_lt_irrefl p, seq_lt_asymm z p);
      }
  | inr e ↦
      let rest = next_above-IsNext x zs y s.1 (rw e at h) in
      record {
        above = rest.above;
        listed = ground (arith, rest.listed);
        least = λ p m k. ground (arith, seq_eq_iff p z, rest.least p);
      }
]

pub next_above-none :
    (x : Oid) (l : List Oid)
    → next_above x l ≡ none
    → (p : Oid) → member p l ≡ true
    → seq_lt x p ≡ false
unfolding next_above member
next_above-none x [] h p m = cc
next_above-none x (y ∷ ys) h p m = elim (Bool-cases (seq_lt x y)) [
  | inl less ↦ absurd (cc (rw less at h))
  | inr e ↦ let rest = next_above-none x ys (rw e at h) p in ground (arith, seq_eq_iff p y, e, rest)
]
