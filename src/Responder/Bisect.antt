-- ===== src/Responder/Bisect.antt =====
-- The standard library's `bisect_right` and `insort` on lists of object identifiers.
pub mod Sorted
pub mod Correct
use trishul_snmp.Prelude.{
  ℕ, zero, suc, ◌+◌, ◌/◌, List, [], ◌∷◌, ◌++◌, Bool, true, false, Option, none, some, ltb, seq_eq,
  seq_lt, if◌then◌else◌, length, take, drop, get_elem?,
}
use trishul_snmp.Types.{Oid}

-- `x < a[mid]`; the index is in range whenever the loop tests it.
unfoldable pub is_below : Oid → Option Oid → Bool
is_below x none = false
is_below x (some y) = seq_lt x y

-- `while lo < hi`: the distance at least halves, so as many rounds as there are elements are enough.
unfoldable pub bisect_loop : ℕ → List Oid → Oid → ℕ → ℕ → ℕ
unfolding is_below
bisect_loop zero a x lo hi = lo
bisect_loop (suc fuel) a x lo hi =
    let mid = (lo + hi) / 2 in
    let left = bisect_loop fuel a x lo mid in
    let right = bisect_loop fuel a x (mid + 1) hi in
    if ltb lo hi then (if is_below x (get_elem? a mid) then left else right) else lo

unfoldable pub bisect_right : List Oid → Oid → ℕ
unfolding bisect_loop
bisect_right a x = bisect_loop (length a) a x 0 (length a)

-- `a.insert(bisect_right(a, x), x)`
unfoldable pub insort : List Oid → Oid → List Oid
unfolding bisect_right
insort a x = let i = bisect_right a x in take i a ++ (x ∷ drop i a)

-- `a.remove(x)`: without the first occurrence.
unfoldable pub remove_first : Oid → List Oid → List Oid
remove_first x [] = []
remove_first x (y ∷ ys) = let rest = remove_first x ys in if seq_eq x y then ys else y ∷ rest
