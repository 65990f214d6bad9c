-- ===== src/Base/Vec.antt =====
-- `Vec`: the methods of the standard library that the crate calls. An index out of range panics.
use Prim.Native.Nat.{ℕ, zero, suc, ◌≤◌}
use mathlib.Core.Path.{◌≡◌, refl}
use mathlib.Core.Bool.{Bool, true, false}
use mathlib.Core.List.{List, [], ◌∷◌, ◌++◌}
use native.Mathlib.Omega.{arith}
use indexset.Base.Lists.{length, get_elem?, take, drop}
use indexset.Base.Tests.{if◌then◌else◌}
use indexset.Base.Outcome.{Run, ok, fault, panic, ◌>>=◌, unwrap}

module _ {ℓ} {A : Type ℓ} where
  -- `v[i]`
  abbrev pub index : List A → ℕ → Run A
  index xs i = unwrap (get_elem? xs i)

  -- `v[i] = x`
  abbrev pub assign : List A → ℕ → A → Run (List A)
  assign [] i y = fault panic
  assign (x ∷ xs) zero y = ok (y ∷ xs)
  assign (x ∷ xs) (suc i) y = assign xs i y >>= λ r. ok (x ∷ r)

  -- `v.insert(i, x)`
  abbrev pub insert : List A → ℕ → A → Run (List A)
  insert xs zero y = ok (y ∷ xs)
  insert [] (suc i) y = fault panic
  insert (x ∷ xs) (suc i) y = insert xs i y >>= λ r. ok (x ∷ r)

  -- `v.remove(i)`
  abbrev pub remove : List A → ℕ → Run (A × List A)
  remove [] i = fault panic
  remove (x ∷ xs) zero = ok (x, xs)
  remove (x ∷ xs) (suc i) = remove xs i >>= λ r. ok (r.0, x ∷ r.1)

  -- `v.split_off(i)`: what stays, and what is split off.
  abbrev pub split_off : List A → ℕ → Run (List A × List A)
  split_off xs zero = ok ([], xs)
  split_off [] (suc i) = fault panic
  split_off (x ∷ xs) (suc i) = split_off xs i >>= λ r. ok (x ∷ r.0, r.1)

  -- `v.is_empty()`
  abbrev pub is_empty : List A → Bool
  is_empty [] = true
  is_empty (x ∷ xs) = false

  -- `v.partition_point(pred)` on a slice that `pred` partitions: the number of elements before the
  -- first that fails `pred`.
  abbrev pub partition_point : (A → Bool) → List A → ℕ
  partition_point pred [] = 0
  partition_point pred (x ∷ xs) = if pred x then suc (partition_point pred xs) else 0

  pub index_lem : (xs : List A) (y : A) (ys : List A) → index (xs ++ y ∷ ys) (length xs) ≡ ok y
  index_lem [] y ys = refl
  index_lem (x ∷ xs) y ys = index_lem xs y ys

  pub assign_lem :
      (xs : List A) (y z : A) (ys : List A)
      → assign (xs ++ y ∷ ys) (length xs) z ≡ ok (xs ++ z ∷ ys)
  assign_lem [] y z ys = refl
  assign_lem (x ∷ xs) y z ys = rw (assign_lem xs y z ys)

  pub insert_lem : (xs ys : List A) (y : A) → insert (xs ++ ys) (length xs) y ≡ ok (xs ++ y ∷ ys)
  insert_lem [] ys y = refl
  insert_lem (x ∷ xs) ys y = rw (insert_lem xs ys y)

  pub remove_lem :
      (xs : List A) (y : A) (ys : List A) → remove (xs ++ y ∷ ys) (length xs) ≡ ok (y, xs ++ ys)
  remove_lem [] y ys = refl
  remove_lem (x ∷ xs) y ys = rw (remove_lem xs y ys)

  pub split_off_lem :
      (xs : List A) (i : ℕ) → i ≤ length xs → split_off xs i ≡ ok (take i xs, drop i xs)
  split_off_lem xs zero h = refl
  split_off_lem [] (suc i) h = absurd (omega arith)
  split_off_lem (x ∷ xs) (suc i) h = rw (split_off_lem xs i (omega arith))
