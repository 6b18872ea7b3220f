-- ===== src/Prelude/Slice.antt =====
-- A run of a list: `n` elements from position `o` on.
use Prim.Native.Nat.{ℕ, zero, suc, ◌+◌, ◌-◌, ◌≤◌}
use mathlib.Core.Path.{◌≡◌, refl, sym, ap}
use mathlib.Core.List.{List, [], ◌∷◌, ◌++◌}
use native.Mathlib.Omega.{arith}
use passive_solar_mqtt_bridg.Prelude.Lists.{
  length, take, drop, length-take, length-drop, drop-drop, suc_add, take-all,
}

zero_sub : (k : ℕ) → 0 - suc k ≡ 0
zero_sub k = omega arith

suc_sub_suc : (n k : ℕ) → suc n - suc k ≡ n - k
suc_sub_suc n k = omega arith

module _ {ℓ} {A : Type ℓ} where
  unfoldable pub slice : ℕ → ℕ → List A → List A
  slice o n xs = take n (drop o xs)

  take-nil : (n : ℕ) → take {A = A} n [] ≡ []
  take-nil zero = refl
  take-nil (suc n) = refl

  pub take-add : (m n : ℕ) (xs : List A) → take (m + n) xs ≡ take m xs ++ take n (drop m xs)
  take-add zero n xs = ap (λ (k : ℕ). take k xs) (omega arith)
  take-add (suc m) n [] = rw (take-nil n, take-nil (suc m + n))
  take-add (suc m) n (x ∷ xs) = rw (suc_add m n) (ap (λ (t : List A). x ∷ t) (take-add m n xs))

  pub drop-take : (k n : ℕ) (xs : List A) → drop k (take n xs) ≡ take (n - k) (drop k xs)
  drop-take zero n xs = ap (λ (i : ℕ). take i xs) (omega arith)
  drop-take (suc k) zero xs = sym (rw (zero_sub k))
  drop-take (suc k) (suc n) [] = sym (take-nil (suc n - suc k))
  drop-take (suc k) (suc n) (x ∷ xs) = rw (suc_sub_suc n k) (drop-take k n xs)

  pub length-slice : (o n : ℕ) (xs : List A) → o + n ≤ length xs → length (slice o n xs) ≡ n
  unfolding slice
  length-slice o n xs h = omega (arith, length-take n (drop o xs), length-drop o xs)

  -- Two runs that meet are one run.
  pub slice-append :
      (o m n : ℕ) (xs : List A) → slice o m xs ++ slice (o + m) n xs ≡ slice o (m + n) xs
  unfolding slice
  slice-append o m n xs = rw (take-add m n (drop o xs), drop-drop m o xs)

  pub drop-slice : (k o n : ℕ) (xs : List A) → drop k (slice o n xs) ≡ slice (o + k) (n - k) xs
  unfolding slice
  drop-slice k o n xs = rw (drop-take k n (drop o xs), drop-drop k o xs)

  pub slice-all : (xs : List A) → slice 0 (length xs) xs ≡ xs
  unfolding slice
  slice-all xs = take-all xs
