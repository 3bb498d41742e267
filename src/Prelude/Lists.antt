-- ===== src/Prelude/Lists.antt =====
-- Lists measured by native numbers, and lists of texts read as sets.
use Prim.Native.Nat.{ℕ, zero, suc, ◌+◌, ◌≤◌, ◌<◌}
use Prim.Native.String.{String}
use mathlib.Core.Path.{◌≡◌, refl}
use mathlib.Core.Bool.{Bool, true, false, ◌||◌}
use mathlib.Core.List.{List, [], ◌∷◌, ◌++◌}
use native.Mathlib.Omega.{arith}
use text.Mathlib.Text.{◌==◌}
use text.Mathlib.TextEquality.{eq_iff}
use celte_system.Prelude.Tests.{if◌then◌else◌}

module _ {ℓ} {A : Type ℓ} where
  abbrev pub length : List A → ℕ
  length [] = 0
  length (x ∷ xs) = suc (length xs)

  pub length-append : (xs ys : List A) → length (xs ++ ys) ≡ length xs + length ys
  length-append [] ys = omega arith
  length-append (x ∷ xs) ys = omega (arith, length-append xs ys)

  abbrev pub take : ℕ → List A → List A
  take zero xs = []
  take (suc n) [] = []
  take (suc n) (x ∷ xs) = x ∷ take n xs

  pub length-take-le : (n : ℕ) (xs : List A) → length (take n xs) ≤ n
  length-take-le zero xs = omega arith
  length-take-le (suc n) [] = omega arith
  length-take-le (suc n) (x ∷ xs) = omega (arith, length-take-le n xs)

  pub take_of_length-le : (n : ℕ) (xs : List A) → length xs ≤ n → take n xs ≡ xs
  take_of_length-le zero [] h = refl
  take_of_length-le zero (x ∷ xs) h = absurd (omega arith)
  take_of_length-le (suc n) [] h = refl
  take_of_length-le (suc n) (x ∷ xs) h = ground (arith, take_of_length-le n xs)

-- A std::set of texts is a list that is tested for membership.
unfoldable pub contains : String → List String → Bool
contains k [] = false
contains k (x ∷ xs) = x == k || contains k xs

unfoldable pub insert : String → List String → List String
insert k xs = if contains k xs then xs else k ∷ xs

unfoldable pub remove : String → List String → List String
remove k [] = []
remove k (x ∷ xs) = let rest = remove k xs in if x == k then rest else x ∷ rest

pub contains-remove :
    (k j : String) (xs : List String)
    → contains j (remove k xs) ≡ (if k == j then false else contains j xs)
unfolding contains remove
contains-remove k j [] = ground arith
contains-remove k j (x ∷ xs) =
    ground (arith, contains-remove k j xs, eq_iff x k, eq_iff x j, eq_iff k j)

pub contains-insert :
    (k j : String) (xs : List String)
    → contains j (insert k xs) ≡ (if k == j then true else contains j xs)
unfolding insert contains
contains-insert k j xs = ground (arith, eq_iff k j)

pub contains-append :
    (k : String) (xs ys : List String) → contains k (xs ++ ys) ≡ (contains k xs || contains k ys)
unfolding contains
contains-append k [] ys = refl
contains-append k (x ∷ xs) ys = ground (arith, contains-append k xs ys)

-- No text stands twice.
abbrev pub IsDistinct : List String → Type 0
IsDistinct [] = Unit
IsDistinct (x ∷ xs) = (contains x xs ≡ false) × IsDistinct xs

pub remove-IsDistinct : (k : String) (xs : List String) → IsDistinct xs → IsDistinct (remove k xs)
unfolding remove contains
remove-IsDistinct k [] d = tt
remove-IsDistinct k (x ∷ xs) d =
    ground (arith, remove-IsDistinct k xs d.1, contains-remove k x xs, eq_iff k x, eq_iff x k)

pub remove_absent : (k : String) (xs : List String) → contains k xs ≡ false → remove k xs ≡ xs
unfolding remove contains
remove_absent k [] h = refl
remove_absent k (x ∷ xs) h = ground (arith, remove_absent k xs)

pub length-remove-le : (k : String) (xs : List String) → length (remove k xs) ≤ length xs
unfolding remove
length-remove-le k [] = omega arith
length-remove-le k (x ∷ xs) = ground (arith, length-remove-le k xs)

-- To remove what is there makes a list shorter.
pub length-remove-lt :
    (k : String) (xs : List String) → contains k xs ≡ true → length (remove k xs) < length xs
unfolding remove contains
length-remove-lt k [] h = cc
length-remove-lt k (x ∷ xs) h = ground (arith, length-remove-le k xs, length-remove-lt k xs)

pub contains-take :
    (k : String) (n : ℕ) (xs : List String) → contains k xs ≡ false → contains k (take n xs) ≡ false
unfolding contains
contains-take k zero xs h = refl
contains-take k (suc n) [] h = refl
contains-take k (suc n) (x ∷ xs) h = ground (arith, contains-take k n xs)
