-- ===== src/Prelude/Assoc.antt =====
-- Association lists over texts: std::map and std::unordered_map with string keys.
use Prim.Native.String.{String, compare}
use mathlib.Core.Path.{◌≡◌, refl}
use mathlib.Core.Bool.{true}
use mathlib.Core.Logic.{inl, inr}
use Prim.Native.Nat.{suc}
use mathlib.Core.List.{List, [], ◌∷◌}
use mathlib.Core.Option.{Option, none, some}
use native.Mathlib.Omega.{arith}
use text.Mathlib.Text.{◌==◌, is_lt}
use text.Mathlib.TextEquality.{eq_iff}
use celte_system.Prelude.Tests.{if◌then◌else◌, is_some, Bool-cases}
use celte_system.Prelude.Lists.{
  length, contains, remove, contains-remove, IsDistinct, remove-IsDistinct,
}

abbrev pub Assoc : Type 0 → Type 0
Assoc V = List (String × V)

module _ {V : Type 0} where
  unfoldable pub find : Assoc V → String → Option V
  find [] k = none
  find ((j, v) ∷ m) k = if j == k then some v else find m k

  -- m[k] = v, in place where the key is there.
  unfoldable pub put : Assoc V → String → V → Assoc V
  put [] k v = (k, v) ∷ []
  put ((j, w) ∷ m) k v = let rest = put m k v in if j == k then (k, v) ∷ m else (j, w) ∷ rest

  -- std::map::insert: a key that is there keeps its value, and the keys are sorted.
  unfoldable pub insert : Assoc V → String → V → Assoc V
  insert [] k v = (k, v) ∷ []
  insert ((j, w) ∷ m) k v =
      let rest = insert m k v in
      if j == k
      then (j, w) ∷ m
      else if is_lt (compare k j)
      then (k, v) ∷ (j, w) ∷ m
      else (j, w) ∷ rest

  unfoldable pub erase : Assoc V → String → Assoc V
  erase [] k = []
  erase ((j, w) ∷ m) k = let rest = erase m k in if j == k then rest else (j, w) ∷ rest

  -- Each key once.
  unfoldable pub keys : Assoc V → List String
  unfolding remove
  keys [] = []
  keys ((j, w) ∷ m) = j ∷ remove j (keys m)

  pub find-put :
      (m : Assoc V) (k j : String) (v : V)
      → find (put m k v) j ≡ (if k == j then some v else find m j)
  unfolding find put
  find-put [] k j v = refl
  find-put ((i, w) ∷ m) k j v = ground (arith, eq_iff k j, eq_iff i k, eq_iff i j, find-put m k j v)

  pub find-erase :
      (m : Assoc V) (k j : String) → find (erase m k) j ≡ (if k == j then none else find m j)
  unfolding find erase
  find-erase [] k j = ground arith
  find-erase ((i, w) ∷ m) k j = ground (arith, eq_iff k j, eq_iff i k, eq_iff i j, find-erase m k j)

  pub contains-keys : (m : Assoc V) (k : String) → contains k (keys m) ≡ is_some (find m k)
  unfolding find keys contains
  contains-keys [] k = refl
  contains-keys ((j, w) ∷ m) k =
      ground (arith, eq_iff j k, contains-keys m k, contains-remove j k (keys m))

module _ {V : Type 0} where
  pub keys-IsDistinct : (m : Assoc V) → IsDistinct (keys m)
  unfolding keys
  keys-IsDistinct [] = tt
  keys-IsDistinct ((j, w) ∷ m) = ground (
    arith,
    keys-IsDistinct m,
    remove-IsDistinct j (keys m),
    contains-remove j j (keys m),
    eq_iff j j,
  )

  -- To write a key that is there leaves the keys and their order alone.
  pub keys-put_present :
      (m : Assoc V) (k : String) (v : V) → is_some (find m k) ≡ true → keys (put m k v) ≡ keys m
  unfolding find keys put
  keys-put_present [] k v h = cc
  keys-put_present ((j, w) ∷ m) k v h = ground (arith, eq_iff j k, keys-put_present m k v)

  pub find-nil : (k : String) → find {V = V} [] k ≡ none
  unfolding find
  find-nil k = refl

  pub find-insert :
      (m : Assoc V) (k j : String) (v : V)
      → find m k ≡ none
      → find (insert m k v) j ≡ (if k == j then some v else find m j)
  unfolding find insert
  find-insert [] k j v fresh = ground (arith, eq_iff k j)
  find-insert ((i, w) ∷ m) k j v fresh = elim (Bool-cases (is_lt (compare k i))) [
    | inl before ↦ ground (arith, eq_iff k j, eq_iff i k, eq_iff i j, find-insert m k j v)
    | inr after ↦ ground (arith, eq_iff k j, eq_iff i k, eq_iff i j, find-insert m k j v)
  ]

  pub length-insert :
      (m : Assoc V) (k : String) (v : V) → find m k ≡ none → length (insert m k v) ≡ suc (length m)
  unfolding find insert
  length-insert [] k v fresh = refl
  length-insert ((j, w) ∷ m) k v fresh = elim (Bool-cases (is_lt (compare k j))) [
    | inl before ↦ ground (arith, eq_iff j k, length-insert m k v)
    | inr after ↦ ground (arith, eq_iff j k, length-insert m k v)
  ]
