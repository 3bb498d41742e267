-- ===== src/Prelude/HashMap.antt =====
-- The interface of tbb::concurrent_hash_map with text keys, as far as the registries rely on it.
-- An accessor holds the lock of its element, so each use of one is an atomic step on a finite map:
-- `find` reads through an accessor, `put` inserts or writes through one, `erase` removes, and
-- `keys` is an iteration from begin to end.
use Prim.Native.String.{String}
use mathlib.Core.Path.{◌≡◌}
use mathlib.Core.Bool.{true}
use mathlib.Core.List.{List, []}
use mathlib.Core.Option.{Option, none, some}
use text.Mathlib.Text.{◌==◌}
use celte_system.Prelude.Tests.{if◌then◌else◌, is_some}
use celte_system.Prelude.Lists.{contains, IsDistinct}
use celte_system.Prelude.Assoc
use celte_system.Prelude.Assoc.{Assoc}

pub record HashMap : Type 1 where
  pub Map : Type 0 → Type 0
  pub empty : (V : Type 0) → Map V
  pub find : {V : Type 0} → Map V → String → Option V
  pub put : {V : Type 0} → Map V → String → V → Map V
  pub erase : {V : Type 0} → Map V → String → Map V
  pub keys : {V : Type 0} → Map V → List String
  pub find-empty : (V : Type 0) (k : String) → find (empty V) k ≡ none
  pub find-put :
      {V : Type 0} (m : Map V) (k j : String) (v : V)
      → find (put m k v) j ≡ (if k == j then some v else find m j)
  pub find-erase :
      {V : Type 0} (m : Map V) (k j : String)
      → find (erase m k) j ≡ (if k == j then none else find m j)
  pub contains-keys :
      {V : Type 0} (m : Map V) (k : String) → contains k (keys m) ≡ is_some (find m k)
  pub keys-IsDistinct : {V : Type 0} (m : Map V) → IsDistinct (keys m)
  pub keys-put_present :
      {V : Type 0} (m : Map V) (k : String) (v : V)
      → is_some (find m k) ≡ true
      → keys (put m k v) ≡ keys m

-- The operations and laws of the instance in scope.
module _ ⦃h : HashMap⦄ where
  abbrev pub Map : Type 0 → Type 0
  Map = h.Map

  abbrev pub empty : (V : Type 0) → Map V
  empty = h.empty

module _ ⦃h : HashMap⦄ {V : Type 0} where
  abbrev pub find : Map V → String → Option V
  find = h.find

  abbrev pub put : Map V → String → V → Map V
  put = h.put

  abbrev pub erase : Map V → String → Map V
  erase = h.erase

  abbrev pub keys : Map V → List String
  keys = h.keys

  pub find-empty : (k : String) → find (empty V) k ≡ none
  find-empty k = h.find-empty V k

  pub find-put :
      (m : Map V) (k j : String) (v : V)
      → find (put m k v) j ≡ (if k == j then some v else find m j)
  find-put = h.find-put

  pub find-erase :
      (m : Map V) (k j : String) → find (erase m k) j ≡ (if k == j then none else find m j)
  find-erase = h.find-erase

  pub contains-keys : (m : Map V) (k : String) → contains k (keys m) ≡ is_some (find m k)
  contains-keys = h.contains-keys

  pub keys-IsDistinct : (m : Map V) → IsDistinct (keys m)
  keys-IsDistinct = h.keys-IsDistinct

  pub keys-put_present :
      (m : Map V) (k : String) (v : V) → is_some (find m k) ≡ true → keys (put m k v) ≡ keys m
  keys-put_present = h.keys-put_present

-- Association lists meet the interface.
instance abbrev pub assoc_map : HashMap
assoc_map = record {
  Map = Assoc;
  empty = λ V. [];
  find = λ m. Assoc.find m;
  put = λ m. Assoc.put m;
  erase = λ m. Assoc.erase m;
  keys = λ m. Assoc.keys m;
  find-empty = λ V k. Assoc.find-nil k;
  find-put = Assoc.find-put;
  find-erase = Assoc.find-erase;
  contains-keys = Assoc.contains-keys;
  keys-IsDistinct = Assoc.keys-IsDistinct;
  keys-put_present = Assoc.keys-put_present;
}
