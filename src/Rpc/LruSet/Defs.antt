-- ===== src/Rpc/LruSet/Defs.antt =====
-- LRUSet and UniqueTaskManager of system/include/CRPC.hpp: the set of request ids that were seen,
-- which bounds how often a request is run. An iterator of the list is the number of its node, and
-- `none` stands for the undefined behaviour of back() on an empty list.

use celte_system.Prelude.{
  ℕ, suc, Bool, true, false, String, List, [], ◌∷◌, Option, none, some, length, leb, eqb,
  if◌then◌else◌, is_some,
}
use celte_system.Prelude.HashMap.{HashMap, Map, empty, find, put, erase}

pub record Node : Type 0 where
  pub iter : ℕ
  pub key : String

-- _cacheList.erase(it)
unfoldable pub erase_node : ℕ → List Node → List Node
erase_node it [] = []
erase_node it (n ∷ ns) = if eqb n.iter it then ns else n ∷ erase_node it ns

-- back() and pop_back()
unfoldable pub pop_back : List Node → Option (Node × List Node)
pop_back [] = none
pop_back (n ∷ []) = some (n, [])
pop_back (n ∷ m ∷ ns) = elim (pop_back (m ∷ ns)) [
  | none ↦ none
  | some (l, rest) ↦ some (l, n ∷ rest)
]

module _ ⦃h : HashMap⦄ where
  pub record LruSet : Type 0 where
    pub capacity : ℕ
    pub cache_list : List Node
    pub cache_map : Map ℕ
    pub next_iter : ℕ

  unfoldable pub init : ℕ → LruSet
  init capacity = record {
    capacity = capacity;
    cache_list = [];
    cache_map = empty ℕ;
    next_iter = 0;
  }

  -- push_front(key), and the accessor set to begin()
  abbrev pub push_front : LruSet → String → LruSet
  push_front s key = record s {
    cache_list = record { iter = s.next_iter; key = key } ∷ s.cache_list;
    cache_map = put s.cache_map key s.next_iter;
    next_iter = suc s.next_iter;
  }

  -- Removes the least recently used key.
  unfoldable pub evict : LruSet → Option LruSet
  evict s = elim (pop_back s.cache_list) [
    | none ↦ none
    | some (lru, rest) ↦
        some (record s { cache_list = rest; cache_map = erase s.cache_map lru.key })
  ]

  unfoldable pub make_room : LruSet → Option LruSet
  make_room s = if leb s.capacity (length s.cache_list) then evict s else some s

  unfoldable pub add : LruSet → String → Option LruSet
  add s key = elim (find s.cache_map key) [
    | some it ↦ some (push_front (record s { cache_list = erase_node it s.cache_list }) key)
    | none ↦ elim (make_room s) [ none ↦ none | some t ↦ some (push_front t key) ]
  ]

  unfoldable pub has : LruSet → String → Bool
  has s key = is_some (find s.cache_map key)

  -- UniqueTaskManager::run: the task acts on a state of type S, and `none` is undefined behaviour.
  unfoldable pub run {ℓ} : {S : Type ℓ} → LruSet → String → (S → S) → S → Option (LruSet × S × Bool)
  run s task_id task st =
      if has s task_id
      then some (s, st, false)
      else elim (add s task_id) [ none ↦ none | some t ↦ some (t, task st, true) ]
