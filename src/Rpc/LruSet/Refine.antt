-- ===== src/Rpc/LruSet/Refine.antt =====
-- LRUSet (system/include/CRPC.hpp) against the list of its keys, most recent first.
use celte_system.Prelude.{
  ℕ, suc, ◌≤◌, ◌<◌, ◌≡◌, refl, ap, sym, ◌∙◌, subst, true, String, List, [], ◌∷◌, none, some, arith,
  length, take, is_some, Option-cases, inl, inr, ◌==◌, eq_iff, contains, remove, contains-take, ◌-◌,
  contains-remove, IsDistinct, remove-IsDistinct, remove_absent, if◌then◌else◌, take_of_length-le,
  length-remove-lt, leb, Bool-cases, false,
}
use celte_system.Prelude.HashMap.{HashMap, find, erase, find-put, find-erase, find-empty}
use celte_system.Rpc.LruSet.Defs.{
  Node, LruSet, push_front, erase_node, pop_back, init, evict, make_room, add, has,
}
use celte_system.Rpc.LruSet.Laws.{
  node_keys, iter_of, IsBelow, contains-node_keys, length-node_keys, node_keys-erase_node,
  erase_node-IsBelow, iter_of-erase_node, pop_back-Popped,
}

module _ ⦃h : HashMap⦄ where
  -- The keys, most recently added first.
  abbrev pub key_list : LruSet → List String
  key_list s = node_keys s.cache_list

  pub record IsValid (s : LruSet) : Type 0 where
    pub links : (k : String) → find s.cache_map k ≡ iter_of k s.cache_list
    pub distinct : IsDistinct (key_list s)
    pub below : IsBelow s.next_iter s.cache_list
    pub bounded : length s.cache_list ≤ s.capacity

  pub has-key_list : (s : LruSet) (k : String) → IsValid s → has s k ≡ contains k (key_list s)
  unfolding has
  has-key_list s k v = rw (v.links k, contains-node_keys) refl

  -- A key that no node holds goes to the front; the map may still have its old iterator.
  push_front-IsValid :
      (s : LruSet) (k : String)
      → ((j : String) → (if k == j then none else find s.cache_map j) ≡ iter_of j s.cache_list)
      → contains k (key_list s) ≡ false
      → IsDistinct (key_list s)
      → IsBelow s.next_iter s.cache_list
      → length s.cache_list < s.capacity
      → IsValid (push_front s k)
  unfolding iter_of
  push_front-IsValid s k links fresh distinct below room = record {
    links = λ j. ground (arith, find-put s.cache_map k j s.next_iter, links j);
    distinct = (fresh, distinct);
    below = (omega arith, below);
    bounded = omega arith;
  }

  -- The least recently used key goes, and no other.
  evict-IsValid :
      (s : LruSet) (ns : List Node)
      → s.cache_list ≡ ns
      → IsValid s
      → 0 < length ns
      → (t : LruSet) × (evict s ≡ some t)
        × IsValid t
        × (t.capacity ≡ s.capacity)
        × (suc (length t.cache_list) ≡ length ns)
        × (key_list t ≡ take (length t.cache_list) (node_keys ns))
  unfolding evict
  evict-IsValid s [] e v pos = absurd (omega arith)
  evict-IsValid s (n ∷ ns) e v pos =
      let below : IsBelow s.next_iter (n ∷ ns) = subst (IsBelow s.next_iter) e v.below in
      let distinct : IsDistinct (node_keys (n ∷ ns)) =
        subst (λ l. IsDistinct (node_keys l)) e v.distinct in
      let (l, rest, popped, p) = pop_back-Popped s.next_iter n ns below distinct in
      (
        record s { cache_list = rest; cache_map = erase s.cache_map l.key },
        rw (ap pop_back e ∙ popped, evict),
        record {
          links = λ j.
              ground
                (arith, find-erase s.cache_map l.key j, v.links j, p.found j, ap (iter_of j) e);
          distinct = p.distinct;
          below = p.below;
          bounded = omega (arith, p.shorter, v.bounded, ap length e);
        },
        refl,
        p.shorter,
        p.prefix,
      )

  -- A key that is there moves to the front.
  add_present :
      (s : LruSet) (k : String) (it : ℕ)
      → IsValid s
      → find s.cache_map k ≡ some it
      → (t : LruSet) × (add s k ≡ some t)
        × IsValid t
        × (t.capacity ≡ s.capacity)
        × (key_list t ≡ k ∷ remove k (key_list s))
  unfolding add
  add_present s k it v e =
      let at : iter_of k s.cache_list ≡ some it = sym (v.links k) ∙ e in
      let gone = node_keys-erase_node k s.next_iter it s.cache_list v.below v.distinct at in
      let hit : contains k (key_list s) ≡ true =
        contains-node_keys k s.cache_list ∙ ap is_some at in
      let kept : IsDistinct (node_keys (erase_node it s.cache_list)) =
        rw gone (remove-IsDistinct k (key_list s) v.distinct) in
      (
        push_front (record s { cache_list = erase_node it s.cache_list }) k,
        rw (e, add),
        push_front-IsValid (record s { cache_list = erase_node it s.cache_list }) k
            (λ j. ground (
              arith,
              v.links j,
              iter_of-erase_node k j s.next_iter it s.cache_list v.below v.distinct at,
            ))
            (rw gone (ground (arith, contains-remove k k (key_list s), eq_iff k k))) kept
            (erase_node-IsBelow it s.next_iter s.cache_list v.below)
            (omega (
              arith,
              length-remove-lt k (key_list s) hit,
              ap length gone,
              length-node_keys s.cache_list,
              length-node_keys (erase_node it s.cache_list),
              v.bounded,
            )),
        refl,
        ap (◌∷◌ k) gone,
      )

  make_room-IsValid :
      (s : LruSet) (m : ℕ)
      → IsValid s
      → s.capacity ≡ suc m
      → (t : LruSet) × (make_room s ≡ some t)
        × IsValid t
        × (t.capacity ≡ s.capacity)
        × (length t.cache_list < s.capacity)
        × (key_list t ≡ take m (key_list s))
  unfolding make_room
  make_room-IsValid s m v e = elim (Bool-cases (leb s.capacity (length s.cache_list))) [
    | inl full ↦
        let (t, evicted, w, same, shorter, kept) =
          evict-IsValid s s.cache_list refl v (ground arith) in
        let size : length t.cache_list ≡ m = ground (arith, v.bounded) in
        (
          t,
          rw (full, make_room) evicted,
          w,
          same,
          omega arith,
          kept ∙ ap (λ (i : ℕ). take i (key_list s)) size,
        )
    | inr room ↦ (
      s,
      rw (room, make_room),
      v,
      refl,
      ground arith,
      sym (take_of_length-le m (key_list s) (ground (arith, length-node_keys s.cache_list))),
    )
  ]

  -- A new key goes to the front, and the last key goes where there is no room.
  add_absent :
      (s : LruSet) (k : String) (m : ℕ)
      → IsValid s
      → s.capacity ≡ suc m
      → find s.cache_map k ≡ none
      → (t : LruSet) × (add s k ≡ some t)
        × IsValid t
        × (t.capacity ≡ s.capacity)
        × (key_list t ≡ k ∷ take m (key_list s))
  unfolding add
  add_absent s k m v e miss =
      let (t, made, w, same, room, kept) = make_room-IsValid s m v e in
      let fresh : contains k (key_list t) ≡ false = rw kept (
        contains-take k m (key_list s)
          (contains-node_keys k s.cache_list ∙ ap is_some (sym (v.links k) ∙ miss))) in
      (
        push_front t k,
        rw (miss, add, made),
        push_front-IsValid t k
            (λ j. ground (arith, w.links j, eq_iff k j, fresh, contains-node_keys k t.cache_list))
            fresh w.distinct w.below (omega arith),
        same,
        ap (◌∷◌ k) kept,
      )

  -- With room for a key, `add` succeeds, keeps the set well formed, and leaves exactly the
  -- `capacity` keys that were added last, in order, `k` first.
  pub add-key_list :
      (s : LruSet) (k : String)
      → IsValid s
      → 0 < s.capacity
      → (t : LruSet) × (add s k ≡ some t)
        × IsValid t
        × (t.capacity ≡ s.capacity)
        × (key_list t ≡ take s.capacity (k ∷ remove k (key_list s)))
  add-key_list s k v pos = elim (Option-cases (find s.cache_map k)) [
    | inl miss ↦
        let m : ℕ = s.capacity - 1 in
        let e : s.capacity ≡ suc m = omega arith in
        let (t, added, w, same, keys) = add_absent s k m v e miss in
        let gone : contains k (key_list s) ≡ false =
          contains-node_keys k s.cache_list ∙ ap is_some (sym (v.links k) ∙ miss) in
        (
          t,
          added,
          w,
          same,
          keys
              ∙ sym (
                  ap (λ (c : ℕ). take c (k ∷ remove k (key_list s))) e
                  ∙ ap (λ l. k ∷ take m l) (remove_absent k (key_list s) gone)),
        )
    | inr (it, hit) ↦
        let (t, added, w, same, keys) = add_present s k it v hit in
        (
          t,
          added,
          w,
          same,
          keys
              ∙ sym (
                  take_of_length-le s.capacity (k ∷ remove k (key_list s))
                    (omega (arith, ap length keys, length-node_keys t.cache_list, w.bounded))),
        )
  ]

  -- An empty set is well formed.
  pub init-IsValid : (capacity : ℕ) → IsValid (init capacity)
  unfolding init iter_of
  init-IsValid capacity = record {
    links = λ k. find-empty k;
    distinct = tt;
    below = tt;
    bounded = omega arith;
  }
