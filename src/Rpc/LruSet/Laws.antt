-- ===== src/Rpc/LruSet/Laws.antt =====
-- Facts on the node list of LRUSet (system/include/CRPC.hpp).
use celte_system.Prelude.{
  ℕ, suc, ◌≤◌, ◌<◌, ◌≡◌, refl, ap, String, List, [], ◌∷◌, map, Option, none, some, arith, length,
  take, true, if◌then◌else◌, is_some, ◌==◌, eq_iff, contains, remove, IsDistinct, remove_absent,
}
use celte_system.Rpc.LruSet.Defs.{Node, erase_node, pop_back}

abbrev pub node_keys : List Node → List String
node_keys = map (λ n. n.key)

-- The node of a key.
unfoldable pub iter_of : String → List Node → Option ℕ
iter_of k [] = none
iter_of k (n ∷ ns) = if n.key == k then some n.iter else iter_of k ns

-- The nodes were made at falling times, all before `bound`.
abbrev pub IsBelow : ℕ → List Node → Type 0
IsBelow bound [] = Unit
IsBelow bound (n ∷ ns) = (n.iter < bound) × IsBelow n.iter ns

IsBelow-mono : (a b : ℕ) (ns : List Node) → a ≤ b → IsBelow a ns → IsBelow b ns
IsBelow-mono a b [] h w = tt
IsBelow-mono a b (n ∷ ns) h w = (omega arith, w.1)

pub contains-node_keys :
    (k : String) (ns : List Node) → contains k (node_keys ns) ≡ is_some (iter_of k ns)
unfolding iter_of contains
contains-node_keys k [] = refl
contains-node_keys k (n ∷ ns) = ground (arith, contains-node_keys k ns)

pub length-node_keys : (ns : List Node) → length (node_keys ns) ≡ length ns
length-node_keys [] = refl
length-node_keys (n ∷ ns) = omega (arith, length-node_keys ns)

iter_of_lt :
    (k : String) (bound it : ℕ) (ns : List Node)
    → IsBelow bound ns
    → iter_of k ns ≡ some it
    → it < bound
unfolding iter_of
iter_of_lt k bound it [] w h = cc
iter_of_lt k bound it (n ∷ ns) w h = ground (arith, iter_of_lt k n.iter it ns w.1)

-- The node of a key is the node that holds it: to erase that node is to remove that key.
pub node_keys-erase_node :
    (k : String) (bound it : ℕ) (ns : List Node)
    → IsBelow bound ns
    → IsDistinct (node_keys ns)
    → iter_of k ns ≡ some it
    → node_keys (erase_node it ns) ≡ remove k (node_keys ns)
unfolding iter_of erase_node remove
node_keys-erase_node k bound it [] w d h = cc
node_keys-erase_node k bound it (n ∷ ns) w d h = ground (
  arith,
  eq_iff n.key k,
  iter_of_lt k n.iter it ns w.1,
  remove_absent k (node_keys ns),
  node_keys-erase_node k n.iter it ns w.1 d.1,
)

pub erase_node-IsBelow :
    (it bound : ℕ) (ns : List Node) → IsBelow bound ns → IsBelow bound (erase_node it ns)
unfolding erase_node
erase_node-IsBelow it bound [] w = tt
erase_node-IsBelow it bound (n ∷ ns) w =
    ground (arith, erase_node-IsBelow it n.iter ns w.1, IsBelow-mono n.iter bound ns)

pub iter_of-erase_node :
    (k j : String) (bound it : ℕ) (ns : List Node)
    → IsBelow bound ns
    → IsDistinct (node_keys ns)
    → iter_of k ns ≡ some it
    → iter_of j (erase_node it ns) ≡ (if k == j then none else iter_of j ns)
unfolding iter_of erase_node
iter_of-erase_node k j bound it [] w d h = cc
iter_of-erase_node k j bound it (n ∷ ns) w d h = ground (
  arith,
  eq_iff n.key k,
  eq_iff n.key j,
  eq_iff k j,
  iter_of_lt k n.iter it ns w.1,
  contains-node_keys k ns,
  iter_of-erase_node k j n.iter it ns w.1 d.1,
)

-- What pop_back leaves of a list that is not empty.
pub record Popped (bound : ℕ) (ns : List Node) (l : Node) (rest : List Node) : Type 0 where
  pub last_key : contains l.key (node_keys ns) ≡ true
  pub shorter : suc (length rest) ≡ length ns
  pub prefix : node_keys rest ≡ take (length rest) (node_keys ns)
  pub found : (j : String) → iter_of j rest ≡ (if l.key == j then none else iter_of j ns)
  pub below : IsBelow bound rest
  pub distinct : IsDistinct (node_keys rest)

pub pop_back-Popped :
    (bound : ℕ) (n : Node) (ns : List Node)
    → IsBelow bound (n ∷ ns)
    → IsDistinct (node_keys (n ∷ ns))
    → (l : Node) × (rest : List Node) × (pop_back (n ∷ ns) ≡ some (l, rest))
      × Popped bound (n ∷ ns) l rest
unfolding pop_back iter_of contains
pop_back-Popped bound n [] w d = (
  n,
  [],
  refl,
  record {
    last_key = ground (arith, eq_iff n.key n.key);
    shorter = refl;
    prefix = refl;
    found = λ j. ground arith;
    below = tt;
    distinct = tt;
  },
)
pop_back-Popped bound n (m ∷ ns) w d =
    let (l, rest, e, p) = pop_back-Popped n.iter m ns w.1 d.1 in
    (
      l,
      n ∷ rest,
      rw e,
      record {
        last_key = ground (arith, p.last_key);
        shorter = omega (arith, p.shorter);
        prefix = ap (◌∷◌ n.key) p.prefix;
        found = λ j.
            ground
              (arith, p.found j, p.last_key, eq_iff n.key j, eq_iff l.key j, eq_iff n.key l.key);
        below = (w.0, p.below);
        distinct = ground (
          arith,
          p.distinct,
          p.found n.key,
          contains-node_keys n.key rest,
          contains-node_keys n.key (m ∷ ns),
        );
      },
    )
