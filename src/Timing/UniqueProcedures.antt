-- ===== src/Timing/UniqueProcedures.antt =====
-- UniqueProcedures (system/include/UniqueProcedures.hpp, system/common_src/UniqueProcedures.cpp).
use celte_system.Prelude.{Bool, true, String, ◌≡◌}

-- UniqueProcedures::KeyToValFunctor
unfoldable key_to_val : String → Bool
key_to_val key = true

-- tbb::concurrent_lru_cache: `access` is its operator[], which makes the value of a missing key with
-- the functor; the value of every key that is kept was made so.
module _ {Cache : Type 0} (access : (String → Bool) → Cache → String → Cache × Bool) where
  unfoldable register_procedure : Cache → String → Cache × Bool
  register_procedure cache uuid = access key_to_val cache uuid

  unfoldable is_procedure_registered : Cache → String → Cache × Bool
  is_procedure_registered cache uuid = access key_to_val cache uuid

  -- In every state of the cache, a procedure counts as registered before it was registered, and
  -- registering it gives true the first and the second time.
  register_procedure-always :
      ((f : String → Bool) (cache : Cache) (uuid : String) → (access f cache uuid).1 ≡ f uuid)
      → (cache : Cache) (uuid : String)
      → ((is_procedure_registered cache uuid).1 ≡ true)
        × ((register_procedure cache uuid).1 ≡ true)
        × ((register_procedure (register_procedure cache uuid).0 uuid).1 ≡ true)
  unfolding register_procedure is_procedure_registered key_to_val
  register_procedure-always value cache uuid = (
    value key_to_val cache uuid,
    value key_to_val cache uuid,
    value key_to_val (access key_to_val cache uuid).0 uuid,
  )
