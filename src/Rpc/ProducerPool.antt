-- ===== src/Rpc/ProducerPool.antt =====
-- ApachePulsarRPCProducerPool (system/include/CRPC.hpp, system/common_src/CRPC.cpp). Times are in
-- milliseconds; the results of the broker and of the serializer are arguments.
pub mod Laws
use celte_system.Prelude.{
  ℕ, ◌+◌, Bool, true, false, String, List, [], ◌∷◌, ◌++◌, Option, none, some, ltb, if◌then◌else◌,
}
use celte_system.Prelude.HashMap.{HashMap, Map, find, put, erase, keys}
use celte_system.Rpc.Stub.Defs.{RpRequest}

-- What the world answers during one write.
pub record Env : Type 0 where
  pub now : ℕ
  pub serializes : Bool
  pub creates : Bool

abbrev pub max_idle : ℕ
max_idle = 60_000

module _ ⦃h : HashMap⦄ where
  pub record Pool : Type 0 where
    -- topic to lastUsed
    pub producers : Map ℕ
    pub sent : List (String × RpRequest)

  -- The branch of write that has an accessor to the bucket.
  unfoldable pub write_existing : Pool → String → RpRequest → Env → Pool × Bool
  write_existing p topic request env =
      if env.serializes
      then (
        record p {
          producers = put p.producers topic env.now;
          sent = p.sent ++ (topic, request) ∷ [];
        },
        true,
      )
      else (record p { producers = put p.producers topic env.now }, false)

  -- _createProducer with the callback of write, in the state that it finds when the broker has
  -- answered: `none` is the exception.
  unfoldable pub create_producer : Pool → String → RpRequest → Env → Option Pool
  create_producer p topic request env =
      if env.creates
      then elim (find p.producers topic) [
        | none ↦
            some
              (write_existing (record p { producers = put p.producers topic env.now }) topic request
                env).0
        | some _ ↦ some p
      ]
      else none

  -- The branch of write without a bucket, after its accessor was released.
  unfoldable pub write_missing : Pool → String → RpRequest → Env → Pool × Bool
  write_missing p topic request env = elim (create_producer p topic request env) [
    | none ↦ (p, false)
    | some q ↦ (q, true)
  ]

  unfoldable pub write : Pool → String → RpRequest → Env → Pool × Bool
  write p topic request env = elim (find p.producers topic) [
    | none ↦ write_missing p topic request env
    | some _ ↦ write_existing p topic request env
  ]

  -- The first loop of cleanup collects what was not used for more than 60 seconds.
  unfoldable pub to_remove : Map ℕ → ℕ → List String → List String
  to_remove producers now [] = []
  to_remove producers now (topic ∷ topics) =
      let rest = to_remove producers now topics in
      elim (find producers topic) [
        | none ↦ rest
        | some last_used ↦ if ltb (last_used + max_idle) now then topic ∷ rest else rest
      ]

  unfoldable pub erase_all : Map ℕ → List String → Map ℕ
  erase_all producers [] = producers
  erase_all producers (topic ∷ topics) = erase_all (erase producers topic) topics

  unfoldable pub cleanup : Pool → ℕ → Pool
  cleanup p now = record p {
    producers = erase_all p.producers (to_remove p.producers now (keys p.producers));
  }
