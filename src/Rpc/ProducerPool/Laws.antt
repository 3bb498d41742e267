-- ===== src/Rpc/ProducerPool/Laws.antt =====
-- What the producer pool keeps and sends (system/common_src/CRPC.cpp).
use celte_system.Prelude.{
  ℕ, ◌+◌, ◌≤◌, ◌≡◌, refl, Bool, true, false, String, List, [], ◌∷◌, ◌++◌, Option, none, some, ltb,
  if◌then◌else◌, ◌==◌, eq_iff, arith, Option-cases, inl, inr, contains,
}
use celte_system.Prelude.HashMap.{
  HashMap, Map, find, put, erase, keys, find-put, find-erase, contains-keys,
}
use celte_system.Rpc.Stub.Defs.{RpRequest}
use celte_system.Rpc.ProducerPool.{
  Env, Pool, write_existing, create_producer, write_missing, write, max_idle, to_remove, erase_all,
  cleanup,
}

-- Not used for more than a minute.
abbrev is_stale : ℕ → Option ℕ → Bool
is_stale now none = false
is_stale now (some last_used) = ltb (last_used + max_idle) now

module _ ⦃h : HashMap⦄ where
  contains-to_remove :
      (m : Map ℕ) (now : ℕ) (topics : List String) (t : String)
      → contains t (to_remove m now topics)
        ≡ (if contains t topics then is_stale now (find m t) else false)
  unfolding contains to_remove
  contains-to_remove m now [] t = refl
  contains-to_remove m now (topic ∷ topics) t = elim (Option-cases (find m topic)) [
    | inl e ↦ ground (arith, eq_iff topic t, contains-to_remove m now topics t)
    | inr (u, e) ↦ ground (arith, eq_iff topic t, contains-to_remove m now topics t)
  ]

  find-erase_all :
      (m : Map ℕ) (topics : List String) (t : String)
      → find (erase_all m topics) t ≡ (if contains t topics then none else find m t)
  unfolding contains erase_all
  find-erase_all m [] t = refl
  find-erase_all m (topic ∷ topics) t =
      ground (arith, eq_iff topic t, find-erase_all (erase m topic) topics t, find-erase m topic t)

  -- The cleanup drops exactly the producers that were not used for more than 60 seconds.
  find-cleanup :
      (p : Pool) (now : ℕ) (t : String)
      → find (cleanup p now).producers t
        ≡ (if is_stale now (find p.producers t) then none else find p.producers t)
  unfolding cleanup
  find-cleanup p now t = elim (Option-cases (find p.producers t)) [
    | inl e ↦ ground (
      arith,
      find-erase_all p.producers (to_remove p.producers now (keys p.producers)) t,
      contains-to_remove p.producers now (keys p.producers) t,
      contains-keys p.producers t,
    )
    | inr (u, e) ↦ ground (
      arith,
      find-erase_all p.producers (to_remove p.producers now (keys p.producers)) t,
      contains-to_remove p.producers now (keys p.producers) t,
      contains-keys p.producers t,
    )
  ]

  write-find :
      (p : Pool) (topic : String) (r : RpRequest) (env : Env)
      → env.serializes ≡ true
      → env.creates ≡ true
      → let q = (write p topic r env).0 in
        ((write p topic r env).1 ≡ true)
        × (q.sent ≡ p.sent ++ (topic, r) ∷ [])
        × ((t : String)
            → find q.producers t ≡ (if topic == t then some env.now else find p.producers t))
  unfolding write write_missing write_existing create_producer
  write-find p topic r env ok created = (
    ground arith,
    ground arith,
    λ t. elim (Option-cases (find p.producers topic)) [
      | inl e ↦ ground (
        arith,
        eq_iff topic t,
        find-put (put p.producers topic env.now) topic t env.now,
        find-put p.producers topic t env.now,
      )
      | inr (u, e) ↦ ground (arith, eq_iff topic t, find-put p.producers topic t env.now)
    ],
  )

  -- A write that the serializer and the broker accept sends its message once and stamps the
  -- producer, so that no cleanup within the next 60 seconds drops it; other topics are untouched.
  write-cleanup :
      (p : Pool) (topic : String) (r : RpRequest) (env : Env) (later : ℕ)
      → env.serializes ≡ true
      → env.creates ≡ true
      → later ≤ env.now + max_idle
      → let q = (write p topic r env).0 in
        ((write p topic r env).1 ≡ true)
        × (q.sent ≡ p.sent ++ (topic, r) ∷ [])
        × (find (cleanup q later).producers topic ≡ some env.now)
        × ((t : String) → (topic == t) ≡ false → find q.producers t ≡ find p.producers t)
  write-cleanup p topic r env later ok created soon =
      let (done, sent, found) = write-find p topic r env ok created in
      (
        done,
        sent,
        ground (
          arith,
          find-cleanup (write p topic r env).0 later topic,
          found topic,
          eq_iff topic topic,
        ),
        λ t ne. ground (arith, found t),
      )

  -- When another thread has created the producer in the meantime, the write of a request says that
  -- it succeeded, and the request is never sent.
  pub write_missing_dropped :
      (p : Pool) (topic : String) (r : RpRequest) (env : Env) (u : ℕ)
      → find p.producers topic ≡ some u
      → env.creates ≡ true
      → write_missing p topic r env ≡ (p, true)
  unfolding write_missing create_producer
  write_missing_dropped p topic r env u e created = ground arith
