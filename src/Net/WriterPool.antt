-- ===== src/Net/WriterPool.antt =====
-- WriterStreamPool (system/include/WriterStreamPool.hpp, system/common_src/WriterStreamPool.cpp). Times
-- are in nanoseconds; a stream is a number, and `written` holds what was handed to each stream,
-- which sends it when it is ready.
use celte_system.Prelude.{
  ℕ, ◌+◌, ◌-◌, ◌/◌, ◌≤◌, ◌≡◌, refl, Bool, false, String, List, [], ◌∷◌, ◌++◌, none, some,
  if◌then◌else◌, ltb, eq_iff, arith, Bool-cases, inl, inr,
}
use celte_system.Prelude.Assoc
use celte_system.Prelude.Assoc.{Assoc, find-put, find-nil}

pub record WriterStreamPoolEntry : Type 0 where
  pub producer : ℕ
  pub last_used : ℕ

pub record WriterStreamPool : Type 0 where
  pub streams : Assoc WriterStreamPoolEntry
  pub next_stream : ℕ
  pub written : List (ℕ × String)

-- Write at the time `now`: on a stream that is there the source sets `last_used` in a copy of the
-- entry.
unfoldable pub write : ℕ → WriterStreamPool → String → String → WriterStreamPool
write now pool topic req = elim (Assoc.find pool.streams topic) [
  | none ↦ record {
    streams =
        Assoc.put pool.streams topic (record { producer = pool.next_stream; last_used = now });
    next_stream = pool.next_stream + 1;
    written = pool.written ++ ((pool.next_stream, req) ∷ []);
  }
  | some entry ↦ record pool { written = pool.written ++ ((entry.producer, req) ∷ []) }
]

-- The test of the cleanup thread; `idle_timeout` is in milliseconds.
abbrev is_idle : (idle_timeout now : ℕ) → WriterStreamPoolEntry → Bool
is_idle idle_timeout now entry = ltb idle_timeout ((now - entry.last_used) / 1000000)

unfoldable pub drop_idle :
    (idle_timeout now : ℕ) → Assoc WriterStreamPoolEntry → Assoc WriterStreamPoolEntry
drop_idle idle_timeout now [] = []
drop_idle idle_timeout now ((topic, entry) ∷ rest) =
    let kept = drop_idle idle_timeout now rest in
    if is_idle idle_timeout now entry then kept else (topic, entry) ∷ kept

-- One round of the cleanup thread.
unfoldable pub cleanup : (idle_timeout now : ℕ) → WriterStreamPool → WriterStreamPool
cleanup idle_timeout now pool = record pool { streams = drop_idle idle_timeout now pool.streams }

write-streams :
    (t : ℕ) (pool : WriterStreamPool) (topic req : String) (entry : WriterStreamPoolEntry)
    → Assoc.find pool.streams topic ≡ some entry
    → write t pool topic req
      ≡ record pool { written = pool.written ++ ((entry.producer, req) ∷ []) }
unfolding write
write-streams t pool topic req entry present = ground arith

-- A message for a topic that has a stream goes to that stream, and whatever the time of the write,
-- every later cleanup keeps and drops the same streams as without it.
cleanup-write :
    (idle_timeout t now : ℕ) (pool : WriterStreamPool) (topic req : String)
    (entry : WriterStreamPoolEntry)
    → Assoc.find pool.streams topic ≡ some entry
    → ((write t pool topic req).written ≡ pool.written ++ ((entry.producer, req) ∷ []))
      × ((cleanup idle_timeout now (write t pool topic req)).streams
          ≡ (cleanup idle_timeout now pool).streams)
unfolding cleanup
cleanup-write idle_timeout t now pool topic req entry present =
    rw (write-streams t pool topic req entry present) (refl, refl)

find-drop_idle :
    (idle_timeout now : ℕ) (streams : Assoc WriterStreamPoolEntry) (topic : String)
    (entry : WriterStreamPoolEntry)
    → is_idle idle_timeout now entry ≡ false
    → Assoc.find streams topic ≡ some entry
    → Assoc.find (drop_idle idle_timeout now streams) topic ≡ some entry
unfolding drop_idle Assoc.find
find-drop_idle idle_timeout now [] topic entry busy present = cc
find-drop_idle idle_timeout now ((j, e) ∷ rest) topic entry busy present =
    elim (Bool-cases (is_idle idle_timeout now e)) [
      | inl idle ↦ ground (arith, eq_iff j topic, find-drop_idle idle_timeout now rest topic entry)
      | inr used ↦ ground (arith, eq_iff j topic, find-drop_idle idle_timeout now rest topic entry)
    ]

abbrev with_new_stream : ℕ → WriterStreamPool → String → String → WriterStreamPool
with_new_stream t pool topic req = record {
  streams = Assoc.put pool.streams topic (record { producer = pool.next_stream; last_used = t });
  next_stream = pool.next_stream + 1;
  written = pool.written ++ ((pool.next_stream, req) ∷ []);
}

write-new :
    (t : ℕ) (pool : WriterStreamPool) (topic req : String)
    → Assoc.find pool.streams topic ≡ none
    → write t pool topic req ≡ with_new_stream t pool topic req
unfolding write
write-new t pool topic req missing = ground arith

-- A message for a topic without a stream goes to a new stream, which no cleanup drops until the idle
-- timeout has passed since the write.
cleanup-write_new :
    (idle_timeout t now : ℕ) (pool : WriterStreamPool) (topic req : String)
    → Assoc.find pool.streams topic ≡ none
    → (now - t) / 1000000 ≤ idle_timeout
    → ((write t pool topic req).written ≡ pool.written ++ ((pool.next_stream, req) ∷ []))
      × (Assoc.find (cleanup idle_timeout now (write t pool topic req)).streams topic
          ≡ some (record { producer = pool.next_stream; last_used = t }))
unfolding cleanup
cleanup-write_new idle_timeout t now pool topic req missing soon =
    let entry : WriterStreamPoolEntry = record { producer = pool.next_stream; last_used = t } in
    let put_there = find-put pool.streams topic topic entry in
    let busy : is_idle idle_timeout now entry ≡ false = ground arith in
    rw (write-new t pool topic req missing) (
      refl,
      find-drop_idle idle_timeout now (Assoc.put pool.streams topic entry) topic entry busy
          (ground (arith, eq_iff topic topic, put_there)),
    )
