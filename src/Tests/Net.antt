-- ===== src/Tests/Net.antt =====
-- The theorems on the streams (system/include/WriterStreamPool.hpp, system/include/ReaderStream.hpp) at
-- small inputs.
use celte_system.Prelude.{
  ℕ, zero, suc, ◌≤◌, ◌≡◌, ◌≢◌, true, false, String, [], none, ◌∷◌, some, arith, if◌then◌else◌, eqb,
  Bool-cases, inl, inr,
}
use celte_system.Net.Service.{ReaderStream, new_stream, points_to, cleanup, cleanup-endless}
use celte_system.Net.Streams.{init_streams, openings, wait_network_ready}
use celte_system.Net.Streams.Laws.{all_succeed, wait_network_ready-calm}
use celte_system.Net.WriterPool.{WriterStreamPoolEntry, WriterStreamPool}
use celte_system.Net.ReaderStream.{Attempt, result_ok, result_error, throws}

abbrev input_stream : WriterStreamPoolEntry
input_stream = record { producer = 0; last_used = 0 }

abbrev pool : WriterStreamPool
pool = record { streams = ("input", input_stream) ∷ []; next_stream = 1; written = [] }

-- The third call succeeds.
abbrev late : ℕ → Attempt
late n = if eqb n 2 then result_ok else result_error

late-ne : (m : ℕ) → late m ≢ throws
late-ne m p = elim (Bool-cases (eqb m 2)) [
  | inl second ↦ absurd (ground (arith, second, p))
  | inr other ↦ absurd (ground (arith, other, p))
]

abbrev broken : ℕ → Attempt
broken n = throws

abbrev replication : ReaderStream
replication = record new_stream { pending_messages = points_to 1 }

cleanup-endless_example :
    cleanup 5
      (λ i. points_to 0)
      (record { reader_streams = replication ∷ []; writer_streams = ("west", 0) ∷ [] })
    ≡ none
cleanup-endless_example = cleanup-endless 5 (λ i. 0) replication [] (("west", 0) ∷ [])

-- The broker lets every topic subscribe at its second call.
abbrev second_call : String → ℕ → Attempt
second_call topic zero = result_error
second_call topic (suc n) = result_ok

second_call-calm : (topic : String) (m : ℕ) → second_call topic m ≢ throws
second_call-calm topic zero = cc
second_call-calm topic (suc n) = cc

wait_network_ready-calm_example :
    let readers = (init_streams true "non-persistent://public/s1/" "p1" "c1" false).1 in
    let os = openings second_call (λ topic. 3) readers in
    (all_succeed second_call readers ≡ true
      → (t : ℕ) × ((fuel : ℕ) → t ≤ fuel → wait_network_ready fuel os ≡ some t))
    × (all_succeed second_call readers ≡ false → (fuel : ℕ) → wait_network_ready fuel os ≡ none)
wait_network_ready-calm_example =
    wait_network_ready-calm second_call (λ topic. 3) true "non-persistent://public/s1/" "p1" "c1"
      false second_call-calm
