-- ===== src/Net/Latency.antt =====
-- PeerService::GetLatency (system/common_src/PeerService.cpp): the pings of the known grapes. What the
-- network does to each attempt is an argument, as for the calls. Times are in milliseconds.
use celte_system.Prelude.{
  ℕ, ◌+◌, ◌≤◌, ◌≡◌, refl, Bool, true, false, String, List, [], ◌∷◌, Option, none, some, contains,
  arith, ap, ◌∙◌, if◌then◌else◌, ◌==◌, eq_iff, Bool-cases, inl, inr, ◌||◌,
}
use celte_system.Prelude.Assoc
use celte_system.Prelude.Assoc.{Assoc, find-put}
use celte_system.Rpc.Retry
use celte_system.Rpc.Retry.{Future, Result, value, gave_up, logic_error, hangs, Run}
use celte_system.Rpc.Retry.Laws.{call-Outcome, answers, fails, sending_times}

-- The numbers in the result: -1 or a duration.
pub data Latency : Type 0 where
  minus_one : Latency
  ms : ℕ → Latency

-- One round of the loop: the fail callback writes -1, and then the duration is written. `none` is a
-- call that does not come back or throws.
unfoldable pub measure : {R : Type 0} → Assoc Latency → String → Run R → Option (Assoc Latency)
measure latencies g run = elim run.result [
  | value r ↦ some (Assoc.put latencies g (ms run.elapsed))
  | gave_up e ↦ some (Assoc.put (Assoc.put latencies g minus_one) g (ms run.elapsed))
  | logic_error ↦ none
  | hangs ↦ none
]

abbrev Measured : {R : Type 0} → Assoc Latency → String → Run R → Type 0
Measured latencies g run =
    (next : Assoc Latency) × (measure latencies g run ≡ some next)
    × ((k : String)
        → Assoc.find next k ≡ (if g == k then some (ms run.elapsed) else Assoc.find latencies k))

measure-value :
    {R : Type 0} (latencies : Assoc Latency) (g : String) (run : Run R) (r : R)
    → run.result ≡ value r
    → Measured latencies g run
unfolding measure
measure-value latencies g run r e = (
  Assoc.put latencies g (ms run.elapsed),
  rw (e, measure) refl,
  λ k. find-put latencies g k (ms run.elapsed),
)

measure-gave_up :
    {R : Type 0} (latencies : Assoc Latency) (g : String) (run : Run R) (f : Retry.Failure)
    → run.result ≡ gave_up f
    → Measured latencies g run
unfolding measure
measure-gave_up latencies g run f e = (
  Assoc.put (Assoc.put latencies g minus_one) g (ms run.elapsed),
  rw (e, measure) refl,
  λ k. ground (
    arith,
    find-put (Assoc.put latencies g minus_one) g k (ms run.elapsed),
    find-put latencies g k minus_one,
  ),
)

chosen :
    (time : String → Latency) (g k : String) (listed : Bool) (old : Option Latency)
    → (if listed then some (time k) else (if g == k then some (time g) else old))
      ≡ (if g == k || listed then some (time k) else old)
chosen time g k true old = elim (Bool-cases (g == k)) [
  | inl same ↦ ground (arith, same)
  | inr other ↦ ground (arith, other)
]
chosen time g k false old = elim (Bool-cases (g == k)) [
  | inl same ↦ ground (arith, same, ap time ((eq_iff g k).0 same))
  | inr other ↦ ground (arith, other)
]

module _ {A : Type 0} (is_null : A → Bool) (deserialize : A → Option Bool) where
  -- CallGrapePing().on_peer(g), with its timeout and its retries.
  unfoldable pub ping : (ℕ → Future A) → Run Bool
  ping futures = Retry.call is_null deserialize false 10000 3 futures

  unfoldable pub get_latency :
      (String → ℕ → Future A) → List String → Assoc Latency → Option (Assoc Latency)
  get_latency network [] latencies = some latencies
  get_latency network (g ∷ gs) latencies = elim (measure latencies g (ping (network g))) [
    | none ↦ none
    | some next ↦ get_latency network gs next
  ]

  ping-Measured :
      (latencies : Assoc Latency) (g : String) (futures : ℕ → Future A)
      → Measured latencies g (ping futures)
        × ((ping futures).elapsed ≤ sending_times futures 0 4 + 40000)
  unfolding ping
  ping-Measured latencies g futures =
      let (out, time) = call-Outcome is_null deserialize 10000 3 futures (omega arith) in
      (
        elim out [
          | answers i r t _ _ _ _ e _ ↦ measure-value latencies g (ping futures) r e
          | fails f t _ _ e _ ↦ measure-gave_up latencies g (ping futures) f e
        ],
        time,
      )

  -- GetLatency comes back, whatever the network does, and the latency of each known grape is the
  -- time that its ping took, at most 40 seconds more than its sendings: it is never -1, also not
  -- where no attempt was answered.
  pub get_latency-elapsed :
      (network : String → ℕ → Future A) (grapes : List String) (latencies : Assoc Latency)
      → (result : Assoc Latency) × (get_latency network grapes latencies ≡ some result)
        × ((k : String)
            → Assoc.find result k ≡ (
                if contains k grapes
                then some (ms (ping (network k)).elapsed)
                else Assoc.find latencies k))
        × ((k : String) → (ping (network k)).elapsed ≤ sending_times (network k) 0 4 + 40000)
  unfolding get_latency contains
  get_latency-elapsed network [] latencies =
      (latencies, refl, λ k. refl, λ k. (ping-Measured latencies k (network k)).1)
  get_latency-elapsed network (g ∷ gs) latencies =
      let ((next, e, found), _) = ping-Measured latencies g (network g) in
      let (result, comes, all, time) = get_latency-elapsed network gs next in
      (
        result,
        rw (e, get_latency) comes,
        λ k.
            all k
            ∙ ap (λ x. if contains k gs then some (ms (ping (network k)).elapsed) else x) (found k)
            ∙ chosen (λ i. ms (ping (network i)).elapsed) g k (contains k gs)
                (Assoc.find latencies k),
        time,
      )
