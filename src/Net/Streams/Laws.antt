-- ===== src/Net/Streams/Laws.antt =====
-- When a container gets ready (system/common_src/Container.cpp, system/include/ReaderStream.hpp).
use celte_system.Prelude.{
  ℕ, ◌+◌, ◌≤◌, ◌≡◌, ◌≢◌, refl, sym, ap, ◌∙◌, Bool, true, false, not, String, List, [], ◌∷◌, Option,
  none, some, leb, if◌then◌else◌, ◌&&◌, arith, Option-cases, inl, inr, is_some,
}
use celte_system.Prelude.Polling.{poll-first, poll-never}
use celte_system.Net.ReaderStream.{Attempt, throws, subscribe, succeeds, subscribe-calm}
use celte_system.Net.Streams.{
  Options, opened, connect_error, throws_deprecated, open_stream, opened_by, Opening, ready_after,
  never_ready, is_ready, all_ready, wait_network_ready, opening, openings, init_streams,
}

later : ℕ → ℕ → ℕ
later a b = if leb a b then b else a

-- When the last of the streams is ready.
last_ready : List Opening → Option ℕ
last_ready [] = some 0
last_ready (never_ready ∷ os) = none
last_ready (ready_after t ∷ os) = elim (last_ready os) [ none ↦ none | some u ↦ some (later t u) ]

abbrev reached : Option ℕ → ℕ → Bool
reached none n = false
reached (some t) n = leb t n

all_ready-last : (os : List Opening) (n : ℕ) → all_ready os n ≡ reached (last_ready os) n
unfolding all_ready is_ready last_ready later
all_ready-last [] n = ground arith
all_ready-last (never_ready ∷ os) n = refl
all_ready-last (ready_after t ∷ os) n = elim (Option-cases (last_ready os)) [
  | inl e ↦ ground (arith, all_ready-last os n)
  | inr (u, e) ↦ ground (arith, all_ready-last os n)
]

-- Where the last of the streams is ready after t sleeps, the callback is called then; where one is
-- never ready, it is never called.
wait_network_ready_lem :
    (os : List Opening)
    → ((t fuel : ℕ) → last_ready os ≡ some t → t ≤ fuel → wait_network_ready fuel os ≡ some t)
      × ((fuel : ℕ) → last_ready os ≡ none → wait_network_ready fuel os ≡ none)
unfolding wait_network_ready
wait_network_ready_lem os = (
  λ t fuel e le.
      poll-first fuel t 0 (all_ready os) (λ i lo hi. ground (arith, all_ready-last os i))
        (ground (arith, all_ready-last os (0 + t))) le
      ∙ ap some (omega arith),
  λ fuel e. poll-never fuel 0 (all_ready os) (λ i. ground (arith, all_ready-last os i)),
)

absurd_bool {ℓ} : {A : Type ℓ} → true ≡ false → A
absurd_bool e = cc

module _ (clients : String → ℕ → Attempt) where
  -- Whether the broker lets each of them subscribe in one of its first ten calls.
  abbrev pub all_succeed : List Options → Bool
  all_succeed [] = true
  all_succeed (o ∷ os) = succeeds (clients o.topic) 0 10 && all_succeed os

module _ (clients : String → ℕ → Attempt) (delay : String → ℕ) where
  abbrev none_exclusive : List Options → Bool
  none_exclusive [] = true
  none_exclusive (o ∷ os) = not o.exclusive && none_exclusive os

  open_stream-calm :
      (o : Options)
      → ((topic : String) (m : ℕ) → clients topic m ≢ throws)
      → o.exclusive ≡ false
      → open_stream (clients o.topic) 10 o
        ≡ some (if succeeds (clients o.topic) 0 10 then opened else connect_error)
  unfolding open_stream
  open_stream-calm o calm shared =
      let (calls, e, bound) = subscribe-calm (clients o.topic) (calm o.topic) in
      ap (λ b. if b then some throws_deprecated else opened_by (subscribe (clients o.topic) 10))
        shared
      ∙ ap opened_by e

  init_streams-shared :
      (server : Bool) (default_scope uuid id : String) (owned : Bool)
      → none_exclusive (init_streams server default_scope uuid id owned).1 ≡ true
  unfolding init_streams
  init_streams-shared server default_scope uuid id owned = ground arith

  is_some-last_ready :
      (b : Bool) (d : ℕ) (os : List Opening)
      → is_some (last_ready (opening (some (if b then opened else connect_error)) d ∷ os))
        ≡ b && is_some (last_ready os)
  unfolding last_ready opening
  is_some-last_ready true d os = ground arith
  is_some-last_ready false d os = refl

  is_some-last_ready-openings :
      (os : List Options)
      → ((topic : String) (m : ℕ) → clients topic m ≢ throws)
      → none_exclusive os ≡ true
      → is_some (last_ready (openings clients delay os)) ≡ all_succeed clients os
  unfolding openings last_ready
  is_some-last_ready-openings [] calm shared = refl
  is_some-last_ready-openings (o ∷ os) calm shared =
      let b = succeeds (clients o.topic) 0 10 in
      ap (λ x. is_some (last_ready (opening x (delay o.topic) ∷ openings clients delay os)))
        (open_stream-calm o calm (ground arith))
      ∙ is_some-last_ready b (delay o.topic) (openings clients delay os)
      ∙ ap (λ x. b && x) (is_some-last_ready-openings os calm (ground arith))

  -- Where no call of the broker's client throws, a container whose reader streams all succeed to
  -- subscribe in ten calls calls onReady after some time, and one of whose streams does not, never.
  pub wait_network_ready-calm :
      (server : Bool) (default_scope uuid id : String) (owned : Bool)
      → ((topic : String) (m : ℕ) → clients topic m ≢ throws)
      → let readers = (init_streams server default_scope uuid id owned).1 in
        (all_succeed clients readers ≡ true
          → (t : ℕ) × ((fuel : ℕ)
              → t ≤ fuel
              → wait_network_ready fuel (openings clients delay readers) ≡ some t))
        × (all_succeed clients readers ≡ false
            → (fuel : ℕ) → wait_network_ready fuel (openings clients delay readers) ≡ none)
  wait_network_ready-calm server default_scope uuid id owned calm =
      let readers = (init_streams server default_scope uuid id owned).1 in
      let shared = init_streams-shared server default_scope uuid id owned in
      let same = is_some-last_ready-openings readers calm shared in
      let (ready, never) = wait_network_ready_lem (openings clients delay readers) in
      elim (Option-cases (last_ready (openings clients delay readers))) [
        | inl e ↦ (
          λ succeed. absurd_bool (sym succeed ∙ sym same ∙ ap is_some e),
          λ fail fuel. never fuel e,
        )
        | inr (t, e) ↦ (
          λ succeed. (t, λ fuel le. ready t fuel e le),
          λ fail. absurd_bool (sym (ap is_some e) ∙ same ∙ fail),
        )
      ]
