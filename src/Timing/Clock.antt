-- ===== src/Timing/Clock.antt =====
-- Clock (system/include/Clock.hpp, system/common_src/Clock.cpp). Times are in nanoseconds since an
-- epoch; `now` is the local system clock, which does not go back here.
use celte_system.Prelude.{
  ℕ, ◌+◌, ◌-◌, ◌*◌, ◌/◌, ◌≤◌, ◌<◌, ◌≡◌, ap, ◌∙◌, if◌then◌else◌, leb, arith, Bool-cases, inl, inr,
}

pub record Clock : Type 0 where
  pub last_tick_value : ℕ
  pub last_tick_local_time : ℕ

-- GetUnifiedTime
unfoldable pub get_unified_time : (now : ℕ) → Clock → ℕ
get_unified_time now c = c.last_tick_value + (now - c.last_tick_local_time)

-- __updateCurrentTime with a tick in milliseconds.
unfoldable update_current_time : (now : ℕ) → Clock → (unified_time_ms : ℕ) → Clock
update_current_time now c unified_time_ms = record {
  last_tick_value = unified_time_ms * 1000000;
  last_tick_local_time = now;
}

-- How long ScheduleAt sleeps before it runs the task: the difference, cut to milliseconds.
unfoldable pub sleep_time : (now : ℕ) → Clock → (unified_timepoint : ℕ) → ℕ
sleep_time now c unified_timepoint =
    let unified = get_unified_time now c in
    if leb unified_timepoint unified then 0 else (unified_timepoint - unified) / 1000000 * 1000000

-- The task of ScheduleAt: the local time at which it runs `task`. sleep_for lasts at least as long as
-- it is asked to, and `overslept` is what it lasts longer.
unfoldable pub schedule_at : (overslept now : ℕ) → Clock → (unified_timepoint : ℕ) → ℕ
schedule_at overslept now c unified_timepoint =
    if leb unified_timepoint (get_unified_time now c)
    then now
    else now + sleep_time now c unified_timepoint + overslept

-- operator""_ms_later
unfoldable ms_later : (now : ℕ) → Clock → ℕ → ℕ
ms_later now c val = get_unified_time now c + val * 1000000

sleep_time-split :
    (now u : ℕ) (c : Clock)
    → get_unified_time now c ≤ u
    → (get_unified_time now c + sleep_time now c u ≤ u)
      × (u < get_unified_time now c + sleep_time now c u + 1000000)
unfolding sleep_time
sleep_time-split now u c future = elim (Bool-cases (leb u (get_unified_time now c))) [
  | inl due ↦ ground arith
  | inr early ↦ ground arith
]

get_unified_time-add :
    (now d : ℕ) (c : Clock)
    → c.last_tick_local_time ≤ now
    → get_unified_time (now + d) c ≡ get_unified_time now c + d
unfolding get_unified_time
get_unified_time-add now d c local = omega arith

sleep_time-exact : (now val : ℕ) (c : Clock) → sleep_time now c (ms_later now c val) ≡ val * 1000000
unfolding sleep_time ms_later
sleep_time-exact now val c = ground arith

tick_sum :
    (t now val ms : ℕ)
    → t ≤ now
    → ms * 1000000 + (now - t) + val * 1000000 ≡ ms * 1000000 + (now + val * 1000000 - t)
tick_sum t now val ms later = omega arith

-- Where `now` is not before the local time `t` of the last tick, the task that is scheduled at
-- `now` for `val` milliseconds later sleeps exactly so long and is run at the unified time that
-- the tick and the local clock give.
sleep_time-ms_later :
    (t now val ms : ℕ) (c : Clock)
    → t ≤ now
    → let ticked = update_current_time t c ms in
      (sleep_time now ticked (ms_later now ticked val) ≡ val * 1000000)
      × (get_unified_time (now + sleep_time now ticked (ms_later now ticked val)) ticked
          ≡ ms * 1000000 + (now + val * 1000000 - t))
unfolding get_unified_time update_current_time
sleep_time-ms_later t now val ms c later =
    let ticked = update_current_time t c ms in
    let exact = sleep_time-exact now val ticked in
    (
      exact,
      get_unified_time-add now (sleep_time now ticked (ms_later now ticked val)) ticked later
          ∙ ap (λ d. get_unified_time now ticked + d) exact
          ∙ tick_sum t now val ms later,
    )

-- Where the local clock is not before the last tick and no tick comes during the sleep, a task that
-- is scheduled for a unified time is run less than a millisecond before that time at the earliest,
-- however long the thread oversleeps. It is run at once where the time has come, and otherwise at
-- that time at the latest, but for what the thread oversleeps.
pub schedule_at-bounds :
    (overslept now unified_timepoint : ℕ) (c : Clock)
    → c.last_tick_local_time ≤ now
    → let unified = get_unified_time now c in
      let run_time = get_unified_time (schedule_at overslept now c unified_timepoint) c in
      (unified_timepoint < run_time + 1000000)
      × (unified ≤ run_time)
      × (run_time
          ≤ (if leb unified_timepoint unified then unified else unified_timepoint + overslept))
unfolding schedule_at
schedule_at-bounds overslept now u c local =
    let d = sleep_time now c u + overslept in
    let later = get_unified_time-add now d c local in
    elim (Bool-cases (leb u (get_unified_time now c))) [
      | inl due ↦ ground arith
      | inr early ↦
          let split = sleep_time-split now u c (ground arith) in
          let e : now + sleep_time now c u + overslept ≡ now + d = omega arith in
          let run = ap (λ t. get_unified_time t c) e ∙ later in ground (arith, run, split)
    ]
