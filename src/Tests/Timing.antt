-- ===== src/Tests/Timing.antt =====
-- The theorems on the clock and on unique procedures (system/common_src/Clock.cpp,
-- system/common_src/UniqueProcedures.cpp) at small inputs.
use celte_system.Prelude.{◌+◌, ◌≤◌, ◌<◌, Bool, String, List, ◌∷◌, arith}
use celte_system.Timing.Clock.{Clock, get_unified_time, schedule_at, schedule_at-bounds}

abbrev clock : Clock
clock = record { last_tick_value = 3000000; last_tick_local_time = 1000000 }

schedule_at-bounds_example :
    let run_time = get_unified_time (schedule_at 40000 1500000 clock 7700000) clock in
    (7700000 < run_time + 1000000)
    × (get_unified_time 1500000 clock ≤ run_time)
    × (run_time ≤ 7740000)
unfolding get_unified_time
schedule_at-bounds_example = schedule_at-bounds 40000 1500000 7700000 clock (omega arith)

-- A cache that remembers the keys in the order of use and makes each value anew.
abbrev access : (String → Bool) → List String → String → List String × Bool
access f cache key = (key ∷ cache, f key)
