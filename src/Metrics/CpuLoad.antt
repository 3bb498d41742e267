-- ===== src/Metrics/CpuLoad.antt =====
-- __getCPULoad of MetricsScrapper on Linux (system/server_src/MetricsScrapper.cpp). The times are those
-- of the files /proc/self/stat and /proc/stat in ticks.
use celte_system.Prelude.{ℕ, ◌+◌, if◌then◌else◌, eqb}

pub record ProcStat : Type 0 where
  pub utime : ℕ
  pub stime : ℕ
  pub user : ℕ
  pub nice : ℕ
  pub system : ℕ
  pub idle : ℕ
  pub iowait : ℕ
  pub irq : ℕ
  pub softirq : ℕ
  pub steal : ℕ

-- The static variables prevProcTime and prevTotalTime.
pub record Previous : Type 0 where
  pub proc_time : ℕ
  pub total_time : ℕ

-- What a call leaves in the static variables.
abbrev reading : ProcStat → Previous
reading s = record {
  proc_time = s.utime + s.stime;
  total_time = s.user + s.nice + s.system + s.idle + s.iowait + s.irq + s.softirq + s.steal;
}

-- `percent` is the expression on doubles over the two differences: 100 times that of the process by
-- the total one, times the number of processors, as an int. A total difference of zero is a total
-- that stays, so that no difference is taken here.
unfoldable get_cpu_load :
    {Int : Type 0} (zero_load : Int) (percent : (previous now : Previous) (num_cpus : ℕ) → Int)
    (num_cpus : ℕ)
    → Previous
    → ProcStat
    → Previous × Int
get_cpu_load zero_load percent num_cpus previous s =
    let now = reading s in
    (
      now,
      if eqb now.total_time previous.total_time then zero_load else percent previous now num_cpus,
    )
