-- ===== src/Metrics.antt =====
-- internal/metrics/metrics.go: what the sampler keeps and reports, and its percentages. A float64 that
-- is computed is modelled as the exact quotient; package strconv's floats are parameters.
pub mod Parse
pub mod Sampler
use oakberryio.Prelude.{
  ℕ, ◌+◌, ◌-◌, ◌*◌, ◌≤◌, ◌≡◌, arith, Bool, ◌||◌, Text, ltb, leb, if◌then◌else◌,
}
use oakberryio.Prelude.Dict.{Dict}

-- num / den; zero is 0 / 1.
pub record Ratio : Type 0 where
  pub num : ℕ
  pub den : ℕ

abbrev pub zero_ratio : Ratio
zero_ratio = record { num = 0; den = 1 }

-- The load is kept as the text that strconv.ParseFloat accepted.
pub record HostMetrics : Type 0 where
  pub cpu_pct : Ratio
  pub mem_used_bytes : ℕ
  pub mem_total_bytes : ℕ
  pub disk_used_bytes : ℕ
  pub disk_total_bytes : ℕ
  pub load1 : Text
  pub uptime_secs : ℕ
  pub vm_count : ℕ

pub record MachineMetrics : Type 0 where
  pub cpu_pct : Ratio
  pub mem_bytes : ℕ

pub record Snapshot : Type 0 where
  pub host : HostMetrics
  pub machines : Dict MachineMetrics

pub record MachinePid : Type 0 where
  pub id : Text
  pub pid : ℕ

-- rawSample; `at` in nanoseconds
pub record RawSample : Type 0 where
  pub at : ℕ
  pub host_idle : ℕ
  pub host_total : ℕ
  pub pid_ticks : Dict ℕ

unfoldable pub host_cpu_percent : ℕ → ℕ → ℕ → ℕ → Ratio
host_cpu_percent prev_idle prev_total idle total =
    let delta_total = total - prev_total in
    let delta_idle = idle - prev_idle in
    if leb total prev_total || ltb idle prev_idle
    then zero_ratio
    else if ltb delta_total delta_idle
    then zero_ratio
    else record { num = (delta_total - delta_idle) * 100; den = delta_total }

-- ticks / 100 / seconds * 100, of an elapsed time in nanoseconds
unfoldable pub pid_cpu_percent : ℕ → ℕ → ℕ → Ratio
pid_cpu_percent prev_ticks ticks elapsed =
    if leb elapsed 0 || ltb ticks prev_ticks
    then zero_ratio
    else record { num = (ticks - prev_ticks) * 1000000000; den = elapsed }

-- A quotient between 0 and 100
pub record IsPercent (r : Ratio) : Type 0 where
  pub defined : 1 ≤ r.den
  pub bounded : r.num ≤ 100 * r.den

-- The host's utilization is between 0 and 100 percent, whatever the four counters are.
pub host_cpu_percent-IsPercent :
    (prev_idle prev_total idle total : ℕ)
    → IsPercent (host_cpu_percent prev_idle prev_total idle total)
unfolding host_cpu_percent
host_cpu_percent-IsPercent prev_idle prev_total idle total = ground arith
