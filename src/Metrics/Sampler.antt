-- ===== src/Metrics/Sampler.antt =====
-- Sampler.Sample of internal/metrics/metrics.go. What a reader gives during one call is a parameter.
pub mod Entries
use oakberryio.Prelude.{
  ℕ, ◌-◌, Bool, Option, none, some, List, [], ◌∷◌, Text, t, if◌then◌else◌, length,
}
use oakberryio.Prelude.Dict.{Dict, lookup, insert}
use oakberryio.Prelude.Results.{Result, ok, err, ◌>>=◌}
use oakberryio.Metrics.{
  Ratio, zero_ratio, HostMetrics, MachineMetrics, Snapshot, MachinePid, RawSample, host_cpu_percent,
  pid_cpu_percent,
}

-- The interface reader, and time.Now; a process that is gone has no ticks.
pub record Reader : Type 0 where
  pub now : ℕ
  pub host_cpu : Result (ℕ × ℕ)
  pub mem_info : Result (ℕ × ℕ)
  pub disk_usage : Result (ℕ × ℕ)
  pub load1 : Result Text
  pub uptime : Result ℕ
  pub pid_cpu : ℕ → Result (Option ℕ)
  pub pid_mem : ℕ → Result ℕ

-- pidTicksNow and machineMetrics
pub record Readings : Type 0 where
  pub ticks : Dict ℕ
  pub machines : Dict MachineMetrics

abbrev add_ticks : Text → Option ℕ → Dict ℕ → Dict ℕ
add_ticks id none d = d
add_ticks id (some ticks) d = insert id ticks d

unfoldable pub read_machines : Reader → List MachinePid → Readings → Result Readings
read_machines r [] acc = ok acc
read_machines r (m ∷ ms) acc = r.pid_cpu m.pid >>= λ ticks. r.pid_mem m.pid >>= λ mem.
    read_machines r ms (record {
      ticks = add_ticks m.id ticks acc.ticks;
      machines = insert m.id (record { cpu_pct = zero_ratio; mem_bytes = mem }) acc.machines;
    })

abbrev pub with_percent : Text → Ratio → Dict MachineMetrics → Dict MachineMetrics
with_percent id pct d = elim (lookup id d) [
  | none ↦ insert id (record { cpu_pct = pct; mem_bytes = 0 }) d
  | some mm ↦ insert id (record mm { cpu_pct = pct }) d
]

-- for id, ticks := range pidTicksNow
unfoldable pub add_percents : Dict ℕ → ℕ → Dict ℕ → Dict MachineMetrics → Dict MachineMetrics
add_percents prev elapsed [] d = d
add_percents prev elapsed ((id, ticks) ∷ rest) d = elim (lookup id prev) [
  | none ↦ add_percents prev elapsed rest d
  | some prev_ticks ↦
      add_percents prev elapsed rest (with_percent id (pid_cpu_percent prev_ticks ticks elapsed) d)
]

-- The percentages, where there is a sample before this one; the clock is monotonic.
unfoldable pub compare_with : Option RawSample → ℕ → ℕ × ℕ → Readings → HostMetrics → Snapshot
compare_with none now host_cpu readings host = record { host = host; machines = readings.machines }
compare_with (some prev) now (idle, total) readings host = record {
  host = record host { cpu_pct = host_cpu_percent prev.host_idle prev.host_total idle total };
  machines = add_percents prev.pid_ticks (now - prev.at) readings.ticks readings.machines;
}

unfoldable pub host_metrics : ℕ × ℕ → ℕ × ℕ → Text → ℕ → ℕ → HostMetrics
host_metrics mem disk load1 uptime count = record {
  cpu_pct = zero_ratio;
  mem_used_bytes = mem.0;
  mem_total_bytes = mem.1;
  disk_used_bytes = disk.0;
  disk_total_bytes = disk.1;
  load1 = load1;
  uptime_secs = uptime;
  vm_count = count;
}

abbrev pub raw : ℕ → ℕ × ℕ → Dict ℕ → RawSample
raw now host_cpu ticks = record {
  at = now;
  host_idle = host_cpu.0;
  host_total = host_cpu.1;
  pid_ticks = ticks;
}

-- The snapshot and the raw sample that takes the place of the one before.
unfoldable pub sampled : Reader → List MachinePid → Option RawSample → Result (Snapshot × RawSample)
sampled r machines prev = r.host_cpu >>= λ cpu. r.mem_info >>= λ mem. r.disk_usage >>= λ disk.
    r.load1 >>= λ load1. r.uptime >>= λ uptime.
    read_machines r machines (record { ticks = []; machines = [] }) >>= λ readings. ok (
      compare_with prev r.now cpu readings (host_metrics mem disk load1 uptime (length machines)),
      raw r.now cpu readings.ticks,
    )

-- Sample: on an error s.prev stays.
unfoldable pub sample :
    Reader → List MachinePid → Option RawSample → Result Snapshot × Option RawSample
sample r machines prev = elim (sampled r machines prev) [
  | err e ↦ (err e, prev)
  | ok (snap, next) ↦ (ok snap, some next)
]
