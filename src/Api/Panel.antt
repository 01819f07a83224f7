-- ===== src/Api/Panel.antt =====
-- The figures of the control panel: sampleMetrics of internal/daemon/daemon.go, which takes a sample
-- at each tick of its clock, and handleMetrics of internal/daemon/api.go, which serves the latest one.
use oakberryio.Prelude.{
  ◌≡◌, ◌∙◌, ap, refl, arith, ℕ, false, Option, none, some, List, [], ◌∷◌, Text, ◌==◌, text_eq, any,
  map,
}
use oakberryio.Prelude.Dict.{lookup, keys, mem, mem-keys}
use oakberryio.Prelude.Results.{ok, err}
use oakberryio.Store.{Db, Machine, MachineState}
use oakberryio.Store.Machines.{running_machines, coalesce}
use oakberryio.Metrics.{
  Ratio, zero_ratio, HostMetrics, MachineMetrics, MachinePid, RawSample, Snapshot,
}
use oakberryio.Metrics.Sampler.{Reader, sample, sampled}
use oakberryio.Metrics.Sampler.Entries.{sampled-entries}
use oakberryio.Api.{Handler, respond}

-- What the metricsHolder has, and the sampler's own sample.
pub record Panel : Type 0 where
  pub snap : Snapshot
  pub prev : Option RawSample

unfoldable pub machine_pid : Machine → MachinePid
machine_pid m = record { id = m.id; pid = coalesce m.pid }

-- A tick: where a reader fails the figures stay as they are.
unfoldable pub tick : Reader → Db → Panel → Panel
tick r db p =
    let (outcome, prev) = sample r (map machine_pid (running_machines db)) p.prev in
    record { snap = elim outcome [ ok snap ↦ snap | err e ↦ p.snap ]; prev = prev }

pub record MetricsMachine : Type 0 where
  pub id : Text
  pub app : Text
  pub ip : Text
  pub pid : ℕ
  pub state : MachineState
  pub cpu_pct : Ratio
  pub mem_bytes : ℕ

pub record MetricsView : Type 0 where
  pub host : HostMetrics
  pub machines : List MetricsMachine

-- snap.Machines[m.ID], the zero value where there is none
unfoldable pub figures : Snapshot → Text → MachineMetrics
figures snap id = elim (lookup id snap.machines) [
  | none ↦ record { cpu_pct = zero_ratio; mem_bytes = 0 }
  | some mm ↦ mm
]

unfoldable pub metrics_machine : Snapshot → Machine → MetricsMachine
metrics_machine snap m =
    let mm = figures snap m.id in
    record {
      id = m.id;
      app = m.app;
      ip = m.ip;
      pid = coalesce m.pid;
      state = m.state;
      cpu_pct = mm.cpu_pct;
      mem_bytes = mm.mem_bytes;
    }

unfoldable pub metrics_view : Db → Snapshot → MetricsView
metrics_view db snap = record {
  host = snap.host;
  machines = map (metrics_machine snap) (running_machines db);
}

-- The encoding of encoding/json is a parameter.
unfoldable pub handle_metrics : (MetricsView → Text) → Panel → Handler
handle_metrics print p w = respond 200 (print (metrics_view w.db p.snap)) w

tick-snap :
    (r : Reader) (db : Db) (p : Panel) {snap : Snapshot} {next : RawSample}
    → sampled r (map machine_pid (running_machines db)) p.prev ≡ ok (snap, next)
    → (tick r db p).snap ≡ snap
unfolding tick sample
tick-snap r db p e = rw (e, tick, sample) refl

any-map-machine_pid :
    (id : Text) (ms : List Machine)
    → any (λ m. m.id == id) (map machine_pid ms) ≡ any (λ m. m.id == id) ms
unfolding any machine_pid
any-map-machine_pid id [] = refl
any-map-machine_pid id (m ∷ ms) = ground (arith, any-map-machine_pid id ms)

figures_absent :
    (snap : Snapshot) (id : Text)
    → mem id (keys snap.machines) ≡ false
    → figures snap id ≡ record { cpu_pct = zero_ratio; mem_bytes = 0 }
unfolding figures
figures_absent snap id e = ground (arith, mem-keys id snap.machines)

-- The machines that a view lists.
abbrev pub listed : MetricsView → List Text
listed view = map (λ (m : MetricsMachine). m.id) view.machines

listed-metrics_view :
    (db : Db) (snap : Snapshot)
    → listed (metrics_view db snap) ≡ map (λ (m : Machine). m.id) (running_machines db)
unfolding metrics_view metrics_machine
listed-metrics_view db snap = ids (running_machines db)
  where
    ids :
        (ms : List Machine)
        → map (λ (m : MetricsMachine). m.id) (map (metrics_machine snap) ms)
          ≡ map (λ (m : Machine). m.id) ms
    ids [] = refl
    ids (m ∷ ms) = ap (λ rest. m.id ∷ rest) (ids ms)

-- After a tick that took a sample, whatever has happened since: GET /metrics lists the machines that
-- run now, in the order of the store, and a machine that did not run at the tick reports zero.
pub metrics_view-tick :
    (r : Reader) (then_db now_db : Db) (p : Panel) (snap : Snapshot) (next : RawSample)
    → sampled r (map machine_pid (running_machines then_db)) p.prev ≡ ok (snap, next)
    → (m : Machine) → any (λ (n : Machine). n.id == m.id) (running_machines then_db) ≡ false
    → (listed (metrics_view now_db (tick r then_db p).snap)
        ≡ map (λ (n : Machine). n.id) (running_machines now_db))
      × ((metrics_machine (tick r then_db p).snap m).cpu_pct ≡ zero_ratio)
      × ((metrics_machine (tick r then_db p).snap m).mem_bytes ≡ 0)
unfolding metrics_machine
metrics_view-tick r then_db now_db p snap next e m gone = (
  listed-metrics_view now_db (tick r then_db p).snap,
  ap (λ (mm : MachineMetrics). mm.cpu_pct) nothing,
  ap (λ (mm : MachineMetrics). mm.mem_bytes) nothing,
)
  where
    nothing : figures (tick r then_db p).snap m.id ≡ record { cpu_pct = zero_ratio; mem_bytes = 0 }
    nothing = figures_absent (tick r then_db p).snap m.id (
        rw (tick-snap r then_db p e) (
          sampled-entries r (map machine_pid (running_machines then_db)) p.prev snap next e m.id
          ∙ any-map-machine_pid m.id (running_machines then_db)
          ∙ gone))
