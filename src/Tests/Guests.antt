-- ===== src/Tests/Guests.antt =====
-- The environment of a guest, its boot, and a sample of the metrics.
use oakberryio.Prelude.{
  ◌≡◌, refl, arith, ℕ, Bool, true, false, Option, none, some, List, [], ◌∷◌, ◌++◌, map, Text, t,
  ◌==◌, nat_eq, text_eq, if◌then◌else◌, any, sort, le_text,
}
use oakberryio.Prelude.Dict.{Dict, lookup, keys, mem}
use oakberryio.Prelude.Results.{Error, ok}
use oakberryio.Mmds.{Guest, Mount, merged, merge_env}
use oakberryio.Init.{
  Kernel, Log, Status, exited, signaled, Wait, interrupted, child, answer, Attempt, restart,
}
use oakberryio.Init.Env.{baseline_env, default_path, child_env-lookup}
use oakberryio.Init.Reap.{status_code}
use oakberryio.Init.Boot.{made, run, main}
use oakberryio.Init.Outcome.{Booted, run-Booted, main-restarts}
use oakberryio.Init.Handover.{Reports, run-Reports}
use oakberryio.Metrics.{zero_ratio, Snapshot, RawSample}
use oakberryio.Metrics.Sampler.{Reader, sampled}
use oakberryio.Store.{Db, Machine, running}
use oakberryio.Store.Machines.{running_machines, state_eq}
use oakberryio.Api.Panel.{
  Panel, machine_pid, tick, metrics_view, metrics_machine, listed, metrics_view-tick,
}
use oakberryio.Deploy.GuestEnv.{env_slice_to_map}
use oakberryio.Deploy.GuestEnv.Layers.{merge_env-lookup}
use oakberryio.Tests.{one_app}

abbrev payload : Guest
payload = record {
  machine_id = t "aa";
  app = t "web";
  ip = t "10.200.1.2/24";
  gateway = t "10.200.1.1";
  dns = t "10.200.1.1";
  env = (t "PORT", t "8080") ∷ [];
  entrypoint = t "/app" ∷ [];
  cmd = [];
  working_dir = t "/";
  mounts = record { device = t "/dev/vdb"; dest = t "/data" } ∷ [];
}

-- Every call succeeds; an orphan exits before the child, which is killed by signal 9.
abbrev kernel : Kernel
kernel = record {
  answers = λ c. none;
  addrs = t "10.200.1.2" ∷ [];
  console = 3;
  valid_addr = λ s. true;
  valid_ip = λ s. true;
  mmds = λ i. answer payload;
  child_pid = 7;
  waits = interrupted ∷ child 12 (exited 0) ∷ child 7 (signaled 9) ∷ [];
  dev_is_set_up = true;
}

abbrev after_run : Log
after_run = (run kernel []).1

ran : run kernel [] ≡ (ok tt, after_run)
unfolding oakberryio.Init.Boot.tolerates oakberryio.Init.Boot.recorded oakberryio.Init.Boot.unless
    oakberryio.Init.Boot.call_but oakberryio.Init.Boot.call oakberryio.Init.Boot.mount_each
    oakberryio.Init.Boot.mount_all oakberryio.Init.Boot.use_console oakberryio.Init.Boot.ensure_fds
    oakberryio.Init.Boot.ensure_stdio oakberryio.Init.Boot.bring_up
    oakberryio.Init.Boot.add_fallback oakberryio.Init.Boot.ensure_fallback_addr
    oakberryio.Init.Boot.remove_fallback_addr oakberryio.Init.Boot.route_to_mmds
    oakberryio.Init.Boot.fetch_from oakberryio.Init.Boot.fetch_guest
    oakberryio.Init.Boot.configure_addr oakberryio.Init.Boot.remove_if
    oakberryio.Init.Boot.write_network_files oakberryio.Init.Boot.mount_volumes
    oakberryio.Init.Boot.note_dev oakberryio.Init.Boot.run_child oakberryio.Init.Boot.unmount_all
    oakberryio.Init.Boot.prepare oakberryio.Init.Boot.set_up oakberryio.Init.Boot.finish
    oakberryio.Init.Boot.run oakberryio.Init.Boot.main oakberryio.Init.Env.resolv_conf
    oakberryio.Init.Env.hosts_file oakberryio.Init.Env.env_or oakberryio.Init.Env.baseline_env
    oakberryio.Init.Env.child_env oakberryio.Init.Reap.status_code oakberryio.Init.Reap.reap
    oakberryio.Effects.fail oakberryio.Effects.pure oakberryio.Effects.gets oakberryio.Effects.lift
    oakberryio.Effects.asks oakberryio.Effects.finally oakberryio.Effects.on_error
    oakberryio.Effects.modify oakberryio.Effects.◌>>=◌ oakberryio.Mmds.argv
    oakberryio.Mmds.split_env oakberryio.Mmds.add_pairs oakberryio.Mmds.merged
    oakberryio.Mmds.value_or_empty oakberryio.Mmds.merge_env oakberryio.Text.Decimal.itoa
    oakberryio.Text.Decimal.is_digit oakberryio.Text.Decimal.read_digits
    oakberryio.Prelude.Dict.lookup oakberryio.Prelude.Dict.insert oakberryio.Prelude.Dict.delete
    oakberryio.Prelude.Dict.insert_all oakberryio.Prelude.Dict.keys oakberryio.Prelude.Dict.mem
    text_eq nat_eq sort le_text
ran = refl

run-Booted_example : Booted kernel after_run
run-Booted_example = run-Booted kernel [] after_run ran

run-Reports_example : Reports (status_code (signaled 9)) after_run
unfolding status_code nat_eq
run-Reports_example =
    run-Reports kernel (interrupted ∷ child 12 (exited 0) ∷ []) (signaled 9) [] [] after_run refl
      (tt, (refl, tt)) (omega arith) ran

main-restarts_example :
    (earlier : Log) × (main kernel (λ (e : Error). t "failed") [] ≡ made kernel restart ∷ earlier)
main-restarts_example = main-restarts kernel (λ e. t "failed") []

abbrev reader : Reader
reader = record {
  now = 5000000000;
  host_cpu = ok (40, 100);
  mem_info = ok (1024, 4096);
  disk_usage = ok (1, 2);
  load1 = ok (t "0.10");
  uptime = ok 60;
  pid_cpu = λ pid. ok (if pid == 9 then some 250 else none);
  pid_mem = λ pid. ok 4096;
}

abbrev row : Text → ℕ → Machine
row id pid = record {
  id = id;
  app = t "web";
  release_id = 1;
  node_id = t "local";
  ip = id;
  tap = t "oak-" ++ id;
  state = running;
  pid = some pid;
  created_at = 3;
}

-- Two machines run at the tick, and later one of them and another.
abbrev at_tick : Db
at_tick = record one_app { machines = row (t "aa") 9 ∷ row (t "bb") 10 ∷ [] }

abbrev later : Db
later = record one_app { machines = row (t "cc") 11 ∷ row (t "aa") 9 ∷ [] }

abbrev before : RawSample
before = record { at = 0; host_idle = 20; host_total = 50; pid_ticks = (t "aa", 100) ∷ [] }

abbrev snapshot : Snapshot
snapshot = record {
  host = record {
    cpu_pct = record { num = 3000; den = 50 };
    mem_used_bytes = 1024;
    mem_total_bytes = 4096;
    disk_used_bytes = 1;
    disk_total_bytes = 2;
    load1 = t "0.10";
    uptime_secs = 60;
    vm_count = 2;
  };
  machines =
      (
        t "aa",
        record { cpu_pct = record { num = 150000000000; den = 5000000000 }; mem_bytes = 4096 },
      )
      ∷ (t "bb", record { cpu_pct = record { num = 0; den = 1 }; mem_bytes = 4096 })
      ∷ [];
}

abbrev next : RawSample
next = record { at = 5000000000; host_idle = 40; host_total = 100; pid_ticks = (t "aa", 250) ∷ [] }

taken :
    sampled reader (map machine_pid (running_machines at_tick)) (some before) ≡ ok (snapshot, next)
unfolding oakberryio.Prelude.Dict.lookup oakberryio.Prelude.Dict.insert
    oakberryio.Prelude.Dict.delete oakberryio.Prelude.Dict.insert_all oakberryio.Prelude.Dict.keys
    oakberryio.Prelude.Dict.mem oakberryio.Metrics.host_cpu_percent
    oakberryio.Metrics.pid_cpu_percent oakberryio.Metrics.Sampler.read_machines
    oakberryio.Metrics.Sampler.add_percents oakberryio.Metrics.Sampler.compare_with
    oakberryio.Metrics.Sampler.host_metrics oakberryio.Metrics.Sampler.sampled
    oakberryio.Metrics.Sampler.sample oakberryio.Prelude.sort oakberryio.Prelude.any
    oakberryio.Table.select_by oakberryio.Store.Machines.running_machines
    oakberryio.Store.Machines.newest_first oakberryio.Store.Machines.state_eq
    oakberryio.Api.Panel.machine_pid oakberryio.Store.Machines.coalesce text_eq nat_eq
taken = refl

abbrev panel : Panel
panel = record { snap = record snapshot { machines = [] }; prev = some before }

metrics_view-tick_example :
    (listed (metrics_view later (tick reader at_tick panel).snap) ≡ t "cc" ∷ t "aa" ∷ [])
    × ((metrics_machine (tick reader at_tick panel).snap (row (t "cc") 11)).cpu_pct ≡ zero_ratio)
    × ((metrics_machine (tick reader at_tick panel).snap (row (t "cc") 11)).mem_bytes ≡ 0)
unfolding oakberryio.Prelude.sort oakberryio.Prelude.any oakberryio.Table.select_by
    oakberryio.Store.Machines.running_machines oakberryio.Store.Machines.newest_first
    oakberryio.Store.Machines.state_eq oakberryio.Api.Panel.machine_pid
    oakberryio.Store.Machines.coalesce text_eq nat_eq
metrics_view-tick_example =
    metrics_view-tick reader at_tick later panel snapshot next taken (row (t "cc") 11) refl

abbrev overriding : Dict Text
overriding = (t "PORT", t "8080") ∷ (t "KEY", t "a=b") ∷ []

merge_env-lookup_example :
    lookup
      (t "KEY")
      (env_slice_to_map (merge_env (t "KEY=old" ∷ t "LANG=C" ∷ t "junk" ∷ []) overriding))
    ≡ some (t "a=b")
unfolding oakberryio.Prelude.any oakberryio.Prelude.Dict.lookup oakberryio.Prelude.Dict.insert
    oakberryio.Prelude.Dict.insert_all oakberryio.Prelude.Dict.keys oakberryio.Prelude.Dict.mem
    oakberryio.Mmds.split_env oakberryio.Mmds.add_pairs oakberryio.Mmds.merged text_eq nat_eq
merge_env-lookup_example =
    merge_env-lookup (t "KEY=old" ∷ t "LANG=C" ∷ t "junk" ∷ []) overriding (t "KEY")
      (refl, (refl, tt)) refl
