-- ===== src/Metrics/Sampler/Entries.antt =====
-- Which machines a snapshot of internal/metrics/metrics.go has, and what it says of a machine.
use oakberryio.Prelude.{
  ◌≡◌, ◌∙◌, refl, subst, arith, ℕ, ◌-◌, Bool, true, false, ◌||◌, Option, none, some, List, [], ◌∷◌,
  Text, ◌==◌, text_eq, any, All, Bool-cases, Option-cases, inl, inr, ==_iff, ==_refl,
}
use oakberryio.Prelude.Dict.{Dict, lookup, insert, keys, mem, mem-keys, lookup-insert}
use oakberryio.Prelude.Results.{Result, ok, >>=-eq-ok}
use oakberryio.Table.Laws.{All-imp}
use oakberryio.Metrics.{
  Ratio, zero_ratio, HostMetrics, MachineMetrics, MachinePid, RawSample, Snapshot, pid_cpu_percent,
}
use oakberryio.Metrics.Sampler.{
  Reader, Readings, read_machines, add_percents, add_ticks, with_percent, compare_with, sampled,
}

abbrev is_some : Option MachineMetrics → Bool
is_some none = false
is_some (some mm) = true

-- A machine is in the dictionary.
abbrev has_entry : Text → Dict MachineMetrics → Bool
has_entry id d = is_some (lookup id d)

has_entry-with_percent :
    (id j : Text) (pct : Ratio) (d : Dict MachineMetrics)
    → has_entry id d ≡ true
    → has_entry j (with_percent id pct d) ≡ has_entry j d
has_entry-with_percent id j pct d h = elim (Option-cases (lookup id d)) [
  | inl e ↦ absurd (cc)
  | inr (mm, e) ↦
      rw (e, with_percent)
        (rw (lookup-insert j id (record mm { cpu_pct = pct }) d) (ground (arith, ==_iff id j)))
]

-- Each process with ticks belongs to a machine with an entry.
abbrev Entered : Dict ℕ → Dict MachineMetrics → Type 0
Entered ts d = All (λ id. has_entry id d ≡ true) (keys ts)

has_entry-add_percents :
    (prev : Dict ℕ) (elapsed : ℕ) (ts : Dict ℕ) (d : Dict MachineMetrics) (j : Text)
    → Entered ts d
    → has_entry j (add_percents prev elapsed ts d) ≡ has_entry j d
unfolding add_percents keys
has_entry-add_percents prev elapsed [] d j h = refl
has_entry-add_percents prev elapsed ((id, ticks) ∷ ts) d j (here, h) =
    elim (Option-cases (lookup id prev)) [
      | inl e ↦ rw (e, add_percents) (has_entry-add_percents prev elapsed ts d j h)
      | inr (before, e) ↦
          let pct = pid_cpu_percent before ticks elapsed in
          rw (e, add_percents)
            (has_entry-add_percents prev elapsed ts (with_percent id pct d) j
                (All-imp (keys ts) (λ k p. has_entry-with_percent id k pct d here ∙ p) h)
              ∙ has_entry-with_percent id j pct d here)
    ]

Entered-insert :
    (id : Text) (ticks : ℕ) (ts : Dict ℕ) (d : Dict MachineMetrics)
    → has_entry id d ≡ true
    → Entered ts d
    → Entered (insert id ticks ts) d
unfolding insert keys
Entered-insert id ticks [] d h k = (h, tt)
Entered-insert id ticks ((j, old) ∷ ts) d h (here, k) = elim (Bool-cases (j == id)) [
  | inl e ↦ rw (e, insert) (h, k)
  | inr e ↦ rw (e, insert) (here, Entered-insert id ticks ts d h k)
]

abbrev one_more : MachinePid → Option ℕ → ℕ → Readings → Readings
one_more m ticks mem acc = record {
  ticks = add_ticks m.id ticks acc.ticks;
  machines = insert m.id (record { cpu_pct = zero_ratio; mem_bytes = mem }) acc.machines;
}

has_entry-insert :
    (id j : Text) (mm : MachineMetrics) (d : Dict MachineMetrics)
    → has_entry j (insert id mm d) ≡ (id == j || has_entry j d)
has_entry-insert id j mm d = rw (lookup-insert j id mm d) (ground arith)

Entered-one_more :
    (m : MachinePid) (ticks : Option ℕ) (mem : ℕ) (acc : Readings)
    → Entered acc.ticks acc.machines
    → Entered (one_more m ticks mem acc).ticks (one_more m ticks mem acc).machines
Entered-one_more m ticks mem acc h = go ticks
  where
    wider : All (λ k. has_entry k (one_more m none mem acc).machines ≡ true) (keys acc.ticks)
    wider =
        All-imp (keys acc.ticks) (λ k p. has_entry-insert m.id k _ acc.machines ∙ ground (arith, p))
          h

    go : (o : Option ℕ) → Entered (one_more m o mem acc).ticks (one_more m o mem acc).machines
    go none = wider
    go (some n) =
        Entered-insert m.id n acc.ticks (one_more m none mem acc).machines
          (has_entry-insert m.id m.id _ acc.machines ∙ ground (arith, ==_refl m.id)) wider

read_machines-entries :
    (r : Reader) (ms : List MachinePid) (acc : Readings) {readings : Readings}
    → Entered acc.ticks acc.machines
    → read_machines r ms acc ≡ ok readings
    → Entered readings.ticks readings.machines
      × ((j : Text)
          → has_entry j readings.machines ≡ (any (λ m. m.id == j) ms || has_entry j acc.machines))
unfolding read_machines any
read_machines-entries r [] acc {readings} h e =
    let same : acc ≡ readings = cc in
    subst
      (λ (x : Readings).
        Entered x.ticks x.machines
        × ((j : Text) → has_entry j x.machines ≡ has_entry j acc.machines))
      (same) (h, λ j. refl)
read_machines-entries r (m ∷ ms) acc h e =
    let (ticks, e1, f1) = >>=-eq-ok (r.pid_cpu m.pid) _ e in
    let (mem, e2, f2) = >>=-eq-ok (r.pid_mem m.pid) _ f1 in
    let (entered, same) =
      read_machines-entries r ms (one_more m ticks mem acc) (Entered-one_more m ticks mem acc h)
        f2 in
    (
      entered,
      λ j.
          same j
          ∙ ground (
            arith,
            has_entry-insert m.id j (record { cpu_pct = zero_ratio; mem_bytes = mem }) acc.machines,
          ),
    )

nothing-Entered : Entered [] []
unfolding keys
nothing-Entered = tt

or_nothing : (b : Bool) (j : Text) → (b || has_entry j []) ≡ b
unfolding lookup
or_nothing true j = refl
or_nothing false j = refl

compare_with-entries :
    (prev : Option RawSample) (now : ℕ) (cpu : ℕ × ℕ) (readings : Readings) (host : HostMetrics)
    (j : Text)
    → Entered readings.ticks readings.machines
    → has_entry j (compare_with prev now cpu readings host).machines ≡ has_entry j readings.machines
unfolding compare_with
compare_with-entries none now cpu readings host j h = refl
compare_with-entries (some prev) now cpu readings host j h =
    has_entry-add_percents prev.pid_ticks (now - prev.at) readings.ticks readings.machines j h

-- A snapshot has an entry for each of the machines that were asked about, whether their processes
-- are still there or not, and for no other.
pub sampled-entries :
    (r : Reader) (ms : List MachinePid) (prev : Option RawSample) (snap : Snapshot)
    (next : RawSample)
    → sampled r ms prev ≡ ok (snap, next)
    → (j : Text) → mem j (keys snap.machines) ≡ any (λ m. m.id == j) ms
unfolding sampled
sampled-entries r ms prev snap next e j =
    let (cpu, e1, f1) = >>=-eq-ok r.host_cpu _ e in
    let (memory, e2, f2) = >>=-eq-ok r.mem_info _ f1 in
    let (disk, e3, f3) = >>=-eq-ok r.disk_usage _ f2 in
    let (load1, e4, f4) = >>=-eq-ok r.load1 _ f3 in
    let (uptime, e5, f5) = >>=-eq-ok r.uptime _ f4 in
    let (readings, e6, f6) = >>=-eq-ok (read_machines r ms _) _ f5 in
    ends (compare_with prev r.now cpu readings _) _ f6 (
      compare_with-entries prev r.now cpu readings _ j
        (read_machines-entries r ms (record { ticks = []; machines = [] }) nothing-Entered e6).0
      ∙ (read_machines-entries r ms (record { ticks = []; machines = [] }) nothing-Entered e6).1 j
      ∙ or_nothing (any (λ m. m.id == j) ms) j)
  where
    ends :
        (made : Snapshot) (raw : RawSample)
        → ◌≡◌ {A = Result (Snapshot × RawSample)} (ok (made, raw)) (ok (snap, next))
        → has_entry j made.machines ≡ any (λ m. m.id == j) ms
        → mem j (keys snap.machines) ≡ any (λ m. m.id == j) ms
    ends made raw f h =
        let same : made ≡ snap = cc in mem-keys j snap.machines ∙ rw (← same) (ground (arith, h))
