-- ===== src/Limit/Governor.antt =====
-- CpuGovernor of src/limit.rs. What the clock, getloadavg and getrusage answer is given; `none`
-- stands for a call that fails.
pub mod Target
pub mod Ticks
use rust_pcaprune.Prelude.{
  ℕ, ◌-◌, ◌*◌, ◌^◌, Bool, true, false, Option, none, some, leb, if◌then◌else◌,
}
use rust_pcaprune.Limit.Float.{Float, as_f64, clamp}

pub record CpuGovernor {ℓ} (F : Type ℓ) : Type ℓ where
  pub max_cpu_percent : Option F
  pub backoff_above : Option F
  pub backoff_strength : F
  pub num_cpus : F
  pub last_tick : ℕ
  pub last_process_cpu_secs : F
  pub last_system_refresh : ℕ
  pub system_busy_percent : F

-- `libc::rusage`: seconds and microseconds of the user's and of the system's time.
pub record Rusage : Type 0 where
  pub user_sec : ℕ
  pub user_usec : ℕ
  pub sys_sec : ℕ
  pub sys_usec : ℕ

pub record Readings {ℓ} (F : Type ℓ) : Type ℓ where
  pub now : ℕ
  pub load : Option F
  pub usage : Option Rusage

module _ {ℓ} {F : Type ℓ} ⦃f : Float F⦄ where
  unfoldable pub busy_percent : Option F → F → F
  busy_percent none num_cpus = as_f64 0
  busy_percent (some load) num_cpus =
      if f.lt (as_f64 0) num_cpus
      then clamp (f.mul (f.div load num_cpus) (as_f64 100)) (as_f64 0) (as_f64 100)
      else as_f64 0

  unfoldable pub process_cpu_secs : Option Rusage → F
  process_cpu_secs none = as_f64 0
  process_cpu_secs (some ru) =
      let user = f.add (as_f64 ru.user_sec) (f.mul (as_f64 ru.user_usec) (f.ratio 1 1000000)) in
      let sys = f.add (as_f64 ru.sys_sec) (f.mul (as_f64 ru.sys_usec) (f.ratio 1 1000000)) in
      f.add user sys

  -- `available_parallelism().map(…).unwrap_or(1.0)`
  unfoldable pub cpus : Option ℕ → F
  cpus none = as_f64 1
  cpus (some n) = as_f64 n

  -- `CpuGovernor::new` where a limit is given.
  unfoldable pub governor : Option F → Option F → F → Option ℕ → Readings F → CpuGovernor F
  governor max_cpu_percent backoff_above strength parallelism readings = record {
    max_cpu_percent = max_cpu_percent;
    backoff_above = backoff_above;
    backoff_strength = clamp strength (as_f64 0) (as_f64 1);
    num_cpus = cpus parallelism;
    last_tick = readings.now;
    last_process_cpu_secs = process_cpu_secs readings.usage;
    last_system_refresh = readings.now;
    system_busy_percent = busy_percent readings.load (cpus parallelism);
  }

  unfoldable pub governor_new :
      Option F → Option F → F → Option ℕ → Readings F → Option (CpuGovernor F)
  governor_new none none strength parallelism readings = none
  governor_new (some p) above strength parallelism readings =
      some (governor (some p) above strength parallelism readings)
  governor_new none (some a) strength parallelism readings =
      some (governor none (some a) strength parallelism readings)

  -- `self.max_cpu_percent.unwrap_or(100.0)`
  unfoldable pub hard_cap : Option F → F
  hard_cap none = as_f64 100
  hard_cap (some p) = p

  -- What the load takes off, from `let span` on.
  unfoldable pub reduction : F → F → F → F
  reduction strength busy threshold =
      let span = f.maximum (f.sub (as_f64 100) threshold) (as_f64 1) in
      f.mul strength (f.minimum (f.div (f.sub busy threshold) span) (as_f64 1))

  unfoldable pub target_above : Option F → F → F → F → F
  target_above none hard strength busy = hard
  target_above (some threshold) hard strength busy =
      if f.lt busy threshold
      then hard
      else f.mul hard (f.sub (as_f64 1) (reduction strength busy threshold))

  unfoldable pub effective_target_percent : CpuGovernor F → F
  effective_target_percent g =
      target_above g.backoff_above (hard_cap g.max_cpu_percent) g.backoff_strength
        g.system_busy_percent

  -- `if now.duration_since(self.last_system_refresh) >= Duration::from_millis(500)`
  unfoldable pub refresh : Readings F → CpuGovernor F → CpuGovernor F
  refresh readings g =
      if leb (500 * 10 ^ 6) (readings.now - g.last_system_refresh)
      then record g {
        system_busy_percent = busy_percent readings.load g.num_cpus;
        last_system_refresh = readings.now;
      }
      else g

  -- The sleep for a process above its target.
  unfoldable pub sleep_secs : F → F → F
  sleep_secs used target =
      let overshoot = f.div (f.sub used target) (f.maximum target (as_f64 1)) in
      clamp (f.mul (f.ratio 5 100) overshoot) (f.ratio 1 1000) (f.ratio 5 10)

  -- `process_pct_of_machine`
  unfoldable pub process_percent : CpuGovernor F → F → F → F
  process_percent g cpu_now wall =
      let cpu_delta = f.maximum (f.sub cpu_now g.last_process_cpu_secs) (as_f64 0) in
      f.mul (f.div (f.div cpu_delta wall) g.num_cpus) (as_f64 100)

  unfoldable pub throttle : F → CpuGovernor F → CpuGovernor F × Option F
  throttle used g =
      let target = effective_target_percent g in
      if f.lt target used then (g, some (sleep_secs used target)) else (g, none)

  -- The governor behind `tick`, and its sleep.
  unfoldable pub tick : Readings F → CpuGovernor F → CpuGovernor F × Option F
  tick readings g =
      let wall = f.as_secs (readings.now - g.last_tick) in
      if f.lt wall (f.ratio 1 1000)
      then (g, none)
      else let cpu_now = process_cpu_secs readings.usage in
        throttle (process_percent g cpu_now wall) (record (refresh readings g) {
          last_process_cpu_secs = cpu_now;
          last_tick = readings.now;
        })
