-- ===== src/Limit/Governor/Ticks.antt =====
-- tick of CpuGovernor of src/limit.rs: what it keeps and how long it sleeps.
use rust_pcaprune.Prelude.{
  if_elim, ◌∙◌, ap, leb, ℕ, ◌-◌, ◌*◌, ◌^◌, ◌≡◌, refl, Option, none, some, leb, Bool-cases, inl, inr,
}
use rust_pcaprune.Limit.Float.{Float, as_f64, ◌≼◌, ◌≺◌, IsIeee}
use rust_pcaprune.Limit.Governor.{
  CpuGovernor, Readings, hard_cap, busy_percent, process_cpu_secs, cpus, governor,
  effective_target_percent, refresh, sleep_secs, process_percent, throttle, tick,
}
use rust_pcaprune.Limit.Governor.Target.{
  Within, ValidCap, ValidThreshold, Valid, zero_refl, one_refl, zero_le_hundred, clamp-Within,
  effective_target-Within,
}

-- The load per processor is a number, where it is known.
abbrev pub Measured : {F : Type 0} ⦃f : Float F⦄ → Option F → F → Type 0
Measured none num_cpus = Unit
Measured ⦃f⦄ (some load) num_cpus =
    f.mul (f.div load num_cpus) (as_f64 100) ≼ f.mul (f.div load num_cpus) (as_f64 100)

module _ {F : Type 0} ⦃f : Float F⦄ (ieee : IsIeee F) where
  busy-Within :
      (load : Option F) (num_cpus : F)
      → Measured load num_cpus
      → Within (as_f64 0) (as_f64 100) (busy_percent load num_cpus)
  unfolding busy_percent
  busy-Within none num_cpus m = (zero_refl ieee, zero_le_hundred ieee)
  busy-Within (some load) num_cpus m = elim (Bool-cases (f.lt (as_f64 0) num_cpus)) [
    | inl l ↦ rw l (
        clamp-Within ieee (f.mul (f.div load num_cpus) (as_f64 100)) (as_f64 0) (as_f64 100) m
          (zero_le_hundred ieee)
          (ieee.le_refl_right (as_f64 0) (as_f64 100) (zero_le_hundred ieee)))
    | inr l ↦ rw l (zero_refl ieee, zero_le_hundred ieee)
  ]

  Valid-refresh :
      (readings : Readings F) (g : CpuGovernor F)
      → Measured readings.load g.num_cpus
      → Valid g
      → Valid (refresh readings g) × ((refresh readings g).num_cpus ≡ g.num_cpus)
  unfolding refresh
  Valid-refresh readings g m (c, t, s, b) =
      elim (Bool-cases (leb (500 * 10 ^ 6) (readings.now - g.last_system_refresh))) [
        | inl l ↦ rw l ((c, t, s, busy-Within readings.load g.num_cpus m), refl)
        | inr l ↦ rw l ((c, t, s, b), refl)
      ]

  -- A sleep of the governor, and why.
  sleep_secs-Within :
      (used target : F)
      → target ≺ used
      → Within (f.ratio 1 1000) (f.ratio 5 10) (sleep_secs used target)
  unfolding sleep_secs
  sleep_secs-Within used target l =
      let most = f.maximum target (as_f64 1) in
      let overshoot = f.div (f.sub used target) most in
      let nonneg =
        ieee.mul_nonneg (f.ratio 5 100) overshoot ieee.zero_lt_twentieth ieee.twentieth_finite (
          ieee.div_nonneg (f.sub used target) most (ieee.sub_pos used target l)
            (ieee.le_max_right target (as_f64 1) (one_refl ieee))
            (ieee.below_finite target used l)) in
      clamp-Within ieee (f.mul (f.ratio 5 100) overshoot) (f.ratio 1 1000) (f.ratio 5 10)
        (ieee.le_refl_right (as_f64 0) (f.mul (f.ratio 5 100) overshoot) nonneg) ieee.milli_le_half
        (ieee.le_refl_right (f.ratio 1 1000) (f.ratio 5 10) ieee.milli_le_half)

-- The sleep of a tick, if any, is for a process that is above its target, and not too long.
abbrev pub Fair : {F : Type 0} ⦃f : Float F⦄ → F → F → Option F → Type 0
Fair used target none = Unit
Fair ⦃f⦄ used target (some s) = (target ≺ used) × Within (f.ratio 1 1000) (f.ratio 5 10) s

module _ {F : Type 0} ⦃f : Float F⦄ (ieee : IsIeee F) where
  throttle-Fair :
      (used : F) (g : CpuGovernor F)
      → ((throttle used g).0 ≡ g) × Fair used (effective_target_percent g) (throttle used g).1
  unfolding throttle
  throttle-Fair used g = elim (Bool-cases (f.lt (effective_target_percent g) used)) [
    | inl l ↦ rw l (refl, (l, sleep_secs-Within ieee used (effective_target_percent g) l))
    | inr l ↦ rw l (refl, tt)
  ]

  -- A tick keeps the governor valid: its limits positive numbers, its strength from 0 to 1 and its
  -- load from 0 to 100, where the load that is measured is a number. The effective target is then
  -- from 0 to the hard cap, so that backing off only lowers it. The tick sleeps, if at all, between
  -- a millisecond and half a second, and only where the process has used more than the effective
  -- target since the last tick.
  pub tick-Fair :
      (readings : Readings F) (g : CpuGovernor F)
      → Measured readings.load g.num_cpus
      → Valid g
      → let g' = (tick readings g).0 in
        Valid g'
        × Within (as_f64 0) (hard_cap g'.max_cpu_percent) (effective_target_percent g')
        × Fair
            (process_percent g
              (process_cpu_secs readings.usage)
              (f.as_secs (readings.now - g.last_tick)))
            (effective_target_percent g')
            (tick readings g).1
  unfolding tick
  tick-Fair readings g m v =
      let wall = f.as_secs (readings.now - g.last_tick) in
      elim (Bool-cases (f.lt wall (f.ratio 1 1000))) [
        | inl l ↦ rw l (v, effective_target-Within ieee g v, tt)
        | inr l ↦
            let cpu_now = process_cpu_secs readings.usage in
            let used = process_percent g cpu_now wall in
            let fresh : CpuGovernor F = record (refresh readings g) {
              last_process_cpu_secs = cpu_now;
              last_tick = readings.now;
            } in
            let (e, x) = throttle-Fair used fresh in
            let valid = (Valid-refresh ieee readings g m v).0 in
            rw (l, e) (valid, effective_target-Within ieee fresh valid, x)
      ]

  -- A new governor is valid.
  pub governor-Valid :
      (cap above : Option F) (strength : F) (parallelism : Option ℕ) (readings : Readings F)
      → ValidCap cap
      → ValidThreshold above
      → strength ≼ strength
      → Measured readings.load (cpus parallelism)
      → Valid (governor cap above strength parallelism readings)
  unfolding governor
  governor-Valid cap above strength parallelism readings c t s m = (
    c,
    t,
    clamp-Within ieee strength (as_f64 0) (as_f64 1) s ieee.zero_le_one (one_refl ieee),
    busy-Within ieee readings.load (cpus parallelism) m,
  )

  pub tick-num_cpus :
      (readings : Readings F) (g : CpuGovernor F) → (tick readings g).0.num_cpus ≡ g.num_cpus
  unfolding tick refresh
  tick-num_cpus readings g =
      let cpu_now = process_cpu_secs readings.usage in
      let wall = f.as_secs (readings.now - g.last_tick) in
      let used = process_percent g cpu_now wall in
      let fresh : CpuGovernor F = record (refresh readings g) {
        last_process_cpu_secs = cpu_now;
        last_tick = readings.now;
      } in
      if_elim (λ (x : CpuGovernor F × Option F). x.0.num_cpus ≡ g.num_cpus)
        (f.lt wall (f.ratio 1 1000)) (g, none) (throttle used fresh) (λ _. refl)
        (λ _.
          ap (λ (x : CpuGovernor F). x.num_cpus) (throttle-Fair used fresh).0
          ∙ if_elim (λ (x : CpuGovernor F). x.num_cpus ≡ g.num_cpus)
              (leb (500 * 10 ^ 6) (readings.now - g.last_system_refresh))
              (record g {
                system_busy_percent = busy_percent readings.load g.num_cpus;
                last_system_refresh = readings.now;
              })
              g (λ _. refl) (λ _. refl))
