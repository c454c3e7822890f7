-- ===== src/Limit/Config.antt =====
-- LimitConfig of src/limit.rs: which limits a run has.
use rust_pcaprune.Prelude.{
  ℕ, ◌≡◌, ◌↔◌, refl, subst, true, false, Option, none, some, if◌then◌else◌, Bool-cases, inl, inr,
  arith,
}
use mathlib.Core.Option
use rust_pcaprune.Limit.Float.{Float, as_f64, ◌≼◌, ◌≺◌, Finite, IsIeee}
use rust_pcaprune.Limit.Bucket.{IoBucket, bucket_new, Bounded}
use rust_pcaprune.Limit.Governor.{CpuGovernor, Readings, cpus, governor_new}
use rust_pcaprune.Limit.Governor.Target.{Valid, ValidCap, ValidThreshold}
use rust_pcaprune.Limit.Governor.Ticks.{Measured, governor-Valid}

pub record LimitConfig {ℓ} (F : Type ℓ) : Type ℓ where
  pub max_io_mbps : Option F
  pub max_cpu_percent : Option F
  pub cpu_backoff_above : Option F
  pub cpu_backoff_strength : F

-- The `Inner` of `ResourceLimits`.
pub record ResourceLimits {ℓ} (F : Type ℓ) : Type ℓ where
  pub io : Option (IoBucket F)
  pub cpu : Option (CpuGovernor F)
  pub io_pending : ℕ

module _ {ℓ} {F : Type ℓ} ⦃f : Float F⦄ where
  -- `x.filter(|&m| m > 0.0)`
  unfoldable pub positive : Option F → Option F
  positive none = none
  positive (some m) = if f.lt (as_f64 0) m then some m else none

  unfoldable pub limits_of :
      Option (IoBucket F) → Option (CpuGovernor F) → Option (ResourceLimits F)
  limits_of none none = none
  limits_of (some b) cpu = some (record { io = some b; cpu = cpu; io_pending = 0 })
  limits_of none (some g) = some (record { io = none; cpu = some g; io_pending = 0 })

  -- `build`; the readings are those of the clock and of the machine.
  unfoldable pub build : LimitConfig F → Option ℕ → Readings F → Option (ResourceLimits F)
  build config parallelism readings =
      limits_of (Option.map (λ m. bucket_new m readings.now) (positive config.max_io_mbps)) (
        governor_new (positive config.max_cpu_percent) (positive config.cpu_backoff_above)
          config.cpu_backoff_strength parallelism readings)

-- A limit that is not given, or not a positive number.
abbrev pub Disabled {ℓ} : {F : Type ℓ} ⦃f : Float F⦄ → Option F → Type 0
Disabled none = Unit
Disabled ⦃f⦄ (some m) = f.lt (as_f64 0) m ≡ false

-- A limit that is given is a finite number.
abbrev pub GivenFinite {ℓ} : {F : Type ℓ} ⦃f : Float F⦄ → Option F → Type 0
GivenFinite none = Unit
GivenFinite (some m) = Finite m

abbrev pub ValidIo : {F : Type 0} ⦃f : Float F⦄ → Option (IoBucket F) → Type 0
ValidIo none = Unit
ValidIo (some b) = Bounded b × (as_f64 0 ≼ b.burst)

abbrev pub ValidCpu : {F : Type 0} ⦃f : Float F⦄ → Option (CpuGovernor F) → Type 0
ValidCpu none = Unit
ValidCpu (some g) = Valid g

some_injective {ℓ} : {A : Type ℓ} (a b : A) → ◌≡◌ {A = Option A} (some a) (some b) → a ≡ b
some_injective a b e = cc

module _ {F : Type 0} ⦃f : Float F⦄ where
  positive-none : (o : Option F) → (positive o ≡ none) ↔ Disabled o
  unfolding positive
  positive-none none = (λ e. tt, λ u. refl)
  positive-none (some m) = elim (Bool-cases (f.lt (as_f64 0) m)) [
    | inl l ↦ rw l (λ e. absurd (some_not_none m e), λ e. absurd (true_not_false e))
    | inr l ↦ rw l (λ e. refl, λ e. refl)
  ]
    where
      some_not_none : (x : F) → ◌≡◌ {A = Option F} (some x) none → ⊥
      some_not_none x e = cc

      true_not_false : true ≡ false → ⊥
      true_not_false e = cc

  nothing_built :
      (io cap above : Option F) (strength : F) (parallelism : Option ℕ) (readings : Readings F)
      → (limits_of
            (Option.map (λ m. bucket_new m readings.now) io)
            (governor_new cap above strength parallelism readings)
          ≡ none)
        ↔ ((io ≡ none) × (cap ≡ none) × (above ≡ none))
  unfolding limits_of governor_new
  nothing_built none none none strength parallelism readings = (λ e. (refl, refl, refl), λ x. refl)
  nothing_built none none (some a) strength parallelism readings = (λ e. cc, λ (_, _, e). cc)
  nothing_built none (some p) above strength parallelism readings = (λ e. cc, λ (_, e, _). cc)
  nothing_built (some m) cap above strength parallelism readings = (λ e. cc, λ (e, _, _). cc)

  build-none :
      (config : LimitConfig F) (parallelism : Option ℕ) (readings : Readings F)
      → (build config parallelism readings ≡ none) ↔ (
          Disabled config.max_io_mbps
          × Disabled config.max_cpu_percent
          × Disabled config.cpu_backoff_above)
  unfolding build
  build-none config parallelism readings =
      let (to, from) =
        nothing_built (positive config.max_io_mbps) (positive config.max_cpu_percent)
          (positive config.cpu_backoff_above) config.cpu_backoff_strength parallelism readings in
      let (a, a') = positive-none config.max_io_mbps in
      let (b, b') = positive-none config.max_cpu_percent in
      let (c, c') = positive-none config.cpu_backoff_above in
      (λ e. let (x, y, z) = to e in (a x, b y, c z), λ (x, y, z). from (a' x, b' y, c' z))

module _ {F : Type 0} ⦃f : Float F⦄ (ieee : IsIeee F) where
  positive-ValidCap : (o : Option F) → GivenFinite o → ValidCap (positive o)
  unfolding positive
  positive-ValidCap none k = tt
  positive-ValidCap (some m) k = elim (Bool-cases (f.lt (as_f64 0) m)) [
    | inl l ↦ rw l (ieee.lt_le (as_f64 0) m l, k)
    | inr l ↦ rw l tt
  ]

  positive-ValidThreshold : (o : Option F) → ValidThreshold (positive o)
  unfolding positive
  positive-ValidThreshold none = tt
  positive-ValidThreshold (some m) = elim (Bool-cases (f.lt (as_f64 0) m)) [
    | inl l ↦ rw l (ieee.lt_le (as_f64 0) m l)
    | inr l ↦ rw l tt
  ]

  bucket_new-Valid : (m : F) (now : ℕ) → as_f64 0 ≺ m → Finite m → ValidIo (some (bucket_new m now))
  unfolding bucket_new
  bucket_new-Valid m now l k =
      let million : F = as_f64 1000000 in
      let two : F = as_f64 2 in
      let rate = f.mul m million in
      let zero_le_million = ieee.as_f64_le 0 1000000 (omega arith) (omega arith) in
      let two_finite =
        ieee.bounded_finite two (ieee.as_f64_le 0 2 (omega arith) (omega arith))
          (ieee.as_f64_le 2 100 (omega arith) (omega arith)) in
      let nonneg : as_f64 0 ≼ f.mul rate two =
        subst (λ x. as_f64 0 ≼ x) (ieee.mul_comm two rate)
          (ieee.mul_nonneg two rate (ieee.as_f64_lt 0 2 (omega arith) (omega arith)) two_finite
            (ieee.mul_nonneg m million l k zero_le_million)) in
      let same = ieee.le_refl_right (as_f64 0) (f.mul rate two) nonneg in ((same, same), nonneg)

  new-ValidIo :
      (o : Option F) (now : ℕ)
      → GivenFinite o
      → ValidIo (Option.map (λ m. bucket_new m now) (positive o))
  unfolding positive
  new-ValidIo none now k = tt
  new-ValidIo (some m) now k = elim (Bool-cases (f.lt (as_f64 0) m)) [
    | inl l ↦ rw l (bucket_new-Valid m now l k)
    | inr l ↦ rw l tt
  ]

  new-ValidCpu :
      (cap above : Option F) (strength : F) (parallelism : Option ℕ) (readings : Readings F)
      → ValidCap cap
      → ValidThreshold above
      → strength ≼ strength
      → Measured readings.load (cpus parallelism)
      → ValidCpu (governor_new cap above strength parallelism readings)
  unfolding governor_new
  new-ValidCpu none none strength parallelism readings c t s m = tt
  new-ValidCpu none (some a) strength parallelism readings c t s m =
      governor-Valid ieee none (some a) strength parallelism readings c t s m
  new-ValidCpu (some p) above strength parallelism readings c t s m =
      governor-Valid ieee (some p) above strength parallelism readings c t s m

  limits_of-Valid :
      (io : Option (IoBucket F)) (cpu : Option (CpuGovernor F)) (r : ResourceLimits F)
      → ValidIo io
      → ValidCpu cpu
      → limits_of io cpu ≡ some r
      → ValidIo r.io × ValidCpu r.cpu × (r.io_pending ≡ 0)
  unfolding limits_of
  limits_of-Valid none none r v w e = cc
  limits_of-Valid (some b) cpu r v w e =
      subst (λ x. ValidIo x.io × ValidCpu x.cpu × (x.io_pending ≡ 0))
        (some_injective (record { io = some b; cpu = cpu; io_pending = 0 }) r e) (v, w, refl)
  limits_of-Valid none (some g) r v w e =
      subst (λ x. ValidIo x.io × ValidCpu x.cpu × (x.io_pending ≡ 0))
        (some_injective (record { io = none; cpu = some g; io_pending = 0 }) r e) (v, w, refl)

  build-Valid :
      (config : LimitConfig F) (parallelism : Option ℕ) (readings : Readings F)
      (r : ResourceLimits F)
      → GivenFinite config.max_io_mbps
      → GivenFinite config.max_cpu_percent
      → config.cpu_backoff_strength ≼ config.cpu_backoff_strength
      → Measured readings.load (cpus parallelism)
      → build config parallelism readings ≡ some r
      → ValidIo r.io × ValidCpu r.cpu × (r.io_pending ≡ 0)
  unfolding build
  build-Valid config parallelism readings r i c s m e =
      limits_of-Valid (Option.map (λ x. bucket_new x readings.now) (positive config.max_io_mbps))
        (governor_new (positive config.max_cpu_percent) (positive config.cpu_backoff_above)
          config.cpu_backoff_strength parallelism readings)
        r (new-ValidIo config.max_io_mbps readings.now i)
        (new-ValidCpu (positive config.max_cpu_percent) (positive config.cpu_backoff_above)
          config.cpu_backoff_strength parallelism readings
          (positive-ValidCap config.max_cpu_percent c)
          (positive-ValidThreshold config.cpu_backoff_above) s m)
        e

  -- Which limits a run has: none exactly where each of the three is missing or not a positive
  -- number. Where those given are finite numbers, the strength is a number and the load that is
  -- measured is one, limits start out valid: the bucket within its burst, which is not negative,
  -- nothing pending, and a governor with a strength from 0 to 1 and a load from 0 to 100.
  pub build_limits :
      (config : LimitConfig F) (parallelism : Option ℕ) (readings : Readings F)
      → GivenFinite config.max_io_mbps
      → GivenFinite config.max_cpu_percent
      → config.cpu_backoff_strength ≼ config.cpu_backoff_strength
      → Measured readings.load (cpus parallelism)
      → ((build config parallelism readings ≡ none) ↔ (
          Disabled config.max_io_mbps
          × Disabled config.max_cpu_percent
          × Disabled config.cpu_backoff_above))
        × ((r : ResourceLimits F)
            → build config parallelism readings ≡ some r
            → ValidIo r.io × ValidCpu r.cpu × (r.io_pending ≡ 0))
  build_limits config parallelism readings i c s m = (
    build-none config parallelism readings,
    λ r e. build-Valid config parallelism readings r i c s m e,
  )
