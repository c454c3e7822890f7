-- ===== src/Tests/Limits.antt =====
-- Calls of a run and the bucket that they charge.
use rust_pcaprune.Prelude.{
  ◌+◌, ◌*◌, ◌^◌, ℕ, ◌-◌, ◌≡◌, ◌↔◌, ◌⊎◌, none, refl, List, [], ◌∷◌, some, arith,
}
use rust_pcaprune.Limit.Float.{Thousandths, thousandths, Thousandths-IsIeee, as_f64, ◌≼◌, ◌≺◌}
use rust_pcaprune.Limit.Bucket.{
  IoBucket, bucket_new, acquire, acquire_loop, refill, grant, wait_secs, granted, slept, Bounded,
  SameLimits, Always, Waits, acquire-Bounded, acquire_grantable,
}
use rust_pcaprune.Limit.Governor.{
  CpuGovernor, Readings, cpus, tick, hard_cap, effective_target_percent, process_percent,
  process_cpu_secs,
}
use rust_pcaprune.Limit.Governor.Target.{Within, Valid}
use rust_pcaprune.Limit.Governor.Ticks.{Measured, Fair, tick-Fair}
use rust_pcaprune.Limit.Config.{LimitConfig, ResourceLimits, build}
use rust_pcaprune.Limit.Config.{positive, limits_of}
use rust_pcaprune.Limit.Governor.{governor_new, governor}
use rust_pcaprune.Limit.Lasting.{Tracks, limits_stay_valid}
use rust_pcaprune.Limit.Calls.{Answers, limits_calls, returned, ValidLimits, Leaves}
use rust_pcaprune.PcapIo.Base.{LimitCall, acquire_io, cpu_tick}
use rust_pcaprune.Limit.{
  Inner, serve_all, serve_flush_io, serve_acquire_io, serve, bucket_acquire, sum, Holds,
  serve_all_conserves,
}

abbrev fresh : Inner
fresh = record { io = some []; io_pending = 0 }

abbrev pub calls : List LimitCall
calls = acquire_io 200000 ∷ acquire_io 100000 ∷ cpu_tick ∷ acquire_io 7 ∷ []

charges-calls : serve_all calls fresh ≡ record { io = some (300000 ∷ []); io_pending = 7 }
unfolding serve_all serve serve_acquire_io bucket_acquire
charges-calls = refl

serve_all_conserves_example :
    Holds (serve_all calls fresh) 300007
    × ((charged : List ℕ) × ((serve_flush_io (serve_all calls fresh)).io ≡ some charged)
        × (sum charged ≡ 300007))
serve_all_conserves_example =
    serve_all_conserves calls 0 fresh (omega arith) ([], refl, refl, omega arith)

-- A bucket of a megabyte per second, in thousandths, from which a megabyte is taken.
abbrev bucket : IoBucket Thousandths
bucket = record { rate = 1000000000; burst = 2000000000; tokens = 500000000; last_refill = 0 }

acquire-Bounded_example :
    Always
      (λ x. Bounded x × SameLimits bucket x)
      (λ (s : Thousandths). s ≼ as_f64 1)
      (acquire 1000000 (1000000 ∷ 600000000 ∷ []) bucket)
acquire-Bounded_example =
    acquire-Bounded Thousandths-IsIeee 1000000 (1000000 ∷ 600000000 ∷ []) bucket (omega arith)
      (refl, refl)

-- It sleeps once.
acquires :
    acquire 1000000 (1000000 ∷ 600000000 ∷ []) bucket
    ≡ slept 499 (
        granted (record {
          rate = 1000000000;
          burst = 2000000000;
          tokens = 100000000;
          last_refill = 600000000;
        }))
unfolding acquire acquire_loop refill grant wait_secs
acquires = refl

acquire_grantable_example :
    (((clock : List ℕ) → Waits (acquire 1000000 clock bucket)) ↔ (bucket.burst ≺ as_f64 1000000))
    × ((bucket.burst ≺ as_f64 1000000)
        ⊎ ((clock : List ℕ) → ¬ Waits (acquire 1000000 (600000000 ∷ clock) bucket)))
acquire_grantable_example =
    acquire_grantable Thousandths-IsIeee 1000000 600000000 bucket (refl, refl) refl (omega arith)
      refl refl

abbrev readings : Readings Thousandths
readings = record {
  now = 1000000000;
  load = some 3900;
  usage = some (record { user_sec = 2; user_usec = 0; sys_sec = 1; sys_usec = 500000 });
}

abbrev pub busy_governor : CpuGovernor Thousandths
busy_governor = record {
  max_cpu_percent = some 50000;
  backoff_above = some 80000;
  backoff_strength = 1000;
  num_cpus = 4000;
  last_tick = 0;
  last_process_cpu_secs = 0;
  last_system_refresh = 0;
  system_busy_percent = 90000;
}

tick-Fair_example :
    let g' = (tick readings busy_governor).0 in
    Valid g'
    × Within (as_f64 0) (hard_cap g'.max_cpu_percent) (effective_target_percent g')
    × Fair
        (process_percent busy_governor
          (process_cpu_secs readings.usage)
          (thousandths.as_secs (readings.now - busy_governor.last_tick)))
        (effective_target_percent g')
        (tick readings busy_governor).1
tick-Fair_example =
    tick-Fair Thousandths-IsIeee readings busy_governor refl
      ((refl, refl), refl, (refl, refl), (refl, refl))

abbrev config : LimitConfig Thousandths
config = record {
  max_io_mbps = some 10000;
  max_cpu_percent = some 0;
  cpu_backoff_above = some 80000;
  cpu_backoff_strength = 500;
}

load-Measured : Measured readings.load (cpus (some 4))
unfolding cpus
load-Measured = refl

abbrev pub answers : ℕ → Answers Thousandths
answers i = record { clock = (1 + i) * 10 ^ 9 ∷ []; readings = readings }

abbrev built : ResourceLimits Thousandths
built = record {
  io = some (bucket_new 10000 1000000000);
  cpu = some (governor none (some 80000) 500 (some 4) readings);
  io_pending = 0;
}

builds : build config (some 4) readings ≡ some built
unfolding build positive limits_of governor_new
builds = refl

limits_stay_valid_example :
    let c = limits_calls calls answers 0 (returned built) in
    ValidLimits (cpus (some 4)) built
    × Leaves (ValidLimits (cpus (some 4))) c
    × Tracks (serve_all calls (record { io = some []; io_pending = 0 })).io_pending c
limits_stay_valid_example =
    limits_stay_valid Thousandths-IsIeee config (some 4) readings built calls answers refl refl refl
      load-Measured (λ i. load-Measured) builds
