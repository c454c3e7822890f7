-- ===== src/Limit/Lasting.antt =====
-- The limits of src/limit.rs over all calls of a run.
use rust_pcaprune.Prelude.{
  ℕ, ◌+◌, ◌≡◌, refl, ap, ◌∙◌, subst, List, [], ◌∷◌, Option, none, some, ltb, leb, ◌==◌, Bool-cases,
  inl, inr, arith,
}
use mathlib.Core.Option
use rust_pcaprune.PcapIo.Base.{LimitCall, acquire_io, flush_io, cpu_tick}
use rust_pcaprune.Limit.{
  io_batch_bytes, saturating_add, Inner, serve_acquire_io, serve_flush_io, serve, serve_all,
}
use rust_pcaprune.Limit.Float.{Float, ◌≼◌, IsIeee}
use rust_pcaprune.Limit.Bucket.{IoBucket, bucket_new, Acquiring, granted, waiting, slept, acquire}
use rust_pcaprune.Limit.Governor.{CpuGovernor, Readings, cpus, governor_new, governor}
use rust_pcaprune.Limit.Governor.Ticks.{Measured}
use rust_pcaprune.Limit.Config.{
  LimitConfig, ResourceLimits, build, limits_of, positive, GivenFinite, ValidCpu, build_limits,
}
use rust_pcaprune.Limit.Calls.{
  Called, returned, blocked, Answers, with_bucket, charge, limits_acquire_io, limits_flush_io,
  limits_cpu_tick, limits_call, limits_calls, ValidGovernor, ValidLimits, Leaves,
  limits_calls-ValidLimits,
}

-- What is pending is what the batching has pending, as long as calls return.
abbrev pub Tracks : {F : Type 0} → ℕ → Called F → Type 0
Tracks n (returned r) = r.io_pending ≡ n
Tracks n (blocked r) = Unit

module _ {F : Type 0} ⦃f : Float F⦄ where
  with_bucket-Tracks :
      (r : ResourceLimits F) (a : Acquiring F) → Tracks r.io_pending (with_bucket r a)
  with_bucket-Tracks r (granted b) = refl
  with_bucket-Tracks r (waiting b) = tt
  with_bucket-Tracks r (slept s a) = with_bucket-Tracks r a

  charge-Tracks :
      (pending : ℕ) (clock : List ℕ) (r : ResourceLimits F) (o : Option (IoBucket F))
      → Tracks r.io_pending (charge pending clock r o)
  charge-Tracks pending clock r none = refl
  charge-Tracks pending clock r (some b) = with_bucket-Tracks r (acquire pending clock b)

  acquire-Tracks :
      (bytes : ℕ) (answers : Answers F) (r : ResourceLimits F) (inner : Inner)
      → r.io_pending ≡ inner.io_pending
      → Tracks (serve_acquire_io bytes inner).io_pending (limits_acquire_io bytes answers r)
  unfolding serve_acquire_io limits_acquire_io
  acquire-Tracks bytes answers r inner e = elim (Bool-cases (bytes == 0)) [
    | inl z ↦ rw z e
    | inr z ↦
        let pending = saturating_add inner.io_pending bytes in
        let same : saturating_add r.io_pending bytes ≡ pending =
          ap (λ x. saturating_add x bytes) e in
        elim (Bool-cases (leb io_batch_bytes pending)) [
          | inl l ↦
              rw (z, ap (leb io_batch_bytes) same ∙ l, l)
                (charge-Tracks (saturating_add r.io_pending bytes) answers.clock
                  (record r { io_pending = 0 }) r.io)
          | inr l ↦ rw (z, ap (leb io_batch_bytes) same ∙ l, l) same
        ]
  ]

  flush-Tracks :
      (answers : Answers F) (r : ResourceLimits F) (inner : Inner)
      → r.io_pending ≡ inner.io_pending
      → Tracks (serve_flush_io inner).io_pending (limits_flush_io answers r)
  unfolding serve_flush_io limits_flush_io
  flush-Tracks answers r inner e = elim (Bool-cases (ltb 0 inner.io_pending)) [
    | inl l ↦
        rw (ap (ltb 0) e ∙ l, l)
          (charge-Tracks r.io_pending answers.clock (record r { io_pending = 0 }) r.io)
    | inr l ↦ rw (ap (ltb 0) e ∙ l, l) e
  ]

  call-Tracks :
      (call : LimitCall) (answers : Answers F) (r : ResourceLimits F) (inner : Inner)
      → r.io_pending ≡ inner.io_pending
      → Tracks (serve call inner).io_pending (limits_call call answers r)
  unfolding serve limits_call limits_cpu_tick
  call-Tracks (acquire_io bytes) answers r inner e = acquire-Tracks bytes answers r inner e
  call-Tracks flush_io answers r inner e = flush-Tracks answers r inner e
  call-Tracks cpu_tick answers r inner e = e

  calls-Tracks :
      (calls : List LimitCall) (answers : ℕ → Answers F) (i : ℕ) (c : Called F) (inner : Inner)
      → Tracks inner.io_pending c
      → Tracks (serve_all calls inner).io_pending (limits_calls calls answers i c)
  unfolding serve_all limits_calls
  calls-Tracks [] answers i c inner t = t
  calls-Tracks (call ∷ calls) answers i (blocked r) inner t = tt
  calls-Tracks (call ∷ calls) answers i (returned r) inner t =
      calls-Tracks calls answers (i + 1) (limits_call call (answers i) r) (serve call inner)
        (call-Tracks call (answers i) r inner t)

abbrev HasCpus : {F : Type 0} → F → Option (CpuGovernor F) → Type 0
HasCpus n none = Unit
HasCpus n (some g) = g.num_cpus ≡ n

some_injective : {A : Type 0} (a b : A) → ◌≡◌ {A = Option A} (some a) (some b) → a ≡ b
some_injective a b e = cc

module _ {F : Type 0} ⦃f : Float F⦄ (ieee : IsIeee F) where
  new_cpus :
      (cap above : Option F) (strength : F) (parallelism : Option ℕ) (readings : Readings F)
      → HasCpus (cpus parallelism) (governor_new cap above strength parallelism readings)
  unfolding governor_new governor
  new_cpus none none strength parallelism readings = tt
  new_cpus none (some a) strength parallelism readings = refl
  new_cpus (some p) above strength parallelism readings = refl

  limits_cpus :
      (n : F) (io : Option (IoBucket F)) (cpu : Option (CpuGovernor F)) (r : ResourceLimits F)
      → limits_of io cpu ≡ some r
      → HasCpus n cpu
      → HasCpus n r.cpu
  unfolding limits_of
  limits_cpus n none none r e h = cc
  limits_cpus n (some b) cpu r e h =
      subst (λ (x : ResourceLimits F). HasCpus n x.cpu)
        (some_injective (record { io = some b; cpu = cpu; io_pending = 0 }) r e) h
  limits_cpus n none (some g) r e h =
      subst (λ (x : ResourceLimits F). HasCpus n x.cpu)
        (some_injective (record { io = none; cpu = some g; io_pending = 0 }) r e) h

  governed :
      (config : LimitConfig F) (parallelism : Option ℕ) (readings : Readings F)
      (r : ResourceLimits F)
      → build config parallelism readings ≡ some r
      → ValidCpu r.cpu
      → ValidGovernor (cpus parallelism) r.cpu
  unfolding build
  governed config parallelism readings r e v = both r.cpu v (
      limits_cpus (cpus parallelism)
        (Option.map (λ m. bucket_new m readings.now) (positive config.max_io_mbps))
        (governor_new (positive config.max_cpu_percent) (positive config.cpu_backoff_above)
          config.cpu_backoff_strength parallelism readings)
        r e
        (new_cpus (positive config.max_cpu_percent) (positive config.cpu_backoff_above)
          config.cpu_backoff_strength parallelism readings))
    where
      both :
          (o : Option (CpuGovernor F))
          → ValidCpu o
          → HasCpus (cpus parallelism) o
          → ValidGovernor (cpus parallelism) o
      both none x y = tt
      both (some g) x y = (x, y)

  -- The limits of a run stay valid, whatever the workers call, in whatever order the calls get the
  -- lock, and whatever the clock and the machine answer: where the limits given are finite numbers,
  -- the strength is a number and a load that is measured is one, limits start valid as they are
  -- built, and each call keeps the bucket within its burst, less than a batch pending, and the
  -- governor with a strength from 0 to 1 and a load from 0 to 100. As long as calls return, as many
  -- bytes are pending as in the batching alone.
  pub limits_stay_valid :
      (config : LimitConfig F) (parallelism : Option ℕ) (readings : Readings F)
      (r : ResourceLimits F) (calls : List LimitCall) (answers : ℕ → Answers F)
      → GivenFinite config.max_io_mbps
      → GivenFinite config.max_cpu_percent
      → config.cpu_backoff_strength ≼ config.cpu_backoff_strength
      → Measured readings.load (cpus parallelism)
      → ((i : ℕ) → Measured (answers i).readings.load (cpus parallelism))
      → build config parallelism readings ≡ some r
      → let c = limits_calls calls answers 0 (returned r) in
        ValidLimits (cpus parallelism) r
        × Leaves (ValidLimits (cpus parallelism)) c
        × Tracks (serve_all calls (record { io = some []; io_pending = 0 })).io_pending c
  limits_stay_valid config parallelism readings r calls answers io cap s m ms e =
      let (v, w, z) = (build_limits ieee config parallelism readings io cap s m).1 r e in
      let valid : ValidLimits (cpus parallelism) r =
        (v, governed config parallelism readings r e w, omega arith) in
      (
        valid,
        limits_calls-ValidLimits ieee (cpus parallelism) calls answers 0 (returned r) ms valid,
        calls-Tracks calls answers 0 (returned r) (record { io = some []; io_pending = 0 }) z,
      )
