-- ===== src/Limit/Calls.antt =====
-- ResourceLimits of src/limit.rs: its calls on the bucket and the governor. The lock makes each
-- call one step. A call that is never granted holds the lock, so that no call comes behind it.
use rust_pcaprune.Prelude.{
  ℕ, ◌+◌, ◌^◌, ◌<◌, ◌≡◌, sym, ◌∙◌, subst, List, [], ◌∷◌, Option, none, some, ltb, leb, ◌==◌,
  if◌then◌else◌, if_elim, leb-false, arith,
}
use rust_pcaprune.PcapIo.Base.{LimitCall, acquire_io, flush_io, cpu_tick}
use rust_pcaprune.Limit.{io_batch_bytes, saturating_add}
use rust_pcaprune.Limit.Float.{Float, as_f64, ◌≼◌, IsIeee}
use rust_pcaprune.Limit.Bucket.{
  IoBucket, Acquiring, granted, waiting, slept, acquire, Bounded, SameLimits, Always,
  acquire-Bounded,
}
use rust_pcaprune.Limit.Governor.{CpuGovernor, Readings, tick}
use rust_pcaprune.Limit.Governor.Target.{Valid}
use rust_pcaprune.Limit.Governor.Ticks.{Measured, tick-Fair, tick-num_cpus}
use rust_pcaprune.Limit.Config.{ResourceLimits, ValidIo}

-- What a call leaves: it has returned, or it is blocked.
pub data Called {ℓ} (F : Type ℓ) : Type ℓ where
  returned : ResourceLimits F → Called F
  blocked : ResourceLimits F → Called F

-- What the clock and the machine answer during a call.
pub record Answers {ℓ} (F : Type ℓ) : Type ℓ where
  pub clock : List ℕ
  pub readings : Readings F

module _ {ℓ} {F : Type ℓ} ⦃f : Float F⦄ where
  abbrev pub with_bucket : ResourceLimits F → Acquiring F → Called F
  with_bucket r (granted b) = returned (record r { io = some b })
  with_bucket r (waiting b) = blocked (record r { io = some b })
  with_bucket r (slept s a) = with_bucket r a

  abbrev pub charge : ℕ → List ℕ → ResourceLimits F → Option (IoBucket F) → Called F
  charge pending clock r none = returned r
  charge pending clock r (some b) = with_bucket r (acquire pending clock b)

  unfoldable pub limits_acquire_io : ℕ → Answers F → ResourceLimits F → Called F
  limits_acquire_io bytes answers r =
      let pending = saturating_add r.io_pending bytes in
      if bytes == 0
      then returned r
      else if leb io_batch_bytes pending
      then charge pending answers.clock (record r { io_pending = 0 }) r.io
      else returned (record r { io_pending = pending })

  unfoldable pub limits_flush_io : Answers F → ResourceLimits F → Called F
  limits_flush_io answers r =
      if ltb 0 r.io_pending
      then charge r.io_pending answers.clock (record r { io_pending = 0 }) r.io
      else returned r

  abbrev ticked : Readings F → Option (CpuGovernor F) → Option (CpuGovernor F)
  ticked readings none = none
  ticked readings (some g) = some (tick readings g).0

  unfoldable pub limits_cpu_tick : Answers F → ResourceLimits F → Called F
  limits_cpu_tick answers r = returned (record r { cpu = ticked answers.readings r.cpu })

  unfoldable pub limits_call : LimitCall → Answers F → ResourceLimits F → Called F
  limits_call (acquire_io bytes) answers r = limits_acquire_io bytes answers r
  limits_call flush_io answers r = limits_flush_io answers r
  limits_call cpu_tick answers r = limits_cpu_tick answers r

  -- The calls of all workers, in the order in which they get the lock.
  unfoldable pub limits_calls : List LimitCall → (ℕ → Answers F) → ℕ → Called F → Called F
  limits_calls [] answers i c = c
  limits_calls (call ∷ calls) answers i (blocked r) = blocked r
  limits_calls (call ∷ calls) answers i (returned r) =
      limits_calls calls answers (i + 1) (limits_call call (answers i) r)

abbrev pub ValidGovernor : {F : Type 0} ⦃f : Float F⦄ → F → Option (CpuGovernor F) → Type 0
ValidGovernor num_cpus none = Unit
ValidGovernor num_cpus (some g) = Valid g × (g.num_cpus ≡ num_cpus)

-- A bucket within its burst, a valid governor for so many processors, less than a batch pending.
abbrev pub ValidLimits : {F : Type 0} ⦃f : Float F⦄ → F → ResourceLimits F → Type 0
ValidLimits num_cpus r =
    ValidIo r.io × ValidGovernor num_cpus r.cpu × (r.io_pending < io_batch_bytes)

abbrev pub Leaves : {F : Type 0} → (ResourceLimits F → Type 0) → Called F → Type 0
Leaves P (returned r) = P r
Leaves P (blocked r) = P r

module _ {F : Type 0} ⦃f : Float F⦄ (ieee : IsIeee F) (num_cpus : F) where
  with_bucket-ValidLimits :
      (r : ResourceLimits F) (b : IoBucket F) (a : Acquiring F)
      → as_f64 0 ≼ b.burst
      → ValidGovernor num_cpus r.cpu
      → r.io_pending < io_batch_bytes
      → Always (λ x. Bounded x × SameLimits b x) (λ s. s ≼ as_f64 1) a
      → Leaves (ValidLimits num_cpus) (with_bucket r a)
  with_bucket-ValidLimits r b (granted x) z c p (k, (_, u)) =
      ((k, subst (λ y. as_f64 0 ≼ y) (sym u) z), c, p)
  with_bucket-ValidLimits r b (waiting x) z c p (k, (_, u)) =
      ((k, subst (λ y. as_f64 0 ≼ y) (sym u) z), c, p)
  with_bucket-ValidLimits r b (slept s a) z c p (_, k) = with_bucket-ValidLimits r b a z c p k

  charge-ValidLimits :
      (pending : ℕ) (clock : List ℕ) (r : ResourceLimits F) (o : Option (IoBucket F))
      → pending < 2 ^ 64
      → ValidIo o
      → ValidIo r.io
      → ValidGovernor num_cpus r.cpu
      → Leaves (ValidLimits num_cpus) (charge pending clock (record r { io_pending = 0 }) o)
  charge-ValidLimits pending clock r none l v i c = (i, c, omega arith)
  charge-ValidLimits pending clock r (some b) l (k, z) i c =
      with_bucket-ValidLimits (record r { io_pending = 0 }) b (acquire pending clock b) z c
        (omega arith) (acquire-Bounded ieee pending clock b l k)

  ticked-ValidGovernor :
      (readings : Readings F) (o : Option (CpuGovernor F))
      → Measured readings.load num_cpus
      → ValidGovernor num_cpus o
      → ValidGovernor num_cpus (ticked readings o)
  ticked-ValidGovernor readings none m v = tt
  ticked-ValidGovernor readings (some g) m (v, n) = (
    (tick-Fair ieee readings g (subst (Measured readings.load) (sym n) m) v).0,
    tick-num_cpus ieee readings g ∙ n,
  )

  limits_call-ValidLimits :
      (call : LimitCall) (answers : Answers F) (r : ResourceLimits F)
      → Measured answers.readings.load num_cpus
      → ValidLimits num_cpus r
      → Leaves (ValidLimits num_cpus) (limits_call call answers r)
  unfolding limits_call limits_acquire_io limits_flush_io limits_cpu_tick
  limits_call-ValidLimits (acquire_io bytes) answers r m (i, c, p) =
      let pending = saturating_add r.io_pending bytes in
      if_elim (Leaves (ValidLimits num_cpus)) (bytes == 0) (returned r)
        (if leb io_batch_bytes pending
          then charge pending answers.clock (record r { io_pending = 0 }) r.io
          else returned (record r { io_pending = pending }))
        (λ _. (i, c, p))
        (λ _.
          if_elim (Leaves (ValidLimits num_cpus)) (leb io_batch_bytes pending)
            (charge pending answers.clock (record r { io_pending = 0 }) r.io)
            (returned (record r { io_pending = pending }))
            (λ _. charge-ValidLimits pending answers.clock r r.io (omega arith) i i c)
            (λ few. (i, c, leb-false io_batch_bytes pending few)))
  limits_call-ValidLimits flush_io answers r m (i, c, p) =
      if_elim (Leaves (ValidLimits num_cpus)) (ltb 0 r.io_pending)
        (charge r.io_pending answers.clock (record r { io_pending = 0 }) r.io) (returned r)
        (λ _. charge-ValidLimits r.io_pending answers.clock r r.io (omega arith) i i c)
        (λ _. (i, c, p))
  limits_call-ValidLimits cpu_tick answers r m (i, c, p) =
      (i, ticked-ValidGovernor answers.readings r.cpu m c, p)

  pub limits_calls-ValidLimits :
      (calls : List LimitCall) (answers : ℕ → Answers F) (i : ℕ) (c : Called F)
      → ((k : ℕ) → Measured (answers k).readings.load num_cpus)
      → Leaves (ValidLimits num_cpus) c
      → Leaves (ValidLimits num_cpus) (limits_calls calls answers i c)
  unfolding limits_calls
  limits_calls-ValidLimits [] answers i c m v = v
  limits_calls-ValidLimits (call ∷ calls) answers i (blocked r) m v = v
  limits_calls-ValidLimits (call ∷ calls) answers i (returned r) m v =
      limits_calls-ValidLimits calls answers (i + 1) (limits_call call (answers i) r) m
        (limits_call-ValidLimits call (answers i) r (m i) v)
