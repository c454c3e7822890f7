-- ===== src/Limit.antt =====
-- ResourceLimits of src/limit.rs: I/O is charged to the token bucket in batches. The bucket is
-- here the amounts that it is asked for, in order, so that its waiting does not show; Calls has the
-- same calls on the bucket itself. The lock makes each call one step.
pub mod Float
pub mod Bucket
pub mod Governor
pub mod Config
pub mod Calls
pub mod Lasting
use rust_pcaprune.Prelude.{
  ℕ, ◌+◌, ◌*◌, ◌-◌, ◌^◌, ◌<◌, ◌≡◌, refl, List, [], ◌∷◌, ◌++◌, Option, none, some, ltb, leb, ◌==◌,
  if◌then◌else◌, min, arith, Bool-cases, inl, inr, ltb-false, leb-false, ==→eq, subst, subst,
}
use rust_pcaprune.PcapIo.Base.{LimitCall, acquire_io, flush_io, cpu_tick}

-- `IO_BATCH_BYTES`
abbrev pub io_batch_bytes : ℕ
io_batch_bytes = 256 * 1024

pub record Inner : Type 0 where
  pub io : Option (List ℕ)
  pub io_pending : ℕ

-- `if let Some(ref mut bucket) = inner.io { bucket.acquire(pending); }`
unfoldable pub bucket_acquire : Option (List ℕ) → ℕ → Option (List ℕ)
bucket_acquire none pending = none
bucket_acquire (some charged) pending = some (charged ++ pending ∷ [])

-- `u64::saturating_add`
abbrev pub saturating_add : ℕ → ℕ → ℕ
saturating_add a b = min (a + b) (2 ^ 64 - 1)

-- `acquire_io`
unfoldable pub serve_acquire_io : ℕ → Inner → Inner
serve_acquire_io bytes inner =
    if bytes == 0
    then inner
    else let pending = saturating_add inner.io_pending bytes in
      if leb io_batch_bytes pending
      then record { io = bucket_acquire inner.io pending; io_pending = 0 }
      else record inner { io_pending = pending }

-- `flush_io`
unfoldable pub serve_flush_io : Inner → Inner
serve_flush_io inner =
    if ltb 0 inner.io_pending
    then record { io = bucket_acquire inner.io inner.io_pending; io_pending = 0 }
    else inner

unfoldable pub serve : LimitCall → Inner → Inner
serve (acquire_io bytes) inner = serve_acquire_io bytes inner
serve flush_io inner = serve_flush_io inner
serve cpu_tick inner = inner

-- The calls of a run, in order.
unfoldable pub serve_all : List LimitCall → Inner → Inner
serve_all [] inner = inner
serve_all (c ∷ cs) inner = serve_all cs (serve c inner)

abbrev pub sum : List ℕ → ℕ
sum [] = 0
sum (x ∷ xs) = x + sum xs

-- The bytes that the calls ask for.
abbrev pub asked : List LimitCall → ℕ
asked [] = 0
asked (acquire_io bytes ∷ cs) = bytes + asked cs
asked (flush_io ∷ cs) = asked cs
asked (cpu_tick ∷ cs) = asked cs

sum-append : (xs ys : List ℕ) → sum (xs ++ ys) ≡ sum xs + sum ys
sum-append [] ys = omega arith
sum-append (x ∷ xs) ys = omega (arith, sum-append xs ys)

-- A bucket that was charged `charged`, and pending bytes below a batch; `n` in all.
abbrev pub Holds : Inner → ℕ → Type 0
Holds inner n =
    (charged : List ℕ) × (inner.io ≡ some charged)
    × (sum charged + inner.io_pending ≡ n)
    × (inner.io_pending < io_batch_bytes)

Holds-acquire :
    (bytes n : ℕ) (inner : Inner)
    → inner.io_pending + bytes < 2 ^ 64
    → Holds inner n
    → Holds (serve_acquire_io bytes inner) (n + bytes)
unfolding serve_acquire_io bucket_acquire
Holds-acquire bytes n inner h (xs, e, s, p) = elim (Bool-cases (bytes == 0)) [
  | inl z ↦ rw z (xs, e, omega (arith, ==→eq bytes 0 z), p)
  | inr z ↦ elim (Bool-cases (leb io_batch_bytes (saturating_add inner.io_pending bytes))) [
    | inl full ↦
        rw (z, full)
          (
            xs ++ (saturating_add inner.io_pending bytes ∷ []),
            rw e refl,
            omega (arith, sum-append xs (saturating_add inner.io_pending bytes ∷ [])),
            omega arith,
          )
    | inr room ↦
        rw (z, room)
          (
            xs,
            e,
            omega arith,
            omega (arith, leb-false io_batch_bytes (saturating_add inner.io_pending bytes) room),
          )
  ]
]

Holds-flush :
    (n : ℕ) (inner : Inner)
    → Holds inner n
    → Holds (serve_flush_io inner) n × ((serve_flush_io inner).io_pending ≡ 0)
unfolding serve_flush_io bucket_acquire
Holds-flush n inner (xs, e, s, p) = elim (Bool-cases (ltb 0 inner.io_pending)) [
  | inl some_left ↦ rw some_left (
    (
      xs ++ (inner.io_pending ∷ []),
      rw e refl,
      omega (arith, sum-append xs (inner.io_pending ∷ [])),
      omega arith,
    ),
    refl,
  )
  | inr no_more ↦ rw no_more ((xs, e, s, p), omega (arith, ltb-false 0 inner.io_pending no_more))
]

Holds-serve_all :
    (calls : List LimitCall) (n : ℕ) (inner : Inner)
    → n + asked calls < 2 ^ 64
    → Holds inner n
    → Holds (serve_all calls inner) (n + asked calls)
unfolding serve_all serve
Holds-serve_all [] n inner h x = (x.0, x.1, omega (arith, x.2), x.3)
Holds-serve_all (acquire_io bytes ∷ cs) n inner h x =
    subst (λ k. Holds (serve_all cs (serve_acquire_io bytes inner)) k) (omega arith)
      (Holds-serve_all cs (n + bytes) (serve_acquire_io bytes inner) (omega arith)
        (Holds-acquire bytes n inner (omega (arith, x.2)) x))
Holds-serve_all (flush_io ∷ cs) n inner h x =
    Holds-serve_all cs n (serve_flush_io inner) h (Holds-flush n inner x).0
Holds-serve_all (cpu_tick ∷ cs) n inner h x = Holds-serve_all cs n inner h x

-- Batching loses no byte and charges none twice: where there is a bucket and less than a batch is
-- pending, whatever calls come, below 2^64 bytes in all, what the bucket was charged and the
-- pending bytes add up to what was asked for, less than a batch is pending at any time, and the
-- flush that ends a run charges the rest.
pub serve_all_conserves :
    (calls : List LimitCall) (n : ℕ) (inner : Inner)
    → n + asked calls < 2 ^ 64
    → Holds inner n
    → Holds (serve_all calls inner) (n + asked calls)
      × ((charged : List ℕ) × ((serve_flush_io (serve_all calls inner)).io ≡ some charged)
          × (sum charged ≡ n + asked calls))
serve_all_conserves calls n inner h x =
    let y = Holds-serve_all calls n inner h x in
    let (z, p) = Holds-flush (n + asked calls) (serve_all calls inner) y in
    (y, (z.0, z.1, omega (arith, z.2, p)))
