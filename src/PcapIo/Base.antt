-- ===== src/PcapIo/Base.antt =====
-- Errors, readers, statistics and limiter calls of src/pcap_io.rs.
use rust_pcaprune.Prelude.{
  ◌≢◌, ◌≡◌, refl, ◌⊎◌, inl, inr, ℕ, ◌%◌, ◌&&◌, List, [], ◌∷◌, ◌++◌, Option, none, some, ltb, ◌==◌,
  if◌then◌else◌, length, Bytes, Run, ret, panic, out_of_fuel, take, drop,
}

-- `PcapError`; the path in the message of `Pcapng` is left out.
pub data PcapError : Type 0 where
  io_eof io_fault too_short_for_header unknown_magic pcapng : PcapError

-- `Result<A, PcapError>` of code that may panic.
pub data Res {ℓ} (A : Type ℓ) : Type ℓ where
  ok : A → Res A
  err : PcapError → Res A

abbrev pub Io {ℓ} : Type ℓ → Type ℓ
Io A = Run (Res A)

infixl 5 ◌>>=◌ ◌>>◌
abbrev pub ◌>>=◌ {ℓ κ} : {A : Type ℓ} {B : Type κ} → Io A → (A → Io B) → Io B
ret (ok a) >>= f = f a
ret (err e) >>= f = ret (err e)
panic >>= f = panic
out_of_fuel >>= f = out_of_fuel

abbrev pub ◌>>◌ {ℓ κ} : {A : Type ℓ} {B : Type κ} → Io A → Io B → Io B
m >> k = m >>= λ _. k

abbrev pub lift {ℓ} : {A : Type ℓ} → Run A → Io A
lift (ret a) = ret (ok a)
lift panic = panic
lift out_of_fuel = out_of_fuel

pub >>=-assoc :
    {A B C : Type 0} (m : Io A) (f : A → Io B) (g : B → Io C)
    → ((m >>= f) >>= g) ≡ (m >>= λ a. f a >>= g)
>>=-assoc (ret (ok a)) f g = refl
>>=-assoc (ret (err e)) f g = refl
>>=-assoc panic f g = refl
>>=-assoc out_of_fuel f g = refl

pub >>=-ext :
    {A B : Type 0} (m : Io A) (f g : A → Io B) → ((a : A) → f a ≡ g a) → (m >>= f) ≡ (m >>= g)
>>=-ext (ret (ok a)) f g h = h a
>>=-ext (ret (err e)) f g h = refl
>>=-ext panic f g h = refl
>>=-ext out_of_fuel f g h = refl

-- A sequence that returns has run both of its parts.
pub >>=-eq-ok :
    {A B : Type 0} (m : Io A) (f : A → Io B) {b : B}
    → (m >>= f) ≡ ret (ok b)
    → (a : A) × (m ≡ ret (ok a)) × (f a ≡ ret (ok b))
>>=-eq-ok (ret (ok a)) f e = (a, refl, e)
>>=-eq-ok (ret (err x)) f e = cc
>>=-eq-ok panic f e = cc
>>=-eq-ok out_of_fuel f e = cc

pub Io-cases :
    {A : Type 0} (m : Io A)
    → ((a : A) × (m ≡ ret (ok a)))
      ⊎ (((x : PcapError) × (m ≡ ret (err x))) ⊎ ((m ≡ panic) ⊎ (m ≡ out_of_fuel)))
Io-cases (ret (ok a)) = inl (a, refl)
Io-cases (ret (err x)) = inr (inl (x, refl))
Io-cases panic = inr (inr (inl refl))
Io-cases out_of_fuel = inr (inr (inr refl))

pub ok_injective : {A : Type 0} (x y : A) → ◌≡◌ {A = Io A} (ret (ok x)) (ret (ok y)) → x ≡ y
ok_injective x y e = cc

pub err_not_ok : {A : Type 0} (x : PcapError) (y : A) → ◌≢◌ {A = Io A} (ret (err x)) (ret (ok y))
err_not_ok x y = λ e. cc

-- How a stream ends behind its bytes: at the end of the file, or by an error of the device.
pub data Ending : Type 0 where
  end_of_file device_error : Ending

pub record Reader : Type 0 where
  pub rest : Bytes
  pub ending : Ending

abbrev pub ending_error : Ending → PcapError
ending_error end_of_file = io_eof
ending_error device_error = io_fault

-- `read_exact` of `n` bytes: the bytes, and the reader behind them.
pub data Read : Type 0 where
  got : Bytes → Reader → Read
  eof : Read
  fault : Read

abbrev pub short_read : Ending → Read
short_read end_of_file = eof
short_read device_error = fault

unfoldable pub read_exact : Reader → ℕ → Read
read_exact r n =
    if ltb (length r.rest) n
    then short_read r.ending
    else got (take n r.rest) (record r { rest = drop n r.rest })

-- `read_exact(…)?`
unfoldable pub read_or_fail : Reader → ℕ → Io (Bytes × Reader)
read_or_fail r n = elim (read_exact r n) [
  | got b r' ↦ ret (ok (b, r'))
  | eof ↦ ret (err io_eof)
  | fault ↦ ret (err io_fault)
]

pub record SlimStats : Type 0 where
  pub in_pkts : ℕ
  pub truncated : ℕ
  pub kept : ℕ
  pub in_bytes : ℕ
  pub out_bytes : ℕ

-- `SlimStats::default()`
abbrev pub no_stats : SlimStats
no_stats = record { in_pkts = 0; truncated = 0; kept = 0; in_bytes = 0; out_bytes = 0 }

-- The calls that a run makes of its `ResourceLimits`, in order; `none` where there are no limits.
pub data LimitCall : Type 0 where
  acquire_io : ℕ → LimitCall
  flush_io cpu_tick : LimitCall

abbrev pub Limits : Type 0
Limits = Option (List LimitCall)

unfoldable pub call : LimitCall → Limits → Limits
call c none = none
call c (some log) = some (log ++ c ∷ [])

unfoldable pub account_io : Limits → ℕ → Limits
unfolding call
account_io limits bytes = call (acquire_io bytes) limits

unfoldable pub flush_limits : Limits → Limits
unfolding call
flush_limits limits = call flush_io limits

unfoldable pub maybe_cpu_tick : Limits → ℕ → Limits
unfolding call
maybe_cpu_tick limits pkt_index =
    if ltb 0 pkt_index && pkt_index % 64 == 0 then call cpu_tick limits else limits
