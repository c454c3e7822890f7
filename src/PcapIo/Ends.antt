-- ===== src/PcapIo/Ends.antt =====
-- The record loop of slim_pcap_to_writer_with_options of src/pcap_io.rs ends on every input.
use rust_pcaprune.Prelude.{
  ℕ, zero, suc, ◌≤◌, ◌<◌, ◌≡◌, ◌≢◌, refl, sym, Bool, true, false, none, some, List, [], ◌∷◌, ◌==◌,
  ltb, leb, ap, ◌∙◌, ◌+◌, Bool-cases, if◌then◌else◌, length, Bytes, ret, panic, out_of_fuel, inl,
  inr, arith, subst,
}
use rust_pcaprune.Limit.{io_batch_bytes, saturating_add}
use rust_pcaprune.Limit.Float.{Float}
use rust_pcaprune.Limit.Config.{ResourceLimits}
use rust_pcaprune.Limit.Calls.{
  Answers, returned, limits_call, limits_calls, limits_acquire_io, limits_flush_io, limits_cpu_tick,
}
use rust_pcaprune.PcapIo.Base.{
  LimitCall, acquire_io, flush_io, cpu_tick, io_eof, pcapng, unknown_magic, too_short_for_header,
  io_fault, ok, err, Io, ◌>>=◌, >>=-eq-ok, Io-cases, PcapError, ok_injective, lift, Reader,
  read_exact, read_or_fail, SlimStats, Limits,
}
use rust_pcaprune.PcapIo.Header.{
  Endian, magic_le, magic_be, from_le, from_be, read_u32, read_header, read_global_header,
  check_magic_bytes, detect_endian,
}
use rust_pcaprune.PcapIo.Slim.{
  Slimming, slim_record, slim_loop, slim_pcap_to_writer_with_options, slim_pcap_with_options,
}
use rust_pcaprune.Packet.{PacketOutcome, process_packet}
use rust_pcaprune.PcapIo.Format.{examined}
use rust_pcaprune.PcapIo.Steps.{Read-cases, read_exact-rest, read_or_fail-rest, global_header-got}
use rust_pcaprune.PcapIo.Refine.{loop_start, slim_result, slim_pcap-loop}
use rust_pcaprune.PcapIo.Analyzed.{
  read_packet, after_slim, slim_record-read_packet, slim_loop-record,
}
use rust_pcaprune.Packet.Panic.{process_packet-panic_iff}

-- A computation ends: with a value, an error or a panic.
abbrev pub Ends {ℓ} : {A : Type ℓ} → Io A → Type ℓ
Ends m = m ≢ out_of_fuel

Ends-bind :
    {A B : Type 0} (m : Io A) (f : A → Io B)
    → Ends m
    → ((a : A) → m ≡ ret (ok a) → Ends (f a))
    → Ends (m >>= f)
Ends-bind (ret (ok a)) f h k = k a refl
Ends-bind (ret (err e)) f h k = λ q. cc
Ends-bind panic f h k = λ q. cc
Ends-bind out_of_fuel f h k = absurd (h refl)

Ends-ok : {A : Type 0} (a : A) → Ends (ret (ok a))
Ends-ok a = λ q. cc

Ends-err : {A : Type 0} (x : PcapError) → Ends {A = A} (ret (err x))
Ends-err x = λ q. cc

Ends-process : (frame : Bytes) → Ends (lift (process_packet frame))
Ends-process frame = elim (process_packet-panic_iff frame).1 [
  | inl (r, e) ↦ rw e (λ q. cc)
  | inr e ↦ rw e (λ q. cc)
]

Ends-read : (r : Reader) (n : ℕ) → Ends (read_or_fail r n)
unfolding read_or_fail
Ends-read r n = elim (Read-cases (read_exact r n)) [
  | inl (b, r', q) ↦ rw (q, read_or_fail) (Ends-ok (b, r'))
  | inr (inl q) ↦ rw (q, read_or_fail) (Ends-err io_eof)
  | inr (inr q) ↦ rw (q, read_or_fail) (Ends-err io_fault)
]

Ends-read_packet : (r : Reader) (n : ℕ) → Ends (read_packet r n)
Ends-read_packet r n =
    Ends-bind (read_or_fail r n) (λ fr. lift (process_packet fr.0) >>= λ ob. ret (ok (fr, ob)))
      (Ends-read r n)
      (λ fr _.
        Ends-bind (lift (process_packet fr.0)) (λ ob. ret (ok (fr, ob))) (Ends-process fr.0)
          (λ ob _. Ends-ok (fr, ob)))

read_packet-rest :
    (r : Reader) (n : ℕ) (x : (Bytes × Reader) × (PacketOutcome × Bool))
    → read_packet r n ≡ ret (ok x)
    → length x.0.1.rest ≤ length r.rest
read_packet-rest r n x e =
    let (fr, q, s) =
      >>=-eq-ok (read_or_fail r n) (λ fr. lift (process_packet fr.0) >>= λ ob. ret (ok (fr, ob)))
        e in
    let (ob, q', s') = >>=-eq-ok (lift (process_packet fr.0)) (λ ob. ret (ok (fr, ob))) s in
    subst (λ (y : (Bytes × Reader) × (PacketOutcome × Bool)). length y.0.1.rest ≤ length r.rest)
      (ok_injective (fr, ob) x s') (omega (arith, read_or_fail-rest r n fr q))

-- What is left to read behind a packet.
after_slim-rest :
    (e : Endian) (s s' : Slimming) (rec_hdr : Bytes) (r : Reader)
    → (read_packet r (read_u32 e rec_hdr 8) >>= λ x. ret (ok (after_slim e s rec_hdr x)))
      ≡ ret (ok s')
    → length s'.reader.rest ≤ length r.rest
after_slim-rest e s s' rec_hdr r h =
    let (x, q, q') =
      >>=-eq-ok (read_packet r (read_u32 e rec_hdr 8)) (λ x. ret (ok (after_slim e s rec_hdr x)))
        h in
    subst (λ (y : Slimming). length y.reader.rest ≤ length r.rest)
      (ok_injective (after_slim e s rec_hdr x) s' q')
      (read_packet-rest r (read_u32 e rec_hdr 8) x q)

round-Ends :
    (e : Endian) (s : Slimming) (rec_hdr : Bytes) (r : Reader) (next : Slimming → Io Slimming)
    → ((s' : Slimming) → length s'.reader.rest ≤ length r.rest → Ends (next s'))
    → Ends (slim_record e s rec_hdr r >>= next)
round-Ends e s rec_hdr r next ih =
    let m = read_packet r (read_u32 e rec_hdr 8) >>= λ x. ret (ok (after_slim e s rec_hdr x)) in
    subst (λ (y : Io Slimming). Ends (y >>= next)) (sym (slim_record-read_packet e s rec_hdr r))
      (Ends-bind m next
        (Ends-bind (read_packet r (read_u32 e rec_hdr 8)) (λ x. ret (ok (after_slim e s rec_hdr x)))
          (Ends-read_packet r (read_u32 e rec_hdr 8)) (λ x _. Ends-ok (after_slim e s rec_hdr x)))
        (λ s' q. ih s' (after_slim-rest e s s' rec_hdr r q)))

-- Each round reads the 16 bytes of a record header at least.
slim_loop-Ends :
    (fuel : ℕ) (e : Endian) (s : Slimming) → length s.reader.rest < fuel → Ends (slim_loop fuel e s)
unfolding slim_loop
slim_loop-Ends zero e s h = absurd (omega arith)
slim_loop-Ends (suc fuel) e s h = elim (Read-cases (read_exact s.reader 16)) [
  | inr (inl q) ↦ rw (q, slim_loop) (Ends-ok s)
  | inr (inr q) ↦ rw (q, slim_loop) (Ends-err io_fault)
  | inl (rec_hdr, r, q) ↦
      subst (λ (m : Io Slimming). Ends m) (sym (slim_loop-record fuel e s rec_hdr r q))
        (round-Ends e s rec_hdr r (λ s'. slim_loop fuel e s')
          (λ s' k.
            slim_loop-Ends fuel e s' (omega (arith, read_exact-rest s.reader r 16 rec_hdr q))))
]

Ends-read_header : (r : Reader) (n : ℕ) → Ends (read_header r n)
unfolding read_header
Ends-read_header r n = elim (Read-cases (read_exact r n)) [
  | inl (b, r', q) ↦ rw (q, read_header) (Ends-ok (b, r'))
  | inr (inl q) ↦ rw (q, read_header) (Ends-err too_short_for_header)
  | inr (inr q) ↦ rw (q, read_header) (Ends-err io_fault)
]

Ends-if : {A : Type 0} (b : Bool) (x y : Io A) → Ends x → Ends y → Ends (if b then x else y)
Ends-if true x y h k = h
Ends-if false x y h k = k

Ends-check_magic_bytes : (hdr : Bytes) → Ends (check_magic_bytes hdr)
unfolding check_magic_bytes
Ends-check_magic_bytes hdr = Ends-if _ _ _ (Ends-err pcapng) (Ends-ok tt)

Ends-detect_endian : (hdr : Bytes) → Ends (detect_endian hdr)
unfolding detect_endian
Ends-detect_endian hdr = Ends-if (from_le hdr 0 == magic_le) _ _ (Ends-ok (record { le = true })) (
    Ends-if (from_le hdr 0 == magic_be) _ _ (Ends-ok (record { le = false })) (
      Ends-if (from_be hdr 0 == magic_le) _ _ (Ends-ok (record { le = true })) (
        Ends-if (from_be hdr 0 == magic_be) _ _ (Ends-ok (record { le = false }))
          (Ends-err unknown_magic))))

Ends-examined : (h : Bytes × Reader) → Ends (examined h)
Ends-examined (hdr, r) =
    Ends-bind (check_magic_bytes hdr) _ (Ends-check_magic_bytes hdr)
      (λ _ _. Ends-bind (detect_endian hdr) _ (Ends-detect_endian hdr) (λ e _. Ends-ok _))

Ends-read_global_header : (src : Reader) → Ends (read_global_header src)
unfolding read_global_header
Ends-read_global_header src =
    Ends-bind (read_header src 24) examined (Ends-read_header src 24) (λ h _. Ends-examined h)

-- Whatever calls are put down for the limits, whose waiting is left to Limit.Calls.
loop-Ends : (src : Reader) (limits : Limits) → Ends (slim_pcap_with_options src limits)
unfolding slim_pcap_with_options slim_pcap_to_writer_with_options
loop-Ends src limits = elim (Io-cases (read_global_header src)) [
  | inl ((e, ghdr, r), q) ↦
      subst (λ (m : Io (Bytes × SlimStats × Limits)). Ends m)
        (sym (slim_pcap-loop src limits e ghdr r q))
        (Ends-bind (slim_loop (suc (length src.rest)) e (loop_start src.rest ghdr r limits))
          (λ s. ret (ok (slim_result s)))
          (slim_loop-Ends (suc (length src.rest)) e (loop_start src.rest ghdr r limits)
            (omega (arith, read_exact-rest src r 24 ghdr (global_header-got src (e, ghdr, r) q))))
          (λ s _. Ends-ok (slim_result s)))
  | inr (inl (x, q)) ↦ rw q (Ends-err x)
  | inr (inr (inl q)) ↦ rw q (λ z. cc)
  | inr (inr (inr q)) ↦ absurd (Ends-read_global_header src q)
]

-- With no bucket no call waits.
module _ {F : Type 0} ⦃f : Float F⦄ where
  unlimited_call :
      (call : LimitCall) (answers : Answers F) (r : ResourceLimits F)
      → r.io ≡ none
      → (r' : ResourceLimits F) × (limits_call call answers r ≡ returned r') × (r'.io ≡ none)
  unfolding limits_call limits_acquire_io limits_flush_io limits_cpu_tick
  unlimited_call (acquire_io bytes) answers r e = elim (Bool-cases (bytes == 0)) [
    | inl z ↦ (r, rw z refl, e)
    | inr z ↦
        let pending = saturating_add r.io_pending bytes in
        elim (Bool-cases (leb io_batch_bytes pending)) [
          | inl q ↦ (record r { io_pending = 0 }, rw (z, q, e) refl, e)
          | inr q ↦ (record r { io_pending = pending }, rw (z, q) refl, e)
        ]
  ]
  unlimited_call flush_io answers r e = elim (Bool-cases (ltb 0 r.io_pending)) [
    | inl q ↦ (record r { io_pending = 0 }, rw (q, e) refl, e)
    | inr q ↦ (r, rw q refl, e)
  ]
  unlimited_call cpu_tick answers r e = (_, refl, e)

  unlimited_calls :
      (log : List LimitCall) (answers : ℕ → Answers F) (i : ℕ) (r : ResourceLimits F)
      → r.io ≡ none
      → (r' : ResourceLimits F) × (limits_calls log answers i (returned r) ≡ returned r')
  unfolding limits_calls
  unlimited_calls [] answers i r e = (r, refl)
  unlimited_calls (call ∷ log) answers i r e =
      let (x, q, n) = unlimited_call call (answers i) r e in
      let (y, p) = unlimited_calls log answers (i + 1) x n in
      (y, ap (limits_calls log answers (i + 1)) q ∙ p)

  -- Without a limit on I/O slimming ends on every input, well-formed or not: it returns a file, or
  -- an error, or panics, with no limits and with a limit on the CPU; in the second case every call
  -- of the limits returns, whatever calls are made.
  pub slim_pcap-Ends :
      (src : Reader) (log : List LimitCall) (answers : ℕ → Answers F) (r : ResourceLimits F)
      → r.io ≡ none
      → Ends (slim_pcap_with_options src none)
        × Ends (slim_pcap_with_options src (some []))
        × ((r' : ResourceLimits F) × (limits_calls log answers 0 (returned r) ≡ returned r'))
  slim_pcap-Ends src log answers r e =
      (loop-Ends src none, loop-Ends src (some []), unlimited_calls log answers 0 r e)
