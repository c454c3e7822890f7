-- ===== src/PcapIo/Charged.antt =====
-- What src/pcap_io.rs charges to the limits of src/limit.rs: every byte read and written.
use rust_pcaprune.Prelude.{
  ℕ, zero, suc, ◌+◌, ◌%◌, ◌<◌, ◌≡◌, refl, sym, ◌∙◌, Bool, ◌&&◌, not, List, [], ◌∷◌, ◌++◌, some, ltb,
  ◌==◌, length, Bytes, ret, inl, inr, arith, Bool-cases, length-append, subst,
}
use rust_pcaprune.PcapIo.Base.{
  io_fault, ok, ◌>>=◌, >>=-eq-ok, ok_injective, err_not_ok, Io-cases, lift, Reader, read_exact,
  read_or_fail, SlimStats, Limits, account_io, flush_limits, maybe_cpu_tick,
}
use rust_pcaprune.PcapIo.Header.{Endian, read_u32, read_global_header}
use rust_pcaprune.PcapIo.Batch.{WriteBatch, flush, write_record}
use rust_pcaprune.PcapIo.Slim.{
  frame_out, count_packet, rewrite_header, Slimming, charge, slim_record, slim_loop,
  slim_pcap_to_writer_with_options, slim_pcap_with_options,
}
use rust_pcaprune.Packet.{PacketOutcome, process_packet}
use rust_pcaprune.Limit.{asked}
use rust_pcaprune.PcapIo.Base.{LimitCall, acquire_io, flush_io, cpu_tick, call}
use rust_pcaprune.PcapIo.Batch.{is_empty, write_batch_cap}
use rust_pcaprune.PcapIo.Packets.{stepped}
use rust_pcaprune.PcapIo.Steps.{
  Read-cases, read_exact-length, read_exact-rest, read_or_fail-rest, global_header-got, eof-short,
}
use rust_pcaprune.PcapIo.Refine.{loop_start, slim_result, slim_pcap-loop}
use rust_pcaprune.PcapIo.Analyzed.{
  read_packet, after_slim, slim_record-read_packet, slim_loop-record,
}

asked-append : (xs ys : List LimitCall) → asked (xs ++ ys) ≡ asked xs + asked ys
asked-append [] ys = omega arith
asked-append (acquire_io n ∷ xs) ys = omega (arith, asked-append xs ys)
asked-append (flush_io ∷ xs) ys = asked-append xs ys
asked-append (cpu_tick ∷ xs) ys = asked-append xs ys

-- The calls logged ask for `k` bytes.
Asks : Limits → ℕ → Type 0
Asks limits k = (log : List LimitCall) × (limits ≡ some log) × (asked log ≡ k)

Asks-account_io : (l : Limits) (n k : ℕ) → Asks l k → Asks (account_io l n) (k + n)
unfolding Asks account_io call
Asks-account_io l n k (log, e, a) =
    (log ++ (acquire_io n ∷ []), rw e refl, omega (arith, asked-append log (acquire_io n ∷ [])))

Asks-flush_limits : (l : Limits) (k : ℕ) → Asks l k → Asks (flush_limits l) k
unfolding Asks flush_limits call
Asks-flush_limits l k (log, e, a) =
    (log ++ (flush_io ∷ []), rw e refl, omega (arith, asked-append log (flush_io ∷ [])))

Asks-maybe_cpu_tick : (l : Limits) (n k : ℕ) → Asks l k → Asks (maybe_cpu_tick l n) k
unfolding Asks maybe_cpu_tick call
Asks-maybe_cpu_tick l n k (log, e, a) = elim (Bool-cases (ltb 0 n && n % 64 == 0)) [
  | inl tick ↦
      rw tick (log ++ (cpu_tick ∷ []), rw e refl, omega (arith, asked-append log (cpu_tick ∷ [])))
  | inr still ↦ rw still (log, e, a)
]

-- `k` bytes were charged besides those that were written.
abbrev Balance : WriteBatch → ℕ → Type 0
Balance w k = Asks w.limits (k + length w.written)

Asks-eq : (l : Limits) (j k : ℕ) → j ≡ k → Asks l j → Asks l k
Asks-eq l j k e x = subst (λ n. Asks l n) e x

Balance-flush : (w : WriteBatch) (k : ℕ) → Balance w k → Balance (flush w) k
unfolding flush
Balance-flush w k x = elim (Bool-cases (is_empty w.buf)) [
  | inl none_there ↦ rw none_there x
  | inr full ↦ rw full (
      Asks-eq (account_io w.limits (length w.buf)) (k + length w.written + length w.buf)
        (k + length (w.written ++ w.buf)) (omega (arith, length-append w.written w.buf))
        (Asks-account_io w.limits (length w.buf) (k + length w.written) x))
]

Balance-write_record :
    (w : WriteBatch) (h frame : Bytes) (k : ℕ) → Balance w k → Balance (write_record w h frame) k
unfolding write_record
Balance-write_record w h frame k x =
    elim (Bool-cases
      (not (is_empty w.buf) && ltb write_batch_cap (length w.buf + (16 + length frame)))) [
        | inl full ↦ rw full (Balance-flush w k x)
        | inr room ↦ rw room x
      ]

Balance-charge : (w : WriteBatch) (n k : ℕ) → Balance w k → Balance (charge w n) (k + n)
Balance-charge w n k x =
    Asks-eq (account_io w.limits n) (k + length w.written + n) (k + n + length w.written)
      (omega arith) (Asks-account_io w.limits n (k + length w.written) x)

Balance-stepped :
    (e : Endian) (s : Slimming) (h : Bytes) (r' : Reader) (frame : Bytes) (o : PacketOutcome)
    (b : Bool) (k : ℕ)
    → Balance s.batch k
    → Balance (stepped e s h r' frame o b).batch (k + 16 + read_u32 e h 8)
Balance-stepped e s h r' frame o b k x =
    let n = read_u32 e h 8 in
    let w₂ = charge (charge s.batch 16) n in
    let out = frame_out frame o in
    let w₃ = write_record w₂ (rewrite_header e h (length out)) out in
    Asks-maybe_cpu_tick w₃.limits (count_packet s.stats b).in_pkts (k + 16 + n + length w₃.written)
      (Balance-write_record w₂ (rewrite_header e h (length out)) out (k + 16 + n)
        (Balance-charge (charge s.batch 16) n (k + 16) (Balance-charge s.batch 16 k x)))

read_packet-took :
    (r : Reader) (n : ℕ) (x : (Bytes × Reader) × (PacketOutcome × Bool))
    → read_packet r n ≡ ret (ok x)
    → length x.0.1.rest + n ≡ length r.rest
read_packet-took r n x e =
    let (fr, q, s) =
      >>=-eq-ok (read_or_fail r n) (λ fr. lift (process_packet fr.0) >>= λ ob. ret (ok (fr, ob)))
        e in
    let (ob, q', s') = >>=-eq-ok (lift (process_packet fr.0)) (λ ob. ret (ok (fr, ob))) s in
    subst (λ (y : (Bytes × Reader) × (PacketOutcome × Bool)). length y.0.1.rest + n ≡ length r.rest)
      (ok_injective (fr, ob) x s') (read_or_fail-rest r n fr q)

-- One round: what was charged grew by what was read.
record-Balance :
    (e : Endian) (s s' : Slimming) (h : Bytes) (r : Reader) (k : ℕ)
    → slim_record e s h r ≡ ret (ok s')
    → Balance s.batch k
    → (k' : ℕ) × Balance s'.batch k' × (k' + length s'.reader.rest ≡ k + 16 + length r.rest)
record-Balance e s s' h r k q x =
    let n = read_u32 e h 8 in
    let (((frame, r'), (o, b)), p, z) =
      >>=-eq-ok (read_packet r n) (λ y. ret (ok (after_slim e s h y)))
        (sym (slim_record-read_packet e s h r) ∙ q) in
    let t = read_packet-took r n ((frame, r'), (o, b)) p in
    let same : stepped e s h r' frame o b ≡ s' = ok_injective (stepped e s h r' frame o b) s' z in
    (
      k + 16 + n,
      subst (λ (y : Slimming). Balance y.batch (k + 16 + n)) same
          (Balance-stepped e s h r' frame o b k x),
      subst (λ (y : Slimming). k + 16 + n + length y.reader.rest ≡ k + 16 + length r.rest) same
          (omega (arith, t)),
    )

abbrev Balanced : Slimming → ℕ → Type 0
Balanced s total =
    (k : ℕ) × Balance s.batch k × (k + length s.reader.rest ≡ total) × (length s.reader.rest < 16)

loop-Balance :
    (fuel : ℕ) (e : Endian) (s s' : Slimming) (k : ℕ)
    → slim_loop fuel e s ≡ ret (ok s')
    → Balance s.batch k
    → Balanced s' (k + length s.reader.rest)
unfolding slim_loop
loop-Balance zero e s s' k q x = cc
loop-Balance (suc fuel) e s s' k q x = elim (Read-cases (read_exact s.reader 16)) [
  | inr (inl f) ↦
      subst (λ (y : Slimming). Balanced y (k + length s.reader.rest))
        (ok_injective s s' (rw (f, slim_loop) at q)) (k, x, refl, eof-short s.reader 16 f)
  | inr (inr f) ↦ absurd (err_not_ok io_fault s' (rw (f, slim_loop) at q))
  | inl (h, r, f) ↦
      let (s₁, a, b) =
        >>=-eq-ok (slim_record e s h r) (λ y. slim_loop fuel e y)
          (sym (slim_loop-record fuel e s h r f) ∙ q) in
      let (k₁, x₁, t) = record-Balance e s s₁ h r k a x in
      let (k₂, x₂, t₂, z) = loop-Balance fuel e s₁ s' k₁ b x₁ in
      (k₂, x₂, omega (arith, t, t₂, read_exact-rest s.reader r 16 h f), z)
]

Charges : Reader → Bytes × SlimStats × Limits → Type 0
Charges src (out, stats, limits) =
    (log : List LimitCall) × (left : ℕ) × (limits ≡ some log)
    × (asked log + left ≡ length src.rest + length out)
    × (left < 16)

Charges-of :
    (src : Reader) (e : Endian) (ghdr : Bytes) (r : Reader) (s : Slimming)
    → read_global_header src ≡ ret (ok (e, ghdr, r))
    → slim_loop (suc (length src.rest)) e (loop_start src.rest ghdr r (some [])) ≡ ret (ok s)
    → Charges src (slim_result s)
unfolding Charges Asks
Charges-of src e ghdr r s h q =
    let g = global_header-got src (e, ghdr, r) h in
    let s₀ = loop_start src.rest ghdr r (some []) in
    let x₀ : Balance s₀.batch 24 =
      Asks-eq s₀.batch.limits (0 + 24 + 24) (24 + length ghdr)
        (omega (arith, read_exact-length src r 24 ghdr g))
        (Asks-account_io (account_io (some []) 24) 24 (0 + 24)
          (Asks-account_io (some []) 24 0 ([], refl, refl))) in
    let (k, x, t, z) = loop-Balance (suc (length src.rest)) e s₀ s 24 q x₀ in
    let w = flush s.batch in
    let (log, p, a) =
      Asks-flush_limits (flush_limits w.limits) (k + length w.written)
        (Asks-flush_limits w.limits (k + length w.written) (Balance-flush s.batch k x)) in
    (log, length s.reader.rest, p, omega (arith, a, t, read_exact-rest src r 24 ghdr g), z)

-- Every byte is charged: where slimming returns a file, the calls of the limits ask for the bytes
-- of the source that were read, all but a cut record header at its end, and the bytes written.
pub slim_pcap_charges :
    (src : Reader) (out : Bytes) (stats : SlimStats) (limits : Limits)
    → slim_pcap_with_options src (some []) ≡ ret (ok (out, stats, limits))
    → (log : List LimitCall) × (left : ℕ) × (limits ≡ some log)
      × (asked log + left ≡ length src.rest + length out)
      × (left < 16)
unfolding Charges slim_pcap_with_options slim_pcap_to_writer_with_options
slim_pcap_charges src out stats limits q = elim (Io-cases (read_global_header src)) [
  | inl ((e, ghdr, r), h) ↦
      let (s, a, b) =
        >>=-eq-ok (slim_loop (suc (length src.rest)) e (loop_start src.rest ghdr r (some [])))
          (λ y. ret (ok (slim_result y))) (sym (slim_pcap-loop src (some []) e ghdr r h) ∙ q) in
      subst (λ y. Charges src y) (ok_injective (slim_result s) (out, stats, limits) b)
        (Charges-of src e ghdr r s h a)
  | inr (inl (x, h)) ↦ absurd (err_not_ok x (out, stats, limits) (rw h at q))
  | inr (inr (inl h)) ↦ cc (rw h at q)
  | inr (inr (inr h)) ↦ cc (rw h at q)
]
