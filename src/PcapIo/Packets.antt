-- ===== src/PcapIo/Packets.antt =====
-- The record loop of slim_pcap_to_writer_with_options of src/pcap_io.rs, packet by packet.
use rust_pcaprune.Prelude.{
  ℕ, zero, suc, ◌+◌, ◌^◌, ◌<◌, ◌≡◌, refl, sym, ap, ◌∙◌, Bool, true, false, List, [], ◌∷◌, ◌++◌,
  length, Bytes, ret, arith, append-nil, append_assoc,
}
use rust_pcaprune.PcapIo.Base.{
  ok, Ending, end_of_file, Reader, got, eof, read_exact, read_or_fail, SlimStats, maybe_cpu_tick,
}
use rust_pcaprune.PcapIo.Header.{Endian, read_u32}
use rust_pcaprune.PcapIo.Batch.{write_record, content, content-write_record}
use rust_pcaprune.PcapIo.Slim.{
  frame_out, count_packet, rewrite_header, Slimming, charge, slim_record, slim_loop,
}
use rust_pcaprune.Packet.Decision.{process_packet_iff}
use rust_pcaprune.Packet.{PacketOutcome, keep, truncated, process_packet}
use rust_pcaprune.PcapIo.Format.{
  CapturePacket, Fits, record_header, encode, encode_all, Fields-record_header,
  rewrite_header-record_header, read_exact-short, read_or_fail-append, before, at_frame,
  read_exact-before,
}

-- What slimming makes of the packets of a capture, with the numbers of those shortened and kept.
pub data Slims : List CapturePacket → List CapturePacket → ℕ → ℕ → Type 0 where
  no_more : Slims [] [] 0 0
  shorten :
      {p : CapturePacket} {ps qs : List CapturePacket} {t k : ℕ} (out : Bytes)
      → process_packet p.frame ≡ ret (truncated out, true)
      → Slims ps qs t k
      → Slims (p ∷ ps) (record p { frame = out } ∷ qs) (suc t) k
  leave :
      {p : CapturePacket} {ps qs : List CapturePacket} {t k : ℕ}
      → process_packet p.frame ≡ ret (keep, false)
      → Slims ps qs t k
      → Slims (p ∷ ps) (p ∷ qs) t (suc k)

-- Every packet of the list fits its record header.
abbrev pub AllFit : List CapturePacket → Type 0
AllFit [] = Unit {0}
AllFit (p ∷ ps) = Fits p × AllFit ps

-- The state behind a record whose packet was read and processed.
abbrev pub stepped : Endian → Slimming → Bytes → Reader → Bytes → PacketOutcome → Bool → Slimming
stepped e s rec_hdr r' frame o b =
    let w₂ = charge (charge s.batch 16) (read_u32 e rec_hdr 8) in
    let out = frame_out frame o in
    let stats = count_packet s.stats b in
    let w₃ = write_record w₂ (rewrite_header e rec_hdr (length out)) out in
    record {
      reader = r';
      stats = stats;
      batch = record w₃ { limits = maybe_cpu_tick w₃.limits stats.in_pkts };
    }

pub slim_record-stepped :
    (e : Endian) (s : Slimming) (rec_hdr : Bytes) (r r' : Reader) (frame : Bytes)
    (o : PacketOutcome) (b : Bool)
    → read_or_fail r (read_u32 e rec_hdr 8) ≡ ret (ok (frame, r'))
    → process_packet frame ≡ ret (o, b)
    → slim_record e s rec_hdr r ≡ ret (ok (stepped e s rec_hdr r' frame o b))
unfolding slim_record
slim_record-stepped e s rec_hdr r r' frame o b h q = rw (h, q) refl

content-stepped :
    (e : Endian) (s : Slimming) (p : CapturePacket) (r' : Reader) (o : PacketOutcome) (b : Bool)
    → Fits p
    → length (frame_out p.frame o) < 2 ^ 32
    → content (stepped e s (record_header e p) r' p.frame o b).batch
      ≡ content s.batch ++ encode e (record p { frame = frame_out p.frame o })
content-stepped e s p r' o b f small =
    content-write_record (charge (charge s.batch 16) (read_u32 e (record_header e p) 8))
      (rewrite_header e (record_header e p) (length (frame_out p.frame o))) (frame_out p.frame o)
    ∙ ap (λ h. content s.batch ++ (h ++ frame_out p.frame o))
        (rewrite_header-record_header e p (length p.frame) (length (frame_out p.frame o)) f f.incl
          small)

-- The record of one packet, read and written.
slim_record-packet :
    (e : Endian) (s : Slimming) (p : CapturePacket) (rest : Bytes) (d : Ending) (o : PacketOutcome)
    (b : Bool)
    → Fits p
    → process_packet p.frame ≡ ret (o, b)
    → slim_record e s (record_header e p) (record { rest = p.frame ++ rest; ending = d })
      ≡ ret (ok (stepped e s (record_header e p) (record { rest = rest; ending = d }) p.frame o b))
slim_record-packet e s p rest d o b f run =
    slim_record-stepped e s (record_header e p) (record { rest = p.frame ++ rest; ending = d })
      (record { rest = rest; ending = d }) p.frame o b
      (read_or_fail-append p.frame rest d (read_u32 e (record_header e p) 8)
        (sym (Fields-record_header e p (length p.frame) f f.incl).2))
      run

pub slim_loop-got :
    (fuel : ℕ) (e : Endian) (s s' : Slimming) (rec_hdr : Bytes) (r : Reader)
    → read_exact s.reader 16 ≡ got rec_hdr r
    → slim_record e s rec_hdr r ≡ ret (ok s')
    → slim_loop (suc fuel) e s ≡ slim_loop fuel e s'
unfolding slim_loop
slim_loop-got fuel e s s' rec_hdr r h q = rw (h, slim_loop) (rw (q) refl)

pub slim_loop-eof :
    (fuel : ℕ) (e : Endian) (s : Slimming)
    → read_exact s.reader 16 ≡ eof
    → slim_loop (suc fuel) e s ≡ ret (ok s)
unfolding slim_loop
slim_loop-eof fuel e s h = rw (h, slim_loop) refl

-- The statistics grew by `t` packets shortened and `k` left.
abbrev pub Counted : SlimStats → SlimStats → ℕ → ℕ → Type 0
Counted s s' t k =
    (s'.in_pkts ≡ s.in_pkts + (t + k))
    × (s'.truncated ≡ s.truncated + t)
    × (s'.kept ≡ s.kept + k)
    × (s'.in_bytes ≡ s.in_bytes)

abbrev Slimmed : Endian → Slimming → List CapturePacket → ℕ → ℕ → ℕ → Type 0
Slimmed e s qs t k fuel =
    (s' : Slimming) × (slim_loop fuel e s ≡ ret (ok s'))
    × (content s'.batch ≡ content s.batch ++ encode_all e qs)
    × Counted s.stats s'.stats t k

Counted-truncated :
    (s s' : SlimStats) (t k : ℕ) → Counted (count_packet s true) s' t k → Counted s s' (suc t) k
unfolding count_packet
Counted-truncated s s' t k c = (omega (arith, c.0), omega (arith, c.1), omega (arith, c.2), c.3)

Counted-kept :
    (s s' : SlimStats) (t k : ℕ) → Counted (count_packet s false) s' t k → Counted s s' t (suc k)
unfolding count_packet
Counted-kept s s' t k c = (omega (arith, c.0), omega (arith, c.1), omega (arith, c.2), c.3)

-- The front packet is read, processed and written; the loop goes on behind it.
loop_packet :
    (fuel : ℕ) (e : Endian) (s : Slimming) (p : CapturePacket) (ps : List CapturePacket)
    (tail : Bytes) (o : PacketOutcome) (b : Bool)
    → s.reader ≡ before e (p ∷ ps) tail
    → Fits p
    → process_packet p.frame ≡ ret (o, b)
    → slim_loop (suc fuel) e s
      ≡ slim_loop fuel e (stepped e s (record_header e p) (before e ps tail) p.frame o b)
loop_packet fuel e s p ps tail o b a f run =
    slim_loop-got fuel e s (stepped e s (record_header e p) (before e ps tail) p.frame o b)
      (record_header e p) (at_frame e p ps tail)
      (ap (λ r. read_exact r 16) a ∙ read_exact-before e p ps tail)
      (slim_record-packet e s p (encode_all e ps ++ tail) end_of_file o b f run)

pub small_out :
    (frame out : Bytes) (b : Bool)
    → process_packet frame ≡ ret (truncated out, b)
    → length frame < 2 ^ 32
    → length out < 2 ^ 32
small_out frame out b e h = omega (arith, ((process_packet_iff frame out b).0 e).4)

-- Every packet is rewritten in its place, and the loop ends at the cut header.
pub slim_loop-packets :
    (fuel : ℕ) (e : Endian) (s : Slimming) (tail : Bytes) {ps qs : List CapturePacket} {t k : ℕ}
    → length tail < 16
    → AllFit ps
    → Slims ps qs t k
    → t + k < fuel
    → s.reader ≡ before e ps tail
    → Slimmed e s qs t k fuel
unfolding frame_out
slim_loop-packets zero e s tail h f x less a = absurd (omega arith)
slim_loop-packets (suc fuel) e s tail h f no_more less a = (
  s,
  slim_loop-eof fuel e s (ap (λ r. read_exact r 16) a ∙ read_exact-short tail 16 h),
  sym (append-nil (content s.batch)),
  (omega arith, omega arith, omega arith, refl),
)
slim_loop-packets (suc fuel) e s tail {ps = p ∷ ps} {qs = q ∷ qs} h f (shorten out run x) less a =
    let o : PacketOutcome = truncated out in
    let s₁ = stepped e s (record_header e p) (before e ps tail) p.frame o true in
    let (s', l, c, n) = slim_loop-packets fuel e s₁ tail h f.1 x (omega arith) refl in
    (
      s',
      loop_packet fuel e s p ps tail o true a f.0 run ∙ l,
      c
          ∙ ap (λ y. y ++ encode_all e qs)
              (content-stepped e s p (before e ps tail) o true f.0
                (small_out p.frame out true run f.0.incl))
          ∙ append_assoc (content s.batch) (encode e q) (encode_all e qs),
      Counted-truncated s.stats s'.stats _ _ n,
    )
slim_loop-packets (suc fuel) e s tail {ps = p ∷ ps} {qs = q ∷ qs} h f (leave run x) less a =
    let s₁ = stepped e s (record_header e p) (before e ps tail) p.frame keep false in
    let (s', l, c, n) = slim_loop-packets fuel e s₁ tail h f.1 x (omega arith) refl in
    (
      s',
      loop_packet fuel e s p ps tail keep false a f.0 run ∙ l,
      c
          ∙ ap (λ y. y ++ encode_all e qs)
              (content-stepped e s p (before e ps tail) keep false f.0 f.0.incl)
          ∙ append_assoc (content s.batch) (encode e q) (encode_all e qs),
      Counted-kept s.stats s'.stats _ _ n,
    )
