-- ===== src/PcapIo/Whole.antt =====
-- Slimming whole captures of src/pcap_io.rs: it is total on packets that are not cut in their IPv4
-- header, its output is a capture again, and slimming that changes nothing.
use rust_pcaprune.Prelude.{
  ℕ, suc, ◌+◌, ◌≤◌, ◌<◌, ◌≡◌, refl, sym, ap, ◌∙◌, Bool, true, false, List, [], ◌∷◌, ◌++◌, length,
  Bytes, ret, inl, inr, arith, >>=-eq-ret, length-append, subst,
}
use rust_pcaprune.PcapIo.Base.{ok, SlimStats, Limits}
use rust_pcaprune.PcapIo.Header.{Endian}
use rust_pcaprune.PcapIo.Slim.{slim_pcap_with_options}
use rust_pcaprune.Packet.{PacketOutcome, keep, truncated, process_packet}
use rust_pcaprune.PcapIo.Format.{
  CapturePacket, Fits, record_header, encode, encode_all, GlobalHeader, length-record_header,
}
use rust_pcaprune.PcapIo.Refine.{capture, file, stats_of, slim_pcap-Slims}
use rust_pcaprune.PcapIo.Packets.{no_more, shorten, leave}
use rust_pcaprune.PcapIo.Packets.{Slims, AllFit, small_out}
use rust_pcaprune.Policy.{Action}
use rust_pcaprune.Parse.Frame.{Parsed, parsed, too_short, ParsedFrame}
use rust_pcaprune.Parse.{parse_frame}
use rust_pcaprune.Policy.{decide_action}
use rust_pcaprune.Truncate.{apply_truncate_on_parsed}
use rust_pcaprune.Packet.{outcome, act, process_parsed}
use rust_pcaprune.Packet.Panic.{CutFlags, process_packet-panic_iff}
use rust_pcaprune.Packet.Decision.{process_packet_iff}
use rust_pcaprune.Packet.Idempotent.{Sane, process_packet_idempotent}
use rust_pcaprune.PcapIo.Count.{count_packets_with_options}
use rust_pcaprune.PcapIo.Counted.{count_packets_counts}

-- No packet announces IPv4 and ends before its flags.
abbrev pub NoneCut : List CapturePacket → Type 0
NoneCut [] = Unit {0}
NoneCut (p ∷ ps) = (¬ CutFlags p.frame) × NoneCut ps

outcome-keep : (r : Bytes × Bool) (b : Bool) → outcome r ≡ (keep, b) → b ≡ false
outcome-keep (buf, true) b e = cc
outcome-keep (buf, false) b e = cc

act-keep :
    (frame : Bytes) (p : ParsedFrame) (a : Action) (b : Bool)
    → act frame p a ≡ ret (keep, b)
    → b ≡ false
unfolding act
act-keep frame p Action.keep b e = cc
act-keep frame p Action.truncate b e =
    let (r, q, s) = >>=-eq-ret (apply_truncate_on_parsed frame p) (λ r. ret (outcome r)) e in
    outcome-keep r b (cc s)

process_parsed-keep :
    (frame : Bytes) (r : Parsed) (b : Bool) → process_parsed frame r ≡ ret (keep, b) → b ≡ false
unfolding process_parsed
process_parsed-keep frame too_short b e = cc
process_parsed-keep frame (parsed p) b e =
    let (a, q, s) = >>=-eq-ret (decide_action p) (act frame p) e in act-keep frame p a b s

process_packet-keep : (frame : Bytes) (b : Bool) → process_packet frame ≡ ret (keep, b) → b ≡ false
unfolding process_packet
process_packet-keep frame b e =
    let (r, q, s) = >>=-eq-ret (parse_frame frame) (process_parsed frame) e in
    process_parsed-keep frame r b s

-- Every list of packets that are not cut has its slimmed form.
abbrev Slimmable : List CapturePacket → Type 0
Slimmable ps = (qs : List CapturePacket) × (t : ℕ) × (k : ℕ) × Slims ps qs t k

Slimmable-cons :
    (p : CapturePacket) (ps : List CapturePacket) (o : PacketOutcome) (b : Bool)
    → process_packet p.frame ≡ ret (o, b)
    → Slimmable ps
    → Slimmable (p ∷ ps)
Slimmable-cons p ps keep b e (qs, t, k, x) =
    (p ∷ qs, t, suc k, leave (e ∙ ap (λ c. ret (keep, c)) (process_packet-keep p.frame b e)) x)
Slimmable-cons p ps (truncated out) b e (qs, t, k, x) = (
  record p { frame = out } ∷ qs,
  suc t,
  k,
  shorten out (e ∙ ap (λ c. ret (truncated out, c)) ((process_packet_iff p.frame out b).0 e).2) x,
)

NoneCut-Slimmable : (ps : List CapturePacket) → NoneCut ps → Slimmable ps
NoneCut-Slimmable [] n = ([], 0, 0, no_more)
NoneCut-Slimmable (p ∷ ps) n = elim (process_packet-panic_iff p.frame).1 [
  | inl ((o, b), e) ↦ Slimmable-cons p ps o b e (NoneCut-Slimmable ps n.1)
  | inr e ↦ absurd (n.0 ((process_packet-panic_iff p.frame).0.0 e))
]

Fits-out :
    (p : CapturePacket) (out : Bytes)
    → Fits p
    → process_packet p.frame ≡ ret (truncated out, true)
    → Fits (record p { frame = out })
Fits-out p out f e = record {
  sec = f.sec;
  usec = f.usec;
  orig = f.orig;
  incl = small_out p.frame out true e f.incl;
}

pub AllFit-Slims : {ps qs : List CapturePacket} {t k : ℕ} → AllFit ps → Slims ps qs t k → AllFit qs
AllFit-Slims f no_more = f
AllFit-Slims {ps = p ∷ ps} f (shorten out e x) = (Fits-out p out f.0 e, AllFit-Slims f.1 x)
AllFit-Slims f (leave e x) = (f.0, AllFit-Slims f.1 x)

abbrev pub AllSane : List CapturePacket → Type 0
AllSane [] = Unit {0}
AllSane (p ∷ ps) = Sane p.frame × AllSane ps

Slims-again :
    {ps qs : List CapturePacket} {t k : ℕ} → AllSane ps → Slims ps qs t k → Slims qs qs 0 (t + k)
Slims-again s no_more = no_more
Slims-again {ps = p ∷ ps} {qs = q ∷ qs} {t = suc t} {k = k} s (shorten out e x) =
    subst (λ n. Slims (q ∷ qs) (q ∷ qs) 0 n) (omega arith)
      (leave (process_packet_idempotent p.frame out true s.0 e) (Slims-again s.1 x))
Slims-again {ps = p ∷ ps} {qs = q ∷ qs} {t = t} {k = suc k} s (leave e x) =
    subst (λ n. Slims (q ∷ qs) (q ∷ qs) 0 n) (omega arith) (leave e (Slims-again s.1 x))

pub length-Slims :
    {ps qs : List CapturePacket} {t k : ℕ}
    → Slims ps qs t k
    → (length ps ≡ t + k) × (length qs ≡ t + k)
length-Slims no_more = (omega arith, omega arith)
length-Slims (shorten out e x) =
    (omega (arith, (length-Slims x).0), omega (arith, (length-Slims x).1))
length-Slims (leave e x) = (omega (arith, (length-Slims x).0), omega (arith, (length-Slims x).1))

-- A capture with its packets and the file's end.
pub record Capture (e : Endian) (ghdr tail : Bytes) (ps : List CapturePacket) : Type 0 where
  pub header : GlobalHeader e ghdr
  pub cut : length tail < 16
  pub fit : AllFit ps

-- Slimming a capture terminates and returns a capture, if no packet announces IPv4 and ends before
-- its flags. The global header is copied, a record header cut off at the end is dropped, and each
-- packet stands in its place with its times and its length on the wire, and with the frame that
-- `process_packet` makes of it. The statistics count the packets and the bytes of both files.
pub slim_pcap_refines :
    (e : Endian) (ghdr tail : Bytes) (ps : List CapturePacket) (limits : Limits)
    → Capture e ghdr tail ps
    → NoneCut ps
    → (qs : List CapturePacket) × (t : ℕ) × (k : ℕ) × (l : Limits) × Slims ps qs t k
      × (slim_pcap_with_options (file (capture e ghdr ps tail)) limits
          ≡ ret (
              ok (
                capture e ghdr qs [],
                stats_of t k (capture e ghdr ps tail) (capture e ghdr qs []),
                l,
              )))
slim_pcap_refines e ghdr tail ps limits c n =
    let (qs, t, k, x) = NoneCut-Slimmable ps n in
    let (l, r) = slim_pcap-Slims e ghdr tail limits c.header c.cut c.fit x in (qs, t, k, l, x, r)

-- Slimming a slimmed capture writes the same file again, with all of its packets kept, if the
-- frames are at most 64 KiB of bytes and their IPv4 headers at least 20 bytes.
pub slim_pcap_idempotent :
    (e : Endian) (ghdr tail : Bytes) (ps : List CapturePacket) (limits limits' : Limits)
    → Capture e ghdr tail ps
    → NoneCut ps
    → AllSane ps
    → (out : Bytes) × (stats : SlimStats) × (l : Limits) × (l' : Limits) × (slim_pcap_with_options
          (file (capture e ghdr ps tail))
          limits
        ≡ ret (ok (out, stats, l)))
      × (slim_pcap_with_options (file out) limits'
          ≡ ret (ok (out, stats_of 0 stats.in_pkts out out, l')))
slim_pcap_idempotent e ghdr tail ps limits limits' c n s =
    let (qs, t, k, l, x, r) = slim_pcap_refines e ghdr tail ps limits c n in
    let (l', r') =
      slim_pcap-Slims e ghdr [] limits' c.header (omega arith) (AllFit-Slims c.fit x)
        (Slims-again s x) in
    (
      capture e ghdr qs [],
      stats_of t k (capture e ghdr ps tail) (capture e ghdr qs []),
      l,
      l',
      r,
      r',
    )

-- The check that guards the replacement of a file: slimming a capture leaves a file in which
-- `count_packets` finds as many packets as in the source, and as the statistics report.
pub count_packets_after_slim :
    (e : Endian) (ghdr tail : Bytes) (ps : List CapturePacket) (limits limits' : Limits)
    → Capture e ghdr tail ps
    → NoneCut ps
    → (out : Bytes) × (stats : SlimStats) × (l : Limits) × (slim_pcap_with_options
          (file (capture e ghdr ps tail))
          limits
        ≡ ret (ok (out, stats, l)))
      × ((m : Limits) × (count_packets_with_options (file out) limits'
            ≡ ret (ok (stats.in_pkts, m))))
      × ((m : Limits) × (count_packets_with_options (file (capture e ghdr ps tail)) limits'
            ≡ ret (ok (stats.in_pkts, m))))
count_packets_after_slim e ghdr tail ps limits limits' c n =
    let (qs, t, k, l, x, r) = slim_pcap_refines e ghdr tail ps limits c n in
    let (m, d) =
      count_packets_counts e ghdr [] qs limits' c.header (omega arith) (AllFit-Slims c.fit x) in
    let (m', d') = count_packets_counts e ghdr tail ps limits' c.header c.cut c.fit in
    (
      capture e ghdr qs [],
      stats_of t k (capture e ghdr ps tail) (capture e ghdr qs []),
      l,
      r,
      (m, d ∙ ap (λ i. ret (ok (i, m))) (length-Slims x).1),
      (m', d' ∙ ap (λ i. ret (ok (i, m'))) (length-Slims x).0),
    )

length-Slims_bytes :
    (e : Endian) {ps qs : List CapturePacket} {t k : ℕ}
    → Slims ps qs t k
    → length (encode_all e qs) + t ≤ length (encode_all e ps)
length-Slims_bytes e no_more = omega arith
length-Slims_bytes e {ps = p ∷ ps} {qs = q ∷ qs} (shorten out r x) = omega (
  arith,
  length-Slims_bytes e x,
  ((process_packet_iff p.frame out true).0 r).4,
  length-append (encode e q) (encode_all e qs),
  length-append (encode e p) (encode_all e ps),
  length-append (record_header e p) p.frame,
  length-append (record_header e q) out,
  length-record_header e p (length p.frame),
  length-record_header e q (length out),
)
length-Slims_bytes e {ps = p ∷ ps} {qs = q ∷ qs} (leave r x) = omega (
  arith,
  length-Slims_bytes e x,
  length-append (encode e p) (encode_all e qs),
  length-append (encode e p) (encode_all e ps),
)

-- The numbers that slimming a capture reports add up: every packet is shortened or kept, and the
-- new file is smaller by a byte at least for each packet shortened.
pub slim_pcap_saves :
    (e : Endian) (ghdr tail : Bytes) (ps : List CapturePacket) (limits : Limits)
    → Capture e ghdr tail ps
    → NoneCut ps
    → (out : Bytes) × (stats : SlimStats) × (l : Limits) × (slim_pcap_with_options
          (file (capture e ghdr ps tail))
          limits
        ≡ ret (ok (out, stats, l)))
      × (stats.in_pkts ≡ length ps)
      × (stats.truncated + stats.kept ≡ stats.in_pkts)
      × (stats.out_bytes + stats.truncated ≤ stats.in_bytes)
slim_pcap_saves e ghdr tail ps limits c n =
    let (qs, t, k, l, x, r) = slim_pcap_refines e ghdr tail ps limits c n in
    (
      capture e ghdr qs [],
      stats_of t k (capture e ghdr ps tail) (capture e ghdr qs []),
      l,
      r,
      sym (length-Slims x).0,
      refl,
      omega (
        arith,
        length-Slims_bytes e x,
        length-append ghdr (encode_all e qs ++ []),
        length-append ghdr (encode_all e ps ++ tail),
        length-append (encode_all e qs) [],
        length-append (encode_all e ps) tail,
      ),
    )
