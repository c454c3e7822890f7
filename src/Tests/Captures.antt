-- ===== src/Tests/Captures.antt =====
-- A capture of two packets, and the header of a third that is cut off.
use rust_pcaprune.Testutil.{eth_ipv4_tcp_frame}
use rust_pcaprune.Testutil.Fixtures.{
  order_of, ghdr_le, minimal_frame, AllShort, write_minimal_pcap, write_pcap_records,
  count_packets-fixture,
}
use rust_pcaprune.Prelude.{
  drop, ℕ, ◌+◌, ◌≤◌, ◌≡◌, refl, Bool, true, false, List, [], ◌∷◌, none, some, length, Bytes, ret,
  arith, replicate,
}
use rust_pcaprune.PcapIo.Base.{ok, SlimStats, Limits}
use rust_pcaprune.PcapIo.Header.{Endian, to_bytes}
use rust_pcaprune.PcapIo.Slim.{slim_pcap_with_options, analyze_pcap_with_options}
use rust_pcaprune.Packet.{PacketOutcome, keep, truncated, process_packet}
use rust_pcaprune.PcapIo.Format.{CapturePacket, GlobalHeader}
use rust_pcaprune.Parse.L2.{Tagged-bounds}
use rust_pcaprune.Packet.Panic.{CutFlags, process_packet-panic_iff}
use rust_pcaprune.Packet.Idempotent.{Sane}
use rust_pcaprune.PcapIo.Count.{count_packets_with_options}
use rust_pcaprune.PcapIo.Refine.{capture, file, stats_of}
use rust_pcaprune.PcapIo.Packets.{Slims}
use rust_pcaprune.PcapIo.Counted.{count_packets_counts}
use rust_pcaprune.PcapIo.Whole.{
  NoneCut, AllSane, Capture, slim_pcap_refines, slim_pcap_idempotent, count_packets_after_slim,
  slim_pcap_saves,
}
use rust_pcaprune.PcapIo.Analyzed.{stats_of_slim, stats_of_analyze, analyze_pcap_predicts}
use rust_pcaprune.PcapIo.Ends.{Ends, slim_pcap-Ends}
use rust_pcaprune.Limit.Float.{Thousandths, thousandths}
use rust_pcaprune.Limit.Config.{ResourceLimits}
use rust_pcaprune.Limit.Calls.{returned, limits_calls}
use rust_pcaprune.Tests.Limits.{calls, answers, busy_governor}
use rust_pcaprune.Tests.Frames.{tls_frame, all_bytes-IsBytes}
use rust_pcaprune.Tests.Packets.{process-tls_frame, tls-Sane, tls_out}
use rust_pcaprune.Parse.{parse_frame}
use rust_pcaprune.Packet.{process_parsed}

abbrev pub little : Endian
little = record { le = true }

abbrev pub ghdr : Bytes
ghdr = 0xD4 ∷ 0xC3 ∷ 0xB2 ∷ 0xA1 ∷ replicate 20 0

abbrev short_frame : Bytes
short_frame = replicate 10 1

abbrev tls_packet : CapturePacket
tls_packet = record { ts_sec = 1000; ts_usec = 5; orig_len = 84; frame = tls_frame }

abbrev pub short_packet : CapturePacket
short_packet = record { ts_sec = 1001; ts_usec = 7; orig_len = 10; frame = short_frame }

abbrev pub packets : List CapturePacket
packets = tls_packet ∷ short_packet ∷ []

abbrev pub cut_header : Bytes
cut_header = 1 ∷ 2 ∷ 3 ∷ []

ghdr-GlobalHeader : GlobalHeader little ghdr
unfolding to_bytes
ghdr-GlobalHeader = record { more = replicate 20 0; is_magic = refl; size = refl }

pub packets-Capture : Capture little ghdr cut_header packets
packets-Capture = record {
  header = ghdr-GlobalHeader;
  cut = omega arith;
  fit = (
    record { sec = omega arith; usec = omega arith; orig = omega arith; incl = omega arith },
    (record { sec = omega arith; usec = omega arith; orig = omega arith; incl = omega arith }, tt),
  );
}

process-short_frame : process_packet short_frame ≡ ret (keep, false)
unfolding process_packet parse_frame process_parsed
process-short_frame = refl

not_panic-CutFlags :
    (frame : Bytes) (r : PacketOutcome × Bool) → process_packet frame ≡ ret r → ¬ CutFlags frame
not_panic-CutFlags frame r e = λ c. cc ((process_packet-panic_iff frame).0.1 c)

pub packets-NoneCut : NoneCut packets
packets-NoneCut = (
  not_panic-CutFlags tls_frame (truncated tls_out, true) process-tls_frame,
  (not_panic-CutFlags short_frame (keep, false) process-short_frame, tt),
)

short-Sane : Sane short_frame
short-Sane = record {
  bytes = all_bytes-IsBytes short_frame refl;
  size = omega arith;
  ihl = λ ip t. absurd (omega (arith, Tagged-bounds t));
}

packets-AllSane : AllSane packets
packets-AllSane = (tls-Sane, (short-Sane, tt))

abbrev pub source : Bytes
source = capture little ghdr packets cut_header

slim_pcap_refines_example :
    (qs : List CapturePacket) × (t : ℕ) × (k : ℕ) × (l : Limits) × Slims packets qs t k
    × (slim_pcap_with_options (file source) none
        ≡ ret (ok (capture little ghdr qs [], stats_of t k source (capture little ghdr qs []), l)))
slim_pcap_refines_example =
    slim_pcap_refines little ghdr cut_header packets none packets-Capture packets-NoneCut

slim_pcap_idempotent_example :
    (out : Bytes) × (stats : SlimStats) × (l : Limits) × (l' : Limits) × (slim_pcap_with_options
        (file source)
        none
      ≡ ret (ok (out, stats, l)))
    × (slim_pcap_with_options (file out) none
        ≡ ret (ok (out, stats_of 0 stats.in_pkts out out, l')))
slim_pcap_idempotent_example =
    slim_pcap_idempotent little ghdr cut_header packets none none packets-Capture packets-NoneCut
      packets-AllSane

count_packets_after_slim_example :
    (out : Bytes) × (stats : SlimStats) × (l : Limits) × (slim_pcap_with_options (file source) none
      ≡ ret (ok (out, stats, l)))
    × ((m : Limits) × (count_packets_with_options (file out) (some [])
          ≡ ret (ok (stats.in_pkts, m))))
    × ((m : Limits) × (count_packets_with_options (file source) (some [])
          ≡ ret (ok (stats.in_pkts, m))))
count_packets_after_slim_example =
    count_packets_after_slim little ghdr cut_header packets none (some []) packets-Capture
      packets-NoneCut

count_packets_counts_example :
    (l : Limits) × (count_packets_with_options (file source) none ≡ ret (ok (length packets, l)))
count_packets_counts_example =
    count_packets_counts little ghdr cut_header packets none ghdr-GlobalHeader (omega arith)
      packets-Capture.fit

slim_pcap_saves_example :
    (out : Bytes) × (stats : SlimStats) × (l : Limits) × (slim_pcap_with_options (file source) none
      ≡ ret (ok (out, stats, l)))
    × (stats.in_pkts ≡ 2)
    × (stats.truncated + stats.kept ≡ stats.in_pkts)
    × (stats.out_bytes + stats.truncated ≤ stats.in_bytes)
slim_pcap_saves_example =
    slim_pcap_saves little ghdr cut_header packets none packets-Capture packets-NoneCut

analyze_pcap_predicts_example :
    stats_of_slim (slim_pcap_with_options (file source) none)
    ≡ stats_of_analyze (analyze_pcap_with_options (file source) none)
analyze_pcap_predicts_example = analyze_pcap_predicts (file source) none none

-- A limit on the CPU alone.
abbrev cpu_only : ResourceLimits Thousandths
cpu_only = record { io = none; io_pending = 0; cpu = some busy_governor }

slim_pcap-Ends_example :
    Ends (slim_pcap_with_options (file cut_header) none)
    × Ends (slim_pcap_with_options (file cut_header) (some []))
    × ((r : ResourceLimits Thousandths) × (limits_calls calls answers 0 (returned cpu_only)
          ≡ returned r))
slim_pcap-Ends_example = slim_pcap-Ends (file cut_header) calls answers cpu_only refl

minimal-GlobalHeader : GlobalHeader (order_of true) ghdr_le
unfolding to_bytes
minimal-GlobalHeader = record { more = drop 4 ghdr_le; is_magic = refl; size = refl }

minimal_frame-AllShort : AllShort (minimal_frame ∷ minimal_frame ∷ [])
unfolding eth_ipv4_tcp_frame
minimal_frame-AllShort = (omega arith, (omega arith, tt))

-- A capture of two packets, as the tests of the repository write it.
counts_minimal :
    (l : Limits) × (count_packets_with_options (file (write_minimal_pcap 2)) none ≡ ret (ok (2, l)))
unfolding write_minimal_pcap write_pcap_records
counts_minimal =
    count_packets-fixture true ghdr_le (minimal_frame ∷ minimal_frame ∷ []) none none
      minimal-GlobalHeader minimal_frame-AllShort
