-- ===== src/Tests/Packets.antt =====
-- Whole packets: what src/packet.rs and src/truncate.rs do to the test frames.
use rust_pcaprune.Prelude.{
  ℕ, ◌+◌, ◌≤◌, ◌<◌, ◌≡◌, refl, sym, ◌∙◌, Bool, true, false, [], ◌∷◌, ◌++◌, some, ltb, if◌then◌else◌,
  length, Bytes, ret, panic, byte, be16, slice, sub, at, store, store16, ◌⊎◌, ◌↔◌, arith, replicate,
  subst,
}
use rust_pcaprune.Checksum.{
  ipv4_header_checksum, internet_checksum, transport_checksum_ipv4, transport_checksum_ipv6,
  udp_checksum_wire, checksum_sum, fold, fold_loop, sum_words, finish, checksum_sum_pseudo_ipv4,
  checksum_sum_pseudo_ipv6,
}
use rust_pcaprune.Parse.Frame.{L4Info, ParsedFrame, Parsed, parsed, too_short, payload, payload_len}
use rust_pcaprune.Parse.{parse_frame, parse_general}
use rust_pcaprune.Parse.PseudoDst.{read_ip4, ipv4_pseudo_dst}
use rust_pcaprune.Parse.L2.{Tagged, Tagged-l2_at, l2_at, vlan_at, inner}
use rust_pcaprune.Parse.Total.{parse_frame-parse_general}
use rust_pcaprune.Parse.Located.{Located, parse_frame-Located}
use rust_pcaprune.Policy.{
  Action, contains, port_in_set, starts_with, decide_tcp, decide_proto, decide_l4, is_fragment,
  decide_action,
}
use rust_pcaprune.Policy.Total.{Ipv4Fragment, Excess, body_at}
use rust_pcaprune.Policy.Document.{Documented, Extended, decide_action-Documented}
use rust_pcaprune.Truncate.{
  sub_usize, read_ip6, update_ipv4_header_checksum, transport_sum, update_tcp_checksum,
  update_udp_checksum, update_ip_header, update_transport, apply_truncate_fields,
  apply_truncate_on_parsed,
}
use rust_pcaprune.Truncate.Keeps.{apply_truncate-keeps}
use rust_pcaprune.Truncate.Received.{pseudo_header, apply_truncate_received}
use rust_pcaprune.Checksum.Receiver.{Verifies}
use rust_pcaprune.Parse.Destination.{no_more}
use rust_pcaprune.Packet.{PacketOutcome, keep, truncated, act, process_parsed, process_packet}
use rust_pcaprune.Packet.Panic.{CutFlags, process_packet-panic_iff}
use rust_pcaprune.Packet.Decision.{ToTruncate, shortened}
use rust_pcaprune.Packet.Documented.{Follows, process_packet_documented}
use rust_pcaprune.Packet.Idempotent.{Sane, process_packet_idempotent}
use rust_pcaprune.Parse.Ipv4.{header_len_at}
use rust_pcaprune.Tests.Frames.{
  all_bytes, all_bytes-IsBytes, tls_frame, tls_header, tls_parsed, parse-tls_frame, tls-Located,
  quic_frame, quic_header, quic_parsed, quic-Located, cut_frame,
}

-- The TLS frame with 24 bytes of payload: total length 64, both checksums.
abbrev pub tls_out : Bytes
tls_out =
    replicate 12 0
    ++ (0x08 ∷ 0 ∷ 0x45 ∷ 0 ∷ 0 ∷ 64 ∷ [])
    ++ (replicate 5 0 ++ 6 ∷ 0xBA ∷ 0xB9 ∷ replicate 8 0)
    ++ (0x30 ∷ 0x39 ∷ 0x01 ∷ 0xBB ∷ replicate 8 0)
    ++ (0x50 ∷ 0 ∷ 0 ∷ 0 ∷ 104 ∷ 196 ∷ 0 ∷ 0 ∷ [])
    ++ replicate 24 0x17

-- The QUIC frame with 24 bytes of payload: both lengths and the checksum.
abbrev quic_out : Bytes
quic_out =
    replicate 12 0
    ++ (0x81 ∷ 0 ∷ 0 ∷ 7 ∷ 0x86 ∷ 0xDD ∷ [])
    ++ (0x60 ∷ 0 ∷ 0 ∷ 0 ∷ 0 ∷ 40 ∷ 0 ∷ 64 ∷ [])
    ++ replicate 32 1
    ++ (17 ∷ 0 ∷ 0 ∷ 0 ∷ 0 ∷ 0 ∷ 0 ∷ 0 ∷ [])
    ++ (0x30 ∷ 0x39 ∷ 0x01 ∷ 0xBB ∷ 0 ∷ 32 ∷ 144 ∷ 125 ∷ [])
    ++ replicate 24 0xC3

truncate-tls_frame : apply_truncate_on_parsed tls_frame tls_parsed ≡ ret (tls_out, true)
unfolding apply_truncate_on_parsed apply_truncate_fields update_ip_header update_transport
    update_ipv4_header_checksum update_tcp_checksum transport_sum sub_usize slice byte be16 store
    store16 internet_checksum ipv4_header_checksum transport_checksum_ipv4 checksum_sum_pseudo_ipv4
    checksum_sum fold fold_loop sum_words finish ipv4_pseudo_dst read_ip4 payload payload_len
truncate-tls_frame = refl

truncate-quic_frame : apply_truncate_on_parsed quic_frame quic_parsed ≡ ret (quic_out, true)
unfolding apply_truncate_on_parsed apply_truncate_fields update_ip_header update_transport
    update_udp_checksum udp_checksum_wire transport_sum sub_usize slice byte be16 store store16
    transport_checksum_ipv6 checksum_sum_pseudo_ipv6 checksum_sum fold fold_loop sum_words finish
    read_ip6 payload payload_len
truncate-quic_frame = refl

pub process-tls_frame : process_packet tls_frame ≡ ret (truncated tls_out, true)
unfolding process_packet process_parsed act decide_action decide_l4 decide_proto decide_tcp
    is_fragment contains port_in_set starts_with payload payload_len be16 byte slice
process-tls_frame = rw (parse-tls_frame, truncate-tls_frame) refl

tls_bytes : all_bytes tls_frame ≡ true
tls_bytes = refl

l2-tls_frame : l2_at tls_frame ≡ some (0x0800, 14)
unfolding l2_at vlan_at
l2-tls_frame = refl

some_pair : (x y : ℕ × ℕ) → some x ≡ some y → x.1 ≡ y.1
some_pair x y e = cc

tls_ihl : (ip : ℕ) → Tagged tls_frame 12 0x0800 ip → 20 ≤ header_len_at tls_frame ip
tls_ihl ip t =
    subst (λ k. 20 ≤ header_len_at tls_frame k)
      (some_pair (0x0800, 14) (0x0800, ip) (sym l2-tls_frame ∙ Tagged-l2_at t)) (omega arith)

pub tls-Sane : Sane tls_frame
tls-Sane = record {
  bytes = all_bytes-IsBytes tls_frame tls_bytes;
  size = omega arith;
  ihl = tls_ihl;
}

process_packet_idempotent_example : process_packet tls_out ≡ ret (keep, false)
process_packet_idempotent_example =
    process_packet_idempotent tls_frame tls_out true tls-Sane process-tls_frame

process_packet_documented_example :
    (((p : ParsedFrame) × (i : L4Info) × Located tls_frame p i × Follows tls_frame p i)
      ⊎ (((p : ParsedFrame) (i : L4Info) → ¬ Located tls_frame p i)
          × (((x : Bool) × (process_packet tls_frame ≡ ret (keep, x)))
              ⊎ (process_packet tls_frame ≡ panic))))
    × ((process_packet tls_frame ≡ ret (truncated tls_out, true)) ↔ (
        (t : ToTruncate tls_frame) × (tls_out ≡ shortened t)
        × (true ≡ true)
        × (length tls_out ≡ t.header.payload_start + 24)
        × (length tls_out < length tls_frame)))
process_packet_documented_example = process_packet_documented tls_frame tls_out true

tls-ToTruncate : ToTruncate tls_frame
tls-ToTruncate = ((process_packet_documented tls_frame tls_out true).1.0 process-tls_frame).0

apply_truncate_received_example :
    let segment = sub tls_out 34 (length tls_out) in
    ((false ≡ true) ⊎ Verifies (sub tls_out 14 34))
    × Verifies (pseudo_header tls_out 14 false 30 6 (length segment) ++ segment)
apply_truncate_received_example =
    apply_truncate_received tls_parsed tls_header tls_out 30 tls-Sane.bytes tls-Located
      (omega arith) truncate-tls_frame (no_more (omega arith) refl)

process_packet-panic_iff_example :
    ((process_packet cut_frame ≡ panic) ↔ CutFlags cut_frame)
    × (((r : PacketOutcome × Bool) × (process_packet cut_frame ≡ ret r))
        ⊎ (process_packet cut_frame ≡ panic))
process_packet-panic_iff_example = process_packet-panic_iff cut_frame

cut_flags : CutFlags cut_frame
cut_flags = (14, inner (omega arith) refl (λ e. omega arith) refl, omega arith)

panics-cut_frame : process_packet cut_frame ≡ panic
panics-cut_frame = (process_packet-panic_iff cut_frame).0.1 cut_flags

parse_frame-parse_general_example :
    (parse_frame quic_frame
      ≡ (if ltb (length quic_frame) 14 then ret too_short else parse_general quic_frame))
    × ((r : Parsed) × (parse_frame quic_frame ≡ ret r))
parse_frame-parse_general_example = parse_frame-parse_general quic_frame

parse_frame-Located_example :
    ((parse_frame quic_frame ≡ ret (parsed quic_parsed)) × (some quic_header ≡ some quic_header))
    ↔ Located quic_frame quic_parsed quic_header
parse_frame-Located_example = parse_frame-Located quic_frame quic_parsed quic_header

apply_truncate-keeps_example : at quic_out 80 ≡ at quic_frame 80
apply_truncate-keeps_example =
    apply_truncate-keeps quic_parsed quic_header quic_out 80 quic-Located truncate-quic_frame
      (omega arith) ((λ e. omega arith), (λ e. omega arith))
      ((λ e. omega arith), (λ e. omega arith), (λ e. omega arith), (λ e. omega arith))

decide_action-Documented_example :
    ((decide_action quic_parsed ≡ ret Action.truncate)
      ↔ ((¬ Ipv4Fragment quic_parsed) × Excess quic_header (body_at quic_parsed quic_header)))
    × (((decide_action quic_parsed ≡ ret Action.truncate) × Documented quic_parsed quic_header)
        ⊎ ((decide_action quic_parsed ≡ ret Action.keep) × ¬ Documented quic_parsed quic_header)
        ⊎ ((decide_action quic_parsed ≡ ret Action.truncate) × Extended quic_parsed quic_header))
decide_action-Documented_example = decide_action-Documented quic_parsed quic_header quic-Located
