-- ===== src/Tests/Extended.antt =====
-- IPv6 packets with extension headers that src/policy.rs shortens and pcap-slim-algorithm.md keeps.
use rust_pcaprune.Prelude.{
  ◌≡◌, refl, true, [], ◌∷◌, ◌++◌, some, length, Bytes, ret, byte, be16, slice, arith, replicate,
  inr,
}
use rust_pcaprune.Parse.Frame.{parsed, ParsedFrame, payload, payload_len}
use rust_pcaprune.Parse.{
  parse_frame, try_parse_ipv4_plain, parse_general, dispatch, l2_ethertype_and_l3_start, vlan_walk,
  parse_ipv6, parse_udp, ext_walk,
}
use rust_pcaprune.Policy.{
  Action, contains, port_in_set, decide_udp, decide_proto, decide_l4, is_fragment, decide_action,
}
use rust_pcaprune.Policy.Document.{Documented, Fragmented, found, datagram_body}
use rust_pcaprune.Tests.Frames.{quic_header}

-- A first fragment: a fragment header of type 44, more fragments to come, then QUIC.
abbrev fragment_frame : Bytes
fragment_frame =
    replicate 12 0
    ++ (0x81 ∷ 0 ∷ 0 ∷ 7 ∷ 0x86 ∷ 0xDD ∷ [])
    ++ (0x60 ∷ 0 ∷ 0 ∷ 0 ∷ 0 ∷ 48 ∷ 44 ∷ 64 ∷ [])
    ++ replicate 32 1
    ++ (17 ∷ 0 ∷ 0 ∷ 1 ∷ 0 ∷ 0 ∷ 0 ∷ 9 ∷ [])
    ++ (0x30 ∷ 0x39 ∷ 0x01 ∷ 0xBB ∷ 0 ∷ 40 ∷ 0 ∷ 0 ∷ [])
    ++ replicate 32 0xC3

abbrev fragment_parsed : ParsedFrame
fragment_parsed = record {
  frame = fragment_frame;
  ip_start = 18;
  ip_header_len = 40;
  is_ipv6 = true;
  l4 = some quic_header;
}

parse-fragment : parse_frame fragment_frame ≡ ret (parsed fragment_parsed)
unfolding parse_frame try_parse_ipv4_plain parse_general dispatch l2_ethertype_and_l3_start
    vlan_walk parse_ipv6 ext_walk parse_udp byte be16
parse-fragment = refl

fragment-Fragmented : Fragmented fragment_parsed quic_header
fragment-Fragmented = inr (refl, found refl (omega arith))

fragment_shortened : decide_action fragment_parsed ≡ ret Action.truncate
unfolding decide_action decide_l4 decide_proto decide_udp is_fragment contains port_in_set payload
    payload_len be16 byte slice
fragment_shortened = refl

fragment_kept_by_document : ¬ Documented fragment_parsed quic_header
fragment_kept_by_document = λ d. d.0 fragment-Fragmented

-- QUIC of 20 bytes behind hop-by-hop options, and a trailer behind the datagram.
abbrev short_frame : Bytes
short_frame =
    replicate 12 0
    ++ (0x81 ∷ 0 ∷ 0 ∷ 7 ∷ 0x86 ∷ 0xDD ∷ [])
    ++ (0x60 ∷ 0 ∷ 0 ∷ 0 ∷ 0 ∷ 36 ∷ 0 ∷ 64 ∷ [])
    ++ replicate 32 1
    ++ (17 ∷ 0 ∷ 0 ∷ 0 ∷ 0 ∷ 0 ∷ 0 ∷ 0 ∷ [])
    ++ (0x30 ∷ 0x39 ∷ 0x01 ∷ 0xBB ∷ 0 ∷ 28 ∷ 0 ∷ 0 ∷ [])
    ++ replicate 32 0xC3

abbrev short_parsed : ParsedFrame
short_parsed = record {
  frame = short_frame;
  ip_start = 18;
  ip_header_len = 40;
  is_ipv6 = true;
  l4 = some quic_header;
}

short_body : length (datagram_body short_parsed quic_header) ≡ 20
short_body = refl

short_shortened : decide_action short_parsed ≡ ret Action.truncate
unfolding decide_action decide_l4 decide_proto decide_udp is_fragment contains port_in_set payload
    payload_len be16 byte slice
short_shortened = refl
