-- ===== src/Tests/Frames.antt =====
-- The frames of the tests, and the parser on them.
use rust_pcaprune.Prelude.{
  ◌≡◌, refl, Bool, true, false, ◌&&◌, [], ◌∷◌, ◌++◌, some, ltb, Bytes, ret, byte, be16, arith,
  IsBytes, replicate,
}
use rust_pcaprune.Parse.Frame.{tcp, udp, L4Info, ParsedFrame, parsed}
use rust_pcaprune.Parse.{
  parse_frame, try_parse_ipv4_plain, plain_l4, parse_general, dispatch, l2_ethertype_and_l3_start,
  vlan_walk, parse_ipv6, parse_udp, ext_walk,
}
use rust_pcaprune.Parse.Located.{Located, parse_frame-Located}
use rust_pcaprune.Testutil.{eth_ipv4_tcp_frame}

-- `IsBytes` as a test.
abbrev pub all_bytes : Bytes → Bool
all_bytes [] = true
all_bytes (x ∷ xs) = ltb x 256 && all_bytes xs

pub all_bytes-IsBytes : (b : Bytes) → all_bytes b ≡ true → IsBytes b
all_bytes-IsBytes [] e = tt
all_bytes-IsBytes (x ∷ xs) e = (ground arith, all_bytes-IsBytes xs (ground arith))

-- TLS application data of 30 bytes from port 443.
abbrev pub tls_frame : Bytes
tls_frame =
    replicate 12 0
    ++ (0x08 ∷ 0 ∷ 0x45 ∷ 0 ∷ 0 ∷ 70 ∷ [])
    ++ (replicate 5 0 ++ 6 ∷ replicate 10 0)
    ++ (0x30 ∷ 0x39 ∷ 0x01 ∷ 0xBB ∷ replicate 8 0)
    ++ (0x50 ∷ replicate 7 0)
    ++ replicate 30 0x17

build_tls_frame : eth_ipv4_tcp_frame 443 12345 (replicate 30 0x17) ≡ tls_frame
unfolding eth_ipv4_tcp_frame
build_tls_frame = refl

abbrev pub tls_header : L4Info
tls_header = record {
  proto = tcp;
  sport = 12345;
  dport = 443;
  header_start = 34;
  header_len = 20;
  payload_start = 54;
}

abbrev pub tls_parsed : ParsedFrame
tls_parsed = record {
  frame = tls_frame;
  ip_start = 14;
  ip_header_len = 20;
  is_ipv6 = false;
  l4 = some tls_header;
}

pub parse-tls_frame : parse_frame tls_frame ≡ ret (parsed tls_parsed)
unfolding parse_frame try_parse_ipv4_plain plain_l4 byte be16
parse-tls_frame = refl

pub tls-Located : Located tls_frame tls_parsed tls_header
tls-Located = (parse_frame-Located tls_frame tls_parsed tls_header).0 (parse-tls_frame, refl)

-- IPv6 and QUIC behind a VLAN tag and a hop-by-hop header: 32 bytes of payload.
abbrev pub quic_frame : Bytes
quic_frame =
    replicate 12 0
    ++ (0x81 ∷ 0 ∷ 0 ∷ 7 ∷ 0x86 ∷ 0xDD ∷ [])
    ++ (0x60 ∷ 0 ∷ 0 ∷ 0 ∷ 0 ∷ 48 ∷ 0 ∷ 64 ∷ [])
    ++ replicate 32 1
    ++ (17 ∷ 0 ∷ 0 ∷ 0 ∷ 0 ∷ 0 ∷ 0 ∷ 0 ∷ [])
    ++ (0x30 ∷ 0x39 ∷ 0x01 ∷ 0xBB ∷ 0 ∷ 40 ∷ 0 ∷ 0 ∷ [])
    ++ replicate 32 0xC3

abbrev pub quic_header : L4Info
quic_header = record {
  proto = udp;
  sport = 12345;
  dport = 443;
  header_start = 66;
  header_len = 8;
  payload_start = 74;
}

abbrev pub quic_parsed : ParsedFrame
quic_parsed = record {
  frame = quic_frame;
  ip_start = 18;
  ip_header_len = 40;
  is_ipv6 = true;
  l4 = some quic_header;
}

pub parse-quic_frame : parse_frame quic_frame ≡ ret (parsed quic_parsed)
unfolding parse_frame try_parse_ipv4_plain parse_general dispatch l2_ethertype_and_l3_start
    vlan_walk parse_ipv6 ext_walk parse_udp byte be16
parse-quic_frame = refl

pub quic-Located : Located quic_frame quic_parsed quic_header
quic-Located = (parse_frame-Located quic_frame quic_parsed quic_header).0 (parse-quic_frame, refl)

-- An Ethernet header that announces IPv4, and nothing behind it.
abbrev pub cut_frame : Bytes
cut_frame = replicate 12 0 ++ (0x08 ∷ 0x00 ∷ [])
