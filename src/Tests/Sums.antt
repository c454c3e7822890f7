-- ===== src/Tests/Sums.antt =====
-- Checksums of concrete headers and segments.
use rust_pcaprune.Prelude.{◌-◌, ◌≡◌, refl, [], ◌∷◌, Bytes, put16, arith, IsBytes, replicate}
use rust_pcaprune.Checksum.{
  internet_checksum, transport_checksum_ipv4, transport_checksum_ipv6, udp_checksum_wire,
}
use rust_pcaprune.Tests.Frames.{all_bytes-IsBytes}
use rust_pcaprune.Checksum.Fold.{norm}
use rust_pcaprune.Checksum.Words.{words, double}
use rust_pcaprune.Checksum.Verify.{
  ZeroField, transport4_verifies, transport6_verifies, internet_checksum-put16,
  internet_checksum-norm,
}

-- The header of the repository's test `ipv4_header_checksum_roundtrip`, its checksum zero.
abbrev ip_header : Bytes
ip_header =
    0x45 ∷ 0 ∷ 0 ∷ 0x3C ∷ 0x1C ∷ 0x46 ∷ 0x40 ∷ 0 ∷ 0x40 ∷ 6 ∷ 0 ∷ 0 ∷ 0xAC ∷ 0x10 ∷ 0x0A ∷ 0x63
    ∷ 0xAC ∷ 0x10 ∷ 0x0A ∷ 0x0C ∷ []

ip_header-IsBytes : IsBytes ip_header
ip_header-IsBytes = all_bytes-IsBytes ip_header refl

-- A UDP segment with an odd payload.
abbrev udp_segment : Bytes
udp_segment = 0x30 ∷ 0x39 ∷ 0x01 ∷ 0xBB ∷ 0 ∷ 9 ∷ 0 ∷ 0 ∷ 0xFF ∷ []

udp_field : ZeroField udp_segment 3
udp_field = record {
  bytes = all_bytes-IsBytes udp_segment refl;
  short = omega arith;
  inside = omega arith;
  zero_hi = refl;
  zero_lo = refl;
}

internet_checksum-norm_example : internet_checksum ip_header ≡ 65535 - norm (words ip_header)
internet_checksum-norm_example = internet_checksum-norm ip_header ip_header-IsBytes (omega arith)

internet_checksum-put16_example :
    internet_checksum (put16 ip_header 10 (internet_checksum ip_header)) ≡ 0
internet_checksum-put16_example =
    internet_checksum-put16 ip_header 5 ip_header-IsBytes (omega arith) (omega arith) refl refl

abbrev addr4 : Bytes
addr4 = 10 ∷ 0 ∷ 0 ∷ 1 ∷ []

abbrev addr6 : Bytes
addr6 = replicate 16 0xFE

transport4_verifies_example :
    (transport_checksum_ipv4 addr4 addr4 17
        (put16 udp_segment (double 3) (transport_checksum_ipv4 addr4 addr4 17 udp_segment))
      ≡ 0)
    × (transport_checksum_ipv4 addr4 addr4 17 (
          put16 udp_segment
            (double 3)
            (udp_checksum_wire (transport_checksum_ipv4 addr4 addr4 17 udp_segment)))
        ≡ 0)
transport4_verifies_example = transport4_verifies udp_field addr4 addr4 17

transport6_verifies_example :
    (transport_checksum_ipv6 addr6 addr6 17
        (put16 udp_segment (double 3) (transport_checksum_ipv6 addr6 addr6 17 udp_segment))
      ≡ 0)
    × (transport_checksum_ipv6 addr6 addr6 17 (
          put16 udp_segment
            (double 3)
            (udp_checksum_wire (transport_checksum_ipv6 addr6 addr6 17 udp_segment)))
        ≡ 0)
transport6_verifies_example = transport6_verifies udp_field addr6 addr6 17 (omega arith)
