-- ===== src/Truncate/Keeps.antt =====
-- Truncation of src/truncate.rs changes the length and checksum fields, and no other kept byte.
use rust_pcaprune.Prelude.{
  ℕ, ◌+◌, ◌-◌, ◌%◌, ◌^◌, ◌≤◌, ◌<◌, ◌≡◌, ◌≢◌, ap, ◌∙◌, Bool, true, false, length, Bytes, ret, sub,
  at, word, put16, take, arith, word-put16, at-put16_ne, get_or-take,
}
use rust_pcaprune.Checksum.{internet_checksum, udp_checksum_wire}
use rust_pcaprune.Parse.Frame.{L4Proto, tcp, udp, L4Info, ParsedFrame}
use rust_pcaprune.Parse.Located.{Located}
use rust_pcaprune.Truncate.{apply_truncate_on_parsed}
use rust_pcaprune.Truncate.Updates.{sum_at, zeroed, header_at, ip_header_at, transport_at}
use rust_pcaprune.Truncate.Result.{truncated_at, truncates_as}

-- Offset `j` is in none of the fields that the IP header updates write: the payload length of
-- IPv6, the total length and the header checksum of IPv4.
abbrev pub OffIp : Bool → ℕ → ℕ → Type 0
OffIp true ip j = (ip + 4 ≢ j) × (ip + 4 + 1 ≢ j)
OffIp false ip j = (ip + 2 ≢ j) × (ip + 2 + 1 ≢ j) × (ip + 10 ≢ j) × (ip + 10 + 1 ≢ j)

-- Nor in those of the transport updates: the TCP checksum, the UDP length and checksum.
abbrev pub OffL4 : L4Proto → ℕ → ℕ → Type 0
OffL4 tcp start j = (start + 16 ≢ j) × (start + 16 + 1 ≢ j)
OffL4 udp start j = (start + 4 ≢ j) × (start + 4 + 1 ≢ j) × (start + 6 ≢ j) × (start + 6 + 1 ≢ j)

at-header_at :
    (b : Bytes) (ip hl j : ℕ) → ip + 10 ≢ j → ip + 10 + 1 ≢ j → at (header_at b ip hl) j ≡ at b j
unfolding header_at
at-header_at b ip hl j p q =
    at-put16_ne (zeroed b (ip + 10)) (ip + 10)
      (internet_checksum (sub (zeroed b (ip + 10)) ip (ip + hl))) j p q
    ∙ at-put16_ne b (ip + 10) 0 j p q

pub at-ip_header_at :
    (b : Bytes) (ip hl : ℕ) (v6 : Bool) (j : ℕ)
    → OffIp v6 ip j
    → at (ip_header_at b ip hl v6) j ≡ at b j
unfolding ip_header_at
at-ip_header_at b ip hl true j o = at-put16_ne b (ip + 4) ((length b - ip - hl) % 2 ^ 16) j o.0 o.1
at-ip_header_at b ip hl false j o =
    at-header_at (put16 b (ip + 2) (length b - ip)) ip hl j o.2 o.3
    ∙ at-put16_ne b (ip + 2) (length b - ip) j o.0 o.1

pub at-transport_at :
    (k : L4Proto) (b : Bytes) (ip hl : ℕ) (v6 : Bool) (i : L4Info) (j : ℕ)
    → OffL4 k i.header_start j
    → at (transport_at k b ip hl v6 i) j ≡ at b j
unfolding transport_at
at-transport_at tcp b ip hl v6 i j o =
    let f = i.header_start + 16 in
    let z = put16 b f 0 in
    at-put16_ne z f (sum_at z ip hl v6 6 (sub z i.header_start (length z))) j o.0 o.1
    ∙ at-put16_ne b f 0 j o.0 o.1
at-transport_at udp b ip hl v6 i j o =
    let u = i.header_start in
    let s = put16 b (u + 4) ((i.header_len + 24) % 2 ^ 16) in
    let z = put16 s (u + 6) 0 in
    at-put16_ne z (u + 6)
      (udp_checksum_wire (sum_at z ip hl v6 17 (sub z u (u + (i.header_len + 24))))) j o.2 o.3
    ∙ at-put16_ne s (u + 6) 0 j o.2 o.3
    ∙ at-put16_ne b (u + 4) ((i.header_len + 24) % 2 ^ 16) j o.0 o.1

pub at-truncated_at :
    (frame : Bytes) (ip hl : ℕ) (v6 : Bool) (i : L4Info) (j : ℕ)
    → j < i.payload_start + 24
    → OffIp v6 ip j
    → OffL4 i.proto i.header_start j
    → at (truncated_at frame ip hl v6 i) j ≡ at frame j
unfolding truncated_at
at-truncated_at frame ip hl v6 i j h o q =
    at-transport_at i.proto (ip_header_at (take (i.payload_start + 24) frame) ip hl v6) ip hl v6 i j
      q
    ∙ at-ip_header_at (take (i.payload_start + 24) frame) ip hl v6 j o
    ∙ get_or-take (i.payload_start + 24) frame j 0 h

-- The buffer that truncation returns at a located transport header keeps every byte of the frame in
-- front of its new end, but for the IP length, the IPv4 header checksum, the UDP length and the
-- transport checksum.
pub apply_truncate-keeps :
    {frame : Bytes} (p : ParsedFrame) (i : L4Info) (out : Bytes) (j : ℕ)
    → Located frame p i
    → apply_truncate_on_parsed frame p ≡ ret (out, true)
    → j < i.payload_start + 24
    → OffIp p.is_ipv6 p.ip_start j
    → OffL4 i.proto i.header_start j
    → at out j ≡ at frame j
apply_truncate-keeps {frame} p i out j l e h o q =
    ap (λ (b : Bytes). at b j) (truncates_as p i l e).1
    ∙ at-truncated_at frame p.ip_start p.ip_header_len p.is_ipv6 i j h o q

word-off :
    (b b' : Bytes) (f : ℕ) → at b' f ≡ at b f → at b' (f + 1) ≡ at b (f + 1) → word b' f ≡ word b f
word-off b b' f p q = omega arith

word-udp_len :
    (b : Bytes) (ip hl : ℕ) (v6 : Bool) (i : L4Info)
    → i.header_start + 8 ≤ length b
    → i.header_len + 24 < 2 ^ 16
    → word (transport_at udp b ip hl v6 i) (i.header_start + 4) ≡ i.header_len + 24
unfolding transport_at
word-udp_len b ip hl v6 i h k =
    let u = i.header_start in
    let s = put16 b (u + 4) ((i.header_len + 24) % 2 ^ 16) in
    let z = put16 s (u + 6) 0 in
    let c = udp_checksum_wire (sum_at z ip hl v6 17 (sub z u (u + (i.header_len + 24)))) in
    omega (
      arith,
      word-put16 b (u + 4) ((i.header_len + 24) % 2 ^ 16) (omega arith) (omega arith),
      at-put16_ne z (u + 6) c (u + 4) (omega arith) (omega arith),
      at-put16_ne z (u + 6) c (u + 4 + 1) (omega arith) (omega arith),
      at-put16_ne s (u + 6) 0 (u + 4) (omega arith) (omega arith),
      at-put16_ne s (u + 6) 0 (u + 4 + 1) (omega arith) (omega arith),
    )

pub word-total :
    (b : Bytes) (ip hl : ℕ)
    → ip + 12 ≤ length b
    → length b - ip < 2 ^ 16
    → word (ip_header_at b ip hl false) (ip + 2) ≡ length b - ip
unfolding ip_header_at
word-total b ip hl h k =
    let s = put16 b (ip + 2) (length b - ip) in
    omega (
      arith,
      word-put16 b (ip + 2) (length b - ip) (omega arith) k,
      at-header_at s ip hl (ip + 2) (omega arith) (omega arith),
      at-header_at s ip hl (ip + 2 + 1) (omega arith) (omega arith),
    )

pub word-plen :
    (b : Bytes) (ip hl : ℕ)
    → ip + 6 ≤ length b
    → word (ip_header_at b ip hl true) (ip + 4) ≡ (length b - ip - hl) % 2 ^ 16
unfolding ip_header_at
word-plen b ip hl h =
    word-put16 b (ip + 4) ((length b - ip - hl) % 2 ^ 16) (omega arith) (omega arith)
