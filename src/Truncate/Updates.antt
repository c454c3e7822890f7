-- ===== src/Truncate/Updates.antt =====
-- The updates of src/truncate.rs over total reads and writes: inside the frame none of them panics.
use rust_pcaprune.Prelude.{
  ℕ, ◌+◌, ◌-◌, ◌%◌, ◌^◌, ◌≤◌, ◌≡◌, refl, ◌∙◌, Bool, true, false, length, Bytes, ret, sub, put16,
  inl, inr, arith, slice-sub, store16-put16, Bool-cases, IsBytes, length-put16, length-set,
  IsBytes-put16,
}
use rust_pcaprune.Checksum.{
  internet_checksum, transport_checksum_ipv4, transport_checksum_ipv6, udp_checksum_wire,
}
use rust_pcaprune.Parse.Frame.{L4Proto, tcp, udp, L4Info}
use rust_pcaprune.Parse.Options.{four_at, read_ip4-four_at, pseudo_dst_at, ipv4_pseudo_dst-at}
use rust_pcaprune.Truncate.{
  sub_usize, read_ip6, update_ipv4_header_checksum, transport_sum, update_tcp_checksum,
  update_udp_checksum, update_ip_header, update_transport,
}

-- How the layers lie in a frame of `n` bytes that ends 24 bytes behind the transport header.
pub record Room (ip hl : ℕ) (v6 : Bool) (i : L4Info) (n : ℕ) : Type 0 where
  pub ends : i.header_start + i.header_len + 24 ≡ n
  pub behind : ip + hl ≤ i.header_start
  pub at_least : 8 ≤ i.header_len
  pub tcp_at_least : i.proto ≡ tcp → 20 ≤ i.header_len
  pub udp_exact : i.proto ≡ udp → i.header_len ≡ 8
  pub six : v6 ≡ true → hl ≡ 40

unfoldable pub sum_at : Bytes → ℕ → ℕ → Bool → ℕ → Bytes → ℕ
sum_at b ip hl true proto segment =
    transport_checksum_ipv6 (sub b (ip + 8) (ip + 8 + 16)) (sub b (ip + 24) (ip + 24 + 16)) proto
      segment
sum_at b ip hl false proto segment =
    transport_checksum_ipv4 (four_at b (ip + 12)) (pseudo_dst_at b ip hl) proto segment

-- A field, zeroed and then filled.
abbrev pub zeroed : Bytes → ℕ → Bytes
zeroed b f = put16 b f 0

unfoldable pub header_at : Bytes → ℕ → ℕ → Bytes
header_at b ip hl =
    put16 (zeroed b (ip + 10)) (ip + 10) (internet_checksum (sub (zeroed b (ip + 10)) ip (ip + hl)))

unfoldable pub ip_header_at : Bytes → ℕ → ℕ → Bool → Bytes
ip_header_at b ip hl true = put16 b (ip + 4) ((length b - ip - hl) % 2 ^ 16)
ip_header_at b ip hl false = header_at (put16 b (ip + 2) (length b - ip)) ip hl

unfoldable pub transport_at : L4Proto → Bytes → ℕ → ℕ → Bool → L4Info → Bytes
transport_at tcp b ip hl v6 i =
    let z = zeroed b (i.header_start + 16) in
    put16 z (i.header_start + 16) (sum_at z ip hl v6 6 (sub z i.header_start (length z)))
transport_at udp b ip hl v6 i =
    let z =
      zeroed (put16 b (i.header_start + 4) ((i.header_len + 24) % 2 ^ 16)) (i.header_start + 6) in
    put16 z (i.header_start + 6) (
      udp_checksum_wire
        (sum_at z ip hl v6 17 (sub z i.header_start (i.header_start + (i.header_len + 24)))))

module _ (b : Bytes) (ip hl : ℕ) (v6 : Bool) (i : L4Info) (r : Room ip hl v6 i (length b)) where
  pub transport_sum-sum_at :
      (c : Bytes) (proto : ℕ) (segment : Bytes)
      → length c ≡ length b
      → transport_sum c ip hl v6 proto segment ≡ ret (sum_at c ip hl v6 proto segment)
  unfolding transport_sum sum_at read_ip6
  transport_sum-sum_at c proto segment e = elim (Bool-cases v6) [
    | inl six ↦ rw six (
        ground (
          arith,
          r.six six,
          slice-sub c (ip + 8) (ip + 8 + 16),
          slice-sub c (ip + 24) (ip + 24 + 16),
        ))
    | inr four ↦ rw four (ground (arith, read_ip4-four_at c (ip + 12), ipv4_pseudo_dst-at c ip hl))
  ]

  header_checksum-header_at :
      (c : Bytes)
      → length c ≡ length b
      → update_ipv4_header_checksum c ip hl ≡ ret (header_at c ip hl)
  unfolding update_ipv4_header_checksum header_at
  header_checksum-header_at c e =
      let z = zeroed c (ip + 10) in
      let l = length-put16 c (ip + 10) 0 in
      rw (store16-put16 c (ip + 10) 0 (omega arith)) (
        rw (slice-sub z ip (ip + hl) (omega arith) (omega arith))
          (store16-put16 z (ip + 10) (internet_checksum (sub z ip (ip + hl))) (omega arith)))

  pub ip_header-ip_header_at : update_ip_header b ip hl v6 ≡ ret (ip_header_at b ip hl v6)
  unfolding update_ip_header ip_header_at sub_usize
  ip_header-ip_header_at = elim (Bool-cases v6) [
    | inl six ↦
        rw six (ground (arith, r.six six, store16-put16 b (ip + 4) ((length b - ip - hl) % 2 ^ 16)))
    | inr four ↦ rw four (
        ground (
          arith,
          store16-put16 b (ip + 2) (length b - ip),
          header_checksum-header_at (put16 b (ip + 2) (length b - ip))
              (length-put16 b (ip + 2) (length b - ip)),
        ))
  ]

  by_proto :
      (k : L4Proto) (c : Bytes)
      → i.proto ≡ k
      → length c ≡ length b
      → update_transport k c ip hl v6 i ≡ ret (transport_at k c ip hl v6 i)
  unfolding update_transport transport_at update_tcp_checksum update_udp_checksum
  by_proto tcp c p e =
      let f = i.header_start + 16 in
      let z = put16 c f 0 in
      let l = length-put16 c f 0 in
      let m = r.tcp_at_least p in
      let segment = sub z i.header_start (length z) in
      rw (store16-put16 c f 0 (omega arith)) (
        rw (slice-sub z i.header_start (length z) (omega arith) (omega arith)) (
          rw (transport_sum-sum_at z 6 segment (l ∙ e))
            (store16-put16 z f (sum_at z ip hl v6 6 segment) (omega arith))))
  by_proto udp c p e =
      let u = i.header_start in
      let len = i.header_len + 24 in
      let s = put16 c (u + 4) (len % 2 ^ 16) in
      let l = length-put16 c (u + 4) (len % 2 ^ 16) in
      let z = put16 s (u + 6) 0 in
      let m = length-put16 s (u + 6) 0 in
      let segment = sub z u (u + len) in
      rw (store16-put16 c (u + 4) (len % 2 ^ 16) (omega (arith, r.at_least, r.ends))) (
        rw (store16-put16 s (u + 6) 0 (omega (arith, r.at_least, r.ends))) (
          rw (slice-sub z u (u + len) (omega arith) (omega (arith, r.ends))) (
            rw (transport_sum-sum_at z 17 segment (m ∙ l ∙ e)) (
              store16-put16 z (u + 6) (udp_checksum_wire (sum_at z ip hl v6 17 segment))
                (omega (arith, r.at_least, r.ends))))))

  pub transport-transport_at :
      (c : Bytes)
      → length c ≡ length b
      → update_transport i.proto c ip hl v6 i ≡ ret (transport_at i.proto c ip hl v6 i)
  transport-transport_at c e = by_proto i.proto c refl e

pub length-header_at : (b : Bytes) (ip hl : ℕ) → length (header_at b ip hl) ≡ length b
unfolding header_at
length-header_at b ip hl =
    length-put16 (zeroed b (ip + 10)) (ip + 10)
      (internet_checksum (sub (zeroed b (ip + 10)) ip (ip + hl)))
    ∙ length-put16 b (ip + 10) 0

pub length-ip_header_at :
    (b : Bytes) (ip hl : ℕ) (v6 : Bool) → length (ip_header_at b ip hl v6) ≡ length b
unfolding ip_header_at
length-ip_header_at b ip hl true = length-put16 b (ip + 4) ((length b - ip - hl) % 2 ^ 16)
length-ip_header_at b ip hl false =
    length-header_at (put16 b (ip + 2) (length b - ip)) ip hl
    ∙ length-put16 b (ip + 2) (length b - ip)

pub length-transport_at :
    (k : L4Proto) (b : Bytes) (ip hl : ℕ) (v6 : Bool) (i : L4Info)
    → length (transport_at k b ip hl v6 i) ≡ length b
unfolding transport_at
length-transport_at tcp b ip hl v6 i = simp length-set
length-transport_at udp b ip hl v6 i = simp length-set

pub IsBytes-ip_header_at :
    (b : Bytes) (ip hl : ℕ) (v6 : Bool) → IsBytes b → IsBytes (ip_header_at b ip hl v6)
unfolding ip_header_at header_at
IsBytes-ip_header_at b ip hl true h = IsBytes-put16 b (ip + 4) ((length b - ip - hl) % 2 ^ 16) h
IsBytes-ip_header_at b ip hl false h =
    let s = put16 b (ip + 2) (length b - ip) in
    let z = zeroed s (ip + 10) in
    IsBytes-put16 z (ip + 10) (internet_checksum (sub z ip (ip + hl)))
      (IsBytes-put16 s (ip + 10) 0 (IsBytes-put16 b (ip + 2) (length b - ip) h))
