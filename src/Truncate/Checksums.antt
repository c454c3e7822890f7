-- ===== src/Truncate/Checksums.antt =====
-- The checksums of a frame that src/truncate.rs has shortened verify.
use rust_pcaprune.Prelude.{
  ℕ, ◌+◌, ◌-◌, ◌%◌, ◌^◌, ◌≤◌, ◌<◌, ◌≡◌, refl, sym, ap, ◌∙◌, Bool, true, false, length, Bytes, ret,
  sub, put16, take, ◌⊎◌, inl, inr, arith, Bool-cases, IsBytes, length-put16, length-take,
  IsBytes-put16, IsBytes-take, sub-put16_out, subst,
}
use rust_pcaprune.Checksum.{internet_checksum, udp_checksum_wire}
use rust_pcaprune.Checksum.Verify.{internet_checksum-put16, ZeroField}
use rust_pcaprune.Parse.Frame.{L4Proto, tcp, udp, L4Info, ParsedFrame}
use rust_pcaprune.Parse.L4.{L4Header-at_most}
use rust_pcaprune.Parse.Located.{Located, in_v4, in_v6}
use rust_pcaprune.Truncate.{apply_truncate_on_parsed, transport_sum}
use rust_pcaprune.Truncate.Updates.{
  IsBytes-ip_header_at, transport_sum-sum_at, Room, sum_at, header_at, ip_header_at, transport_at,
  length-ip_header_at, length-transport_at,
}
use rust_pcaprune.Truncate.Result.{Located-Shape, long_body, truncates_as, truncated_at}
use rust_pcaprune.Truncate.Segments.{segment_field, segment_filled, sum_at_verifies, refilled}

-- The number of the protocol in the pseudo-header.
abbrev pub proto_number : L4Proto → ℕ
proto_number tcp = 6
proto_number udp = 17

module _ (b : Bytes) (ip hl : ℕ) (v6 : Bool) (i : L4Info) (r : Room ip hl v6 i (length b))
    (ihl : 20 ≤ hl) (bytes : IsBytes b) (short : i.header_len ≤ 60) where
  transport_at_verifies :
      (k : L4Proto)
      → i.proto ≡ k
      → let out = transport_at k b ip hl v6 i in
        sum_at out ip hl v6 (proto_number k) (sub out i.header_start (length b)) ≡ 0
  unfolding transport_at
  transport_at_verifies tcp p =
      let u = i.header_start in
      let z = put16 b (u + 16) 0 in
      let n = length b in
      let m = r.tcp_at_least p in
      let len = length-put16 b (u + 16) 0 in
      let e = ap (λ x. sum_at z ip hl v6 6 (sub z u x)) len in
      ap (λ x. sum_at (put16 z (u + 16) x) ip hl v6 6 (sub (put16 z (u + 16) x) u n)) e
      ∙ refilled z ip hl v6 6 u 8 n (sum_at z ip hl v6 6 (sub z u n)) r.six ihl r.behind
      ∙ (sum_at_verifies z ip hl v6 6 (sub z u n) 8 (omega arith) (
          segment_field b u 8 n bytes (omega arith) (omega (arith, r.ends))
            (omega (arith, r.ends)))).0
  transport_at_verifies udp p =
      let u = i.header_start in
      let s = put16 b (u + 4) ((i.header_len + 24) % 2 ^ 16) in
      let z = put16 s (u + 6) 0 in
      let n = length b in
      let m = r.at_least in
      let end : u + (i.header_len + 24) ≡ n = omega (arith, r.ends) in
      let e = ap (λ x. udp_checksum_wire (sum_at z ip hl v6 17 (sub z u x))) end in
      let c = udp_checksum_wire (sum_at z ip hl v6 17 (sub z u n)) in
      ap (λ x. sum_at (put16 z (u + 6) x) ip hl v6 17 (sub (put16 z (u + 6) x) u n)) e
      ∙ refilled z ip hl v6 17 u 3 n c r.six ihl r.behind
      ∙ (sum_at_verifies z ip hl v6 17 (sub z u n) 3 (omega arith) (
          segment_field s u 3 n (IsBytes-put16 b (u + 4) ((i.header_len + 24) % 2 ^ 16) bytes)
            (omega (arith, length-put16 b (u + 4) ((i.header_len + 24) % 2 ^ 16)))
            (omega (arith, r.ends)) (omega (arith, r.ends)))).1

-- Writes of the transport updates lie behind the IP header.
sub-transport_at :
    (k : L4Proto) (b : Bytes) (ip hl : ℕ) (v6 : Bool) (i : L4Info)
    → ip + hl ≤ i.header_start
    → sub (transport_at k b ip hl v6 i) ip (ip + hl) ≡ sub b ip (ip + hl)
unfolding transport_at
sub-transport_at tcp b ip hl v6 i h =
    let f = i.header_start + 16 in
    let z = put16 b f 0 in
    sub-put16_out z ip (ip + hl) f (sum_at z ip hl v6 6 (sub z i.header_start (length z)))
      (omega arith) (omega arith)
    ∙ sub-put16_out b ip (ip + hl) f 0 (omega arith) (omega arith)
sub-transport_at udp b ip hl v6 i h =
    let u = i.header_start in
    let s = put16 b (u + 4) ((i.header_len + 24) % 2 ^ 16) in
    let z = put16 s (u + 6) 0 in
    let c = udp_checksum_wire (sum_at z ip hl v6 17 (sub z u (u + (i.header_len + 24)))) in
    sub-put16_out z ip (ip + hl) (u + 6) c (omega arith) (omega arith)
    ∙ sub-put16_out s ip (ip + hl) (u + 6) 0 (omega arith) (omega arith)
    ∙ sub-put16_out b ip (ip + hl) (u + 4) ((i.header_len + 24) % 2 ^ 16) (omega arith)
        (omega arith)

header_at_verifies :
    (b : Bytes) (ip hl : ℕ)
    → IsBytes b
    → 20 ≤ hl
    → hl ≤ 60
    → ip + hl ≤ length b
    → internet_checksum (sub (header_at b ip hl) ip (ip + hl)) ≡ 0
unfolding header_at
header_at_verifies b ip hl bytes h k l =
    ap internet_checksum (segment_filled z ip 5 (ip + hl) (internet_checksum (sub z ip (ip + hl))))
    ∙ internet_checksum-put16 (sub z ip (ip + hl)) 5 f.bytes f.short f.inside f.zero_hi f.zero_lo
  where
    z : Bytes
    z = put16 b (ip + 10) 0

    f : ZeroField (sub z ip (ip + hl)) 5
    f = segment_field b ip 5 (ip + hl) bytes l (omega arith) (omega arith)

pub Located-header_len :
    {frame : Bytes} {p : ParsedFrame} {i : L4Info}
    → Located frame p i
    → IsBytes frame
    → i.header_len ≤ 60
Located-header_len (in_v4 v e) h = L4Header-at_most v.transport h
Located-header_len (in_v6 v e) h = L4Header-at_most v.transport h

pub ip_header_len-le :
    {frame : Bytes} {p : ParsedFrame} {i : L4Info} → Located frame p i → p.ip_header_len ≤ 60
ip_header_len-le (in_v4 v e) = omega (arith, ap (λ (x : ParsedFrame). x.ip_header_len) e)
ip_header_len-le (in_v6 v e) = omega (arith, ap (λ (x : ParsedFrame). x.ip_header_len) e)

module _ (frame : Bytes) (ip hl : ℕ) (v6 : Bool) (i : L4Info)
    (r : Room ip hl v6 i (i.payload_start + 24)) (ihl : 20 ≤ hl) (bytes : IsBytes frame)
    (short : i.header_len ≤ 60) (long : i.payload_start + 24 < length frame) where
  cut_length : length (take (i.payload_start + 24) frame) ≡ i.payload_start + 24
  cut_length = omega (arith, length-take (i.payload_start + 24) frame)

  truncated_header :
      v6 ≡ false
      → hl ≤ 60
      → internet_checksum (sub (truncated_at frame ip hl v6 i) ip (ip + hl)) ≡ 0
  unfolding truncated_at ip_header_at
  truncated_header e k =
      let cut = take (i.payload_start + 24) frame in
      let s = put16 cut (ip + 2) (length cut - ip) in
      ap internet_checksum
        (sub-transport_at i.proto (ip_header_at cut ip hl v6) ip hl v6 i r.behind)
      ∙ rw (e, ip_header_at)
          (header_at_verifies s ip hl
            (IsBytes-put16 cut (ip + 2) (length cut - ip)
              (IsBytes-take (i.payload_start + 24) frame bytes))
            ihl k
            (omega
              (arith, cut_length, length-put16 cut (ip + 2) (length cut - ip), r.ends, r.behind)))

  truncated_transport :
      transport_sum (truncated_at frame ip hl v6 i) ip hl v6 (proto_number i.proto) (
        sub (truncated_at frame ip hl v6 i) i.header_start (length (truncated_at frame ip hl v6 i)))
      ≡ ret 0
  unfolding truncated_at
  truncated_transport =
      let cut = take (i.payload_start + 24) frame in
      let b = ip_header_at cut ip hl v6 in
      let out = transport_at i.proto b ip hl v6 i in
      let len : length b ≡ i.payload_start + 24 = length-ip_header_at cut ip hl v6 ∙ cut_length in
      let out_len = length-transport_at i.proto b ip hl v6 i in
      let r' = subst (Room ip hl v6 i) (sym len) r in
      transport_sum-sum_at b ip hl v6 i r' out (proto_number i.proto)
        (sub out i.header_start (length out)) out_len
      ∙ ap (λ n. ret (sum_at out ip hl v6 (proto_number i.proto) (sub out i.header_start n)))
          out_len
      ∙ ap ret (
          transport_at_verifies b ip hl v6 i r' ihl
            (IsBytes-ip_header_at cut ip hl v6 (IsBytes-take (i.payload_start + 24) frame bytes))
            short i.proto refl)

-- The code's own sums over a shortened frame come out as zero.
pub apply_truncate_verifies :
    {frame : Bytes} (p : ParsedFrame) (i : L4Info) (out : Bytes)
    → IsBytes frame
    → Located frame p i
    → 20 ≤ p.ip_header_len
    → apply_truncate_on_parsed frame p ≡ ret (out, true)
    → ((p.is_ipv6 ≡ true)
        ⊎ (internet_checksum (sub out p.ip_start (p.ip_start + p.ip_header_len)) ≡ 0))
      × (transport_sum out p.ip_start p.ip_header_len p.is_ipv6
            (proto_number i.proto)
            (sub out i.header_start (length out))
          ≡ ret 0)
apply_truncate_verifies {frame} p i out bytes l ihl e =
    let t = truncates_as p i l e in
    let long = long_body p i l t.0 in
    let s = (Located-Shape l).room in
    let short = Located-header_len l bytes in
    rw t.1 (
      elim (Bool-cases p.is_ipv6) [
        | inl six ↦ inl six
        | inr four ↦ inr (
            truncated_header frame p.ip_start p.ip_header_len p.is_ipv6 i s ihl bytes short long
              four (ip_header_len-le l))
      ],
      truncated_transport frame p.ip_start p.ip_header_len p.is_ipv6 i s ihl bytes short long,
    )
