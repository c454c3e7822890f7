-- ===== src/Truncate/Received.antt =====
-- A frame that src/truncate.rs has shortened, as a receiver checks it.
use rust_pcaprune.Prelude.{
  ℕ, ◌+◌, ◌^◌, ◌≤◌, ◌<◌, ◌≡◌, refl, sym, ap, ap₂, ◌∙◌, Bool, true, false, length, Bytes, Run, ret,
  sub, ◌++◌, ◌⊎◌, inl, inr, arith, IsBytes, IsBytes-put16, IsBytes-take, IsBytes-sub, at-lt,
  length-sub, subst,
}
use rust_pcaprune.Checksum.{transport_checksum_ipv6}
use rust_pcaprune.Checksum.Receiver.{
  Verifies, pseudo_header4, pseudo_header6, header-Verifies, transport4-Verifies,
  transport6-Verifies,
}
use rust_pcaprune.Parse.Frame.{L4Proto, tcp, udp, L4Info, ParsedFrame}
use rust_pcaprune.Parse.Options.{four_at}
use rust_pcaprune.Parse.Destination.{Destination, pseudo_dst_at-Destination}
use rust_pcaprune.Parse.Located.{Located}
use rust_pcaprune.Truncate.{apply_truncate_on_parsed}
use rust_pcaprune.Truncate.Updates.{
  Room, sum_at, transport_sum-sum_at, transport_at, IsBytes-ip_header_at,
}
use rust_pcaprune.Truncate.Result.{Located-Shape, truncates_as, truncated_at, apply_truncate_lem}
use rust_pcaprune.Truncate.Checksums.{
  proto_number, Located-header_len, ip_header_len-le, apply_truncate_verifies,
}

IsBytes-transport_at :
    (k : L4Proto) (b : Bytes) (ip hl : ℕ) (v6 : Bool) (i : L4Info)
    → IsBytes b
    → IsBytes (transport_at k b ip hl v6 i)
unfolding transport_at
IsBytes-transport_at tcp b ip hl v6 i h = IsBytes-put16 _ _ _ (IsBytes-put16 b _ 0 h)
IsBytes-transport_at udp b ip hl v6 i h =
    IsBytes-put16 _ _ _ (IsBytes-put16 _ _ 0 (IsBytes-put16 b _ _ h))

IsBytes-truncated_at :
    (frame : Bytes) (ip hl : ℕ) (v6 : Bool) (i : L4Info)
    → IsBytes frame
    → IsBytes (truncated_at frame ip hl v6 i)
unfolding truncated_at
IsBytes-truncated_at frame ip hl v6 i h =
    IsBytes-transport_at i.proto _ ip hl v6 i
      (IsBytes-ip_header_at _ ip hl v6 (IsBytes-take (i.payload_start + 24) frame h))

-- The receiver's destination is at `j`: where the IPv4 header and its options say it, or in the
-- field of the IPv6 header.
abbrev pub DestinationAt : Bytes → ℕ → ℕ → Bool → ℕ → Type 0
DestinationAt b ip hl true j = j ≡ ip + 24
DestinationAt b ip hl false j = Destination b (ip + hl) (ip + 16) j (ip + 20)

-- The pseudo-header with that destination, for a segment of `n` bytes.
abbrev pub pseudo_header : Bytes → ℕ → Bool → ℕ → ℕ → ℕ → Bytes
pseudo_header b ip true j proto n =
    pseudo_header6 (sub b (ip + 8) (ip + 24)) (sub b j (j + 16)) proto n
pseudo_header b ip false j proto n = pseudo_header4 (four_at b (ip + 12)) (four_at b j) proto n

IsBytes-four_at : (b : Bytes) (j : ℕ) → IsBytes b → IsBytes (four_at b j)
IsBytes-four_at b j h =
    (at-lt b j h, (at-lt b (j + 1) h, (at-lt b (j + 2) h, (at-lt b (j + 3) h, tt))))

sum_at-Verifies :
    (b : Bytes) (ip hl : ℕ) (v6 : Bool) (proto j : ℕ) (segment : Bytes)
    → IsBytes b
    → IsBytes segment
    → length segment < 2 ^ 16
    → proto < 256
    → 20 ≤ hl
    → (v6 ≡ true → hl ≡ 40)
    → ip + hl ≤ length b
    → DestinationAt b ip hl v6 j
    → sum_at b ip hl v6 proto segment ≡ 0
    → Verifies (pseudo_header b ip v6 j proto (length segment) ++ segment)
unfolding sum_at
sum_at-Verifies b ip hl true proto j segment h k l m n six room d e =
    transport6-Verifies (sub b (ip + 8) (ip + 24)) (sub b j (j + 16)) proto segment
      (omega (arith, six refl, length-sub b (ip + 8) (ip + 24)))
      (omega (arith, six refl, length-sub b j (j + 16))) (IsBytes-sub b (ip + 8) (ip + 24) h)
      (IsBytes-sub b j (j + 16) h) m k l
      (ap₂ (λ s t. transport_checksum_ipv6 s t proto segment) (ap (sub b (ip + 8)) next)
          (ap (λ x. sub b x (x + 16)) d)
        ∙ e)
  where
    next : ip + 24 ≡ ip + 8 + 16
    next = omega arith
sum_at-Verifies b ip hl false proto j segment h k l m n six room d e =
    transport4-Verifies (four_at b (ip + 12)) (four_at b j) proto segment refl refl
      (IsBytes-four_at b (ip + 12) h) (IsBytes-four_at b j h) m k l
      (rw (pseudo_dst_at-Destination b ip hl j n d) at e)

proto_number-lt : (k : L4Proto) → proto_number k < 256
proto_number-lt tcp = omega arith
proto_number-lt udp = omega arith

-- A receiver accepts a shortened frame. Let the frame be one of bytes, with a TCP or UDP header
-- behind an IP header of 20 bytes or more, and let the receiver's destination be at `j` in what
-- comes out: the destination field, or the last address of a source route, if the options read for
-- it are well-formed and none is a no-operation option. Then the one's complement sum of the 16-bit
-- words is 0xffff for the IPv4 header, and for the pseudo-header followed by the segment that
-- reaches to the end of the frame.
pub apply_truncate_received :
    {frame : Bytes} (p : ParsedFrame) (i : L4Info) (out : Bytes) (j : ℕ)
    → IsBytes frame
    → Located frame p i
    → 20 ≤ p.ip_header_len
    → apply_truncate_on_parsed frame p ≡ ret (out, true)
    → DestinationAt out p.ip_start p.ip_header_len p.is_ipv6 j
    → let segment = sub out i.header_start (length out) in
      ((p.is_ipv6 ≡ true) ⊎ Verifies (sub out p.ip_start (p.ip_start + p.ip_header_len)))
      × Verifies (
          pseudo_header out p.ip_start p.is_ipv6 j (proto_number i.proto) (length segment)
          ++ segment)
unfolding truncated_at
apply_truncate_received {frame} p i out j bytes l ihl e d =
    let ip = p.ip_start in
    let hl = p.ip_header_len in
    let t = truncates_as p i l e in
    let (_, n, _) = (apply_truncate_lem p i l).0 t.0 in
    let size : length out ≡ i.payload_start + 24 = ap (λ (x : Bytes). length x) t.1 ∙ n in
    let r = subst (Room ip hl p.is_ipv6 i) (sym size) (Located-Shape l).room in
    let segment = sub out i.header_start (length out) in
    let out_bytes : IsBytes out =
      subst IsBytes (sym t.1) (IsBytes-truncated_at frame ip hl p.is_ipv6 i bytes) in
    let (header, transport) = apply_truncate_verifies p i out bytes l ihl e in
    (
      elim header [
        | inl six ↦ inl six
        | inr four ↦ inr (
            header-Verifies (sub out ip (ip + hl)) (IsBytes-sub out ip (ip + hl) out_bytes)
              (omega (arith, length-sub out ip (ip + hl), ip_header_len-le l)) four)
      ],
      sum_at-Verifies out ip hl p.is_ipv6 (proto_number i.proto) j segment out_bytes
          (IsBytes-sub out i.header_start (length out) out_bytes)
          (omega
            (arith, length-sub out i.header_start (length out), Located-header_len l bytes, r.ends))
          (proto_number-lt i.proto) ihl r.six (omega (arith, r.ends, r.behind)) d
          (ret_value (
            sym
              (transport_sum-sum_at out ip hl p.is_ipv6 i r out (proto_number i.proto) segment refl)
            ∙ transport)),
    )
  where
    ret_value : {x y : ℕ} → ◌≡◌ {A = Run ℕ} (ret x) (ret y) → x ≡ y
    ret_value q = cc
