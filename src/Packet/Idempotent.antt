-- ===== src/Packet/Idempotent.antt =====
-- Slimming a packet of src/packet.rs again changes nothing.
use rust_pcaprune.Prelude.{
  ℕ, ◌+◌, ◌^◌, ◌≤◌, ◌<◌, ◌≡◌, refl, Bool, true, false, some, min, length, Bytes, ret, arith,
  IsBytes, length-sub,
}
use rust_pcaprune.Parse.Frame.{L4Info, ParsedFrame}
use rust_pcaprune.Parse.L4.{L4Header-L4Bounds, L4Header-at_most}
use rust_pcaprune.Parse.L2.{Tagged}
use rust_pcaprune.Parse.Ipv4.{with_l4, header_len_at}
use rust_pcaprune.Parse.Ipv6.{Chain-bounds}
use rust_pcaprune.Parse.Located.{V4, V6, Located, in_v4, in_v6}
use rust_pcaprune.Policy.Total.{body_at, claimed_at}
use rust_pcaprune.Truncate.Result.{truncated_at, length-truncated_at, of_parsed, long_body}
use rust_pcaprune.Truncate.Reparse.{
  V4-truncated, V6-truncated, word-total_truncated, word-plen_truncated,
}
use rust_pcaprune.Packet.{keep, truncated, process_packet}
use rust_pcaprune.Packet.Decision.{process_packet_iff, keep-process}

-- A frame of at most 64 KiB of bytes, in which an announced IPv4 header has at least 20 bytes.
pub record Sane (frame : Bytes) : Type 0 where
  pub bytes : IsBytes frame
  pub size : length frame ≤ 2 ^ 16
  pub ihl : (ip : ℕ) → Tagged frame 12 0x0800 ip → 20 ≤ header_len_at frame ip

length-body :
    (out : Bytes) (ip hl : ℕ) (v6 : Bool) (i : L4Info)
    → length out ≡ i.payload_start + 24
    → 24 ≤ claimed_at out ip hl v6 i
    → length (body_at (with_l4 out ip hl v6 (some i)) i) ≤ 24
length-body out ip hl v6 i e h = omega (
  arith,
  length-sub out i.payload_start (min (length out) (i.payload_start + claimed_at out ip hl v6 i)),
)

-- What the shortened IP header claims is the 24 bytes, or, behind extension headers, more.
claimed-V4 :
    {frame : Bytes} {ip : ℕ} {i : L4Info} (v : V4 frame ip i)
    → Sane frame
    → i.payload_start + 24 < length frame
    → let out = truncated_at frame ip (header_len_at frame ip) false i in
      24 ≤ claimed_at out ip (header_len_at out ip) false i
claimed-V4 {frame} {ip} {i} v s long =
    let hl = header_len_at frame ip in
    let ihl = s.ihl ip v.tags in
    let b = L4Header-L4Bounds v.transport in
    let b' = L4Header-L4Bounds (V4-truncated v s.bytes ihl long).transport in
    let short = L4Header-at_most v.transport s.bytes in
    let behind : ip + hl ≤ i.header_start = omega (arith, b.starts) in
    let payload : i.payload_start ≡ i.header_start + i.header_len =
      omega (arith, b.starts, b.payload) in
    omega (
      arith,
      b.starts,
      b'.starts,
      b.payload,
      word-total_truncated frame ip hl i behind payload long ihl
          (omega (arith, b.starts, b.payload, short)),
    )

claimed-V6 :
    {frame : Bytes} {ip proto start : ℕ} {i : L4Info} (v : V6 frame ip proto start i)
    → Sane frame
    → i.payload_start + 24 < length frame
    → 24 ≤ claimed_at (truncated_at frame ip 40 true i) ip 40 true i
claimed-V6 {frame} {ip} {i = i} v s long =
    let b = L4Header-L4Bounds v.transport in
    let c = (Chain-bounds v.chain).0 in
    let behind : ip + 40 ≤ i.header_start = omega (arith, b.starts, c) in
    let payload : i.payload_start ≡ i.header_start + i.header_len =
      omega (arith, b.starts, b.payload) in
    omega (
      arith,
      b.starts,
      b.payload,
      c,
      word-plen_truncated frame ip 40 i behind payload long refl (omega (arith, s.size)),
    )

-- The shortened frame is parsed to the same header, and keeps it.
again :
    {frame : Bytes} (p : ParsedFrame) (i : L4Info)
    → Located frame p i
    → Sane frame
    → i.payload_start + 24 < length frame
    → process_packet (of_parsed frame p i) ≡ ret (keep, false)
again {frame} p i (in_v4 {ip = ip} v e) s long =
    let hl = header_len_at frame ip in
    let ihl = s.ihl ip v.tags in
    let out = truncated_at frame ip hl false i in
    let v' = V4-truncated v s.bytes ihl long in
    rw e (
      keep-process (with_l4 out ip (header_len_at out ip) false (some i)) i (in_v4 v' refl) (
        length-body out ip (header_len_at out ip) false i
          (length-truncated_at frame ip hl false i (omega arith)) (claimed-V4 v s long)))
again {frame} p i (in_v6 {ip = ip} v e) s long =
    let out = truncated_at frame ip 40 true i in
    let v' = V6-truncated v (omega (arith, s.size)) long in
    rw e (
      keep-process (with_l4 out ip 40 true (some i)) i (in_v6 v' refl) (
        length-body out ip 40 true i (length-truncated_at frame ip 40 true i (omega arith))
          (claimed-V6 v s long)))

-- Slimming is idempotent on packets: a packet that was shortened is kept as it is the next time,
-- if the frame is at most 64 KiB of bytes and the length field of an IPv4 header behind its tags
-- says 20 bytes at least.
pub process_packet_idempotent :
    (frame out : Bytes) (b : Bool)
    → Sane frame
    → process_packet frame ≡ ret (truncated out, b)
    → process_packet out ≡ ret (keep, false)
process_packet_idempotent frame out b s e =
    let (t, o, f, l, m) = (process_packet_iff frame out b).0 e in
    rw o
      (again t.at_frame t.header t.located s (long_body t.at_frame t.header t.located t.excess.0))
