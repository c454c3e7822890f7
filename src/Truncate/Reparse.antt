-- ===== src/Truncate/Reparse.antt =====
-- The parser of src/parse.rs on a frame that src/truncate.rs has shortened.
use rust_pcaprune.Prelude.{
  ℕ, ◌+◌, ◌-◌, ◌*◌, ◌/◌, ◌%◌, ◌^◌, ◌≤◌, ◌<◌, ◌≡◌, refl, ap, ◌∙◌, Bool, true, false, length, Bytes,
  at, word, take, arith, IsBytes, length-take, subst,
}
use rust_pcaprune.Parse.Frame.{L4Proto, tcp, udp, L4Info}
use rust_pcaprune.Parse.L4.{L4Bounds, L4Header-L4Bounds, L4Header-at_most, L4Header-keep}
use rust_pcaprune.Parse.L2.{Tagged-Same}
use rust_pcaprune.Parse.Ipv4.{header_len_at}
use rust_pcaprune.Parse.Ipv6.{Chain-bounds, Chain-Same, payload_end_at}
use rust_pcaprune.Parse.Located.{V4, V6}
use rust_pcaprune.Truncate.Updates.{ip_header_at}
use rust_pcaprune.Truncate.Result.{truncated_at, length-truncated_at}
use rust_pcaprune.Truncate.Keeps.{
  OffIp, OffL4, at-truncated_at, at-transport_at, word-total, word-plen,
}

-- An offset with none of the transport fields near it.
OffL4-before : (k : L4Proto) (start j : ℕ) → j < start + 4 → OffL4 k start j
OffL4-before tcp start j h = omega arith
OffL4-before udp start j h = omega arith

OffL4-offset : (k : L4Proto) (start : ℕ) → OffL4 k start (start + 12)
OffL4-offset tcp start = omega arith
OffL4-offset udp start = omega arith

-- Word fields of the IP header in front of the transport header survive the transport updates.
word-ip_header :
    (frame : Bytes) (ip hl : ℕ) (v6 : Bool) (i : L4Info) (f : ℕ)
    → f + 1 < i.header_start + 4
    → word (truncated_at frame ip hl v6 i) f
      ≡ word (ip_header_at (take (i.payload_start + 24) frame) ip hl v6) f
unfolding truncated_at
word-ip_header frame ip hl v6 i f h =
    let b = ip_header_at (take (i.payload_start + 24) frame) ip hl v6 in
    omega (
      arith,
      at-transport_at i.proto b ip hl v6 i f (OffL4-before i.proto i.header_start f (omega arith)),
      at-transport_at i.proto b ip hl v6 i (f + 1) (OffL4-before i.proto i.header_start (f + 1) h),
    )

module _ (frame : Bytes) (ip hl : ℕ) (i : L4Info) (behind : ip + hl ≤ i.header_start)
    (payload : i.payload_start ≡ i.header_start + i.header_len)
    (long : i.payload_start + 24 < length frame) where
  cut_length : length (take (i.payload_start + 24) frame) ≡ i.payload_start + 24
  cut_length = omega (arith, length-take (i.payload_start + 24) frame)

  pub word-total_truncated :
      20 ≤ hl
      → i.payload_start + 24 - ip < 2 ^ 16
      → word (truncated_at frame ip hl false i) (ip + 2) ≡ i.payload_start + 24 - ip
  word-total_truncated h k =
      word-ip_header frame ip hl false i (ip + 2) (omega arith)
      ∙ word-total (take (i.payload_start + 24) frame) ip hl (omega (arith, cut_length))
          (omega (arith, cut_length))
      ∙ ap (λ n. n - ip) cut_length

  pub word-plen_truncated :
      hl ≡ 40
      → i.payload_start + 24 - ip - 40 < 2 ^ 16
      → word (truncated_at frame ip hl true i) (ip + 4) ≡ i.payload_start + 24 - ip - 40
  word-plen_truncated h k =
      word-ip_header frame ip hl true i (ip + 4) (omega arith)
      ∙ word-plen (take (i.payload_start + 24) frame) ip hl (omega (arith, cut_length))
      ∙ omega (arith, cut_length)

  -- What the parser reads in front of the transport header, and in it.
  keeps_before :
      (v6 : Bool) (j : ℕ)
      → j < i.header_start + 4
      → OffIp v6 ip j
      → 8 ≤ i.header_len
      → at (truncated_at frame ip hl v6 i) j ≡ at frame j
  keeps_before v6 j q o m =
      at-truncated_at frame ip hl v6 i j (omega arith) o (OffL4-before i.proto i.header_start j q)

  keeps_offset :
      (v6 : Bool)
      → OffIp v6 ip (i.header_start + 12)
      → 8 ≤ i.header_len
      → at (truncated_at frame ip hl v6 i) (i.header_start + 12) ≡ at frame (i.header_start + 12)
  keeps_offset v6 o m =
      at-truncated_at frame ip hl v6 i (i.header_start + 12) (omega arith) o
        (OffL4-offset i.proto i.header_start)

pub V4-truncated :
    {frame : Bytes} {ip : ℕ} {i : L4Info}
    → V4 frame ip i
    → IsBytes frame
    → 20 ≤ header_len_at frame ip
    → i.payload_start + 24 < length frame
    → V4 (truncated_at frame ip (header_len_at frame ip) false i) ip i
V4-truncated {frame} {ip} {i} v bytes ihl long = record {
  tags =
      Tagged-Same out v.tags
        (λ j p q.
          keeps j (omega (arith, b.starts, b.payload, len, first))
            (omega (arith, b.starts, b.payload, len, first)))
        (omega (arith, b.starts, b.payload, len, first));
  fixed = omega (arith, b.starts, b.payload, len, first);
  version = ap (λ b. b / 2 ^ 4) first ∙ v.version;
  header = omega (arith, b.starts, b.payload, len, first);
  transport =
      rw
        (
          keeps (ip + 9) (omega (arith, b.starts, b.payload, len, first))
              (omega (arith, b.starts, b.payload, len, first)),
          ap (λ b. b % 2 ^ 4 * 4) first,
          total,
        )
        (L4Header-keep out (n - ip - hl) v.transport
          (λ j q.
            keeps (ip + hl + j) (omega (arith, b.starts, b.payload, len, first))
              (omega (arith, b.starts, b.payload, len, first)))
          (subst (λ s. at out (s + 12) ≡ at frame (s + 12)) b.starts
            (keeps_offset frame ip hl i (omega (arith, b.starts, b.payload, len, first)) payload
              long false (omega (arith, b.starts, b.payload, len, first)) b.at_least))
          (omega (arith, b.starts, b.payload, len, first))
          (omega (arith, b.starts, b.payload, len, first)));
}
  where
    hl : ℕ
    hl = header_len_at frame ip

    n : ℕ
    n = i.payload_start + 24

    b : L4Bounds frame (ip + hl) (word frame (ip + 2) - hl) i
    b = L4Header-L4Bounds v.transport

    payload : i.payload_start ≡ i.header_start + i.header_len
    payload = omega (arith, b.payload, b.starts)

    out : Bytes
    out = truncated_at frame ip hl false i

    len : length out ≡ n
    len = length-truncated_at frame ip hl false i (omega arith)

    keeps : (j : ℕ) → j < i.header_start + 4 → OffIp false ip j → at out j ≡ at frame j
    keeps j q o =
        keeps_before frame ip hl i (omega (arith, b.starts)) payload long false j q o b.at_least

    first : at out ip ≡ at frame ip
    first = keeps ip (omega (arith, b.starts)) (omega arith)

    total : word out (ip + 2) ≡ n - ip
    total =
        word-total_truncated frame ip hl i (omega (arith, b.starts)) payload long ihl
          (omega (arith, b.starts, b.payload, L4Header-at_most v.transport bytes))

-- The shortened payload length still fits its field: it does in every frame below 64 KiB.
abbrev pub Fits : ℕ → L4Info → Type 0
Fits ip i = i.payload_start + 24 - ip - 40 < 2 ^ 16

pub V6-truncated :
    {frame : Bytes} {ip proto start : ℕ} {i : L4Info}
    → V6 frame ip proto start i
    → Fits ip i
    → i.payload_start + 24 < length frame
    → V6 (truncated_at frame ip 40 true i) ip proto start i
V6-truncated {frame} {ip} {proto} {start} {i} v fits long = record {
  tags =
      Tagged-Same out v.tags
        (λ j p q.
          keeps j (omega (arith, c, b.starts, b.payload, len, end))
            (omega (arith, c, b.starts, b.payload, len, end)))
        (omega (arith, c, b.starts, b.payload, len, end));
  fixed = omega (arith, c, b.starts, b.payload, len, end);
  version =
      ap (λ x. x / 2 ^ 4)
        (keeps ip (omega (arith, c, b.starts, b.payload, len, end))
          (omega (arith, c, b.starts, b.payload, len, end)))
      ∙ v.version;
  chain =
      rw
        (keeps (ip + 6) (omega (arith, c, b.starts, b.payload, len, end))
          (omega (arith, c, b.starts, b.payload, len, end)))
        (Chain-Same out (payload_end_at out ip) v.chain
          (λ j p q.
            keeps j (omega (arith, c, b.starts, b.payload, len, end))
              (omega (arith, c, b.starts, b.payload, len, end)))
          (omega (arith, c, b.starts, b.payload, len, end)));
  transport =
      L4Header-keep out (payload_end_at out ip - start) v.transport
        (λ j q.
          keeps (start + j) (omega (arith, c, b.starts, b.payload, len, end))
            (omega (arith, c, b.starts, b.payload, len, end)))
        (subst (λ s. at out (s + 12) ≡ at frame (s + 12)) b.starts
          (keeps_offset frame ip 40 i (omega (arith, c, b.starts, b.payload, len, end)) payload long
            true (omega (arith, c, b.starts, b.payload, len, end)) b.at_least))
        (omega (arith, c, b.starts, b.payload, len, end))
        (omega (arith, c, b.starts, b.payload, len, end));
}
  where
    n : ℕ
    n = i.payload_start + 24

    c : ip + 40 ≤ start
    c = (Chain-bounds v.chain).0

    b : L4Bounds frame start (payload_end_at frame ip - start) i
    b = L4Header-L4Bounds v.transport

    payload : i.payload_start ≡ i.header_start + i.header_len
    payload = omega (arith, b.payload, b.starts)

    out : Bytes
    out = truncated_at frame ip 40 true i

    len : length out ≡ n
    len = length-truncated_at frame ip 40 true i (omega arith)

    keeps : (j : ℕ) → j < i.header_start + 4 → OffIp true ip j → at out j ≡ at frame j
    keeps j q o =
        keeps_before frame ip 40 i (omega (arith, c, b.starts)) payload long true j q o b.at_least

    plen : word out (ip + 4) ≡ n - ip - 40
    plen = word-plen_truncated frame ip 40 i (omega (arith, c, b.starts)) payload long refl fits

    end : payload_end_at out ip ≡ n
    end = omega (arith, plen, len, c, b.payload)
