-- ===== src/Parse/Located.antt =====
-- Where src/parse.rs finds a transport header: the layers of the frame, described by themselves.
use rust_pcaprune.Prelude.{
  ℕ, suc, ◌+◌, ◌-◌, ◌/◌, ◌^◌, ◌≤◌, ◌≡◌, refl, sym, ap, ◌∙◌, true, false, Option, none, some, ◌==◌,
  length, Bytes, ret, at, word, inl, inr, ◌↔◌, arith, Bool-cases, Option-cases, ==→eq, subst,
}
use rust_pcaprune.Parse.Frame.{L4Info, ParsedFrame, parsed}
use rust_pcaprune.Parse.{parse_frame}
use rust_pcaprune.Parse.L4.{l4_at, L4Header, l4_at-L4Header, L4Header-l4_at}
use rust_pcaprune.Parse.L2.{l2_at, Tagged, Tagged-bounds, l2_at-Tagged, Tagged-l2_at}
use rust_pcaprune.Parse.Ipv4.{ipv4_at, with_l4, header_len_at}
use rust_pcaprune.Parse.Ipv6.{
  ipv6_at, ipv6_l4, chain_l4, Chain, payload_end_at, ipv6_l4-Chain, Chain-chain_at,
}
use rust_pcaprune.Parse.Total.{dispatch_at, frame_at, parse_at, parse_frame-parse_at}

-- Tags, an IPv4 header at `ip` and the transport header `i` behind it.
pub record V4 (frame : Bytes) (ip : ℕ) (i : L4Info) : Type 0 where
  pub tags : Tagged frame 12 0x0800 ip
  pub fixed : ip + 20 ≤ length frame
  pub version : at frame ip / 2 ^ 4 ≡ 4
  pub header : ip + header_len_at frame ip ≤ length frame
  pub transport :
      L4Header frame
        (at frame (ip + 9))
        (ip + header_len_at frame ip)
        (word frame (ip + 2) - header_len_at frame ip)
        i

-- Tags, an IPv6 header at `ip`, its extension headers, and the transport header `i`.
pub record V6 (frame : Bytes) (ip proto start : ℕ) (i : L4Info) : Type 0 where
  pub tags : Tagged frame 12 0x86DD ip
  pub fixed : ip + 40 ≤ length frame
  pub version : at frame ip / 2 ^ 4 ≡ 6
  pub chain : Chain frame (payload_end_at frame ip) (at frame (ip + 6)) (ip + 40) proto start
  pub transport : L4Header frame proto start (payload_end_at frame ip - start) i

pub V4-frame_at :
    {frame : Bytes} {ip : ℕ} {i : L4Info}
    → V4 frame ip i
    → frame_at frame ≡ with_l4 frame ip (header_len_at frame ip) false (some i)
unfolding frame_at dispatch_at ipv4_at
V4-frame_at v = ground (arith, Tagged-l2_at v.tags, L4Header-l4_at v.transport)

V6-chain :
    {frame : Bytes} {ip proto start : ℕ} {i : L4Info}
    → V6 frame ip proto start i
    → chain_l4 frame (payload_end_at frame ip) (ipv6_l4 frame ip) ≡ some i
unfolding ipv6_l4 chain_l4
V6-chain {frame} {ip} v =
    rw (Chain-chain_at (suc (length frame)) v.chain (omega arith)) (L4Header-l4_at v.transport)

pub V6-frame_at :
    {frame : Bytes} {ip proto start : ℕ} {i : L4Info}
    → V6 frame ip proto start i
    → frame_at frame ≡ with_l4 frame ip 40 true (some i)
unfolding frame_at dispatch_at ipv6_at
V6-frame_at v = ground (arith, Tagged-l2_at v.tags, V6-chain v)

-- What was found, with its place.
pub data Located (frame : Bytes) (p : ParsedFrame) (i : L4Info) : Type 0 where
  in_v4 :
      {ip : ℕ}
      → V4 frame ip i
      → p ≡ with_l4 frame ip (header_len_at frame ip) false (some i)
      → Located frame p i
  in_v6 :
      {ip proto start : ℕ}
      → V6 frame ip proto start i
      → p ≡ with_l4 frame ip 40 true (some i)
      → Located frame p i

ipv4_at-cases :
    (frame : Bytes) (ip : ℕ) (i : L4Info)
    → (ipv4_at frame ip).l4 ≡ some i
    → (ip + 20 ≤ length frame)
      × (at frame ip / 2 ^ 4 ≡ 4)
      × (ip + header_len_at frame ip ≤ length frame)
      × (l4_at frame
            (at frame (ip + 9))
            (ip + header_len_at frame ip)
            (word frame (ip + 2) - header_len_at frame ip)
          ≡ some i)
unfolding ipv4_at
ipv4_at-cases frame ip i e = (ground arith, ground arith, ground arith, ground arith)

ipv4_at-V4 :
    (frame : Bytes) (ip : ℕ) (i : L4Info)
    → Tagged frame 12 0x0800 ip
    → (ipv4_at frame ip).l4 ≡ some i
    → V4 frame ip i
ipv4_at-V4 frame ip i t e =
    let c = ipv4_at-cases frame ip i e in
    record {
      tags = t;
      fixed = c.0;
      version = c.1;
      header = c.2;
      transport =
          l4_at-L4Header frame (at frame (ip + 9)) (ip + header_len_at frame ip)
            (word frame (ip + 2) - header_len_at frame ip) i c.3;
    }

chain_l4-V6 :
    (frame : Bytes) (ip : ℕ) (i : L4Info)
    → chain_l4 frame (payload_end_at frame ip) (ipv6_l4 frame ip) ≡ some i
    → (proto start : ℕ) × Chain frame
        (payload_end_at frame ip)
        (at frame (ip + 6))
        (ip + 40)
        proto
        start
      × L4Header frame proto start (payload_end_at frame ip - start) i
unfolding chain_l4
chain_l4-V6 frame ip i e = elim (Option-cases (ipv6_l4 frame ip)) [
  | inl n ↦ ground arith
  | inr ((proto, start), s) ↦ (
    proto,
    start,
    ipv6_l4-Chain frame ip s,
    l4_at-L4Header frame proto start (payload_end_at frame ip - start) i (ground arith),
  )
]

ipv6_at-cases :
    (frame : Bytes) (ip : ℕ) (i : L4Info)
    → (ipv6_at frame ip).l4 ≡ some i
    → (ip + 40 ≤ length frame)
      × (at frame ip / 2 ^ 4 ≡ 6)
      × (chain_l4 frame (payload_end_at frame ip) (ipv6_l4 frame ip) ≡ some i)
unfolding ipv6_at
ipv6_at-cases frame ip i e = (ground arith, ground arith, ground arith)

ipv6_at-V6 :
    (frame : Bytes) (ip : ℕ) (i : L4Info)
    → Tagged frame 12 0x86DD ip
    → (ipv6_at frame ip).l4 ≡ some i
    → (proto start : ℕ) × V6 frame ip proto start i
ipv6_at-V6 frame ip i t e =
    let c = ipv6_at-cases frame ip i e in
    let (proto, start, ch, tr) = chain_l4-V6 frame ip i c.2 in
    (proto, start, record { tags = t; fixed = c.0; version = c.1; chain = ch; transport = tr })

dispatch_at-Located :
    (frame : Bytes) (i : L4Info) (l2 : Option (ℕ × ℕ))
    → l2_at frame ≡ l2
    → (dispatch_at frame l2).l4 ≡ some i
    → Located frame (frame_at frame) i
unfolding dispatch_at
dispatch_at-Located frame i none e h = cc
dispatch_at-Located frame i (some (et, l3)) e h = elim (Bool-cases (et == 0x0800)) [
  | inl a ↦
      let t = subst (λ x. Tagged frame 12 x l3) (==→eq et 0x0800 a) (l2_at-Tagged frame e) in
      let v = ipv4_at-V4 frame l3 i t (rw a at h) in in_v4 v (V4-frame_at v)
  | inr b ↦ elim (Bool-cases (et == 0x86DD)) [
    | inl a ↦
        let t = subst (λ x. Tagged frame 12 x l3) (==→eq et 0x86DD a) (l2_at-Tagged frame e) in
        let (proto, start, v) = ipv6_at-V6 frame l3 i t (ground arith) in in_v6 v (V6-frame_at v)
    | inr c ↦ ground arith
  ]
]

pub frame_at-Located :
    (frame : Bytes) (i : L4Info) → (frame_at frame).l4 ≡ some i → Located frame (frame_at frame) i
unfolding frame_at
frame_at-Located frame i e = dispatch_at-Located frame i (l2_at frame) refl e

-- `parse_frame` reports the transport header `i` exactly when the lengths and types written in the
-- frame lead to it: behind its tags an IPv4 header, or an IPv6 header with a chain of extension
-- headers, and then a TCP or UDP header, each inside the frame and inside the lengths that the
-- headers before it claim. The offsets and ports reported are those of that header. It does not ask
-- for an IPv4 header length of 20 or more, nor, in IPv4 or IPv6, for a first fragment.
pub parse_frame-Located :
    (frame : Bytes) (p : ParsedFrame) (i : L4Info)
    → ((parse_frame frame ≡ ret (parsed p)) × (p.l4 ≡ some i)) ↔ Located frame p i
parse_frame-Located frame p i = (λ h. to h.0 h.1, λ l. from l)
  where
    at_frame : parse_frame frame ≡ ret (parsed p) → 14 ≤ length frame → p ≡ frame_at frame
    at_frame e h = unfold parse_at in ground (arith, parse_frame-parse_at frame)

    long : parse_frame frame ≡ ret (parsed p) → 14 ≤ length frame
    long e = unfold parse_at in ground (arith, parse_frame-parse_at frame)

    to : parse_frame frame ≡ ret (parsed p) → p.l4 ≡ some i → Located frame p i
    to e h =
        let q = at_frame e (long e) in
        subst (λ x. Located frame x i) (sym q) (frame_at-Located frame i (rw q at h))

    found :
        (ip et : ℕ)
        → Tagged frame 12 et ip
        → frame_at frame ≡ p
        → parse_frame frame ≡ ret (parsed p)
    found ip et t q = unfold parse_at in ground (arith, Tagged-bounds t, parse_frame-parse_at frame)

    from : Located frame p i → (parse_frame frame ≡ ret (parsed p)) × (p.l4 ≡ some i)
    from (in_v4 {ip = ip} v e) =
        (found ip 0x0800 v.tags (V4-frame_at v ∙ sym e), ap (λ (x : ParsedFrame). x.l4) e)
    from (in_v6 {ip = ip} v e) =
        (found ip 0x86DD v.tags (V6-frame_at v ∙ sym e), ap (λ (x : ParsedFrame). x.l4) e)
