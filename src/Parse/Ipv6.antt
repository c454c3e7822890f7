-- ===== src/Parse/Ipv6.antt =====
-- parse_ipv6 of src/parse.rs: the walk over extension headers against the chain a frame carries.
use rust_pcaprune.Prelude.{
  ℕ, zero, suc, ◌+◌, ◌-◌, ◌*◌, ◌/◌, ◌^◌, ◌≤◌, ◌<◌, ◌≡◌, refl, sym, ap, ◌∙◌, Bool, true, false, ◌||◌,
  not, Option, none, some, ltb, leb, ◌==◌, if◌then◌else◌, min, length, Bytes, ret, at, word, inl,
  inr, arith, byte-at, be16-word, Bool-cases,
}
use rust_pcaprune.Parse.Frame.{L4Info, ParsedFrame, parsed}
use rust_pcaprune.Parse.{no_l4, ext_walk, parse_ipv6}
use rust_pcaprune.Parse.L4.{l4_at, parse_tcp-tcp_at, parse_udp-udp_at}
use rust_pcaprune.Parse.L2.{Same}
use rust_pcaprune.Parse.Ipv4.{with_l4}

-- The extension headers that count their length in units of eight bytes: hop-by-hop options,
-- routing, fragment and destination options.
abbrev in_eights : ℕ → Bool
in_eights next = next == 0 || next == 43 || next == 44 || next == 60

-- The length that the header of type `next` at `off` claims; 0 for what is no extension header.
unfoldable pub ext_len_at : Bytes → ℕ → ℕ → ℕ
ext_len_at frame next off =
    if in_eights next
    then (at frame (off + 1) + 1) * 8
    else if next == 51
    then (at frame (off + 1) + 2) * 4
    else 0

-- A transport protocol that `parse_ipv6` looks into.
abbrev pub is_transport : ℕ → Bool
is_transport next = next == 6 || next == 17

-- From header type `next` at `off` there are extension headers, each inside the payload that ends
-- at `payload_end`, and then the transport header of type `proto` at `start`.
pub data Chain (frame : Bytes) (payload_end : ℕ) : ℕ → ℕ → ℕ → ℕ → Type 0 where
  transport :
      {next off proto start : ℕ}
      → off < payload_end
      → is_transport next ≡ true
      → proto ≡ next
      → start ≡ off
      → Chain frame payload_end next off proto start
  extension :
      {next off next' off' proto start : ℕ}
      → is_transport next ≡ false
      → 8 ≤ ext_len_at frame next off
      → next' ≡ at frame off
      → off' ≡ off + ext_len_at frame next off
      → off' ≤ payload_end
      → Chain frame payload_end next' off' proto start
      → Chain frame payload_end next off proto start

-- The walk over total reads: the type and the place of the transport header.
unfoldable pub chain_at : ℕ → Bytes → ℕ → ℕ → ℕ → Option (ℕ × ℕ)
chain_at zero frame payload_end next off = none
chain_at (suc fuel) frame payload_end next off =
    let rest = chain_at fuel frame payload_end (at frame off) (off + ext_len_at frame next off) in
    if leb payload_end off
    then none
    else if is_transport next
    then some (next, off)
    else if ltb (ext_len_at frame next off) 8
    then none
    else if ltb payload_end (off + ext_len_at frame next off)
    then none
    else rest

unfoldable pub chain_l4 : Bytes → ℕ → Option (ℕ × ℕ) → Option L4Info
chain_l4 frame payload_end none = none
chain_l4 frame payload_end (some (proto, start)) = l4_at frame proto start (payload_end - start)

-- The walk from `off` with this fuel agrees with the walk over total reads.
abbrev Walks : ℕ → Bytes → ℕ → Type 0
Walks fuel frame payload_end =
    (next off : ℕ)
    → off ≤ payload_end
    → payload_end < off + fuel
    → ext_walk fuel frame payload_end next off
      ≡ ret (chain_l4 frame payload_end (chain_at fuel frame payload_end next off))

Walks-suc :
    (fuel : ℕ) (frame : Bytes) (payload_end : ℕ)
    → payload_end ≤ length frame
    → Walks fuel frame payload_end
    → Walks (suc fuel) frame payload_end
unfolding ext_walk chain_at chain_l4 ext_len_at l4_at
Walks-suc fuel frame payload_end h ih next off k m = ground (
  arith,
  byte-at frame off,
  byte-at frame (off + 1),
  parse_tcp-tcp_at frame off (payload_end - off),
  parse_udp-udp_at frame off (payload_end - off),
  ih (at frame off) (off + (at frame (off + 1) + 1) * 8),
  ih (at frame off) (off + (at frame (off + 1) + 2) * 4),
)

-- The walk ends within its fuel and reads nothing out of range.
ext_walk_total :
    (fuel : ℕ) (frame : Bytes) (payload_end : ℕ)
    → payload_end ≤ length frame
    → Walks fuel frame payload_end
ext_walk_total zero frame payload_end h = λ next off k m. absurd (omega arith)
ext_walk_total (suc fuel) frame payload_end h =
    Walks-suc fuel frame payload_end h (ext_walk_total fuel frame payload_end h)

-- `payload_end` of a frame whose IPv6 header starts at `ip`.
abbrev pub payload_end_at : Bytes → ℕ → ℕ
payload_end_at frame ip = min (ip + 40 + word frame (ip + 4)) (length frame)

unfoldable pub ipv6_l4 : Bytes → ℕ → Option (ℕ × ℕ)
ipv6_l4 frame ip =
    chain_at (suc (length frame)) frame (payload_end_at frame ip) (at frame (ip + 6)) (ip + 40)

unfoldable pub ipv6_at : Bytes → ℕ → ParsedFrame
ipv6_at frame ip =
    if ltb (length frame) (ip + 40)
    then no_l4 frame ip 40 true
    else if not (at frame ip / 2 ^ 4 == 6)
    then no_l4 frame ip 40 true
    else with_l4 frame ip 40 true (chain_l4 frame (payload_end_at frame ip) (ipv6_l4 frame ip))

pub parse_ipv6-ipv6_at :
    (frame : Bytes) (ip : ℕ) → parse_ipv6 frame ip ≡ ret (parsed (ipv6_at frame ip))
unfolding parse_ipv6 ipv6_at ipv6_l4
parse_ipv6-ipv6_at frame ip = ground (
  arith,
  byte-at frame ip,
  byte-at frame (ip + 6),
  be16-word frame (ip + 4),
  ext_walk_total (suc (length frame)) frame (payload_end_at frame ip) (omega arith)
      (at frame (ip + 6)) (ip + 40),
)

chain_at-Chain :
    (fuel : ℕ) (frame : Bytes) (payload_end next off : ℕ) {proto start : ℕ}
    → chain_at fuel frame payload_end next off ≡ some (proto, start)
    → Chain frame payload_end next off proto start
unfolding chain_at
chain_at-Chain zero frame payload_end next off e = cc
chain_at-Chain (suc fuel) frame payload_end next off e = elim (Bool-cases (leb payload_end off)) [
  | inl past ↦ ground arith
  | inr inside ↦ elim (Bool-cases (is_transport next)) [
    | inl final ↦ transport (ground arith) final (ground arith) (ground arith)
    | inr more ↦ elim (Bool-cases (ltb (ext_len_at frame next off) 8)) [
      | inl none_such ↦ ground arith
      | inr long ↦ elim (Bool-cases (ltb payload_end (off + ext_len_at frame next off))) [
        | inl cut ↦ ground arith
        | inr whole ↦ extension more (ground arith) refl refl (ground arith) (
            chain_at-Chain fuel frame payload_end (at frame off) (off + ext_len_at frame next off)
              (ground arith))
      ]
    ]
  ]
]

pub Chain-chain_at :
    (fuel : ℕ) {frame : Bytes} {payload_end next off proto start : ℕ}
    → Chain frame payload_end next off proto start
    → payload_end < off + fuel
    → chain_at fuel frame payload_end next off ≡ some (proto, start)
unfolding chain_at
Chain-chain_at zero (transport a b c d) h = absurd (omega arith)
Chain-chain_at zero (extension a b c d e t) h = absurd (omega arith)
Chain-chain_at (suc fuel) (transport a b c d) h = ground arith
Chain-chain_at (suc fuel) (extension {next = next} {off = off} a b c d e t) h =
    ground (arith, rw (c, d) at (Chain-chain_at fuel t (omega arith)))

pub Chain-bounds :
    {frame : Bytes} {payload_end next off proto start : ℕ}
    → Chain frame payload_end next off proto start
    → (off ≤ start) × (start < payload_end) × (is_transport proto ≡ true)
Chain-bounds (transport a b c d) = (omega arith, omega arith, ap is_transport c ∙ b)
Chain-bounds (extension a b c d e t) = let r = Chain-bounds t in (omega (arith, r.0), r.1, r.2)

pub ipv6_l4-Chain :
    (frame : Bytes) (ip : ℕ) {proto start : ℕ}
    → ipv6_l4 frame ip ≡ some (proto, start)
    → Chain frame (payload_end_at frame ip) (at frame (ip + 6)) (ip + 40) proto start
unfolding ipv6_l4
ipv6_l4-Chain frame ip =
    chain_at-Chain (suc (length frame)) frame (payload_end_at frame ip) (at frame (ip + 6))
      (ip + 40)

-- A frame that keeps the bytes of the chain keeps the chain, if the payload still holds it.
pub Chain-Same :
    {frame : Bytes} {payload_end next off proto start : ℕ} (frame' : Bytes) (payload_end' : ℕ)
    → Chain frame payload_end next off proto start
    → Same frame frame' off start
    → start < payload_end'
    → Chain frame' payload_end' next off proto start
unfolding ext_len_at
Chain-Same frame' payload_end' (transport a b c d) s h = transport (omega arith) b c d
Chain-Same {frame} frame' payload_end'
      (extension {next = next} {off = off} {start = start} a b c d e t) s h =
    extension a (rw (← len) at b) (c ∙ sym (s off (omega arith) (omega (arith, below))))
      (d ∙ ap (λ n. off + n) (sym len)) (omega (arith, (Chain-bounds t).0))
      (Chain-Same frame' payload_end' t (λ i p q. s i (omega arith) q) h)
  where
    below : suc off < start
    below = omega (arith, (Chain-bounds t).0)

    len : ext_len_at frame' next off ≡ ext_len_at frame next off
    len =
        ap
          (λ (b : ℕ). if in_eights next then (b + 1) * 8 else if next == 51 then (b + 2) * 4 else 0)
          (s (off + 1) (omega arith) (omega (arith, below)))
