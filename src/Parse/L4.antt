-- ===== src/Parse/L4.antt =====
-- The transport header branches of src/parse.rs with no reads that can fail: they never panic.
use rust_pcaprune.Prelude.{
  ℕ, ◌+◌, ◌*◌, ◌/◌, ◌^◌, ◌≤◌, ◌<◌, ◌≡◌, refl, sym, ap, ◌∙◌, ◌||◌, Option, none, some, ltb, ◌==◌,
  if◌then◌else◌, length, Bytes, ret, at, word, inl, inr, arith, byte-at, be16-word, Bool-cases,
  IsBytes, at-lt, ==→eq, subst, ap₂,
}
use rust_pcaprune.Parse.Frame.{L4Proto, tcp, udp, L4Info}
use rust_pcaprune.Parse.{l4_info, parse_tcp, parse_udp, select_l4}

-- `parse_tcp` and `parse_udp` over total reads.
unfoldable pub tcp_at : Bytes → ℕ → ℕ → Option L4Info
tcp_at frame start len =
    if ltb (length frame) (start + 20) || ltb len 20
    then none
    else let data_offset = at frame (start + 12) / 2 ^ 4 * 4 in
      if ltb data_offset 20 || ltb (length frame) (start + data_offset)
      then none
      else if ltb len data_offset
      then none
      else some (l4_info tcp (word frame start) (word frame (start + 2)) start data_offset)

unfoldable pub udp_at : Bytes → ℕ → ℕ → Option L4Info
udp_at frame start len =
    if ltb (length frame) (start + 8) || ltb len 8
    then none
    else some (l4_info udp (word frame start) (word frame (start + 2)) start 8)

unfoldable pub l4_at : Bytes → ℕ → ℕ → ℕ → Option L4Info
l4_at frame proto start len =
    if proto == 6
    then tcp_at frame start len
    else if proto == 17
    then udp_at frame start len
    else none

pub parse_tcp-tcp_at :
    (frame : Bytes) (start len : ℕ) → parse_tcp frame start len ≡ ret (tcp_at frame start len)
unfolding parse_tcp tcp_at
parse_tcp-tcp_at frame start len =
    ground (arith, byte-at frame (start + 12), be16-word frame start, be16-word frame (start + 2))

pub parse_udp-udp_at :
    (frame : Bytes) (start len : ℕ) → parse_udp frame start len ≡ ret (udp_at frame start len)
unfolding parse_udp udp_at
parse_udp-udp_at frame start len =
    ground (arith, be16-word frame start, be16-word frame (start + 2))

pub select_l4-l4_at :
    (frame : Bytes) (proto start len : ℕ)
    → select_l4 frame proto start len ≡ ret (l4_at frame proto start len)
unfolding select_l4 l4_at
select_l4-l4_at frame proto start len =
    ground (arith, parse_tcp-tcp_at frame start len, parse_udp-udp_at frame start len)

-- The description of a header of `len` bytes at `start`.
abbrev described : L4Proto → ℕ → ℕ → ℕ → ℕ → L4Info
described proto sport dport start len = record {
  proto = proto;
  sport = sport;
  dport = dport;
  header_start = start;
  header_len = len;
  payload_start = start + len;
}

-- The transport header of type `proto` that stands at `start`, with `len` bytes of the IP payload
-- from there on, and the offsets and ports that describe it.
pub data L4Header (frame : Bytes) (proto start len : ℕ) (i : L4Info) : Type 0 where
  tcp_header :
      proto ≡ 6
      → 20 ≤ at frame (start + 12) / 2 ^ 4 * 4
      → start + at frame (start + 12) / 2 ^ 4 * 4 ≤ length frame
      → at frame (start + 12) / 2 ^ 4 * 4 ≤ len
      → i
        ≡ described tcp
            (word frame start)
            (word frame (start + 2))
            start
            (at frame (start + 12) / 2 ^ 4 * 4)
      → L4Header frame proto start len i
  udp_header :
      proto ≡ 17
      → start + 8 ≤ length frame
      → 8 ≤ len
      → i ≡ described udp (word frame start) (word frame (start + 2)) start 8
      → L4Header frame proto start len i

tcp_at-cases :
    (frame : Bytes) (start len : ℕ) (i : L4Info)
    → tcp_at frame start len ≡ some i
    → L4Header frame 6 start len i
unfolding tcp_at
tcp_at-cases frame start len i e =
    tcp_header refl (ground arith) (ground arith) (ground arith) (ground arith)

udp_at-cases :
    (frame : Bytes) (start len : ℕ) (i : L4Info)
    → udp_at frame start len ≡ some i
    → L4Header frame 17 start len i
unfolding udp_at
udp_at-cases frame start len i e = udp_header refl (ground arith) (ground arith) (ground arith)

pub l4_at-L4Header :
    (frame : Bytes) (proto start len : ℕ) (i : L4Info)
    → l4_at frame proto start len ≡ some i
    → L4Header frame proto start len i
unfolding l4_at
l4_at-L4Header frame proto start len i e = elim (Bool-cases (proto == 6)) [
  | inl t ↦
      subst (λ p. L4Header frame p start len i) (sym (==→eq proto 6 t))
        (tcp_at-cases frame start len i (rw t at e))
  | inr n ↦ elim (Bool-cases (proto == 17)) [
    | inl u ↦
        subst (λ p. L4Header frame p start len i) (sym (==→eq proto 17 u))
          (udp_at-cases frame start len i (ground arith))
    | inr m ↦ ground arith
  ]
]

pub L4Header-l4_at :
    {frame : Bytes} {proto start len : ℕ} {i : L4Info}
    → L4Header frame proto start len i
    → l4_at frame proto start len ≡ some i
unfolding l4_at tcp_at udp_at
L4Header-l4_at (tcp_header a b c d e) = ground arith
L4Header-l4_at (udp_header a b c d) = ground arith

-- What the offsets satisfy in both cases.
pub record L4Bounds (frame : Bytes) (start len : ℕ) (i : L4Info) : Type 0 where
  pub starts : i.header_start ≡ start
  pub payload : i.payload_start ≡ start + i.header_len
  pub at_least : 8 ≤ i.header_len
  pub inside : i.payload_start ≤ length frame
  pub fits : i.header_len ≤ len
  pub tcp_at_least : i.proto ≡ tcp → 20 ≤ i.header_len
  pub udp_exact : i.proto ≡ udp → i.header_len ≡ 8

pub L4Header-L4Bounds :
    {frame : Bytes} {proto start len : ℕ} {i : L4Info}
    → L4Header frame proto start len i
    → L4Bounds frame start len i
L4Header-L4Bounds {frame} {start = start} {len = len} (tcp_header a b c d e) =
    subst (L4Bounds frame start len) (sym e) (record {
      starts = refl;
      payload = refl;
      at_least = omega arith;
      inside = c;
      fits = d;
      tcp_at_least = λ _. b;
      udp_exact = λ q. cc;
    })
L4Header-L4Bounds {frame} {start = start} {len = len} (udp_header a b c d) =
    subst (L4Bounds frame start len) (sym d) (record {
      starts = refl;
      payload = refl;
      at_least = omega arith;
      inside = b;
      fits = c;
      tcp_at_least = λ q. cc;
      udp_exact = λ _. refl;
    })

ports_keep :
    (frame frame' : Bytes) (start : ℕ)
    → ((j : ℕ) → j < 4 → at frame' (start + j) ≡ at frame (start + j))
    → (word frame start ≡ word frame' start) × (word frame (start + 2) ≡ word frame' (start + 2))
ports_keep frame frame' start s =
    ground (arith, s 0 (omega arith), s 1 (omega arith), s 2 (omega arith), s 3 (omega arith))

-- A frame that keeps the ports and the TCP data offset keeps the header, if it still holds it.
pub L4Header-keep :
    {frame : Bytes} {proto start len : ℕ} {i : L4Info} (frame' : Bytes) (len' : ℕ)
    → L4Header frame proto start len i
    → ((j : ℕ) → j < 4 → at frame' (start + j) ≡ at frame (start + j))
    → at frame' (start + 12) ≡ at frame (start + 12)
    → i.payload_start ≤ length frame'
    → i.header_len ≤ len'
    → L4Header frame' proto start len' i
L4Header-keep {frame} {start = start} frame' len' (tcp_header a b c d e) s t h k =
    let w = ports_keep frame frame' start s in
    tcp_header a (rw t b) (rw t (ground arith)) (rw t (ground arith))
      (e ∙ rw t (ap₂ (λ x y. described tcp x y start (at frame (start + 12) / 2 ^ 4 * 4)) w.0 w.1))
L4Header-keep {frame} {start = start} frame' len' (udp_header a b c d) s t h k =
    let w = ports_keep frame frame' start s in
    udp_header a (ground arith) (ground arith) (d ∙ ap₂ (λ x y. described udp x y start 8) w.0 w.1)

pub L4Header-at_most :
    {frame : Bytes} {proto start len : ℕ} {i : L4Info}
    → L4Header frame proto start len i
    → IsBytes frame
    → i.header_len ≤ 60
L4Header-at_most {frame} {start = start} (tcp_header a b c d e) h =
    omega (arith, ap (λ (x : L4Info). x.header_len) e, at-lt frame (start + 12) h)
L4Header-at_most (udp_header a b c d) h = omega (arith, ap (λ (x : L4Info). x.header_len) d)
