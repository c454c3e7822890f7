-- ===== src/Parse/Total.antt =====
-- parse_frame of src/parse.rs: it never panics, its loops end, and the fast path changes nothing.
use rust_pcaprune.Prelude.{
  ℕ, ◌-◌, ◌≤◌, ◌≡◌, refl, ◌∙◌, false, Option, none, some, ltb, ◌==◌, if◌then◌else◌, length, Bytes,
  ret, at, word, inl, inr, arith, Option-cases,
}
use rust_pcaprune.Parse.Frame.{L4Info, ParsedFrame, Parsed, parsed, too_short}
use rust_pcaprune.Parse.{no_l4, dispatch, parse_general, parse_frame}
use rust_pcaprune.Parse.L4.{tcp_at, udp_at, l4_at}
use rust_pcaprune.Parse.L2.{l2_at, l2-l2_at, inner, Tagged-l2_at}
use rust_pcaprune.Parse.Ipv4.{
  ipv4_at, with_l4, parse_ipv4-ipv4_at, plain_l4_at, plain_at, plain-plain_at,
}
use rust_pcaprune.Parse.Ipv6.{ipv6_at, parse_ipv6-ipv6_at}

-- The parser behind the fast path, over total reads.
unfoldable pub dispatch_at : Bytes → Option (ℕ × ℕ) → ParsedFrame
dispatch_at frame none = no_l4 frame 0 0 false
dispatch_at frame (some (ethertype, l3_start)) =
    if ethertype == 0x0800
    then ipv4_at frame l3_start
    else if ethertype == 0x86DD
    then ipv6_at frame l3_start
    else no_l4 frame 0 0 false

unfoldable pub frame_at : Bytes → ParsedFrame
frame_at frame = dispatch_at frame (l2_at frame)

dispatch-dispatch_at :
    (frame : Bytes) (l2 : Option (ℕ × ℕ)) → dispatch frame l2 ≡ ret (parsed (dispatch_at frame l2))
unfolding dispatch dispatch_at
dispatch-dispatch_at frame none = refl
dispatch-dispatch_at frame (some (et, l3)) =
    ground (arith, parse_ipv4-ipv4_at frame l3, parse_ipv6-ipv6_at frame l3)

pub parse_general-frame_at : (frame : Bytes) → parse_general frame ≡ ret (parsed (frame_at frame))
unfolding parse_general frame_at
parse_general-frame_at frame = rw (l2-l2_at frame) (dispatch-dispatch_at frame (l2_at frame))

-- The frame of the fast path has no tag, so layer 3 starts at 14.
l2_at_untagged :
    (frame : Bytes)
    → 14 ≤ length frame
    → at frame 12 ≡ 8
    → at frame 13 ≡ 0
    → l2_at frame ≡ some (0x0800, 14)
l2_at_untagged frame h p q =
    Tagged-l2_at (inner (omega arith) (omega arith) (λ e. absurd (omega arith)) (omega arith))

ipv4_at_plain :
    (frame : Bytes)
    → 54 ≤ length frame
    → at frame 14 ≡ 0x45
    → ipv4_at frame 14
      ≡ with_l4 frame 14 20 false (l4_at frame (at frame 23) 34 (word frame 16 - 20))
unfolding ipv4_at
ipv4_at_plain frame h e = ground arith

plain_l4_at-l4_at :
    (frame : Bytes) (proto len : ℕ) (l4 : Option L4Info)
    → 54 ≤ length frame
    → plain_l4_at frame proto len ≡ some l4
    → l4_at frame proto 34 len ≡ l4
unfolding plain_l4_at l4_at tcp_at udp_at
plain_l4_at-l4_at frame proto len l4 h e = ground arith

-- Where the fast path answers, the general parser gives the same answer.
plain_at-frame_at : (frame : Bytes) {p : ParsedFrame} → plain_at frame ≡ some p → frame_at frame ≡ p
unfolding plain_at frame_at dispatch_at
plain_at-frame_at frame e =
    elim (Option-cases (plain_l4_at frame (at frame 23) (word frame 16 - 20))) [
      | inl n ↦ ground arith
      | inr (l4, s) ↦ ground (
        arith,
        l2_at_untagged frame,
        ipv4_at_plain frame,
        plain_l4_at-l4_at frame (at frame 23) (word frame 16 - 20) l4,
      )
    ]

unfoldable pub parse_at : Bytes → Parsed
parse_at frame = if ltb (length frame) 14 then too_short else parsed (frame_at frame)

-- The parser returns on every byte string, with the frame's offsets or `TooShort`.
pub parse_frame-parse_at : (frame : Bytes) → parse_frame frame ≡ ret (parse_at frame)
unfolding parse_frame parse_at
parse_frame-parse_at frame = elim (Option-cases (plain_at frame)) [
  | inl n ↦ ground (arith, plain-plain_at frame, parse_general-frame_at frame)
  | inr (p, s) ↦ ground (arith, plain-plain_at frame, plain_at-frame_at frame s)
]

-- The fast path is an optimisation only: `parse_frame` is the general parser behind the length
-- test, and it neither panics nor runs out of fuel.
pub parse_frame-parse_general :
    (frame : Bytes)
    → (parse_frame frame ≡ (if ltb (length frame) 14 then ret too_short else parse_general frame))
      × ((r : Parsed) × (parse_frame frame ≡ ret r))
unfolding parse_at
parse_frame-parse_general frame = (
  parse_frame-parse_at frame ∙ ground (arith, parse_general-frame_at frame),
  (parse_at frame, parse_frame-parse_at frame),
)
