-- ===== src/Packet/Panic.antt =====
-- When process_packet of src/packet.rs panics: the flags that decide_action reads are not there.
use rust_pcaprune.Prelude.{
  ℕ, ◌+◌, ◌≤◌, ◌<◌, ◌≡◌, refl, Bool, true, false, Option, none, some, ltb, ◌==◌, length, Bytes, Run,
  ret, panic, ◌⊎◌, inl, inr, ◌↔◌, arith, be16-word, be16-panic, Bool-cases, Option-cases, ltb→lt,
  ltb-false, ==→eq, eq→==, subst,
}
use rust_pcaprune.Parse.Frame.{L4Info, ParsedFrame, parsed}
use rust_pcaprune.Parse.L2.{l2_at, Tagged, Tagged-bounds, l2_at-Tagged, Tagged-l2_at}
use rust_pcaprune.Parse.Ipv4.{ipv4_at}
use rust_pcaprune.Parse.Ipv6.{ipv6_at}
use rust_pcaprune.Parse.Total.{dispatch_at, frame_at, parse_at, parse_frame-parse_at}
use rust_pcaprune.Parse.Located.{Located, frame_at-Located}
use rust_pcaprune.Policy.{Action, is_fragment, decide_action}
use rust_pcaprune.Policy.Total.{Readable, Located-Readable, body_at, decide_action_iff}
use rust_pcaprune.Truncate.Result.{of_parsed, apply_truncate_lem}
use rust_pcaprune.Packet.{PacketOutcome, keep, truncated, act, process_parsed, process_packet}

-- Behind its tags the frame announces IPv4, and ends before the flags and fragment offset.
abbrev pub CutFlags : Bytes → Type 0
CutFlags frame = (ip : ℕ) × Tagged frame 12 0x0800 ip × (length frame < ip + 8)

-- What `decide_action` finds at the flags of a parsed frame.
data Flags (frame : Bytes) (p : ParsedFrame) : Type 0 where
  not_needed : p.frame ≡ frame → p.is_ipv6 ≡ true → ¬ CutFlags frame → Flags frame p
  there :
      p.frame ≡ frame
      → p.is_ipv6 ≡ false
      → p.ip_start + 8 ≤ length frame
      → ¬ CutFlags frame
      → Flags frame p
  missing :
      p.frame ≡ frame
      → p.is_ipv6 ≡ false
      → length frame < p.ip_start + 8
      → CutFlags frame
      → Flags frame p

ipv4_at_fields :
    (frame : Bytes) (ip : ℕ)
    → ((ipv4_at frame ip).frame ≡ frame)
      × ((ipv4_at frame ip).is_ipv6 ≡ false)
      × ((ipv4_at frame ip).ip_start ≡ ip)
unfolding ipv4_at
ipv4_at_fields frame ip = ground arith

ipv6_at_fields :
    (frame : Bytes) (ip : ℕ)
    → ((ipv6_at frame ip).frame ≡ frame) × ((ipv6_at frame ip).is_ipv6 ≡ true)
unfolding ipv6_at
ipv6_at_fields frame ip = ground arith

-- The tag stack determines the type and the place of layer 3.
tag_of :
    {frame : Bytes} {ip et l3 : ℕ}
    → Tagged frame 12 0x0800 ip
    → l2_at frame ≡ some (et, l3)
    → (et ≡ 0x0800) × (l3 ≡ ip)
tag_of t e = ground (arith, Tagged-l2_at t)

dispatch_at-Flags :
    (frame : Bytes) (l2 : Option (ℕ × ℕ))
    → 14 ≤ length frame
    → l2_at frame ≡ l2
    → Flags frame (dispatch_at frame l2)
unfolding dispatch_at
dispatch_at-Flags frame none h e = there refl refl (omega arith) (λ c. cc (Tagged-l2_at c.1))
dispatch_at-Flags frame (some (et, l3)) h e = elim (Bool-cases (et == 0x0800)) [
  | inl four ↦
      rw four
        (ipv4 (subst (λ x. Tagged frame 12 x l3) (==→eq et 0x0800 four) (l2_at-Tagged frame e)))
  | inr other ↦ elim (Bool-cases (et == 0x86DD)) [
    | inl six ↦
        rw (other, six)
          (not_needed (ipv6_at_fields frame l3).0 (ipv6_at_fields frame l3).1
            (λ c. cc (eq→== et 0x0800 (tag_of c.1 e).0)))
    | inr neither ↦
        rw (other, neither)
          (there refl refl (omega arith) (λ c. cc (eq→== et 0x0800 (tag_of c.1 e).0)))
  ]
]
  where
    ipv4 : Tagged frame 12 0x0800 l3 → Flags frame (ipv4_at frame l3)
    ipv4 t =
        let f = ipv4_at_fields frame l3 in
        elim (Bool-cases (ltb (length frame) (l3 + 8))) [
          | inl short ↦ missing f.0 f.1 (ground arith) (l3, t, ltb→lt (length frame) (l3 + 8) short)
          | inr long ↦ there f.0 f.1 (ground arith) (λ c. ground (arith, (tag_of c.1 e).1, c.2))
        ]

decide_none :
    {frame : Bytes} (p : ParsedFrame)
    → Flags frame p
    → p.l4 ≡ none
    → ((decide_action p ≡ ret Action.keep) × (¬ CutFlags frame))
      ⊎ ((decide_action p ≡ panic) × CutFlags frame)
unfolding decide_action is_fragment
decide_none p (not_needed a b c) n = inl (ground arith, c)
decide_none p (there a b c d) n = inl (ground (arith, be16-word p.frame (p.ip_start + 6)), d)
decide_none p (missing a b c d) n = inr (ground (arith, be16-panic p.frame (p.ip_start + 6)), d)

-- A located transport header has its IP header, flags included, inside the frame.
Readable-not_cut :
    {frame : Bytes} {p : ParsedFrame} {i : L4Info} → Flags frame p → Readable p i → ¬ CutFlags frame
Readable-not_cut (not_needed a b c) r = c
Readable-not_cut (there a b c d) r = d
Readable-not_cut (missing a b c d) r = absurd (ground (arith, r.fixed, a))

-- What comes of the action, on a located header.
act_returns :
    {frame : Bytes} (p : ParsedFrame) (i : L4Info) (a : Action)
    → Located frame p i
    → (r : PacketOutcome × Bool) × (act frame p a ≡ ret r)
unfolding act
act_returns p i Action.keep l = ((keep, false), refl)
act_returns {frame} p i Action.truncate l = elim (Bool-cases (ltb 24 (length (body_at p i)))) [
  | inl long ↦ (
    (truncated (of_parsed frame p i), true),
    rw ((apply_truncate_lem p i l).0 (ltb→lt 24 (length (body_at p i)) long)).0,
  )
  | inr short ↦
      ((keep, false), rw ((apply_truncate_lem p i l).1 (ltb-false 24 (length (body_at p i)) short)))
]

Outcome : Bytes → Run (PacketOutcome × Bool) → Type 0
Outcome frame m =
    (((r : PacketOutcome × Bool) × (m ≡ ret r)) × (¬ CutFlags frame))
    ⊎ ((m ≡ panic) × CutFlags frame)

process_parsed-Outcome :
    (frame : Bytes) (p : ParsedFrame)
    → Flags frame p
    → ((i : L4Info) → p.l4 ≡ some i → Located frame p i)
    → Outcome frame (process_parsed frame (parsed p))
unfolding Outcome process_parsed
process_parsed-Outcome frame p f loc = elim (Option-cases p.l4) [
  | inl n ↦ elim (decide_none p f n) [
    | inl (e, c) ↦ inl (((keep, false), rw e (unfold act in refl)), c)
    | inr (e, c) ↦ inr (rw e, c)
  ]
  | inr (i, s) ↦
      let l = loc i s in
      let c = Readable-not_cut f (Located-Readable l) in
      elim (decide_action_iff p i l).1 [
        | inl e ↦ let r = act_returns p i Action.truncate l in inl ((r.0, rw e r.1), c)
        | inr e ↦ let r = act_returns p i Action.keep l in inl ((r.0, rw e r.1), c)
      ]
]

process_packet-Outcome : (frame : Bytes) → Outcome frame (process_packet frame)
unfolding process_packet parse_at Outcome
process_packet-Outcome frame =
    rw (parse_frame-parse_at frame) (elim (Bool-cases (ltb (length frame) 14)) [
      | inl short ↦ rw short (
          inl (
            ((keep, false), unfold process_parsed in refl),
            λ c. ground (arith, Tagged-bounds c.1),
          ))
      | inr long ↦ rw long (
          process_parsed-Outcome frame (frame_at frame)
            (unfold frame_at in
              dispatch_at-Flags frame (l2_at frame) (ltb-false (length frame) 14 long) refl)
            (λ i s. frame_at-Located frame i s))
    ])

-- `process_packet` panics exactly on the frames that announce IPv4 behind their tags and end
-- before its flags: `decide_action` reads them with no test of the length. It returns or panics:
-- no loop runs out of fuel, and every other read is in bounds.
pub process_packet-panic_iff :
    (frame : Bytes)
    → ((process_packet frame ≡ panic) ↔ CutFlags frame)
      × (((r : PacketOutcome × Bool) × (process_packet frame ≡ ret r))
          ⊎ (process_packet frame ≡ panic))
unfolding Outcome
process_packet-panic_iff frame = elim (process_packet-Outcome frame) [
  | inl ((r, e), c) ↦ (((λ q. cc), (λ q. absurd (c q))), inl (r, e))
  | inr (e, c) ↦ (((λ _. c), (λ _. e)), inr e)
]
