-- ===== src/Packet/Decision.antt =====
-- Which packets src/packet.rs shortens.
use rust_pcaprune.Prelude.{
  ◌+◌, ◌≤◌, ◌<◌, ◌≡◌, ◌≢◌, refl, ap, ◌∙◌, Bool, true, false, none, some, ltb, length, Bytes, ret,
  ◌>>=◌, inl, inr, ◌↔◌, arith, Bool-cases, Option-cases, >>=-eq-ret,
}
use rust_pcaprune.Parse.Frame.{L4Info, ParsedFrame}
use rust_pcaprune.Parse.Total.{frame_at, parse_at, parse_frame-parse_at}
use rust_pcaprune.Parse.Located.{Located, frame_at-Located, parse_frame-Located}
use rust_pcaprune.Policy.{Action, decide_action}
use rust_pcaprune.Policy.Total.{Ipv4Fragment, Excess, body_at, decide_action_iff}
use rust_pcaprune.Truncate.{apply_truncate_on_parsed}
use rust_pcaprune.Truncate.Result.{of_parsed, apply_truncate_lem}
use rust_pcaprune.Packet.{keep, truncated, act, process_parsed, process_packet}

-- A packet that is to be shortened, with the transport header that says so.
pub record ToTruncate (frame : Bytes) : Type 0 where
  pub at_frame : ParsedFrame
  pub header : L4Info
  pub located : Located frame at_frame header
  pub whole : ¬ Ipv4Fragment at_frame
  pub excess : Excess header (body_at at_frame header)

-- Its headers and 24 bytes of payload, with lengths and checksums updated.
abbrev pub shortened : {frame : Bytes} → ToTruncate frame → Bytes
shortened {frame} t = of_parsed frame t.at_frame t.header

pub process-Located :
    {frame : Bytes} (p : ParsedFrame) (i : L4Info)
    → Located frame p i
    → process_packet frame ≡ (decide_action p >>= act frame p)
unfolding process_packet process_parsed
process-Located {frame} p i l = rw ((parse_frame-Located frame p i).1 l).0

pub ToTruncate-process :
    {frame : Bytes} (t : ToTruncate frame)
    → process_packet frame ≡ ret (truncated (shortened t), true)
unfolding act
ToTruncate-process t =
    let p = t.at_frame in
    let i = t.header in
    let l = t.located in
    process-Located p i l
    ∙ rw ((decide_action_iff p i l).0.1 (t.whole, t.excess))
        (rw ((apply_truncate_lem p i l).0 t.excess.0).0)

pub keep-process :
    {frame : Bytes} (p : ParsedFrame) (i : L4Info)
    → Located frame p i
    → length (body_at p i) ≤ 24
    → process_packet frame ≡ ret (keep, false)
unfolding act
keep-process p i l h = process-Located p i l ∙ elim (decide_action_iff p i l).1 [
  | inl e ↦ absurd (omega (arith, ((decide_action_iff p i l).0.0 e).1.0))
  | inr e ↦ rw e
]

-- A frame with no transport header is kept, if it is not one of those that panic.
act-none :
    (frame : Bytes) (p : ParsedFrame) (a : Action) {out : Bytes} {b : Bool}
    → p.l4 ≡ none
    → act frame p a ≢ ret (truncated out, b)
unfolding act apply_truncate_on_parsed
act-none frame p Action.keep n = λ e. cc
act-none frame p Action.truncate n = λ e. ground arith

process_none :
    (frame : Bytes) {out : Bytes} {b : Bool} (p : ParsedFrame)
    → p.l4 ≡ none
    → (decide_action p >>= act frame p) ≢ ret (truncated out, b)
process_none frame p n =
    λ e. let (a, q, r) = >>=-eq-ret (decide_action p) (act frame p) e in act-none frame p a n r

Located-of :
    {frame : Bytes} {out : Bytes} {b : Bool} (p : ParsedFrame)
    → ((i : L4Info) → p.l4 ≡ some i → Located frame p i)
    → (decide_action p >>= act frame p) ≡ ret (truncated out, b)
    → (t : ToTruncate frame) × (t.at_frame ≡ p)
unfolding act
Located-of {frame} p loc e = elim (Option-cases p.l4) [
  | inl n ↦ absurd (process_none frame p n e)
  | inr (i, s) ↦
      let l = loc i s in
      elim (decide_action_iff p i l).1 [
        | inl d ↦
            let w = (decide_action_iff p i l).0.0 d in
            (record { at_frame = p; header = i; located = l; whole = w.0; excess = w.1 }, refl)
        | inr d ↦ cc (rw d at e)
      ]
]

pub process-ToTruncate :
    {frame : Bytes} (out : Bytes) (b : Bool)
    → process_packet frame ≡ ret (truncated out, b)
    → ToTruncate frame
unfolding process_packet process_parsed parse_at
process-ToTruncate {frame} out b e = elim (Bool-cases (ltb (length frame) 14)) [
  | inl short ↦ ground (arith, parse_frame-parse_at frame)
  | inr long ↦
      (Located-of (frame_at frame) (λ i s. frame_at-Located frame i s)
        (rw (parse_frame-parse_at frame, long) at e)).0
]

-- The packets that `process_packet` shortens, and what comes out of them.
pub process_packet_iff :
    (frame out : Bytes) (b : Bool)
    → (process_packet frame ≡ ret (truncated out, b)) ↔ (
        (t : ToTruncate frame) × (out ≡ shortened t)
        × (b ≡ true)
        × (length out ≡ t.header.payload_start + 24)
        × (length out < length frame))
process_packet_iff frame out b = (λ e. to e, λ x. from x)
  where
    to :
        process_packet frame ≡ ret (truncated out, b)
        → (t : ToTruncate frame) × (out ≡ shortened t)
          × (b ≡ true)
          × (length out ≡ t.header.payload_start + 24)
          × (length out < length frame)
    to e =
        let t = process-ToTruncate out b e in
        let q = ToTruncate-process t in
        let r = (apply_truncate_lem t.at_frame t.header t.located).0 t.excess.0 in
        let o : out ≡ shortened t = cc in
        (
          t,
          o,
          cc,
          ap (λ (x : Bytes). length x) o ∙ r.1,
          omega (arith, ap (λ (x : Bytes). length x) o, r.1, r.2),
        )

    from :
        (t : ToTruncate frame) × (out ≡ shortened t)
          × (b ≡ true)
          × (length out ≡ t.header.payload_start + 24)
          × (length out < length frame)
        → process_packet frame ≡ ret (truncated out, b)
    from (t, o, f, x, y) = ToTruncate-process t ∙ cc
