-- ===== src/Packet/Documented.antt =====
-- process_packet of src/packet.rs against pcap-slim-algorithm.md, on every frame.
use rust_pcaprune.Prelude.{
  ◌+◌, ◌<◌, ◌≡◌, ap, ◌∙◌, Bool, true, false, none, some, length, Bytes, Run, ret, panic,
  out_of_fuel, refl, arith, ◌⊎◌, inl, inr, ◌↔◌, Option-cases,
}
use rust_pcaprune.Parse.Frame.{L4Info, ParsedFrame}
use rust_pcaprune.Parse.Total.{frame_at}
use rust_pcaprune.Parse.Located.{Located, in_v4, in_v6, frame_at-Located, V4-frame_at, V6-frame_at}
use rust_pcaprune.Policy.{Action, decide_action}
use rust_pcaprune.Policy.Total.{decide_action_iff}
use rust_pcaprune.Policy.Document.{Documented, Extended, decide_action-Documented}
use rust_pcaprune.Truncate.Result.{of_parsed, apply_truncate_lem}
use rust_pcaprune.Packet.{PacketOutcome, keep, truncated, act, process_packet}
use rust_pcaprune.Packet.Panic.{process_packet-panic_iff}
use rust_pcaprune.Packet.Decision.{
  ToTruncate, shortened, process_packet_iff, process-Located, process-ToTruncate,
  ToTruncate-process,
}

-- The frame comes out as its headers and 24 bytes of payload, shorter than it was.
abbrev pub Shortens : Bytes → ParsedFrame → L4Info → Type 0
Shortens frame p i =
    (process_packet frame ≡ ret (truncated (of_parsed frame p i), true))
    × (length (of_parsed frame p i) ≡ i.payload_start + 24)
    × (length (of_parsed frame p i) < length frame)

abbrev pub Keeps : Bytes → Type 0
Keeps frame = process_packet frame ≡ ret (keep, false)

-- What becomes of a frame whose transport header was located.
abbrev pub Follows : Bytes → ParsedFrame → L4Info → Type 0
Follows frame p i =
    (Shortens frame p i × Documented p i)
    ⊎ (Keeps frame × ¬ Documented p i)
    ⊎ (Shortens frame p i × Extended p i)

Located-frame_at :
    {frame : Bytes} {p : ParsedFrame} {i : L4Info}
    → Located frame p i
    → (frame_at frame).l4 ≡ some i
Located-frame_at (in_v4 v e) = ap (λ (x : ParsedFrame). x.l4) (V4-frame_at v)
Located-frame_at (in_v6 v e) = ap (λ (x : ParsedFrame). x.l4) (V6-frame_at v)

Shortens-truncate :
    {frame : Bytes} (p : ParsedFrame) (i : L4Info)
    → Located frame p i
    → decide_action p ≡ ret Action.truncate
    → Shortens frame p i
Shortens-truncate p i l e =
    let (whole, excess) = (decide_action_iff p i l).0.0 e in
    let (_, n, m) = (apply_truncate_lem p i l).0 excess.0 in
    (
      ToTruncate-process
          (record { at_frame = p; header = i; located = l; whole = whole; excess = excess }),
      n,
      omega (arith, n, m),
    )

Keeps-keep :
    {frame : Bytes} (p : ParsedFrame) (i : L4Info)
    → Located frame p i
    → decide_action p ≡ ret Action.keep
    → Keeps frame
unfolding act
Keeps-keep p i l e = process-Located p i l ∙ rw e refl

follows : {frame : Bytes} (p : ParsedFrame) (i : L4Info) → Located frame p i → Follows frame p i
follows p i l = elim (decide_action-Documented p i l).1 [
  | inl (t, d) ↦ inl (Shortens-truncate p i l t, d)
  | inr (inl (k, d)) ↦ inr (inl (Keeps-keep p i l k, d))
  | inr (inr (t, x)) ↦ inr (inr (Shortens-truncate p i l t, x))
]

-- A frame with no transport header.
bare :
    (frame : Bytes) (m : Run (PacketOutcome × Bool))
    → process_packet frame ≡ m
    → ((p : ParsedFrame) (i : L4Info) → ¬ Located frame p i)
    → ((b : Bool) × (m ≡ ret (keep, b))) ⊎ (m ≡ panic)
bare frame panic e n = inr refl
bare frame out_of_fuel e n = elim (process_packet-panic_iff frame).1 [
  | inl (r, q) ↦ cc
  | inr q ↦ cc
]
bare frame (ret (keep, b)) e n = inl (b, refl)
bare frame (ret (truncated out, b)) e n =
    let t = process-ToTruncate out b e in absurd (n t.at_frame t.header t.located)

-- What `process_packet` does with any frame. If it has a TCP or UDP header, and the document
-- shortens the packet, it comes out as its headers and 24 bytes of payload; if the document keeps
-- it, it is kept, but for some packets of IPv6 with extension headers, which are shortened too. If
-- it has none, the frame is kept or the call panics. The frames that are shortened are exactly
-- those of `ToTruncate`: no IPv4 fragment, with an encrypted payload of more than 24 bytes, where
-- the length of IPv6 extension headers counts as payload.
pub process_packet_documented :
    (frame out : Bytes) (b : Bool)
    → (((p : ParsedFrame) × (i : L4Info) × Located frame p i × Follows frame p i)
        ⊎ (((p : ParsedFrame) (i : L4Info) → ¬ Located frame p i)
            × (((x : Bool) × (process_packet frame ≡ ret (keep, x)))
                ⊎ (process_packet frame ≡ panic))))
      × ((process_packet frame ≡ ret (truncated out, b)) ↔ (
          (t : ToTruncate frame) × (out ≡ shortened t)
          × (b ≡ true)
          × (length out ≡ t.header.payload_start + 24)
          × (length out < length frame)))
process_packet_documented frame out b = (
  elim (Option-cases (frame_at frame).l4) [
    | inr (i, e) ↦
        let l = frame_at-Located frame i e in
        inl (frame_at frame, i, l, follows (frame_at frame) i l)
    | inl e ↦ inr (none_such e, bare frame (process_packet frame) refl (none_such e))
  ],
  process_packet_iff frame out b,
)
  where
    none_such : (frame_at frame).l4 ≡ none → (p : ParsedFrame) (i : L4Info) → ¬ Located frame p i
    none_such e p i l = let q = Located-frame_at l in cc
