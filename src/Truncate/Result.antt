-- ===== src/Truncate/Result.antt =====
-- What apply_truncate_on_parsed of src/truncate.rs returns for a located transport header.
use rust_pcaprune.Prelude.{
  ℕ, ◌+◌, ◌-◌, ◌≤◌, ◌<◌, ◌≡◌, refl, sym, ap, ◌∙◌, Bool, true, false, some, ltb, min, length, Bytes,
  ret, take, drop, inl, inr, arith, Bool-cases, length-take, length-drop, ltb→lt, ltb-false, subst,
}
use rust_pcaprune.Parse.Frame.{L4Info, ParsedFrame}
use rust_pcaprune.Parse.L4.{L4Header-L4Bounds}
use rust_pcaprune.Parse.Ipv6.{Chain-bounds}
use rust_pcaprune.Parse.Located.{Located, in_v4, in_v6}
use rust_pcaprune.Policy.Total.{body_at, payload-body_at, claimed_at, Located-frame}
use rust_pcaprune.Truncate.{apply_truncate_fields, apply_truncate_on_parsed}
use rust_pcaprune.Truncate.Updates.{
  Room, ip_header_at, transport_at, ip_header-ip_header_at, transport-transport_at,
  length-ip_header_at, length-transport_at,
}

-- The shortened frame with its lengths and checksums updated.
unfoldable pub truncated_at : Bytes → ℕ → ℕ → Bool → L4Info → Bytes
truncated_at frame ip hl v6 i =
    transport_at i.proto (ip_header_at (take (i.payload_start + 24) frame) ip hl v6) ip hl v6 i

-- The shape of what was located, without its place.
pub record Shape (frame : Bytes) (p : ParsedFrame) (i : L4Info) : Type 0 where
  pub same : p.frame ≡ frame
  pub found : p.l4 ≡ some i
  pub payload : i.payload_start ≡ i.header_start + i.header_len
  pub inside : i.payload_start ≤ length frame
  pub room : Room p.ip_start p.ip_header_len p.is_ipv6 i (i.payload_start + 24)

pub Located-Shape :
    {frame : Bytes} {p : ParsedFrame} {i : L4Info} → Located frame p i → Shape frame p i
Located-Shape {frame} {i = i} (in_v4 v e) =
    let b = L4Header-L4Bounds v.transport in
    subst (λ x. Shape frame x i) (sym e)
      (record {
        same = refl;
        found = refl;
        payload = omega (arith, b.payload, b.starts);
        inside = b.inside;
        room = record {
          ends = omega (arith, b.payload, b.starts);
          behind = omega (arith, b.starts);
          at_least = b.at_least;
          tcp_at_least = b.tcp_at_least;
          udp_exact = b.udp_exact;
          six = λ q. cc;
        };
      })
Located-Shape {frame} {i = i} (in_v6 v e) =
    let b = L4Header-L4Bounds v.transport in
    subst (λ x. Shape frame x i) (sym e)
      (record {
        same = refl;
        found = refl;
        payload = omega (arith, b.payload, b.starts);
        inside = b.inside;
        room = record {
          ends = omega (arith, b.payload, b.starts);
          behind = omega (arith, b.starts, (Chain-bounds v.chain).0);
          at_least = b.at_least;
          tcp_at_least = b.tcp_at_least;
          udp_exact = b.udp_exact;
          six = λ q. refl;
        };
      })

pub length-truncated_at :
    (frame : Bytes) (ip hl : ℕ) (v6 : Bool) (i : L4Info)
    → i.payload_start + 24 ≤ length frame
    → length (truncated_at frame ip hl v6 i) ≡ i.payload_start + 24
unfolding truncated_at
length-truncated_at frame ip hl v6 i h =
    length-transport_at i.proto (ip_header_at (take (i.payload_start + 24) frame) ip hl v6) ip hl v6
      i
    ∙ length-ip_header_at (take (i.payload_start + 24) frame) ip hl v6
    ∙ omega (arith, length-take (i.payload_start + 24) frame)

fields-truncated_at :
    (frame : Bytes) (ip hl : ℕ) (v6 : Bool) (i : L4Info) (n : ℕ)
    → Room ip hl v6 i (i.payload_start + 24)
    → 24 < n
    → i.payload_start + 24 < length frame
    → apply_truncate_fields frame ip hl v6 i n ≡ ret (truncated_at frame ip hl v6 i, true)
unfolding apply_truncate_fields truncated_at
fields-truncated_at frame ip hl v6 i n r h k =
    let cut = take (i.payload_start + 24) frame in
    let l : length cut ≡ i.payload_start + 24 =
      omega (arith, length-take (i.payload_start + 24) frame) in
    let r' = subst (Room ip hl v6 i) (sym l) r in
    ground (
      arith,
      ip_header-ip_header_at cut ip hl v6 i r',
      transport-transport_at cut ip hl v6 i r' (ip_header_at cut ip hl v6)
          (length-ip_header_at cut ip hl v6),
    )

fields-short :
    (frame : Bytes) (ip hl : ℕ) (v6 : Bool) (i : L4Info) (n : ℕ)
    → n ≤ 24
    → apply_truncate_fields frame ip hl v6 i n ≡ ret (frame, false)
unfolding apply_truncate_fields
fields-short frame ip hl v6 i n h = ground arith

pub length-body_at-le :
    (p : ParsedFrame) (i : L4Info) → length (body_at p i) ≤ length p.frame - i.payload_start
length-body_at-le p i = omega (
  arith,
  length-take
      (min (length p.frame)
          (i.payload_start + claimed_at p.frame p.ip_start p.ip_header_len p.is_ipv6 i)
        - i.payload_start)
      (drop i.payload_start p.frame),
  length-drop i.payload_start p.frame,
)

abbrev pub of_parsed : Bytes → ParsedFrame → L4Info → Bytes
of_parsed frame p i = truncated_at frame p.ip_start p.ip_header_len p.is_ipv6 i

on_parsed-fields :
    {frame : Bytes} (p : ParsedFrame) (i : L4Info)
    → Located frame p i
    → apply_truncate_on_parsed frame p
      ≡ apply_truncate_fields frame p.ip_start p.ip_header_len p.is_ipv6 i (length (body_at p i))
unfolding apply_truncate_on_parsed
on_parsed-fields p i l = ground (arith, (Located-Shape l).found, payload-body_at p i l)

pub long_body :
    {frame : Bytes} (p : ParsedFrame) (i : L4Info)
    → Located frame p i
    → 24 < length (body_at p i)
    → i.payload_start + 24 < length frame
long_body p i l h =
    omega (arith, length-body_at-le p i, ap (λ (b : Bytes). length b) (Located-frame l))

-- On what the parser located, truncation does not panic. It shortens the frame exactly when the
-- payload is longer than 24 bytes, to its headers and 24 bytes; else the buffer is as it was.
pub apply_truncate_lem :
    {frame : Bytes} (p : ParsedFrame) (i : L4Info)
    → Located frame p i
    → (24 < length (body_at p i)
        → (apply_truncate_on_parsed frame p ≡ ret (of_parsed frame p i, true))
          × (length (of_parsed frame p i) ≡ i.payload_start + 24)
          × (i.payload_start + 24 < length frame))
      × (length (body_at p i) ≤ 24 → apply_truncate_on_parsed frame p ≡ ret (frame, false))
apply_truncate_lem {frame} p i l = (
  λ h.
      let k = long_body p i l h in
      (
        on_parsed-fields p i l
            ∙ fields-truncated_at frame p.ip_start p.ip_header_len p.is_ipv6 i
                (length (body_at p i)) (Located-Shape l).room h k,
        length-truncated_at frame p.ip_start p.ip_header_len p.is_ipv6 i (omega arith),
        k,
      ),
  λ h.
      on_parsed-fields p i l
      ∙ fields-short frame p.ip_start p.ip_header_len p.is_ipv6 i (length (body_at p i)) h,
)

-- The same, read from the result.
pub truncates_as :
    {frame : Bytes} (p : ParsedFrame) (i : L4Info) {out : Bytes}
    → Located frame p i
    → apply_truncate_on_parsed frame p ≡ ret (out, true)
    → (24 < length (body_at p i)) × (out ≡ of_parsed frame p i)
truncates_as {frame} p i l e = elim (Bool-cases (ltb 24 (length (body_at p i)))) [
  | inl long ↦
      let h = ltb→lt 24 (length (body_at p i)) long in (h, cc ((apply_truncate_lem p i l).0 h).0)
  | inr short ↦ cc ((apply_truncate_lem p i l).1 (ltb-false 24 (length (body_at p i)) short))
]
