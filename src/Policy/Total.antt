-- ===== src/Policy/Total.antt =====
-- payload() of src/parse.rs and decide_action of src/policy.rs on what the parser finds.
use rust_pcaprune.Prelude.{
  ℕ, ◌+◌, ◌-◌, ◌%◌, ◌^◌, ◌≤◌, ◌<◌, ◌≡◌, ◌≢◌, refl, sym, ap, Bool, true, false, [], some, leb, ◌==◌,
  if◌then◌else◌, min, length, Bytes, ret, slice, sub, word, take, drop, ◌⊎◌, inl, inr, ◌↔◌, arith,
  be16-word, slice-sub, Bool-cases, leb→le, leb-false, subst,
}
use rust_pcaprune.Parse.Frame.{L4Proto, tcp, udp, L4Info, ParsedFrame, payload_len, payload}
use rust_pcaprune.Parse.L4.{L4Header-L4Bounds}
use rust_pcaprune.Parse.Located.{Located, in_v4, in_v6}
use rust_pcaprune.Policy.{keep, truncate, decide_proto, decide_l4, is_fragment, decide_action}
use rust_pcaprune.Policy.Rules.{TcpEncrypted, UdpEncrypted, decide_tcp_iff, decide_udp_iff}

-- The length of the transport payload that the IP header claims.
abbrev pub claimed_at : Bytes → ℕ → ℕ → Bool → L4Info → ℕ
claimed_at frame ip hl true i = hl + word frame (ip + 4) - hl - i.header_len
claimed_at frame ip hl false i = word frame (ip + 2) - hl - i.header_len

-- The bytes that `payload` returns: as many as the IP header claims, as far as they were captured.
abbrev pub body_at : ParsedFrame → L4Info → Bytes
body_at p i = sub p.frame i.payload_start (
    min (length p.frame)
      (i.payload_start + claimed_at p.frame p.ip_start p.ip_header_len p.is_ipv6 i))

-- The transport header is inside the frame, behind a fixed IP header.
pub record Readable (p : ParsedFrame) (i : L4Info) : Type 0 where
  pub found : p.l4 ≡ some i
  pub fixed : p.ip_start + 20 ≤ length p.frame
  pub inside : i.payload_start ≤ length p.frame

pub Located-frame :
    {frame : Bytes} {p : ParsedFrame} {i : L4Info} → Located frame p i → p.frame ≡ frame
Located-frame (in_v4 v e) = ap (λ (x : ParsedFrame). x.frame) e
Located-frame (in_v6 v e) = ap (λ (x : ParsedFrame). x.frame) e

pub Located-Readable :
    {frame : Bytes} {p : ParsedFrame} {i : L4Info} → Located frame p i → Readable p i
Located-Readable {i = i} (in_v4 v e) =
    subst (λ x. Readable x i) (sym e)
      (record { found = refl; fixed = v.fixed; inside = (L4Header-L4Bounds v.transport).inside })
Located-Readable {i = i} (in_v6 v e) =
    subst (λ x. Readable x i) (sym e)
      (record {
        found = refl;
        fixed = omega (arith, v.fixed);
        inside = (L4Header-L4Bounds v.transport).inside;
      })

payload_len-claimed :
    (p : ParsedFrame) (i : L4Info)
    → Readable p i
    → payload_len p ≡ ret (claimed_at p.frame p.ip_start p.ip_header_len p.is_ipv6 i)
unfolding payload_len
payload_len-claimed p i r = elim (Bool-cases p.is_ipv6) [
  | inl six ↦ ground (arith, r.found, r.fixed, be16-word p.frame (p.ip_start + 4))
  | inr four ↦ ground (arith, r.found, r.fixed, be16-word p.frame (p.ip_start + 2))
]

slice_or_nothing :
    (b : Bytes) (s e : ℕ)
    → e ≤ length b
    → (if leb e s then ret [] else slice b s e) ≡ ret (sub b s e)
slice_or_nothing b s e h = elim (Bool-cases (leb e s)) [
  | inl before ↦ rw before (ap (λ k. ret (take k (drop s b))) (empty (leb→le e s before)))
  | inr behind ↦ rw behind (slice-sub b s e (omega (arith, leb-false e s behind)) h)
]
  where
    empty : e ≤ s → 0 ≡ e - s
    empty p = omega arith

payload-Readable : (p : ParsedFrame) (i : L4Info) → Readable p i → payload p ≡ ret (body_at p i)
unfolding payload
payload-Readable p i r = ground (
  arith,
  r.found,
  payload_len-claimed p i r,
  slice_or_nothing p.frame i.payload_start
      (min (length p.frame)
        (i.payload_start + claimed_at p.frame p.ip_start p.ip_header_len p.is_ipv6 i))
      (omega arith),
)

-- On what the parser located, `payload` does not panic.
pub payload-body_at :
    {frame : Bytes} (p : ParsedFrame) (i : L4Info)
    → Located frame p i
    → payload p ≡ ret (body_at p i)
payload-body_at p i l = payload-Readable p i (Located-Readable l)

-- The encrypted payloads of the document, by the transport protocol.
abbrev pub Encrypted : L4Proto → ℕ → ℕ → Bytes → Type 0
Encrypted tcp sport dport body = TcpEncrypted sport dport body
Encrypted udp sport dport body = UdpEncrypted sport dport

-- IPv4 with the more-fragments flag or a fragment offset.
abbrev pub Ipv4Fragment : ParsedFrame → Type 0
Ipv4Fragment p = (p.is_ipv6 ≡ false) × (word p.frame (p.ip_start + 6) % 2 ^ 14 ≢ 0)

-- Longer than 24 bytes and encrypted.
abbrev pub Excess : L4Info → Bytes → Type 0
Excess i body = (24 < length body) × Encrypted i.proto i.sport i.dport body

decide_proto_iff :
    (k : L4Proto) (sport dport : ℕ) (body : Bytes)
    → ((decide_proto k sport dport body ≡ ret truncate)
        ↔ ((24 < length body) × Encrypted k sport dport body))
      × ((decide_proto k sport dport body ≡ ret truncate)
          ⊎ (decide_proto k sport dport body ≡ ret keep))
unfolding decide_proto
decide_proto_iff tcp sport dport body = decide_tcp_iff sport dport body
decide_proto_iff udp sport dport body = decide_udp_iff sport dport body

is_fragment-Readable :
    (p : ParsedFrame) (i : L4Info)
    → Readable p i
    → ((is_fragment p ≡ ret true) × Ipv4Fragment p)
      ⊎ ((is_fragment p ≡ ret false) × (¬ Ipv4Fragment p))
unfolding is_fragment
is_fragment-Readable p i r = elim (Bool-cases p.is_ipv6) [
  | inl six ↦ inr (rw six, λ f. cc f.0)
  | inr four ↦ elim (Bool-cases (word p.frame (p.ip_start + 6) % 2 ^ 14 == 0)) [
    | inl zero_flags ↦
        inr (ground (arith, r.fixed, be16-word p.frame (p.ip_start + 6)), λ f. f.1 (ground arith))
    | inr flags ↦
        inl (ground (arith, r.fixed, be16-word p.frame (p.ip_start + 6)), (four, λ e. ground arith))
  ]
]

-- `decide_action` does not panic, and answers `Truncate` or `Keep` by these conditions.
pub decide_action_iff :
    {frame : Bytes} (p : ParsedFrame) (i : L4Info)
    → Located frame p i
    → ((decide_action p ≡ ret truncate) ↔ ((¬ Ipv4Fragment p) × Excess i (body_at p i)))
      × ((decide_action p ≡ ret truncate) ⊎ (decide_action p ≡ ret keep))
unfolding decide_action decide_l4
decide_action_iff p i l = elim (is_fragment-Readable p i (Located-Readable l)) [
  | inl (e, f) ↦ rw e (((λ q. cc), (λ q. absurd (q.0 f))), inr refl)
  | inr (e, n) ↦
      rw (e, (Located-Readable l).found, payload-body_at p i l)
        (let d = decide_proto_iff i.proto i.sport i.dport (body_at p i) in
          (((λ q. (n, d.0.0 q)), (λ q. d.0.1 q.1)), d.1))
]
