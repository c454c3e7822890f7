-- ===== src/Policy/Document.antt =====
-- decide_action of src/policy.rs against pcap-slim-algorithm.md: fragments are left alone (edge case
-- 4), and the payload ends where the IP header ends the datagram (2a, 2b and edge case 5).
use rust_pcaprune.Prelude.{
  ℕ, zero, suc, ◌+◌, ◌-◌, ◌≤◌, ◌<◌, ◌≡◌, refl, sym, ap, ◌∙◌, Bool, true, false, ◌==◌, min, length,
  Bytes, ret, at, sub, word, take, drop, ◌++◌, ◌∷◌, [], ◌⊎◌, inl, inr, ◌↔◌, arith, Bool-cases,
  subst, get_or-take, length-take,
}
use rust_pcaprune.Parse.Frame.{tcp, udp, L4Proto, L4Info, ParsedFrame}
use rust_pcaprune.Parse.L4.{L4Header-L4Bounds}
use rust_pcaprune.Parse.Ipv6.{ext_len_at, Chain-bounds}
use rust_pcaprune.Parse.Located.{Located, in_v4, in_v6}
use rust_pcaprune.Policy.{keep, truncate, decide_action}
use rust_pcaprune.Policy.Rules.{Elem, tls_port, tls_shape, ssh_past_banner}
use rust_pcaprune.Policy.Total.{
  Ipv4Fragment, Excess, Encrypted, body_at, claimed_at, decide_action_iff,
}

-- From header type `next` at `off` a fragment header comes before `start`.
pub data FragmentHeader (frame : Bytes) (start : ℕ) : ℕ → ℕ → Type 0 where
  found : {next off : ℕ} → next ≡ 44 → off < start → FragmentHeader frame start next off
  later :
      {next off : ℕ}
      → off < start
      → FragmentHeader frame start (at frame off) (off + ext_len_at frame next off)
      → FragmentHeader frame start next off

-- A fragment of IPv4 or of IPv6.
abbrev pub Fragmented : ParsedFrame → L4Info → Type 0
Fragmented p i =
    Ipv4Fragment p
    ⊎ ((p.is_ipv6 ≡ true)
        × FragmentHeader p.frame i.header_start (at p.frame (p.ip_start + 6)) (p.ip_start + 40))

-- Where the IP header ends the datagram.
abbrev pub datagram_end : Bytes → ℕ → Bool → ℕ
datagram_end frame ip true = ip + 40 + word frame (ip + 4)
datagram_end frame ip false = ip + word frame (ip + 2)

-- The payload of the datagram, as far as it was captured.
abbrev pub datagram_body : ParsedFrame → L4Info → Bytes
datagram_body p i =
    sub p.frame i.payload_start (min (length p.frame) (datagram_end p.frame p.ip_start p.is_ipv6))

-- The document shortens the packet.
abbrev pub Documented : ParsedFrame → L4Info → Type 0
Documented p i = (¬ Fragmented p i) × Excess i (datagram_body p i)

-- IPv6 with extension headers.
abbrev pub Extended : ParsedFrame → L4Info → Type 0
Extended p i = (p.is_ipv6 ≡ true) × (p.ip_start + 40 < i.header_start)

-- How the payload that the code takes lies to that of the document.
record Overread (p : ParsedFrame) (i : L4Info) : Type 0 where
  behind : (i.header_start ≡ p.ip_start + p.ip_header_len) ⊎ Extended p i
  six : p.is_ipv6 ≡ true → p.ip_header_len ≡ 40
  starts : p.ip_start + p.ip_header_len ≤ i.header_start
  ends :
      i.payload_start + claimed_at p.frame p.ip_start p.ip_header_len p.is_ipv6 i
      ≡ datagram_end p.frame p.ip_start p.is_ipv6
        + (i.header_start - (p.ip_start + p.ip_header_len))

Located-Overread : {frame : Bytes} (p : ParsedFrame) (i : L4Info) → Located frame p i → Overread p i
Located-Overread p i (in_v4 v e) =
    subst (λ x. Overread x i) (sym e)
      (let b = L4Header-L4Bounds v.transport in
        record {
          behind = inl b.starts;
          six = λ q. cc;
          starts = omega (arith, b.starts);
          ends = omega (arith, b.starts, b.payload, b.fits, b.at_least);
        })
Located-Overread p i (in_v6 {ip = ip} {start = start} v e) =
    subst (λ x. Overread x i) (sym e)
      (let b = L4Header-L4Bounds v.transport in
        let c = Chain-bounds v.chain in
        record {
          behind = elim (Bool-cases (start == ip + 40)) [
            | inl q ↦ inl (ground (arith, b.starts))
            | inr q ↦ inr (refl, ground (arith, b.starts, c.0))
          ];
          six = λ q. refl;
          starts = omega (arith, b.starts, c.0);
          ends = omega (arith, b.starts, b.payload, b.fits, b.at_least, c.0);
        })

take-take : (n m : ℕ) (xs : Bytes) → n ≤ m → take n (take m xs) ≡ take n xs
take-take zero m xs h = refl
take-take (suc n) zero xs h = absurd (omega arith)
take-take (suc n) (suc m) [] h = refl
take-take (suc n) (suc m) (x ∷ xs) h = ap (λ (ys : Bytes). x ∷ ys) (take-take n m xs (omega arith))

-- The payload of the document is the beginning of what the code takes.
body-take :
    {frame : Bytes} (p : ParsedFrame) (i : L4Info)
    → Located frame p i
    → (n : ℕ) × (datagram_body p i ≡ take n (body_at p i))
body-take p i l =
    let o = Located-Overread p i l in
    let n = min (length p.frame) (datagram_end p.frame p.ip_start p.is_ipv6) - i.payload_start in
    (n, sym (take-take n _ (drop i.payload_start p.frame) (omega (arith, o.ends))))

body_same :
    {frame : Bytes} (p : ParsedFrame) (i : L4Info)
    → Located frame p i
    → i.header_start ≡ p.ip_start + p.ip_header_len
    → body_at p i ≡ datagram_body p i
body_same p i l e =
    let o = Located-Overread p i l in
    ap (λ n. sub p.frame i.payload_start (min (length p.frame) n)) (omega (arith, o.ends))

ssh_prefix :
    (n : ℕ) (body : Bytes) (a b c d : ℕ)
    → 4 ≤ n
    → (rest : Bytes) × (body ≡ (a ∷ b ∷ c ∷ d ∷ []) ++ rest)
    → (rest : Bytes) × (take n body ≡ (a ∷ b ∷ c ∷ d ∷ []) ++ rest)
ssh_prefix (suc (suc (suc (suc n)))) body a b c d h (rest, e) =
    (take n rest, ap (take (suc (suc (suc (suc n))))) e)
ssh_prefix zero body a b c d h x = absurd (omega arith)
ssh_prefix (suc zero) body a b c d h x = absurd (omega arith)
ssh_prefix (suc (suc zero)) body a b c d h x = absurd (omega arith)
ssh_prefix (suc (suc (suc zero))) body a b c d h x = absurd (omega arith)

-- What the document calls encrypted stays so with more bytes behind it.
more-Encrypted :
    (k : L4Proto) (sport dport n : ℕ) (body : Bytes)
    → 24 < n
    → Encrypted k sport dport (take n body)
    → Encrypted k sport dport body
more-Encrypted udp sport dport n body h e = e
more-Encrypted tcp sport dport n body h (tls_port a b) = tls_port a (
    subst (λ x. ¬ Elem x (0x14 ∷ 0x15 ∷ 0x16 ∷ 0x18 ∷ [])) (get_or-take n body 0 0 (omega arith)) b)
more-Encrypted tcp sport dport n body h (tls_shape a b) =
    tls_shape a (sym (get_or-take n body 0 0 (omega arith)) ∙ b)
more-Encrypted tcp sport dport n body h (ssh_past_banner a b) =
    ssh_past_banner a (λ x. b (ssh_prefix n body _ _ _ _ (omega arith) x))

more-Excess : (i : L4Info) (n : ℕ) (body : Bytes) → Excess i (take n body) → Excess i body
more-Excess i n body (h, e) =
    let l = length-take n body in
    (omega arith, more-Encrypted i.proto i.sport i.dport n body (omega arith) e)

not_behind :
    {frame : Bytes} {start next off : ℕ} → start ≤ off → ¬ FragmentHeader frame start next off
not_behind h (found a b) = omega arith
not_behind h (later b f) = omega arith

-- Where the document shortens a packet, so does `decide_action`.
Documented-truncate :
    {frame : Bytes} (p : ParsedFrame) (i : L4Info)
    → Located frame p i
    → Documented p i
    → decide_action p ≡ ret truncate
Documented-truncate p i l (whole, excess) =
    let (n, e) = body-take p i l in
    (decide_action_iff p i l).0.1
      (λ f. whole (inl f), more-Excess i n (body_at p i) (subst (Excess i) e excess))

-- With no extension headers, so does the document where `decide_action` does.
truncate-Documented :
    {frame : Bytes} (p : ParsedFrame) (i : L4Info)
    → Located frame p i
    → i.header_start ≡ p.ip_start + p.ip_header_len
    → decide_action p ≡ ret truncate
    → Documented p i
truncate-Documented p i l e q =
    let (whole, excess) = (decide_action_iff p i l).0.0 q in
    let o = Located-Overread p i l in
    (
      λ f. elim f [
        | inl four ↦ whole four
        | inr (six, header) ↦ not_behind (omega (arith, o.six six)) header
      ],
      subst (Excess i) (body_same p i l e) excess,
    )

-- On a frame whose transport header was located, `decide_action` does not panic. It shortens what
-- the document shortens, and keeps all else, but for IPv6 packets with extension headers: of these
-- it may shorten some that the document keeps, since it takes no IPv6 packet for a fragment and
-- takes the extension headers' length for payload too. It answers `Truncate` exactly when the
-- packet is no IPv4 fragment and the payload so taken is longer than 24 bytes and encrypted.
pub decide_action-Documented :
    {frame : Bytes} (p : ParsedFrame) (i : L4Info)
    → Located frame p i
    → ((decide_action p ≡ ret truncate) ↔ ((¬ Ipv4Fragment p) × Excess i (body_at p i)))
      × (((decide_action p ≡ ret truncate) × Documented p i)
          ⊎ ((decide_action p ≡ ret keep) × ¬ Documented p i)
          ⊎ ((decide_action p ≡ ret truncate) × Extended p i))
decide_action-Documented p i l = (
  (decide_action_iff p i l).0,
  elim (decide_action_iff p i l).1 [
    | inr k ↦ inr (inl (k, λ d. differ k (Documented-truncate p i l d)))
    | inl t ↦ elim (Located-Overread p i l).behind [
      | inl e ↦ inl (t, truncate-Documented p i l e t)
      | inr x ↦ inr (inr (t, x))
    ]
  ],
)
  where
    differ : decide_action p ≡ ret keep → decide_action p ≡ ret truncate → ⊥
    differ k t = cc
