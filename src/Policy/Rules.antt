-- ===== src/Policy/Rules.antt =====
-- The decisions of src/policy.rs against the decision tree of pcap-slim-algorithm.md.
use rust_pcaprune.Prelude.{
  ℕ, ◌≤◌, ◌<◌, ◌≡◌, ◌≢◌, refl, ap, Bool, true, false, ◌||◌, ◌&&◌, not, List, [], ◌∷◌, ◌++◌, ltb,
  ◌==◌, if◌then◌else◌, length, Bytes, Run, ret, at, ◌⊎◌, inl, inr, ◌↔◌, arith, byte-at, Bool-cases,
  ltb→lt, ltb-false, ==→eq, eq→==,
}
use rust_pcaprune.Policy.{
  Action, keep, truncate, contains, port_in_set, starts_with, tls_ports, quic_ports, ipsec_ports,
  ssh_ports, tls_handshake_bytes, ssh_banner, decide_tcp, decide_udp,
}

-- The value is one of the list.
abbrev pub Elem : ℕ → List ℕ → Type 0
Elem x [] = ⊥
Elem x (y ∷ ys) = (x ≡ y) ⊎ Elem x ys

abbrev pub EitherPort : List ℕ → ℕ → ℕ → Type 0
EitherPort ports sport dport = Elem sport ports ⊎ Elem dport ports

-- Case 2a, TCP: i, ii and iii of the three decision cases.
pub data TcpEncrypted (sport dport : ℕ) (body : Bytes) : Type 0 where
  tls_port :
      EitherPort (443 ∷ 853 ∷ 465 ∷ 993 ∷ 995 ∷ 8443 ∷ 5061 ∷ []) sport dport
      → ¬ Elem (at body 0) (0x14 ∷ 0x15 ∷ 0x16 ∷ 0x18 ∷ [])
      → TcpEncrypted sport dport body
  tls_shape :
      ¬ EitherPort (443 ∷ 853 ∷ 465 ∷ 993 ∷ 995 ∷ 8443 ∷ 5061 ∷ []) sport dport
      → at body 0 ≡ 0x17
      → TcpEncrypted sport dport body
  ssh_past_banner :
      EitherPort (22 ∷ []) sport dport
      → ¬ ((rest : Bytes) × (body ≡ (b'S' ∷ b'S' ∷ b'H' ∷ b'-' ∷ []) ++ rest))
      → TcpEncrypted sport dport body

-- Case 2b, UDP: QUIC or IPsec.
abbrev pub UdpEncrypted : ℕ → ℕ → Type 0
UdpEncrypted sport dport =
    EitherPort (443 ∷ []) sport dport ⊎ EitherPort (500 ∷ 4500 ∷ []) sport dport

contains-Elem : (xs : List ℕ) (x : ℕ) → contains xs x ≡ true → Elem x xs
unfolding contains
contains-Elem [] x e = cc
contains-Elem (y ∷ ys) x e = elim (Bool-cases (y == x)) [
  | inl q ↦ inl (ground arith)
  | inr q ↦ inr (contains-Elem ys x (rw q at e))
]

Elem-contains : (xs : List ℕ) (x : ℕ) → Elem x xs → contains xs x ≡ true
unfolding contains
Elem-contains [] x e = absurd e
Elem-contains (y ∷ ys) x (inl q) = ground arith
Elem-contains (y ∷ ys) x (inr q) = elim (Bool-cases (y == x)) [
  | inl r ↦ rw r
  | inr r ↦ rw r (Elem-contains ys x q)
]

starts_with-prefix : (xs ps : Bytes) → starts_with xs ps ≡ true → (rest : Bytes) × (xs ≡ ps ++ rest)
unfolding starts_with
starts_with-prefix xs [] e = (xs, refl)
starts_with-prefix [] (p ∷ ps) e = cc
starts_with-prefix (x ∷ xs) (p ∷ ps) e =
    let r = starts_with-prefix xs ps (ground arith) in (r.0, ground (arith, r.1))

starts_with_append : (ps rest : Bytes) → starts_with (ps ++ rest) ps ≡ true
unfolding starts_with
starts_with_append [] rest = refl
starts_with_append (p ∷ ps) rest = ground (arith, starts_with_append ps rest)

-- A test and its meaning, in the form that splits on the test.
Decides : Bool → Type 0 → Type 0
Decides b P = ((b ≡ true) × P) ⊎ ((b ≡ false) × (¬ P))

either :
    (ports : List ℕ) (sport dport : ℕ)
    → Decides (port_in_set sport ports || port_in_set dport ports) (EitherPort ports sport dport)
unfolding Decides port_in_set
either ports sport dport = elim (Bool-cases (contains ports sport)) [
  | inl a ↦ inl (rw a, inl (contains-Elem ports sport a))
  | inr a ↦ elim (Bool-cases (contains ports dport)) [
    | inl b ↦ inl (rw (a, b), inr (contains-Elem ports dport b))
    | inr b ↦ inr (
      rw (a, b),
      λ e. elim e [
        | inl p ↦ cc (Elem-contains ports sport p)
        | inr p ↦ cc (Elem-contains ports dport p)
      ],
    )
  ]
]

handshake : (b0 : ℕ) → Decides (contains tls_handshake_bytes b0) (Elem b0 tls_handshake_bytes)
unfolding Decides
handshake b0 = elim (Bool-cases (contains tls_handshake_bytes b0)) [
  | inl a ↦ inl (a, contains-Elem tls_handshake_bytes b0 a)
  | inr a ↦ inr (a, λ p. cc (Elem-contains tls_handshake_bytes b0 p))
]

banner :
    (body : Bytes)
    → Decides (starts_with body ssh_banner) ((rest : Bytes) × (body ≡ ssh_banner ++ rest))
unfolding Decides
banner body = elim (Bool-cases (starts_with body ssh_banner)) [
  | inl a ↦ inl (a, starts_with-prefix body ssh_banner a)
  | inr a ↦ inr (
    a,
    λ p. cc (ap (λ (x : Bytes). starts_with x ssh_banner) p.1, starts_with_append ssh_banner p.0),
  )
]

-- On a payload that is not short, `decide_tcp` is a ladder of four tests.
decide_tcp_ladder :
    (sport dport : ℕ) (body : Bytes)
    → 24 < length body
    → decide_tcp sport dport body ≡ (
        if (port_in_set sport tls_ports || port_in_set dport tls_ports)
          && not (contains tls_handshake_bytes (at body 0))
        then ret truncate
        else if not (port_in_set sport tls_ports || port_in_set dport tls_ports)
            && at body 0 == 0x17
        then ret truncate
        else if (port_in_set sport ssh_ports || port_in_set dport ssh_ports)
            && not (starts_with body ssh_banner)
        then ret truncate
        else ret keep)
unfolding decide_tcp
decide_tcp_ladder sport dport body h = ground (arith, byte-at body 0)

decide_tcp-short :
    (sport dport : ℕ) (body : Bytes) → length body ≤ 24 → decide_tcp sport dport body ≡ ret keep
unfolding decide_tcp
decide_tcp-short sport dport body h = ground arith

-- What the decision must be: `truncate` with a reason, or `keep` with none.
abbrev Agrees : Run Action → Type 0 → Type 0
Agrees r P = ((r ≡ ret truncate) × P) ⊎ ((r ≡ ret keep) × (¬ P))

TcpEncrypted-handshake :
    {sport dport : ℕ} {body : Bytes}
    → TcpEncrypted sport dport body
    → EitherPort tls_ports sport dport
    → Elem (at body 0) tls_handshake_bytes
    → EitherPort ssh_ports sport dport × (¬ ((rest : Bytes) × (body ≡ ssh_banner ++ rest)))
TcpEncrypted-handshake (tls_port a b) p q = absurd (b q)
TcpEncrypted-handshake (tls_shape a b) p q = absurd (a p)
TcpEncrypted-handshake (ssh_past_banner a b) p q = (a, b)

TcpEncrypted-other :
    {sport dport : ℕ} {body : Bytes}
    → TcpEncrypted sport dport body
    → ¬ EitherPort tls_ports sport dport
    → at body 0 ≢ 0x17
    → EitherPort ssh_ports sport dport × (¬ ((rest : Bytes) × (body ≡ ssh_banner ++ rest)))
TcpEncrypted-other (tls_port a b) p q = absurd (p a)
TcpEncrypted-other (tls_shape a b) p q = absurd (q b)
TcpEncrypted-other (ssh_past_banner a b) p q = (a, b)

-- The last test, where neither TLS case applies.
ssh_case :
    (sport dport : ℕ) (body : Bytes)
    → (TcpEncrypted sport dport body
        → EitherPort ssh_ports sport dport × (¬ ((rest : Bytes) × (body ≡ ssh_banner ++ rest))))
    → Agrees
        (if (port_in_set sport ssh_ports || port_in_set dport ssh_ports)
            && not (starts_with body ssh_banner)
          then ret truncate
          else ret keep)
        (TcpEncrypted sport dport body)
unfolding Decides
ssh_case sport dport body only = elim (either ssh_ports sport dport) [
  | inr (a, p) ↦ rw a (inr (refl, λ t. p (only t).0))
  | inl (a, p) ↦ elim (banner body) [
    | inl (b, q) ↦ rw (a, b) (inr (refl, λ t. (only t).1 q))
    | inr (b, q) ↦ rw (a, b) (inl (refl, ssh_past_banner p q))
  ]
]

decide_tcp_agrees :
    (sport dport : ℕ) (body : Bytes)
    → 24 < length body
    → Agrees (decide_tcp sport dport body) (TcpEncrypted sport dport body)
unfolding Decides
decide_tcp_agrees sport dport body h =
    rw (decide_tcp_ladder sport dport body h) (elim (either tls_ports sport dport) [
      | inl (a, p) ↦ elim (handshake (at body 0)) [
        | inl (b, q) ↦ rw (a, b) (ssh_case sport dport body (λ t. TcpEncrypted-handshake t p q))
        | inr (b, q) ↦ rw (a, b) (inl (refl, tls_port p q))
      ]
      | inr (a, p) ↦ elim (Bool-cases (at body 0 == 0x17)) [
        | inl b ↦ rw (a, b) (inl (refl, tls_shape p (==→eq (at body 0) 0x17 b)))
        | inr b ↦
            rw (a, b)
              (ssh_case sport dport body
                (λ t. TcpEncrypted-other t p (λ e. cc (eq→== (at body 0) 0x17 e))))
      ]
    ])

-- `decide_tcp` never panics, and it answers `Truncate` exactly on the payloads longer than 24
-- bytes to which one of the document's three cases applies, and `Keep` on all others.
pub decide_tcp_iff :
    (sport dport : ℕ) (body : Bytes)
    → ((decide_tcp sport dport body ≡ ret truncate)
        ↔ ((24 < length body) × TcpEncrypted sport dport body))
      × ((decide_tcp sport dport body ≡ ret truncate) ⊎ (decide_tcp sport dport body ≡ ret keep))
decide_tcp_iff sport dport body = elim (Bool-cases (ltb 24 (length body))) [
  | inr short ↦
      let k = decide_tcp-short sport dport body (ltb-false 24 (length body) short) in
      (((λ e. cc), (λ p. absurd (omega (arith, p.0, ltb-false 24 (length body) short)))), inr k)
  | inl long ↦ elim (decide_tcp_agrees sport dport body (ltb→lt 24 (length body) long)) [
    | inl (e, t) ↦ (((λ _. (ltb→lt 24 (length body) long, t)), (λ _. e)), inl e)
    | inr (e, n) ↦ (((λ f. cc), (λ p. absurd (n p.1))), inr e)
  ]
]

decide_udp-ladder :
    (sport dport : ℕ) (body : Bytes)
    → 24 < length body
    → decide_udp sport dport body ≡ (
        if (port_in_set sport quic_ports || port_in_set dport quic_ports)
          || (port_in_set sport ipsec_ports || port_in_set dport ipsec_ports)
        then ret truncate
        else ret keep)
unfolding decide_udp
decide_udp-ladder sport dport body h = ground arith

decide_udp-short :
    (sport dport : ℕ) (body : Bytes) → length body ≤ 24 → decide_udp sport dport body ≡ ret keep
unfolding decide_udp
decide_udp-short sport dport body h = ground arith

decide_udp_agrees :
    (sport dport : ℕ) (body : Bytes)
    → 24 < length body
    → Agrees (decide_udp sport dport body) (UdpEncrypted sport dport)
unfolding Decides
decide_udp_agrees sport dport body h =
    rw (decide_udp-ladder sport dport body h) (elim (either quic_ports sport dport) [
      | inl (a, p) ↦ rw a (inl (refl, inl p))
      | inr (a, p) ↦ elim (either ipsec_ports sport dport) [
        | inl (b, q) ↦ rw (a, b) (inl (refl, inr q))
        | inr (b, q) ↦ rw (a, b) (inr (refl, λ e. elim e [ inl x ↦ p x | inr x ↦ q x ]))
      ]
    ])

-- `decide_udp` never panics, and it answers `Truncate` exactly on the payloads longer than 24
-- bytes with a QUIC or an IPsec port, and `Keep` on all others.
pub decide_udp_iff :
    (sport dport : ℕ) (body : Bytes)
    → ((decide_udp sport dport body ≡ ret truncate)
        ↔ ((24 < length body) × UdpEncrypted sport dport))
      × ((decide_udp sport dport body ≡ ret truncate) ⊎ (decide_udp sport dport body ≡ ret keep))
decide_udp_iff sport dport body = elim (Bool-cases (ltb 24 (length body))) [
  | inr short ↦
      let k = decide_udp-short sport dport body (ltb-false 24 (length body) short) in
      (((λ e. cc), (λ p. absurd (omega (arith, p.0, ltb-false 24 (length body) short)))), inr k)
  | inl long ↦ elim (decide_udp_agrees sport dport body (ltb→lt 24 (length body) long)) [
    | inl (e, t) ↦ (((λ _. (ltb→lt 24 (length body) long, t)), (λ _. e)), inl e)
    | inr (e, n) ↦ (((λ f. cc), (λ p. absurd (n p.1))), inr e)
  ]
]
