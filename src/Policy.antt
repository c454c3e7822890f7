-- ===== src/Policy.antt =====
-- src/policy.rs: the decision for one parsed frame.
pub mod Rules
pub mod Total
pub mod Document
use rust_pcaprune.Prelude.{
  ◌>>=◌, ℕ, ◌+◌, ◌-◌, ◌/◌, ◌%◌, ◌^◌, ◌<◌, Bool, true, false, ◌||◌, ◌&&◌, not, List, [], ◌∷◌, none,
  some, leb, ◌==◌, if◌then◌else◌, length, Bytes, Run, ret, byte, be16, slice, at,
}
use rust_pcaprune.Parse.Frame.{L4Proto, tcp, udp, L4Info, ParsedFrame, payload}

pub data Action : Type 0 where
  keep truncate : Action

abbrev pub truncate_payload_bytes : ℕ
truncate_payload_bytes = 24

abbrev pub tls_handshake_bytes : List ℕ
tls_handshake_bytes = 0x14 ∷ 0x15 ∷ 0x16 ∷ 0x18 ∷ []

abbrev pub tls_application_data : ℕ
tls_application_data = 0x17

abbrev pub tls_ports : List ℕ
tls_ports = 443 ∷ 853 ∷ 465 ∷ 993 ∷ 995 ∷ 8443 ∷ 5061 ∷ []

abbrev pub quic_ports : List ℕ
quic_ports = 443 ∷ []

abbrev pub ipsec_ports : List ℕ
ipsec_ports = 500 ∷ 4500 ∷ []

abbrev pub ssh_ports : List ℕ
ssh_ports = 22 ∷ []

-- `slice::contains`
unfoldable pub contains : List ℕ → ℕ → Bool
contains [] x = false
contains (y ∷ ys) x = y == x || contains ys x

unfoldable pub port_in_set : ℕ → List ℕ → Bool
unfolding contains
port_in_set port ports = contains ports port

-- `slice::starts_with`
unfoldable pub starts_with : Bytes → Bytes → Bool
starts_with xs [] = true
starts_with [] (p ∷ ps) = false
starts_with (x ∷ xs) (p ∷ ps) = x == p && starts_with xs ps

-- `b"SSH-"`
abbrev pub ssh_banner : Bytes
ssh_banner = b'S' ∷ b'S' ∷ b'H' ∷ b'-' ∷ []

-- `payload.is_empty() || payload.len() <= TRUNCATE_PAYLOAD_BYTES`
abbrev pub is_short : Bytes → Bool
is_short body = length body == 0 || leb (length body) truncate_payload_bytes

unfoldable pub decide_tcp : ℕ → ℕ → Bytes → Run Action
decide_tcp sport dport body = if is_short body then ret keep else do
  b0 ← byte body 0
  let is_tls_port = port_in_set sport tls_ports || port_in_set dport tls_ports
  let is_handshake = contains tls_handshake_bytes b0
  if is_tls_port && not is_handshake
      then ret truncate
      else if not is_tls_port && b0 == tls_application_data
      then ret truncate
      else if (port_in_set sport ssh_ports || port_in_set dport ssh_ports)
          && not (starts_with body ssh_banner)
      then ret truncate
      else ret keep

unfoldable pub decide_udp : ℕ → ℕ → Bytes → Run Action
decide_udp sport dport body =
    if is_short body
    then ret keep
    else if port_in_set sport quic_ports
        || port_in_set dport quic_ports
        || port_in_set sport ipsec_ports
        || port_in_set dport ipsec_ports
    then ret truncate
    else ret keep

-- `match l4.proto` of `decide_action`.
unfoldable pub decide_proto : L4Proto → ℕ → ℕ → Bytes → Run Action
decide_proto tcp sport dport body = decide_tcp sport dport body
decide_proto udp sport dport body = decide_udp sport dport body

unfoldable pub decide_l4 : ParsedFrame → L4Info → Run Action
decide_l4 p l4 = do body ← payload p; decide_proto l4.proto l4.sport l4.dport body

-- `flags_frag & 0x3fff != 0`, for IPv4 only; it is read before the transport header is looked at.
unfoldable pub is_fragment : ParsedFrame → Run Bool
is_fragment p =
    if p.is_ipv6
    then ret false
    else do flags_frag ← be16 p.frame (p.ip_start + 6); ret (not (flags_frag % 2 ^ 14 == 0))

unfoldable pub decide_action : ParsedFrame → Run Action
decide_action p = do
  fragment ← is_fragment p
  if fragment then ret keep else elim p.l4 [ none ↦ ret keep | some l4 ↦ decide_l4 p l4 ]
