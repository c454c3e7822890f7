-- ===== src/Parse/Frame.antt =====
-- The parsed frame of src/parse.rs, with its payload.
use rust_pcaprune.Prelude.{
  ℕ, ◌+◌, ◌-◌, Bool, [], Option, none, some, leb, if◌then◌else◌, min, length, Bytes, Run, ret,
  ◌>>=◌, be16, slice,
}

pub data L4Proto : Type 0 where
  tcp udp : L4Proto

pub record L4Info : Type 0 where
  pub proto : L4Proto
  pub sport : ℕ
  pub dport : ℕ
  pub header_start : ℕ
  pub header_len : ℕ
  pub payload_start : ℕ

pub record ParsedFrame : Type 0 where
  pub frame : Bytes
  pub ip_start : ℕ
  pub ip_header_len : ℕ
  pub is_ipv6 : Bool
  pub l4 : Option L4Info

-- `Result<ParsedFrame, ParseError>`; the error is `TooShort`.
pub data Parsed : Type 0 where
  parsed : ParsedFrame → Parsed
  too_short : Parsed

-- `ParsedFrame::payload_len`
unfoldable pub payload_len : ParsedFrame → Run ℕ
payload_len p = elim p.l4 [
  | none ↦ ret 0
  | some l4 ↦ do
    ip_total ←
        if p.is_ipv6
        then (do plen ← be16 p.frame (p.ip_start + 4); ret (p.ip_header_len + plen))
        else be16 p.frame (p.ip_start + 2)
    ret (ip_total - p.ip_header_len - l4.header_len)
]

-- `ParsedFrame::payload`
unfoldable pub payload : ParsedFrame → Run Bytes
payload p = elim p.l4 [
  | none ↦ ret []
  | some l4 ↦ do
    n ← payload_len p
    let end = min (length p.frame) (l4.payload_start + n)
    if leb end l4.payload_start then ret [] else slice p.frame l4.payload_start end
]
