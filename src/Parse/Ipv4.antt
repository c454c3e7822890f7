-- ===== src/Parse/Ipv4.antt =====
-- parse_ipv4 and the fast path of src/parse.rs over total reads.
use rust_pcaprune.Prelude.{
  ℕ, ◌+◌, ◌-◌, ◌*◌, ◌/◌, ◌%◌, ◌^◌, ◌≡◌, Bool, false, ◌||◌, not, Option, none, some, ltb, ◌==◌,
  if◌then◌else◌, length, Bytes, ret, at, word, arith, byte-at, be16-word,
}
use rust_pcaprune.Parse.Frame.{tcp, udp, L4Info, ParsedFrame, parsed}
use rust_pcaprune.Parse.{l4_info, no_l4, plain_l4, try_parse_ipv4_plain, parse_ipv4}
use rust_pcaprune.Parse.L4.{l4_at, select_l4-l4_at}

abbrev pub header_len_at : Bytes → ℕ → ℕ
header_len_at frame ip = at frame ip % 2 ^ 4 * 4

abbrev pub with_l4 : Bytes → ℕ → ℕ → Bool → Option L4Info → ParsedFrame
with_l4 frame ip_start ip_header_len is_ipv6 l4 = record {
  frame = frame;
  ip_start = ip_start;
  ip_header_len = ip_header_len;
  is_ipv6 = is_ipv6;
  l4 = l4;
}

unfoldable pub ipv4_at : Bytes → ℕ → ParsedFrame
ipv4_at frame ip =
    if ltb (length frame) (ip + 20)
    then no_l4 frame ip 0 false
    else if not (at frame ip / 2 ^ 4 == 4)
    then no_l4 frame ip 0 false
    else if ltb (length frame) (ip + header_len_at frame ip)
    then no_l4 frame ip (header_len_at frame ip) false
    else with_l4 frame ip (header_len_at frame ip) false (
        l4_at frame (at frame (ip + 9)) (ip + header_len_at frame ip)
          (word frame (ip + 2) - header_len_at frame ip))

pub parse_ipv4-ipv4_at :
    (frame : Bytes) (ip : ℕ) → parse_ipv4 frame ip ≡ ret (parsed (ipv4_at frame ip))
unfolding parse_ipv4 ipv4_at
parse_ipv4-ipv4_at frame ip = ground (
  arith,
  byte-at frame ip,
  byte-at frame (ip + 9),
  be16-word frame (ip + 2),
  select_l4-l4_at frame (at frame (ip + 9)) (ip + at frame ip % 2 ^ 4 * 4)
      (word frame (ip + 2) - at frame ip % 2 ^ 4 * 4),
)

-- The fast path over total reads.
unfoldable pub plain_l4_at : Bytes → ℕ → ℕ → Option (Option L4Info)
plain_l4_at frame proto len =
    if proto == 6
    then (if ltb len 20 || ltb (length frame) 54
        then none
        else if not (at frame 46 / 2 ^ 4 == 5)
        then none
        else some (some (l4_info tcp (word frame 34) (word frame 36) 34 20)))
    else if proto == 17
    then (if ltb len 8 || ltb (length frame) 42
        then none
        else some (some (l4_info udp (word frame 34) (word frame 36) 34 8)))
    else some none

unfoldable pub plain_at : Bytes → Option ParsedFrame
plain_at frame =
    if ltb (length frame) 54
    then none
    else if not (at frame 12 == 0x08) || not (at frame 13 == 0x00)
    then none
    else if not (at frame 14 == 0x45)
    then none
    else if not (word frame 20 % 2 ^ 14 == 0)
    then none
    else if ltb (length frame) (14 + word frame 16)
    then none
    else elim (plain_l4_at frame (at frame 23) (word frame 16 - 20)) [
      | none ↦ none
      | some l4 ↦ some (with_l4 frame 14 20 false l4)
    ]

plain_l4-plain_l4_at :
    (frame : Bytes) (proto len : ℕ)
    → plain_l4 frame proto 34 len ≡ ret (plain_l4_at frame proto len)
unfolding plain_l4 plain_l4_at
plain_l4-plain_l4_at frame proto len =
    ground (arith, byte-at frame 46, be16-word frame 34, be16-word frame 36)

pub plain-plain_at : (frame : Bytes) → try_parse_ipv4_plain frame ≡ ret (plain_at frame)
unfolding try_parse_ipv4_plain plain_at
plain-plain_at frame = ground (
  arith,
  byte-at frame 12,
  byte-at frame 13,
  byte-at frame 14,
  be16-word frame 20,
  be16-word frame 16,
  byte-at frame 23,
  plain_l4-plain_l4_at frame (at frame 23) (word frame 16 - 20),
)
