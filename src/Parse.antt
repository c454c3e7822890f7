-- ===== src/Parse.antt =====
-- src/parse.rs: the frame parser. Every `frame[i]` is a read that panics out of range; the loops
-- over VLAN tags and IPv6 extension headers run on fuel.
pub mod Frame
pub mod PseudoDst
pub mod L4
pub mod L2
pub mod Ipv4
pub mod Ipv6
pub mod Total
pub mod Located
pub mod Options
pub mod Destination
use rust_pcaprune.Prelude.{
  ℕ, zero, suc, ◌+◌, ◌-◌, ◌*◌, ◌/◌, ◌%◌, ◌^◌, Bool, true, false, ◌||◌, ◌&&◌, not, List, [], ◌∷◌,
  Option, none, some, ltb, leb, ◌==◌, if◌then◌else◌, min, length, Bytes, Run, ret, out_of_fuel,
  ◌>>=◌, byte, be16, slice,
}
use rust_pcaprune.Parse.Frame.{
  L4Proto, tcp, udp, L4Info, ParsedFrame, Parsed, parsed, too_short, payload_len, payload,
}

abbrev pub ethertype_vlan : ℕ
ethertype_vlan = 0x8100

abbrev pub ethertype_ipv6 : ℕ
ethertype_ipv6 = 0x86DD

abbrev pub ethertype_ipv4 : ℕ
ethertype_ipv4 = 0x0800

abbrev pub ip_proto_tcp : ℕ
ip_proto_tcp = 6

abbrev pub ip_proto_udp : ℕ
ip_proto_udp = 17

-- The loop of `l2_ethertype_and_l3_start`, from offset `off`.
unfoldable pub vlan_walk : ℕ → Bytes → ℕ → Run (Option (ℕ × ℕ))
vlan_walk zero frame off = out_of_fuel
vlan_walk (suc fuel) frame off =
    let next = vlan_walk fuel frame (off + 4) in
    if ltb (length frame) (off + 2) then ret none else do
      ethertype ← be16 frame off
      if not (ethertype == ethertype_vlan)
          then ret (some (ethertype, off + 2))
          else if ltb (length frame) (off + 4)
          then ret none
          else next

-- Each round moves four bytes on: the length of the frame is fuel enough.
unfoldable pub l2_ethertype_and_l3_start : Bytes → Run (Option (ℕ × ℕ))
l2_ethertype_and_l3_start frame =
    if ltb (length frame) 14 then ret none else vlan_walk (length frame) frame 12

-- The `Some(L4Info { … })` of the four L4 branches.
abbrev pub l4_info : L4Proto → ℕ → ℕ → ℕ → ℕ → L4Info
l4_info proto sport dport start len = record {
  proto = proto;
  sport = sport;
  dport = dport;
  header_start = start;
  header_len = len;
  payload_start = start + len;
}

unfoldable pub parse_tcp : Bytes → ℕ → ℕ → Run (Option L4Info)
parse_tcp frame l4_start l4_len =
    if ltb (length frame) (l4_start + 20) || ltb l4_len 20 then ret none else do
      b ← byte frame (l4_start + 12)
      let data_offset = b / 2 ^ 4 * 4
      if ltb data_offset 20 || ltb (length frame) (l4_start + data_offset)
          then ret none
          else if ltb l4_len data_offset
          then ret none
          else do
            sport ← be16 frame l4_start
            dport ← be16 frame (l4_start + 2)
            ret (some (l4_info tcp sport dport l4_start data_offset))

unfoldable pub parse_udp : Bytes → ℕ → ℕ → Run (Option L4Info)
parse_udp frame l4_start l4_len =
    if ltb (length frame) (l4_start + 8) || ltb l4_len 8 then ret none else do
      sport ← be16 frame l4_start
      dport ← be16 frame (l4_start + 2)
      ret (some (l4_info udp sport dport l4_start 8))

-- A result with no transport header.
abbrev pub no_l4 : Bytes → ℕ → ℕ → Bool → ParsedFrame
no_l4 frame ip_start ip_header_len is_ipv6 = record {
  frame = frame;
  ip_start = ip_start;
  ip_header_len = ip_header_len;
  is_ipv6 = is_ipv6;
  l4 = none;
}

-- `match proto { IP_PROTO_TCP => …, IP_PROTO_UDP => …, _ => None }` of the plain path, at its
-- fixed `l4_start`.
unfoldable pub plain_l4 : Bytes → ℕ → ℕ → ℕ → Run (Option (Option L4Info))
plain_l4 frame proto l4_start l4_in_ip =
    if proto == ip_proto_tcp
    then (if ltb l4_in_ip 20 || ltb (length frame) (l4_start + 20) then ret none else do
      b ← byte frame (l4_start + 12)
      if not (b / 2 ^ 4 == 5) then ret none else do
        sport ← be16 frame l4_start
        dport ← be16 frame (l4_start + 2)
        ret (some (some (l4_info tcp sport dport l4_start 20))))
    else if proto == ip_proto_udp
    then (if ltb l4_in_ip 8 || ltb (length frame) (l4_start + 8) then ret none else do
      sport ← be16 frame l4_start
      dport ← be16 frame (l4_start + 2)
      ret (some (some (l4_info udp sport dport l4_start 8))))
    else ret (some none)

-- The fast path.
unfoldable pub try_parse_ipv4_plain : Bytes → Run (Option ParsedFrame)
try_parse_ipv4_plain frame = if ltb (length frame) 54 then ret none else do
  b12 ← byte frame 12
  b13 ← byte frame 13
  if not (b12 == 0x08) || not (b13 == 0x00) then ret none else do
    b ← byte frame 14
    if not (b == 0x45) then ret none else do
      flags ← be16 frame (14 + 6)
      if not (flags % 2 ^ 14 == 0) then ret none else do
        ip_total ← be16 frame (14 + 2)
        if ltb (length frame) (14 + ip_total) then ret none else do
          proto ← byte frame (14 + 9)
          found ← plain_l4 frame proto (14 + 20) (ip_total - 20)
          elim found [
            | none ↦ ret none
            | some l4 ↦ ret (
                some (record {
                  frame = frame;
                  ip_start = 14;
                  ip_header_len = 20;
                  is_ipv6 = false;
                  l4 = l4;
                }))
          ]

-- `match proto { … }` of `parse_ipv4`.
unfoldable pub select_l4 : Bytes → ℕ → ℕ → ℕ → Run (Option L4Info)
select_l4 frame proto l4_start l4_in_ip =
    if proto == ip_proto_tcp
    then parse_tcp frame l4_start l4_in_ip
    else if proto == ip_proto_udp
    then parse_udp frame l4_start l4_in_ip
    else ret none

unfoldable pub parse_ipv4 : Bytes → ℕ → Run Parsed
parse_ipv4 frame ip_start =
    if ltb (length frame) (ip_start + 20) then ret (parsed (no_l4 frame ip_start 0 false)) else do
      version_ihl ← byte frame ip_start
      if not (version_ihl / 2 ^ 4 == 4) then ret (parsed (no_l4 frame ip_start 0 false)) else do
        let ip_header_len = version_ihl % 2 ^ 4 * 4
        if ltb (length frame) (ip_start + ip_header_len)
            then ret (parsed (no_l4 frame ip_start ip_header_len false))
            else do
              proto ← byte frame (ip_start + 9)
              ip_total ← be16 frame (ip_start + 2)
              l4 ← select_l4 frame proto (ip_start + ip_header_len) (ip_total - ip_header_len)
              ret (
                  parsed (record {
                    frame = frame;
                    ip_start = ip_start;
                    ip_header_len = ip_header_len;
                    is_ipv6 = false;
                    l4 = l4;
                  }))

-- `IP6_HOP_BY_HOP | IP6_ROUTING | IP6_FRAGMENT | IP6_DEST_OPTS`
abbrev pub is_ext_header : ℕ → Bool
is_ext_header next = next == 0 || next == 43 || next == 44 || next == 60

abbrev pub ip6_ah : ℕ
ip6_ah = 51

-- The loop of `parse_ipv6`. `IP6_NO_NEXT` and `IP6_ESP` end as every other value does.
unfoldable pub ext_walk : ℕ → Bytes → ℕ → ℕ → ℕ → Run (Option L4Info)
ext_walk zero frame payload_end next off = out_of_fuel
ext_walk (suc fuel) frame payload_end next off =
    let continue = λ (ext_len : ℕ).
      byte frame off >>= λ next'. ext_walk fuel frame payload_end next' (off + ext_len) in
    if leb payload_end off
    then ret none
    else if next == ip_proto_tcp
    then parse_tcp frame off (payload_end - off)
    else if next == ip_proto_udp
    then parse_udp frame off (payload_end - off)
    else if is_ext_header next
    then (if ltb payload_end (off + 2) then ret none else do
      b ← byte frame (off + 1)
      let ext_len = (b + 1) * 8
      if ltb ext_len 8 || ltb payload_end (off + ext_len) then ret none else continue ext_len)
    else if next == ip6_ah
    then (if ltb payload_end (off + 2) then ret none else do
      payload_len ← byte frame (off + 1)
      let ext_len = (payload_len + 2) * 4
      if ltb payload_end (off + ext_len) then ret none else continue ext_len)
    else ret none

-- Each extension header takes eight bytes at least: the length of the frame is fuel enough.
unfoldable pub parse_ipv6 : Bytes → ℕ → Run Parsed
parse_ipv6 frame ip_start =
    if ltb (length frame) (ip_start + 40) then ret (parsed (no_l4 frame ip_start 40 true)) else do
      version ← byte frame ip_start
      if not (version / 2 ^ 4 == 6) then ret (parsed (no_l4 frame ip_start 40 true)) else do
        plen ← be16 frame (ip_start + 4)
        let payload_end = min (ip_start + 40 + plen) (length frame)
        next ← byte frame (ip_start + 6)
        l4 ← ext_walk (suc (length frame)) frame payload_end next (ip_start + 40)
        ret (
            parsed (record {
              frame = frame;
              ip_start = ip_start;
              ip_header_len = 40;
              is_ipv6 = true;
              l4 = l4;
            }))

-- What `parse_frame` does with the ethertype and the layer 3 offset.
unfoldable pub dispatch : Bytes → Option (ℕ × ℕ) → Run Parsed
dispatch frame none = ret (parsed (no_l4 frame 0 0 false))
dispatch frame (some (ethertype, l3_start)) =
    if ethertype == ethertype_ipv4
    then parse_ipv4 frame l3_start
    else if ethertype == ethertype_ipv6
    then parse_ipv6 frame l3_start
    else ret (parsed (no_l4 frame 0 0 false))

-- `parse_frame` behind the fast path.
unfoldable pub parse_general : Bytes → Run Parsed
parse_general frame = l2_ethertype_and_l3_start frame >>= dispatch frame

unfoldable pub parse_frame : Bytes → Run Parsed
parse_frame frame = if ltb (length frame) 14 then ret too_short else do
  plain ← try_parse_ipv4_plain frame
  elim plain [ some p ↦ ret (parsed p) | none ↦ parse_general frame ]
