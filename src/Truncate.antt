-- ===== src/Truncate.antt =====
-- src/truncate.rs: truncation in place. A buffer that is written is passed on, so each update
-- returns the new buffer.
pub mod Updates
pub mod Result
pub mod Keeps
pub mod Segments
pub mod Checksums
pub mod Received
pub mod Reparse
use rust_pcaprune.Prelude.{
  ◌>>=◌, ℕ, zero, ◌+◌, ◌-◌, ◌/◌, ◌%◌, ◌^◌, Bool, true, false, not, none, some, ltb, leb,
  if◌then◌else◌, length, Bytes, Run, ret, panic, slice, store16, take,
}
use rust_pcaprune.Checksum.{
  internet_checksum, transport_checksum_ipv4, transport_checksum_ipv6, udp_checksum_wire,
}
use rust_pcaprune.Parse.Frame.{L4Proto, tcp, udp, L4Info, ParsedFrame, parsed, too_short, payload}
use rust_pcaprune.Parse.{parse_frame}
use rust_pcaprune.Parse.PseudoDst.{read_ip4, ipv4_pseudo_dst}
use rust_pcaprune.Policy.{truncate_payload_bytes}

-- `a - b` on `usize`, with the overflow check: `Result` shows that it never fails here.
unfoldable pub sub_usize : ℕ → ℕ → Run ℕ
sub_usize a b = if ltb a b then panic else ret (a - b)

unfoldable pub read_ip6 : Bytes → ℕ → Run Bytes
read_ip6 buf off = slice buf off (off + 16)

-- The two lines that zero a field are `store16 _ _ 0`.
unfoldable pub update_ipv4_header_checksum : Bytes → ℕ → ℕ → Run Bytes
update_ipv4_header_checksum buf ip_start ip_header_len = do
  zeroed ← store16 buf (ip_start + 10) 0
  header ← slice zeroed ip_start (ip_start + ip_header_len)
  store16 zeroed (ip_start + 10) (internet_checksum header)

-- `let sum = if is_ipv6 { … } else { … }` of both transport updates.
unfoldable pub transport_sum : Bytes → ℕ → ℕ → Bool → ℕ → Bytes → Run ℕ
transport_sum buf ip_start ip_header_len is_ipv6 proto segment =
    if is_ipv6
    then (do
      src ← read_ip6 buf (ip_start + 8)
      dst ← read_ip6 buf (ip_start + 24)
      ret (transport_checksum_ipv6 src dst proto segment))
    else do
      src ← read_ip4 buf (ip_start + 12)
      dst ← ipv4_pseudo_dst buf ip_start ip_header_len
      ret (transport_checksum_ipv4 src dst proto segment)

unfoldable pub update_tcp_checksum : Bytes → ℕ → ℕ → Bool → ℕ → Run Bytes
update_tcp_checksum buf ip_start ip_header_len is_ipv6 tcp_start = do
  zeroed ← store16 buf (tcp_start + 16) 0
  segment ← slice zeroed tcp_start (length zeroed)
  sum ← transport_sum zeroed ip_start ip_header_len is_ipv6 6 segment
  store16 zeroed (tcp_start + 16) sum

unfoldable pub update_udp_checksum : Bytes → ℕ → ℕ → Bool → ℕ → ℕ → Run Bytes
update_udp_checksum buf ip_start ip_header_len is_ipv6 udp_start udp_len = do
  zeroed ← store16 buf (udp_start + 6) 0
  segment ← slice zeroed udp_start (udp_start + udp_len)
  sum ← transport_sum zeroed ip_start ip_header_len is_ipv6 17 segment
  store16 zeroed (udp_start + 6) (udp_checksum_wire sum)

-- The length field of the IP header, and the header checksum of IPv4.
unfoldable pub update_ip_header : Bytes → ℕ → ℕ → Bool → Run Bytes
update_ip_header buf ip_start ip_header_len is_ipv6 = do
  new_ip_total ← sub_usize (length buf) ip_start
  if is_ipv6
      then (do
        plen ← sub_usize new_ip_total ip_header_len
        store16 buf (ip_start + 4) (plen % 2 ^ 16))
      else do
        sized ← store16 buf (ip_start + 2) new_ip_total
        update_ipv4_header_checksum sized ip_start ip_header_len

-- `match l4.proto` of `apply_truncate_fields`.
unfoldable pub update_transport : L4Proto → Bytes → ℕ → ℕ → Bool → L4Info → Run Bytes
update_transport tcp buf ip_start ip_header_len is_ipv6 l4 =
    update_tcp_checksum buf ip_start ip_header_len is_ipv6 l4.header_start
update_transport udp buf ip_start ip_header_len is_ipv6 l4 = do
  sized ← store16 buf (l4.header_start + 4) ((l4.header_len + truncate_payload_bytes) % 2 ^ 16)
  update_udp_checksum sized ip_start ip_header_len is_ipv6 l4.header_start
      (l4.header_len + truncate_payload_bytes)

-- The buffer after the call, and whether the frame was shortened.
unfoldable pub apply_truncate_fields : Bytes → ℕ → ℕ → Bool → L4Info → ℕ → Run (Bytes × Bool)
apply_truncate_fields buf ip_start ip_header_len is_ipv6 l4 payload_len =
    if leb payload_len truncate_payload_bytes
    then ret (buf, false)
    else let new_payload_end = l4.payload_start + truncate_payload_bytes in
      if leb (length buf) new_payload_end then ret (buf, false) else do
        let cut = take new_payload_end buf
        sized ← update_ip_header cut ip_start ip_header_len is_ipv6
        done ← update_transport l4.proto sized ip_start ip_header_len is_ipv6 l4
        ret (done, true)

unfoldable pub apply_truncate_on_parsed : Bytes → ParsedFrame → Run (Bytes × Bool)
apply_truncate_on_parsed buf p = elim p.l4 [
  | none ↦ ret (buf, false)
  | some l4 ↦ do
    body ← payload p
    apply_truncate_fields buf p.ip_start p.ip_header_len p.is_ipv6 l4 (length body)
]

unfoldable pub apply_truncate : Bytes → Run (Bytes × Bool)
apply_truncate buf = do
  r ← parse_frame buf
  elim r [ too_short ↦ ret (buf, false) | parsed p ↦ apply_truncate_on_parsed buf p ]

-- The legacy helper of the tests.
unfoldable pub process_frame : Bytes → Bool → Run (Bytes × Bool)
process_frame frame truncate =
    if not truncate
    then ret (frame, false)
    else do r ← apply_truncate frame; ret (if r.1 then (r.0, true) else (frame, false))
