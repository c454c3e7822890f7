-- ===== src/Testutil.antt =====
-- src/testutil.rs: the frames that the tests of the repository build.
pub mod Fixtures
use rust_pcaprune.Prelude.{ℕ, ◌+◌, ◌%◌, ◌^◌, ◌++◌, length, Bytes, put16, set, take, replicate}

-- `v[from..].copy_from_slice(payload)` at the end of the buffer.
abbrev copy_tail : Bytes → ℕ → Bytes → Bytes
copy_tail v from payload = take from v ++ payload

-- The lines that both builders share: ethertype, version, total length, protocol, ports.
abbrev ipv4_tcp_fields : Bytes → ℕ → ℕ → ℕ → Bytes
ipv4_tcp_fields v₀ ip_len sport dport =
    let v₁ = set v₀ 12 0x08 in
    let v₂ = set v₁ 13 0x00 in
    let v₃ = set v₂ 14 0x45 in
    let v₄ = put16 v₃ 16 ip_len in
    let v₅ = set v₄ 23 6 in let v₆ = put16 v₅ 34 sport in put16 v₆ 36 dport

unfoldable pub eth_ipv4_tcp_frame : ℕ → ℕ → Bytes → Bytes
eth_ipv4_tcp_frame dport sport payload =
    let ip_len = (20 + 20 + length payload) % 2 ^ 16 in
    let v = ipv4_tcp_fields (replicate (14 + ip_len) 0) ip_len sport dport in
    copy_tail (set v (34 + 12) 0x50) (34 + 20) payload

unfoldable pub eth_ipv4_tcp_frame_with_tcp_opts : ℕ → ℕ → Bytes → Bytes
eth_ipv4_tcp_frame_with_tcp_opts dport sport payload =
    let ip_len = (20 + 32 + length payload) % 2 ^ 16 in
    let v = ipv4_tcp_fields (replicate (14 + ip_len) 0) ip_len sport dport in
    copy_tail (set v (34 + 12) 0x80) (34 + 32) payload
