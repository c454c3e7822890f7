-- ===== src/Checksum.antt =====
-- src/checksum.rs: the RFC 1071 Internet checksum and the transport checksums over a
-- pseudo-header. `u32` sums wrap (release build), a loop `while sum >> 16 != 0` runs on fuel.
pub mod Fold
pub mod Words
pub mod Verify
pub mod Receiver
use rust_pcaprune.Prelude.{
  ℕ, zero, suc, ◌+◌, ◌-◌, ◌*◌, ◌/◌, ◌%◌, ◌^◌, List, [], ◌∷◌, ◌++◌, Bool, true, false, ◌==◌,
  if◌then◌else◌, length, Bytes,
}

-- `u32` addition.
abbrev pub add_u32 : ℕ → ℕ → ℕ
add_u32 a b = (a + b) % 2 ^ 32

-- `while sum >> 16 != 0 { sum = (sum & 0xffff) + (sum >> 16); }`
unfoldable pub fold_loop : ℕ → ℕ → ℕ
fold_loop zero sum = sum
fold_loop (suc fuel) sum = elim (sum / 2 ^ 16 == 0) [
  | true ↦ sum
  | false ↦ fold_loop fuel (add_u32 (sum % 2 ^ 16) (sum / 2 ^ 16))
]

-- Two rounds and the last test are enough for every `u32`.
unfoldable pub fold : ℕ → ℕ
unfolding fold_loop
fold sum = fold_loop 3 sum

-- The loop over `data[i], data[i + 1]`, and the odd byte at the end.
unfoldable pub sum_words : ℕ → Bytes → ℕ
sum_words sum [] = sum
sum_words sum (x ∷ []) = add_u32 sum (x * 2 ^ 8 % 2 ^ 32)
sum_words sum (x ∷ y ∷ rest) = sum_words (add_u32 sum (x * 256 + y)) rest

unfoldable pub checksum_sum : Bytes → ℕ
checksum_sum buf = fold (sum_words 0 buf)

-- `!sum as u16`
unfoldable pub finish : ℕ → ℕ
finish sum = (2 ^ 32 - 1 - fold sum) % 2 ^ 16

unfoldable pub internet_checksum : Bytes → ℕ
internet_checksum buf = finish (checksum_sum buf)

unfoldable pub ipv4_header_checksum : Bytes → ℕ
ipv4_header_checksum header = internet_checksum header

-- The 12 bytes `ph`: addresses, a zero, the protocol, the length.
abbrev pub pseudo_ipv4 : Bytes → Bytes → ℕ → ℕ → Bytes
pseudo_ipv4 src dst proto len =
    src ++ (dst ++ (0 ∷ proto ∷ (len / 2 ^ 8 % 2 ^ 8) ∷ (len % 2 ^ 8) ∷ []))

unfoldable pub checksum_sum_pseudo_ipv4 : Bytes → Bytes → ℕ → Bytes → ℕ
checksum_sum_pseudo_ipv4 src dst proto segment =
    let len = length segment % 2 ^ 16 in
    fold (add_u32 (checksum_sum (pseudo_ipv4 src dst proto len)) (checksum_sum segment))

-- `(n as u32).to_be_bytes()`
abbrev pub to_be_bytes : ℕ → Bytes
to_be_bytes n = (n / 2 ^ 24 % 2 ^ 8) ∷ (n / 2 ^ 16 % 2 ^ 8) ∷ (n / 2 ^ 8 % 2 ^ 8) ∷ (n % 2 ^ 8) ∷ []

unfoldable pub checksum_sum_pseudo_ipv6 : Bytes → Bytes → ℕ → Bytes → ℕ
checksum_sum_pseudo_ipv6 src dst proto segment =
    let sum₀ = add_u32 (checksum_sum src) (checksum_sum dst) in
    let sum₁ = add_u32 sum₀ (checksum_sum (to_be_bytes (length segment % 2 ^ 32))) in
    let sum₂ = add_u32 sum₁ proto in fold (add_u32 sum₂ (checksum_sum segment))

unfoldable pub transport_checksum_ipv4 : Bytes → Bytes → ℕ → Bytes → ℕ
transport_checksum_ipv4 src dst proto segment =
    finish (checksum_sum_pseudo_ipv4 src dst proto segment)

unfoldable pub transport_checksum_ipv6 : Bytes → Bytes → ℕ → Bytes → ℕ
transport_checksum_ipv6 src dst proto segment =
    finish (checksum_sum_pseudo_ipv6 src dst proto segment)

unfoldable pub udp_checksum_wire : ℕ → ℕ
udp_checksum_wire sum = if sum == 0 then 0xffff else sum
