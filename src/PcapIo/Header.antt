-- ===== src/PcapIo/Header.antt =====
-- The global header of src/pcap_io.rs: magic numbers and byte order.
use rust_pcaprune.Prelude.{
  ℕ, ◌+◌, ◌*◌, ◌/◌, ◌%◌, ◌^◌, Bool, true, false, ◌&&◌, [], ◌∷◌, ◌==◌, if◌then◌else◌, Bytes, ret, at,
  set,
}
use rust_pcaprune.PcapIo.Base.{
  io_fault, too_short_for_header, unknown_magic, pcapng, ok, err, Io, ◌>>=◌, ◌>>◌, Reader, got, eof,
  fault, read_exact,
}

pub record Endian : Type 0 where
  pub le : Bool

abbrev pub magic_le : ℕ
magic_le = 0xa1b2_c3d4

abbrev pub magic_be : ℕ
magic_be = 0xd4c3_b2a1

-- `u32::from_le_bytes` and `u32::from_be_bytes` of the four bytes at `off`.
abbrev pub from_le : Bytes → ℕ → ℕ
from_le b off =
    at b off + at b (off + 1) * 2 ^ 8 + at b (off + 2) * 2 ^ 16 + at b (off + 3) * 2 ^ 24

abbrev pub from_be : Bytes → ℕ → ℕ
from_be b off =
    at b off * 2 ^ 24 + at b (off + 1) * 2 ^ 16 + at b (off + 2) * 2 ^ 8 + at b (off + 3)

-- `Endian::read_u32` of the four bytes at `off` of a buffer that is long enough.
unfoldable pub read_u32 : Endian → Bytes → ℕ → ℕ
read_u32 e b off = if e.le then from_le b off else from_be b off

-- The four bytes of a number, in the byte order of the file.
unfoldable pub to_bytes : Endian → ℕ → Bytes
to_bytes e v =
    if e.le
    then (v % 2 ^ 8) ∷ (v / 2 ^ 8 % 2 ^ 8) ∷ (v / 2 ^ 16 % 2 ^ 8) ∷ (v / 2 ^ 24 % 2 ^ 8) ∷ []
    else (v / 2 ^ 24 % 2 ^ 8) ∷ (v / 2 ^ 16 % 2 ^ 8) ∷ (v / 2 ^ 8 % 2 ^ 8) ∷ (v % 2 ^ 8) ∷ []

-- `Endian::write_u32` into `b[off..off + 4]`.
unfoldable pub write_u32 : Endian → Bytes → ℕ → ℕ → Bytes
unfolding to_bytes
write_u32 e b off v =
    let w = to_bytes e v in
    set (set (set (set b off (at w 0)) (off + 1) (at w 1)) (off + 2) (at w 2)) (off + 3) (at w 3)

-- `*magic == PCAPNG_MAGIC`, on the first four bytes.
abbrev pub is_pcapng : Bytes → Bool
is_pcapng b = at b 0 == 0x0a && at b 1 == 0x0d && at b 2 == 0x0d && at b 3 == 0x0a

unfoldable pub check_magic_bytes : Bytes → Io (Unit {0})
check_magic_bytes magic = if is_pcapng magic then ret (err pcapng) else ret (ok tt)

unfoldable pub detect_endian : Bytes → Io Endian
detect_endian ghdr =
    let magic = from_le ghdr 0 in
    let swapped = from_be ghdr 0 in
    if magic == magic_le
    then ret (ok (record { le = true }))
    else if magic == magic_be
    then ret (ok (record { le = false }))
    else if swapped == magic_le
    then ret (ok (record { le = true }))
    else if swapped == magic_be
    then ret (ok (record { le = false }))
    else ret (err unknown_magic)

-- `read_exact` of a header, whose end of file is an error of its own.
unfoldable pub read_header : Reader → ℕ → Io (Bytes × Reader)
read_header r n = elim (read_exact r n) [
  | got b r' ↦ ret (ok (b, r'))
  | eof ↦ ret (err too_short_for_header)
  | fault ↦ ret (err io_fault)
]

unfoldable pub validate_pcap_magic : Reader → Io (Unit {0})
validate_pcap_magic r = do (hdr, r') ← read_header r 4; check_magic_bytes hdr

-- The byte order, the 24 bytes, and the reader behind them.
unfoldable pub read_global_header : Reader → Io (Endian × Bytes × Reader)
read_global_header r = do
  (ghdr, r') ← read_header r 24
  check_magic_bytes ghdr
  e ← detect_endian ghdr
  ret (ok (e, ghdr, r'))
