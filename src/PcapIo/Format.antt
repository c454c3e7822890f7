-- ===== src/PcapIo/Format.antt =====
-- The capture format that src/pcap_io.rs reads: a global header, and packets with their headers.
use rust_pcaprune.Prelude.{
  ℕ, ◌%◌, ◌^◌, ◌<◌, ◌≡◌, refl, ap, ◌∙◌, Bool, true, false, List, [], ◌∷◌, ◌++◌, length, Bytes, ret,
  arith, length-append, take-append, drop-append, append_assoc,
}
use rust_pcaprune.PcapIo.Base.{
  ok, Io, ◌>>=◌, ◌>>◌, Ending, end_of_file, Reader, got, eof, read_exact, read_or_fail,
}
use rust_pcaprune.PcapIo.Header.{
  Endian, magic_le, read_u32, to_bytes, write_u32, check_magic_bytes, detect_endian, read_header,
  read_global_header,
}
use rust_pcaprune.PcapIo.Slim.{rewrite_header}

-- A captured packet: its time, the length that it had on the wire, and the bytes captured.
pub record CapturePacket : Type 0 where
  pub ts_sec : ℕ
  pub ts_usec : ℕ
  pub orig_len : ℕ
  pub frame : Bytes

-- The numbers fit the fields of the record header.
pub record Fits (p : CapturePacket) : Type 0 where
  pub sec : p.ts_sec < 2 ^ 32
  pub usec : p.ts_usec < 2 ^ 32
  pub orig : p.orig_len < 2 ^ 32
  pub incl : length p.frame < 2 ^ 32

abbrev pub header_with : Endian → CapturePacket → ℕ → Bytes
header_with e p incl_len =
    to_bytes e p.ts_sec ++ (to_bytes e p.ts_usec ++ (to_bytes e incl_len ++ to_bytes e p.orig_len))

abbrev pub record_header : Endian → CapturePacket → Bytes
record_header e p = header_with e p (length p.frame)

abbrev pub encode : Endian → CapturePacket → Bytes
encode e p = record_header e p ++ p.frame

abbrev pub encode_all : Endian → List CapturePacket → Bytes
encode_all e [] = []
encode_all e (p ∷ ps) = encode e p ++ encode_all e ps

-- The global header: the magic number in the file's byte order, and 20 bytes more.
pub record GlobalHeader (e : Endian) (ghdr : Bytes) : Type 0 where
  pub more : Bytes
  pub is_magic : ghdr ≡ to_bytes e magic_le ++ more
  pub size : length more ≡ 20

abbrev order : Bool → Endian
order le = record { le = le }

length-header_order :
    (le : Bool) (p : CapturePacket) (n : ℕ) → length (header_with (order le) p n) ≡ 16
unfolding to_bytes
length-header_order true p n = refl
length-header_order false p n = refl

pub length-record_header :
    (e : Endian) (p : CapturePacket) (n : ℕ) → length (header_with e p n) ≡ 16
length-record_header e p n = length-header_order e.le p n

-- The four numbers of a record header.
abbrev Fields : Endian → CapturePacket → ℕ → Bytes → Type 0
Fields e p n h =
    (read_u32 e h 0 ≡ p.ts_sec)
    × (read_u32 e h 4 ≡ p.ts_usec)
    × (read_u32 e h 8 ≡ n)
    × (read_u32 e h 12 ≡ p.orig_len)

Fields-order :
    (le : Bool) (p : CapturePacket) (n : ℕ)
    → Fits p
    → n < 2 ^ 32
    → Fields (order le) p n (header_with (order le) p n)
unfolding to_bytes read_u32
Fields-order true p n f h =
    (omega (arith, f.sec), omega (arith, f.usec), omega (arith, h), omega (arith, f.orig))
Fields-order false p n f h =
    (omega (arith, f.sec), omega (arith, f.usec), omega (arith, h), omega (arith, f.orig))

pub Fields-record_header :
    (e : Endian) (p : CapturePacket) (n : ℕ)
    → Fits p
    → n < 2 ^ 32
    → Fields e p n (header_with e p n)
Fields-record_header e p n f h = Fields-order e.le p n f h

-- The four writes of `rewrite_header`, of any four numbers.
rebuilt : Endian → Bytes → ℕ → ℕ → ℕ → ℕ → Bytes
rebuilt e h a b c d = write_u32 e (write_u32 e (write_u32 e (write_u32 e h 0 a) 4 b) 8 c) 12 d

rebuilt-order :
    (le : Bool) (p : CapturePacket) (n m : ℕ)
    → rebuilt (order le) (header_with (order le) p n) p.ts_sec p.ts_usec m p.orig_len
      ≡ header_with (order le) p m
unfolding to_bytes write_u32 rebuilt
rebuilt-order true p n m = refl
rebuilt-order false p n m = refl

-- Rewriting a header changes the captured length and nothing else.
pub rewrite_header-record_header :
    (e : Endian) (p : CapturePacket) (n m : ℕ)
    → Fits p
    → n < 2 ^ 32
    → m < 2 ^ 32
    → rewrite_header e (header_with e p n) m ≡ header_with e p m
unfolding rewrite_header rebuilt
rewrite_header-record_header e p n m f k h =
    let q = Fields-record_header e p n f k in
    let small : m % 2 ^ 32 ≡ m = omega arith in rw (q.0, q.1, q.3, small) (rebuilt-order e.le p n m)

pub read_exact-append :
    (b rest : Bytes) (d : Ending) (n : ℕ)
    → length b ≡ n
    → read_exact (record { rest = b ++ rest; ending = d }) n
      ≡ got b (record { rest = rest; ending = d })
unfolding read_exact
read_exact-append b rest d n h =
    ground (arith, take-append b rest, drop-append b rest, length-append b rest)

pub read_exact-short :
    (tail : Bytes) (n : ℕ)
    → length tail < n
    → read_exact (record { rest = tail; ending = end_of_file }) n ≡ eof
unfolding read_exact
read_exact-short tail n h = ground arith

pub read_header-append :
    (b rest : Bytes) (d : Ending) (n : ℕ)
    → length b ≡ n
    → read_header (record { rest = b ++ rest; ending = d }) n
      ≡ ret (ok (b, record { rest = rest; ending = d }))
unfolding read_header
read_header-append b rest d n h = rw (read_exact-append b rest d n h, read_header) refl

-- What `read_global_header` makes of the header that it has read.
abbrev pub examined : Bytes × Reader → Io (Endian × Bytes × Reader)
examined (ghdr, r) = check_magic_bytes ghdr >> (detect_endian ghdr >>= λ e. ret (ok (e, ghdr, r)))

examined-order :
    (le : Bool) (more : Bytes) (r : Reader)
    → examined (to_bytes (order le) magic_le ++ more, r)
      ≡ ret (ok (order le, to_bytes (order le) magic_le ++ more, r))
unfolding check_magic_bytes detect_endian to_bytes
examined-order true more r = refl
examined-order false more r = refl

length-magic :
    (le : Bool) (more : Bytes)
    → length more ≡ 20
    → length (to_bytes (order le) magic_le ++ more) ≡ 24
unfolding to_bytes
length-magic true more h = omega arith
length-magic false more h = omega arith

global_order :
    (le : Bool) (more rest : Bytes) (d : Ending)
    → length more ≡ 20
    → read_global_header
        (record { rest = (to_bytes (order le) magic_le ++ more) ++ rest; ending = d })
      ≡ ret
          (ok (order le, to_bytes (order le) magic_le ++ more, record { rest = rest; ending = d }))
unfolding read_global_header
global_order le more rest d h =
    ap (λ (m : Io (Bytes × Reader)). m >>= examined)
      (read_header-append (to_bytes (order le) magic_le ++ more) rest d 24 (length-magic le more h))
    ∙ examined-order le more (record { rest = rest; ending = d })

pub read_global_header-append :
    (e : Endian) (ghdr rest : Bytes) (d : Ending)
    → GlobalHeader e ghdr
    → read_global_header (record { rest = ghdr ++ rest; ending = d })
      ≡ ret (ok (e, ghdr, record { rest = rest; ending = d }))
read_global_header-append e ghdr rest d g = rw g.is_magic (global_order e.le g.more rest d g.size)

pub read_or_fail-append :
    (b rest : Bytes) (d : Ending) (n : ℕ)
    → length b ≡ n
    → read_or_fail (record { rest = b ++ rest; ending = d }) n
      ≡ ret (ok (b, record { rest = rest; ending = d }))
unfolding read_or_fail
read_or_fail-append b rest d n h = rw (read_exact-append b rest d n h, read_or_fail) refl

-- The reader stands in front of packets, and then the file ends, inside a record header at most.
abbrev pub before : Endian → List CapturePacket → Bytes → Reader
before e ps tail = record { rest = encode_all e ps ++ tail; ending = end_of_file }

-- Behind the record header of the front packet.
abbrev pub at_frame : Endian → CapturePacket → List CapturePacket → Bytes → Reader
at_frame e p ps tail = record { rest = p.frame ++ (encode_all e ps ++ tail); ending = end_of_file }

pub read_exact-before :
    (e : Endian) (p : CapturePacket) (ps : List CapturePacket) (tail : Bytes)
    → read_exact (before e (p ∷ ps) tail) 16 ≡ got (record_header e p) (at_frame e p ps tail)
read_exact-before e p ps tail =
    ap (λ (x : Bytes). read_exact (record { rest = x; ending = end_of_file }) 16)
      (append_assoc (encode e p) (encode_all e ps) tail
        ∙ append_assoc (record_header e p) p.frame (encode_all e ps ++ tail))
    ∙ read_exact-append (record_header e p) (p.frame ++ (encode_all e ps ++ tail)) end_of_file 16
        (length-record_header e p (length p.frame))
