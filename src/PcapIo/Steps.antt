-- ===== src/PcapIo/Steps.antt =====
-- What a read of src/pcap_io.rs that succeeded says of the reader in front of it and behind it.
use rust_pcaprune.Prelude.{
  ltb→lt, ◌<◌, ℕ, ◌+◌, ◌≡◌, ◌≢◌, refl, sym, ap, ◌∙◌, ltb, length, Bytes, ret, take, drop, ◌⊎◌, inl,
  inr, arith, Bool-cases, length-take, length-drop, ltb-false, subst, ap₂,
}
use rust_pcaprune.PcapIo.Base.{
  io_eof, io_fault, ok, ◌>>=◌, >>=-eq-ok, ok_injective, err_not_ok, too_short_for_header,
  short_read, Ending, end_of_file, device_error, Reader, got, eof, fault, read_exact, read_or_fail,
  Read,
}
use rust_pcaprune.PcapIo.Header.{
  Endian, read_header, read_global_header, check_magic_bytes, detect_endian,
}
use rust_pcaprune.PcapIo.Format.{examined}

short_read-got : (d : Ending) (b : Bytes) (r : Reader) → short_read d ≢ got b r
short_read-got end_of_file b r = λ e. cc
short_read-got device_error b r = λ e. cc

got-bytes : (b b' : Bytes) (r r' : Reader) → got b r ≡ got b' r' → b ≡ b'
got-bytes b b' r r' e = cc

got-reader : (b b' : Bytes) (r r' : Reader) → got b r ≡ got b' r' → r ≡ r'
got-reader b b' r r' e = cc

pub read_exact-length :
    (r r' : Reader) (n : ℕ) (b : Bytes) → read_exact r n ≡ got b r' → length b ≡ n
unfolding read_exact
read_exact-length r r' n b e = elim (Bool-cases (ltb (length r.rest) n)) [
  | inl short ↦ absurd (short_read-got r.ending b r' (rw short at e))
  | inr long ↦
      ap (λ (x : Bytes). length x)
        (sym (got-bytes (take n r.rest) b (record r { rest = drop n r.rest }) r' (rw long at e)))
      ∙ omega (arith, length-take n r.rest, ltb-false (length r.rest) n long)
]

pub Read-cases :
    (m : Read) → ((b : Bytes) × (r : Reader) × (m ≡ got b r)) ⊎ ((m ≡ eof) ⊎ (m ≡ fault))
Read-cases (got b r) = inl (b, r, refl)
Read-cases eof = inr (inl refl)
Read-cases fault = inr (inr refl)

-- A read takes its bytes from the reader.
pub read_exact-rest :
    (r r' : Reader) (n : ℕ) (b : Bytes)
    → read_exact r n ≡ got b r'
    → length r'.rest + n ≡ length r.rest
unfolding read_exact
read_exact-rest r r' n b e = elim (Bool-cases (ltb (length r.rest) n)) [
  | inl short ↦ absurd (short_read-got r.ending b r' (rw short at e))
  | inr long ↦
      ap (λ (x : Reader). length x.rest + n)
        (sym (got-reader (take n r.rest) b (record r { rest = drop n r.rest }) r' (rw long at e)))
      ∙ omega (arith, length-drop n r.rest, ltb-false (length r.rest) n long)
]

pub read_or_fail-rest :
    (r : Reader) (n : ℕ) (x : Bytes × Reader)
    → read_or_fail r n ≡ ret (ok x)
    → length x.1.rest + n ≡ length r.rest
unfolding read_or_fail
read_or_fail-rest r n x e = elim (Read-cases (read_exact r n)) [
  | inl (b, r', q) ↦
      subst (λ (y : Bytes × Reader). length y.1.rest + n ≡ length r.rest)
        (ok_injective (b, r') x (rw (q, read_or_fail) at e))
        (omega (arith, read_exact-rest r r' n b q))
  | inr (inl q) ↦ absurd (err_not_ok io_eof x (rw (q, read_or_fail) at e))
  | inr (inr q) ↦ absurd (err_not_ok io_fault x (rw (q, read_or_fail) at e))
]

-- A header that was read has its length, and is gone from the reader.
read_header-got :
    (r r' : Reader) (n : ℕ) (b : Bytes)
    → read_header r n ≡ ret (ok (b, r'))
    → read_exact r n ≡ got b r'
unfolding read_header
read_header-got r r' n b e = elim (Read-cases (read_exact r n)) [
  | inl (b', r'', q) ↦
      q
      ∙ ap (λ (y : Bytes × Reader). got y.0 y.1)
          (ok_injective (b', r'') (b, r') (rw (q, read_header) at e))
  | inr (inl q) ↦ absurd (err_not_ok too_short_for_header (b, r') (rw (q, read_header) at e))
  | inr (inr q) ↦ absurd (err_not_ok io_fault (b, r') (rw (q, read_header) at e))
]

abbrev the_header : Endian → Bytes → Reader → Endian × Bytes × Reader
the_header e hdr r = (e, hdr, r)

examined-same :
    (h : Bytes × Reader) (y : Endian × Bytes × Reader)
    → examined h ≡ ret (ok y)
    → (h.0 ≡ y.1) × (h.1 ≡ y.2)
examined-same (hdr, r) y h =
    let (u, q, s) =
      >>=-eq-ok (check_magic_bytes hdr)
        (λ (u : Unit {0}). detect_endian hdr >>= λ e. ret (ok (the_header e hdr r))) h in
    let (e, q', s') = >>=-eq-ok (detect_endian hdr) (λ e. ret (ok (the_header e hdr r))) s in
    (
      ap (λ (z : Endian × Bytes × Reader). z.1) (ok_injective (the_header e hdr r) y s'),
      ap (λ (z : Endian × Bytes × Reader). z.2) (ok_injective (the_header e hdr r) y s'),
    )

pub global_header-got :
    (src : Reader) (y : Endian × Bytes × Reader)
    → read_global_header src ≡ ret (ok y)
    → read_exact src 24 ≡ got y.1 y.2
unfolding read_global_header
global_header-got src y h =
    let ((b, r), q, s) = >>=-eq-ok (read_header src 24) examined h in
    read_header-got src r 24 b q ∙ ap₂ got (examined-same (b, r) y s).0 (examined-same (b, r) y s).1

pub eof-short : (r : Reader) (n : ℕ) → read_exact r n ≡ eof → length r.rest < n
unfolding read_exact
eof-short r n e = elim (Bool-cases (ltb (length r.rest) n)) [
  | inl short ↦ ltb→lt (length r.rest) n short
  | inr long ↦ cc (rw long at e)
]
