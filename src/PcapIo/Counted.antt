-- ===== src/PcapIo/Counted.antt =====
-- count_packets_with_options of src/pcap_io.rs on a capture.
use rust_pcaprune.Prelude.{
  ℕ, zero, suc, ◌+◌, ◌-◌, ◌≤◌, ◌<◌, ◌≡◌, refl, sym, ap, ◌∙◌, List, [], ◌∷◌, ◌++◌, ltb, min, length,
  Bytes, ret, take, drop, inl, inr, arith, Bool-cases, length-take, length-drop, ltb→lt, lt→ltb,
  ltb-false, le→ltb_false, length-append, take-append-drop, length-zero, append_assoc,
}
use rust_pcaprune.PcapIo.Base.{
  ok, Ending, end_of_file, Reader, got, eof, read_exact, read_or_fail, Limits, account_io,
  flush_limits, maybe_cpu_tick,
}
use rust_pcaprune.PcapIo.Header.{Endian, read_u32}
use rust_pcaprune.PcapIo.Format.{
  CapturePacket, record_header, encode, encode_all, GlobalHeader, length-record_header,
  Fields-record_header, read_exact-short, read_global_header-append, read_or_fail-append, before,
  at_frame, read_exact-before,
}
use rust_pcaprune.PcapIo.Refine.{capture, file}
use rust_pcaprune.PcapIo.Packets.{AllFit}
use rust_pcaprune.PcapIo.Count.{
  skip_buf_cap, skip_loop, skip_packet_body, Counting, count_record, count_loop,
  count_packets_with_options,
}

skip_chunk :
    (fuel : ℕ) (r r' : Reader) (b : Bytes) (remaining : ℕ)
    → 0 < remaining
    → read_or_fail r (min remaining skip_buf_cap) ≡ ret (ok (b, r'))
    → skip_loop (suc fuel) r remaining ≡ skip_loop fuel r' (remaining - min remaining skip_buf_cap)
unfolding skip_loop
skip_chunk fuel r r' b remaining h q = rw (lt→ltb 0 remaining h, skip_loop) (rw q refl)

skip_none :
    (fuel : ℕ) (r : Reader) (remaining : ℕ)
    → remaining ≡ 0
    → skip_loop (suc fuel) r remaining ≡ ret (ok r)
unfolding skip_loop
skip_none fuel r remaining h = rw (le→ltb_false 0 remaining (omega (arith, h)), skip_loop) refl

front : (b rest : Bytes) (n : ℕ) → (b ++ rest) ≡ take n b ++ (drop n b ++ rest)
front b rest n =
    ap (λ (x : Bytes). x ++ rest) (sym (take-append-drop n b))
    ∙ append_assoc (take n b) (drop n b) rest

-- Skipping reads the packet's bytes and none else, and the fuel is enough.
skip_loop-append :
    (fuel remaining : ℕ) (b rest : Bytes) (d : Ending)
    → length b ≡ remaining
    → remaining < fuel
    → skip_loop fuel (record { rest = b ++ rest; ending = d }) remaining
      ≡ ret (ok (record { rest = rest; ending = d }))
skip_loop-append zero remaining b rest d e h = absurd (omega arith)
skip_loop-append (suc fuel) remaining b rest d e h = elim (Bool-cases (ltb 0 remaining)) [
  | inr empty ↦
      skip_none fuel (record { rest = b ++ rest; ending = d }) remaining
        (omega (arith, ltb-false 0 remaining empty))
      ∙ ap (λ (x : Bytes). ret (ok (record { rest = x; ending = d })))
          (ap (λ (x : Bytes). x ++ rest)
            (length-zero b (omega (arith, ltb-false 0 remaining empty))))
  | inl more ↦
      let n = min remaining skip_buf_cap in
      skip_chunk fuel (record { rest = b ++ rest; ending = d })
        (record { rest = drop n b ++ rest; ending = d }) (take n b) remaining
        (ltb→lt 0 remaining more)
        (ap (λ (x : Bytes). read_or_fail (record { rest = x; ending = d }) n) (front b rest n)
          ∙ read_or_fail-append (take n b) (drop n b ++ rest) d n (omega (arith, length-take n b)))
      ∙ skip_loop-append fuel (remaining - n) (drop n b) rest d (omega (arith, length-drop n b))
          (omega (arith, ltb→lt 0 remaining more))
]

abbrev tallied : Endian → Counting → Bytes → Reader → Counting
tallied e s rec_hdr r' = record {
  reader = r';
  count = s.count + 1;
  limits =
      maybe_cpu_tick (account_io (account_io s.limits 16) (read_u32 e rec_hdr 8)) (s.count + 1);
}

count_record-tallied :
    (e : Endian) (s : Counting) (rec_hdr : Bytes) (r r' : Reader)
    → skip_packet_body r (read_u32 e rec_hdr 8) ≡ ret (ok r')
    → count_record e s rec_hdr r ≡ ret (ok (tallied e s rec_hdr r'))
unfolding count_record
count_record-tallied e s rec_hdr r r' h = rw h refl

count_loop-got :
    (fuel : ℕ) (e : Endian) (s s' : Counting) (rec_hdr : Bytes) (r : Reader)
    → read_exact s.reader 16 ≡ got rec_hdr r
    → count_record e s rec_hdr r ≡ ret (ok s')
    → count_loop (suc fuel) e s ≡ count_loop fuel e s'
unfolding count_loop
count_loop-got fuel e s s' rec_hdr r h q = rw (h, count_loop) (rw q refl)

count_loop-eof :
    (fuel : ℕ) (e : Endian) (s : Counting)
    → read_exact s.reader 16 ≡ eof
    → count_loop (suc fuel) e s ≡ ret (ok s)
unfolding count_loop
count_loop-eof fuel e s h = rw (h, count_loop) refl

count_loop-packets :
    (fuel : ℕ) (e : Endian) (s : Counting) (tail : Bytes) (ps : List CapturePacket)
    → length tail < 16
    → AllFit ps
    → length ps < fuel
    → s.reader ≡ before e ps tail
    → (s' : Counting) × (count_loop fuel e s ≡ ret (ok s')) × (s'.count ≡ s.count + length ps)
unfolding skip_packet_body
count_loop-packets zero e s tail ps h f less a = absurd (omega arith)
count_loop-packets (suc fuel) e s tail [] h f less a = (
  s,
  count_loop-eof fuel e s (ap (λ r. read_exact r 16) a ∙ read_exact-short tail 16 h),
  omega arith,
)
count_loop-packets (suc fuel) e s tail (p ∷ ps) h f less a =
    let s₁ = tallied e s (record_header e p) (before e ps tail) in
    let (s', l, c) = count_loop-packets fuel e s₁ tail ps h f.1 (omega arith) refl in
    (
      s',
      count_loop-got fuel e s s₁ (record_header e p) (at_frame e p ps tail)
            (ap (λ r. read_exact r 16) a ∙ read_exact-before e p ps tail)
            (count_record-tallied e s (record_header e p) (at_frame e p ps tail) (before e ps tail)
              (skip_loop-append (suc (read_u32 e (record_header e p) 8))
                (read_u32 e (record_header e p) 8) p.frame (encode_all e ps ++ tail) end_of_file
                (sym (Fields-record_header e p (length p.frame) f.0 f.0.incl).2) (omega arith)))
          ∙ l,
      omega (arith, c),
    )

pub length-encode_all :
    (e : Endian) (ps : List CapturePacket) → length ps ≤ length (encode_all e ps)
length-encode_all e [] = omega arith
length-encode_all e (p ∷ ps) = omega (
  arith,
  length-encode_all e ps,
  length-append (encode e p) (encode_all e ps),
  length-append (record_header e p) p.frame,
  length-record_header e p (length p.frame),
)

-- Counting a capture answers the number of its packets: it terminates, skips each packet's bytes
-- and none else, and passes over a record header that is cut off at the end of the file.
pub count_packets_counts :
    (e : Endian) (ghdr tail : Bytes) (ps : List CapturePacket) (limits : Limits)
    → GlobalHeader e ghdr
    → length tail < 16
    → AllFit ps
    → (l : Limits) × (count_packets_with_options (file (capture e ghdr ps tail)) limits
        ≡ ret (ok (length ps, l)))
unfolding count_packets_with_options
count_packets_counts e ghdr tail ps limits g h f =
    let s₀ : Counting = record {
      reader = before e ps tail;
      count = 0;
      limits = account_io limits 24;
    } in
    let (s, l, c) =
      count_loop-packets (suc (length (capture e ghdr ps tail))) e s₀ tail ps h f
        (omega (
          arith,
          length-encode_all e ps,
          length-append ghdr (encode_all e ps ++ tail),
          length-append (encode_all e ps) tail,
        ))
        refl in
    let n : s.count ≡ length ps = omega (arith, c) in
    (
      flush_limits s.limits,
      rw (read_global_header-append e ghdr (encode_all e ps ++ tail) end_of_file g, l) (rw n refl),
    )
