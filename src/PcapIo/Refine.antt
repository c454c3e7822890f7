-- ===== src/PcapIo/Refine.antt =====
-- slim_pcap_with_options of src/pcap_io.rs, packet by packet.
use rust_pcaprune.Prelude.{
  ℕ, suc, ◌+◌, ◌≤◌, ◌<◌, ◌≡◌, refl, sym, ap, ◌∙◌, List, [], ◌∷◌, ◌++◌, length, Bytes, ret, arith,
  length-append, ap₂, append-nil,
}
use rust_pcaprune.PcapIo.Base.{
  ok, Io, ◌>>=◌, >>=-assoc, end_of_file, Reader, SlimStats, no_stats, Limits, account_io,
  flush_limits,
}
use rust_pcaprune.PcapIo.Header.{Endian, read_global_header}
use rust_pcaprune.PcapIo.Batch.{WriteBatch, flush, content, content-flush}
use rust_pcaprune.PcapIo.Slim.{
  Slimming, slim_loop, slim_pcap_to_writer_with_options, slim_pcap_with_options,
}
use rust_pcaprune.PcapIo.Format.{
  CapturePacket, record_header, encode, encode_all, GlobalHeader, length-record_header,
  read_global_header-append, before,
}
use rust_pcaprune.PcapIo.Packets.{
  no_more, shorten, leave, Slims, AllFit, Counted, slim_loop-packets,
}

-- A capture file: its header, its packets, and a cut record header.
abbrev pub capture : Endian → Bytes → List CapturePacket → Bytes → Bytes
capture e ghdr ps tail = ghdr ++ (encode_all e ps ++ tail)

abbrev pub file : Bytes → Reader
file b = record { rest = b; ending = end_of_file }

abbrev pub stats_of : ℕ → ℕ → Bytes → Bytes → SlimStats
stats_of t k input output = record {
  in_pkts = t + k;
  truncated = t;
  kept = k;
  in_bytes = length input;
  out_bytes = length output;
}

count_of-Slims :
    {ps qs : List CapturePacket} {t k : ℕ} (e : Endian)
    → Slims ps qs t k
    → t + k ≤ length (encode_all e ps)
count_of-Slims e no_more = omega arith
count_of-Slims {ps = p ∷ ps} e (shorten out run x) = omega (
  arith,
  count_of-Slims e x,
  length-append (encode e p) (encode_all e ps),
  length-append (record_header e p) p.frame,
  length-record_header e p (length p.frame),
)
count_of-Slims {ps = p ∷ ps} e (leave run x) = omega (
  arith,
  count_of-Slims e x,
  length-append (encode e p) (encode_all e ps),
  length-append (record_header e p) p.frame,
  length-record_header e p (length p.frame),
)

-- The state in which the loop starts.
abbrev pub loop_start : Bytes → Bytes → Reader → Limits → Slimming
loop_start input ghdr r limits = record {
  reader = r;
  stats = record no_stats { in_bytes = length input };
  batch = record { buf = []; written = ghdr; limits = account_io (account_io limits 24) 24 };
}

abbrev pub slim_result : Slimming → Bytes × SlimStats × Limits
slim_result s =
    let w = flush s.batch in
    (
      w.written,
      record s.stats { out_bytes = length w.written },
      flush_limits (flush_limits w.limits),
    )

pub slim_pcap-loop :
    (src : Reader) (limits : Limits) (e : Endian) (ghdr : Bytes) (r : Reader)
    → read_global_header src ≡ ret (ok (e, ghdr, r))
    → slim_pcap_with_options src limits ≡ (
        slim_loop (suc (length src.rest)) e (loop_start src.rest ghdr r limits) >>= λ s.
        ret (ok (slim_result s)))
unfolding slim_pcap_with_options slim_pcap_to_writer_with_options
slim_pcap-loop src limits e ghdr r h = rw h (
    >>=-assoc (slim_loop (suc (length src.rest)) e (loop_start src.rest ghdr r limits))
      (λ s.
        let w = flush s.batch in
        ret (ok (record s { batch = record w { limits = flush_limits w.limits } })))
      (λ s. ret (
        ok (
          s.batch.written,
          record s.stats { out_bytes = length s.batch.written },
          flush_limits s.batch.limits,
        ))))

pub written-flush : (w : WriteBatch) → (flush w).written ≡ content w
written-flush w =
    sym (append-nil (flush w).written)
    ∙ ap (λ (x : Bytes). (flush w).written ++ x) (sym (content-flush w).1)
    ∙ (content-flush w).0

result_of :
    (s : Slimming) (t k : ℕ) (input output : Bytes)
    → (flush s.batch).written ≡ output
    → Counted (record no_stats { in_bytes = length input }) s.stats t k
    → slim_result s
      ≡ (output, stats_of t k input output, flush_limits (flush_limits (flush s.batch).limits))
result_of s t k input output h c =
    let a : s.stats.in_pkts ≡ t + k = omega (arith, c.0) in
    let b : s.stats.truncated ≡ t = omega (arith, c.1) in
    let d : s.stats.kept ≡ k = omega (arith, c.2) in rw (h, a, b, d, c.3) refl

pub slim_pcap-Slims :
    (e : Endian) (ghdr tail : Bytes) (limits : Limits) {ps qs : List CapturePacket} {t k : ℕ}
    → GlobalHeader e ghdr
    → length tail < 16
    → AllFit ps
    → Slims ps qs t k
    → (l : Limits) × (slim_pcap_with_options (file (capture e ghdr ps tail)) limits
        ≡ ret (
            ok (
              capture e ghdr qs [],
              stats_of t k (capture e ghdr ps tail) (capture e ghdr qs []),
              l,
            )))
slim_pcap-Slims e ghdr tail limits {ps = ps} {qs = qs} {t = t} {k = k} g h f x =
    let input = capture e ghdr ps tail in
    let s₀ = loop_start input ghdr (before e ps tail) limits in
    let (s, l, c, n) =
      slim_loop-packets (suc (length input)) e s₀ tail h f x
        (omega (
          arith,
          count_of-Slims e x,
          length-append ghdr (encode_all e ps ++ tail),
          length-append (encode_all e ps) tail,
        ))
        refl in
    (
      flush_limits (flush_limits (flush s.batch).limits),
      slim_pcap-loop (file input) limits e ghdr (before e ps tail)
            (read_global_header-append e ghdr (encode_all e ps ++ tail) end_of_file g)
          ∙ ap (λ (m : Io Slimming). m >>= λ y. ret (ok (slim_result y))) l
          ∙ ap (λ y. ret (ok y))
              (result_of s t k input (capture e ghdr qs [])
                (written-flush s.batch
                  ∙ c
                  ∙ ap₂ (λ (x y : Bytes). x ++ y) (append-nil ghdr)
                      (sym (append-nil (encode_all e qs))))
                n),
    )
