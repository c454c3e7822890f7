-- ===== src/PcapIo/Analyzed.antt =====
-- analyze_pcap_with_options of src/pcap_io.rs against slim_pcap_with_options.
use rust_pcaprune.Prelude.{
  ℕ, zero, suc, ◌+◌, ◌≡◌, refl, sym, ap, ◌∙◌, Bool, ◌++◌, length, Bytes, ret, panic, out_of_fuel,
  inl, inr, arith, length-set, length-append, ap₂, append-nil,
}
use rust_pcaprune.PcapIo.Base.{
  ok, err, Io, ◌>>=◌, >>=-assoc, >>=-ext, Io-cases, lift, Reader, got, read_exact, read_or_fail,
  SlimStats, no_stats, Limits, account_io, flush_limits, maybe_cpu_tick,
}
use rust_pcaprune.PcapIo.Header.{Endian, read_u32, write_u32, read_global_header}
use rust_pcaprune.PcapIo.Batch.{content, content-write_record}
use rust_pcaprune.PcapIo.Slim.{
  frame_out, count_packet, rewrite_header, Slimming, charge, slim_record, slim_loop,
  slim_pcap_to_writer_with_options, slim_pcap_with_options, Analysis, analyze_record, analyze_loop,
  projected_file_size, analyze_pcap_with_options,
}
use rust_pcaprune.Packet.{PacketOutcome, process_packet}
use rust_pcaprune.PcapIo.Steps.{Read-cases, read_exact-length, global_header-got}
use rust_pcaprune.PcapIo.Refine.{loop_start, slim_result, slim_pcap-loop, written-flush}
use rust_pcaprune.PcapIo.Packets.{stepped}

-- What both loops do with a packet: read it and process it.
abbrev pub read_packet : Reader → ℕ → Io ((Bytes × Reader) × (PacketOutcome × Bool))
read_packet r n = read_or_fail r n >>= λ fr. lift (process_packet fr.0) >>= λ ob. ret (ok (fr, ob))

abbrev pub after_slim :
    Endian → Slimming → Bytes → ((Bytes × Reader) × (PacketOutcome × Bool)) → Slimming
after_slim e s rec_hdr ((frame, r'), (o, b)) = stepped e s rec_hdr r' frame o b

abbrev pub after_analyze :
    Endian → Analysis → Bytes → ((Bytes × Reader) × (PacketOutcome × Bool)) → Analysis
after_analyze e a rec_hdr ((frame, r'), (o, b)) =
    let stats = count_packet a.stats b in
    let limits₂ = account_io (account_io a.limits 16) (read_u32 e rec_hdr 8) in
    record {
      reader = r';
      stats = stats;
      body_bytes = a.body_bytes + (16 + length (frame_out frame o));
      limits = maybe_cpu_tick limits₂ stats.in_pkts;
    }

pub slim_record-read_packet :
    (e : Endian) (s : Slimming) (rec_hdr : Bytes) (r : Reader)
    → slim_record e s rec_hdr r
      ≡ (read_packet r (read_u32 e rec_hdr 8) >>= λ x. ret (ok (after_slim e s rec_hdr x)))
unfolding slim_record
slim_record-read_packet e s rec_hdr r = sym (
    >>=-assoc (read_or_fail r (read_u32 e rec_hdr 8))
      (λ fr. lift (process_packet fr.0) >>= λ ob. ret (ok (fr, ob)))
      (λ x. ret (ok (after_slim e s rec_hdr x)))
    ∙ >>=-ext (read_or_fail r (read_u32 e rec_hdr 8)) _ _ (λ fr.
      >>=-assoc (lift (process_packet fr.0)) (λ ob. ret (ok (fr, ob)))
        (λ x. ret (ok (after_slim e s rec_hdr x)))))

analyze_record-read_packet :
    (e : Endian) (a : Analysis) (rec_hdr : Bytes) (r : Reader)
    → analyze_record e a rec_hdr r
      ≡ (read_packet r (read_u32 e rec_hdr 8) >>= λ x. ret (ok (after_analyze e a rec_hdr x)))
unfolding analyze_record
analyze_record-read_packet e a rec_hdr r = sym (
    >>=-assoc (read_or_fail r (read_u32 e rec_hdr 8))
      (λ fr. lift (process_packet fr.0) >>= λ ob. ret (ok (fr, ob)))
      (λ x. ret (ok (after_analyze e a rec_hdr x)))
    ∙ >>=-ext (read_or_fail r (read_u32 e rec_hdr 8)) _ _ (λ fr.
      >>=-assoc (lift (process_packet fr.0)) (λ ob. ret (ok (fr, ob)))
        (λ x. ret (ok (after_analyze e a rec_hdr x)))))

-- The statistics at the end of either loop.
abbrev slim_stats : Slimming → Io SlimStats
slim_stats s = ret (ok (record s.stats { out_bytes = length (content s.batch) }))

abbrev analyze_stats : Analysis → Io SlimStats
analyze_stats a = ret (ok (record a.stats { out_bytes = projected_file_size 24 a.body_bytes }))

length-write_u32 : (e : Endian) (h : Bytes) (off v : ℕ) → length (write_u32 e h off v) ≡ length h
unfolding write_u32
length-write_u32 e h off v =
    length-set _ _ _ ∙ length-set _ _ _ ∙ length-set _ _ _ ∙ length-set _ _ _

length-rewrite_header : (e : Endian) (h : Bytes) (n : ℕ) → length (rewrite_header e h n) ≡ length h
unfolding rewrite_header
length-rewrite_header e h n =
    length-write_u32 e _ _ _
    ∙ length-write_u32 e _ _ _
    ∙ length-write_u32 e _ _ _
    ∙ length-write_u32 e _ _ _

pub slim_loop-record :
    (fuel : ℕ) (e : Endian) (s : Slimming) (rec_hdr : Bytes) (r : Reader)
    → read_exact s.reader 16 ≡ got rec_hdr r
    → slim_loop (suc fuel) e s ≡ (slim_record e s rec_hdr r >>= λ s'. slim_loop fuel e s')
unfolding slim_loop
slim_loop-record fuel e s rec_hdr r h = rw (h, slim_loop) refl

analyze_loop-record :
    (fuel : ℕ) (e : Endian) (a : Analysis) (rec_hdr : Bytes) (r : Reader)
    → read_exact a.reader 16 ≡ got rec_hdr r
    → analyze_loop (suc fuel) e a ≡ (analyze_record e a rec_hdr r >>= λ a'. analyze_loop fuel e a')
unfolding analyze_loop
analyze_loop-record fuel e a rec_hdr r h = rw (h, analyze_loop) refl

bind_map :
    {A B C D : Type 0} (m : Io A) (f : A → B) (g : B → Io C) (h : C → Io D)
    → (((m >>= λ x. ret (ok (f x))) >>= g) >>= h) ≡ (m >>= λ x. g (f x) >>= h)
bind_map (ret (ok a)) f g h = refl
bind_map (ret (err e)) f g h = refl
bind_map panic f g h = refl
bind_map out_of_fuel f g h = refl

slim_round :
    (fuel : ℕ) (e : Endian) (s : Slimming) (rec_hdr : Bytes) (r : Reader)
    → read_exact s.reader 16 ≡ got rec_hdr r
    → (slim_loop (suc fuel) e s >>= slim_stats) ≡ (
        read_packet r (read_u32 e rec_hdr 8) >>= λ x.
        slim_loop fuel e (after_slim e s rec_hdr x) >>= slim_stats)
slim_round fuel e s rec_hdr r h =
    ap (λ m. m >>= slim_stats)
      (slim_loop-record fuel e s rec_hdr r h
        ∙ ap (λ m. m >>= λ s'. slim_loop fuel e s') (slim_record-read_packet e s rec_hdr r))
    ∙ bind_map (read_packet r (read_u32 e rec_hdr 8)) (after_slim e s rec_hdr)
        (λ s'. slim_loop fuel e s') slim_stats

analyze_round :
    (fuel : ℕ) (e : Endian) (a : Analysis) (rec_hdr : Bytes) (r : Reader)
    → read_exact a.reader 16 ≡ got rec_hdr r
    → (analyze_loop (suc fuel) e a >>= analyze_stats) ≡ (
        read_packet r (read_u32 e rec_hdr 8) >>= λ x.
        analyze_loop fuel e (after_analyze e a rec_hdr x) >>= analyze_stats)
analyze_round fuel e a rec_hdr r h =
    ap (λ m. m >>= analyze_stats)
      (analyze_loop-record fuel e a rec_hdr r h
        ∙ ap (λ m. m >>= λ a'. analyze_loop fuel e a') (analyze_record-read_packet e a rec_hdr r))
    ∙ bind_map (read_packet r (read_u32 e rec_hdr 8)) (after_analyze e a rec_hdr)
        (λ a'. analyze_loop fuel e a') analyze_stats

-- Both loops stand at the same place, with the same statistics and bytes of output.
record InStep (s : Slimming) (a : Analysis) : Type 0 where
  same_reader : s.reader ≡ a.reader
  same_stats : s.stats ≡ a.stats
  same_size : length (content s.batch) ≡ projected_file_size 24 a.body_bytes

stopped : (s : Slimming) (a : Analysis) → InStep s a → slim_stats s ≡ analyze_stats a
stopped s a i =
    ap₂ (λ (t : SlimStats) (n : ℕ). ret (ok (record t { out_bytes = n }))) i.same_stats i.same_size

InStep-after :
    (e : Endian) (s : Slimming) (a : Analysis) (rec_hdr : Bytes)
    (x : (Bytes × Reader) × (PacketOutcome × Bool))
    → InStep s a
    → length rec_hdr ≡ 16
    → InStep (after_slim e s rec_hdr x) (after_analyze e a rec_hdr x)
unfolding projected_file_size
InStep-after e s a rec_hdr ((frame, r'), (o, b)) i h =
    let out = frame_out frame o in
    let hdr = rewrite_header e rec_hdr (length out) in
    record {
      same_reader = refl;
      same_stats = ap (λ t. count_packet t b) i.same_stats;
      same_size =
          ap (λ (y : Bytes). length y)
            (content-write_record (charge (charge s.batch 16) (read_u32 e rec_hdr 8)) hdr out)
          ∙ omega (
            arith,
            i.same_size,
            length-append (content s.batch) (hdr ++ out),
            length-append hdr out,
            length-rewrite_header e rec_hdr (length out),
          );
    }

loops_agree :
    (fuel : ℕ) (e : Endian) (s : Slimming) (a : Analysis)
    → InStep s a
    → (slim_loop fuel e s >>= slim_stats) ≡ (analyze_loop fuel e a >>= analyze_stats)
unfolding slim_loop analyze_loop
loops_agree zero e s a i = refl
loops_agree (suc fuel) e s a i = elim (Read-cases (read_exact a.reader 16)) [
  | inr (inl q) ↦ rw (i.same_reader, q, slim_loop, analyze_loop) (stopped s a i)
  | inr (inr q) ↦ rw (i.same_reader, q, slim_loop, analyze_loop) refl
  | inl (rec_hdr, r, q) ↦
      slim_round fuel e s rec_hdr r (ap (λ y. read_exact y 16) i.same_reader ∙ q)
      ∙ >>=-ext (read_packet r (read_u32 e rec_hdr 8))
          (λ x. slim_loop fuel e (after_slim e s rec_hdr x) >>= slim_stats)
          (λ x. analyze_loop fuel e (after_analyze e a rec_hdr x) >>= analyze_stats)
          (λ x.
            loops_agree fuel e (after_slim e s rec_hdr x) (after_analyze e a rec_hdr x)
              (InStep-after e s a rec_hdr x i (read_exact-length a.reader r 16 rec_hdr q)))
      ∙ sym (analyze_round fuel e a rec_hdr r q)
]

-- The statistics of a result.
abbrev pub stats_of_slim : Io (Bytes × SlimStats × Limits) → Io SlimStats
stats_of_slim m = m >>= λ r. ret (ok r.1)

abbrev pub stats_of_analyze : Io (SlimStats × Limits) → Io SlimStats
stats_of_analyze m = m >>= λ r. ret (ok r.0)

slim_pcap-stats :
    (src : Reader) (limits : Limits) (e : Endian) (ghdr : Bytes) (r : Reader)
    → read_global_header src ≡ ret (ok (e, ghdr, r))
    → stats_of_slim (slim_pcap_with_options src limits)
      ≡ (slim_loop (suc (length src.rest)) e (loop_start src.rest ghdr r limits) >>= slim_stats)
slim_pcap-stats src limits e ghdr r h =
    ap stats_of_slim (slim_pcap-loop src limits e ghdr r h)
    ∙ >>=-assoc (slim_loop (suc (length src.rest)) e (loop_start src.rest ghdr r limits))
        (λ s. ret (ok (slim_result s))) (λ x. ret (ok x.1))
    ∙ >>=-ext (slim_loop (suc (length src.rest)) e (loop_start src.rest ghdr r limits)) _ slim_stats
        (λ s.
          ap (λ (b : Bytes). ret (ok (record s.stats { out_bytes = length b })))
            (written-flush s.batch))

abbrev analyze_start : Bytes → Reader → Limits → Analysis
analyze_start input r limits = record {
  reader = r;
  stats = record no_stats { in_bytes = length input };
  body_bytes = 0;
  limits = account_io limits 24;
}

analyze_pcap-stats :
    (src : Reader) (limits : Limits) (e : Endian) (ghdr : Bytes) (r : Reader)
    → read_global_header src ≡ ret (ok (e, ghdr, r))
    → stats_of_analyze (analyze_pcap_with_options src limits)
      ≡ (analyze_loop (suc (length src.rest)) e (analyze_start src.rest r limits) >>= analyze_stats)
unfolding analyze_pcap_with_options
analyze_pcap-stats src limits e ghdr r h = rw h (
    >>=-assoc (analyze_loop (suc (length src.rest)) e (analyze_start src.rest r limits))
      (λ a. ret (
        ok (
          record a.stats { out_bytes = projected_file_size 24 a.body_bytes },
          flush_limits a.limits,
        )))
      (λ x. ret (ok x.0)))

started :
    (input ghdr : Bytes) (r : Reader) (limits limits' : Limits)
    → length ghdr ≡ 24
    → InStep (loop_start input ghdr r limits) (analyze_start input r limits')
unfolding projected_file_size
started input ghdr r limits limits' h = record {
  same_reader = refl;
  same_stats = refl;
  same_size = ap (λ (y : Bytes). length y) (append-nil ghdr) ∙ omega (arith, h);
}

-- Checking a file predicts slimming it: on every input, `analyze_pcap` returns the statistics of
-- `slim_pcap`, the size of the output included, or fails with the same error or panic.
pub analyze_pcap_predicts :
    (src : Reader) (limits limits' : Limits)
    → stats_of_slim (slim_pcap_with_options src limits)
      ≡ stats_of_analyze (analyze_pcap_with_options src limits')
unfolding slim_pcap_with_options slim_pcap_to_writer_with_options analyze_pcap_with_options
analyze_pcap_predicts src limits limits' = elim (Io-cases (read_global_header src)) [
  | inl ((e, ghdr, r), q) ↦
      slim_pcap-stats src limits e ghdr r q
      ∙ loops_agree (suc (length src.rest)) e (loop_start src.rest ghdr r limits)
          (analyze_start src.rest r limits')
          (started src.rest ghdr r limits limits'
            (read_exact-length src r 24 ghdr (global_header-got src (e, ghdr, r) q)))
      ∙ sym (analyze_pcap-stats src limits' e ghdr r q)
  | inr (inl (x, q)) ↦ rw q refl
  | inr (inr (inl q)) ↦ rw q refl
  | inr (inr (inr q)) ↦ rw q refl
]
