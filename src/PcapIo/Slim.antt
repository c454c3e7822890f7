-- ===== src/PcapIo/Slim.antt =====
-- Slimming and analysing a capture: the record loops of src/pcap_io.rs.
use rust_pcaprune.Prelude.{
  ℕ, zero, suc, ◌+◌, ◌%◌, ◌^◌, Bool, [], ◌++◌, if◌then◌else◌, length, Bytes, ret, out_of_fuel,
}
use rust_pcaprune.Packet.{PacketOutcome, keep, truncated, process_packet}
use rust_pcaprune.PcapIo.Base.{
  io_fault, ok, err, Io, ◌>>=◌, lift, Reader, got, eof, fault, read_exact, read_or_fail, SlimStats,
  no_stats, Limits, account_io, flush_limits, maybe_cpu_tick,
}
use rust_pcaprune.PcapIo.Header.{Endian, read_u32, write_u32, read_global_header}
use rust_pcaprune.PcapIo.Batch.{WriteBatch, flush, write_record}

-- `frame_out`: the frame itself, or the shortened one.
unfoldable pub frame_out : Bytes → PacketOutcome → Bytes
frame_out frame keep = frame
frame_out frame (truncated buf) = buf

-- `stats.in_pkts += 1`, and `truncated` or `kept`.
unfoldable pub count_packet : SlimStats → Bool → SlimStats
count_packet stats was_truncated =
    if was_truncated
    then record stats { in_pkts = stats.in_pkts + 1; truncated = stats.truncated + 1 }
    else record stats { in_pkts = stats.in_pkts + 1; kept = stats.kept + 1 }

-- The record header with the new captured length; the other fields are written as they were read.
unfoldable pub rewrite_header : Endian → Bytes → ℕ → Bytes
rewrite_header e rec_hdr new_len =
    let ts_sec = read_u32 e rec_hdr 0 in
    let ts_usec = read_u32 e rec_hdr 4 in
    let orig_len = read_u32 e rec_hdr 12 in
    let h₁ = write_u32 e rec_hdr 0 ts_sec in
    let h₂ = write_u32 e h₁ 4 ts_usec in
    let h₃ = write_u32 e h₂ 8 (new_len % 2 ^ 32) in write_u32 e h₃ 12 orig_len

-- What the loop of `slim_pcap_to_writer_with_options` holds.
pub record Slimming : Type 0 where
  pub reader : Reader
  pub stats : SlimStats
  pub batch : WriteBatch

abbrev pub charge : WriteBatch → ℕ → WriteBatch
charge w n = record w { limits = account_io w.limits n }

-- One round, behind the read of the record header.
unfoldable pub slim_record : Endian → Slimming → Bytes → Reader → Io Slimming
slim_record e s rec_hdr r = do
  let incl_len = read_u32 e rec_hdr 8
  let w₁ = charge s.batch 16
  (frame, r') ← read_or_fail r incl_len
  let w₂ = charge w₁ incl_len
  (outcome, was_truncated) ← lift (process_packet frame)
  let out = frame_out frame outcome
  let stats = count_packet s.stats was_truncated
  let w₃ = write_record w₂ (rewrite_header e rec_hdr (length out)) out
  ret (
      ok (record {
        reader = r';
        stats = stats;
        batch = record w₃ { limits = maybe_cpu_tick w₃.limits stats.in_pkts };
      }))

-- A record header that is cut off ends the loop as the end of the file does.
unfoldable pub slim_loop : ℕ → Endian → Slimming → Io Slimming
slim_loop zero e s = out_of_fuel
slim_loop (suc fuel) e s = elim (read_exact s.reader 16) [
  | eof ↦ ret (ok s)
  | fault ↦ ret (err io_fault)
  | got rec_hdr r ↦ slim_record e s rec_hdr r >>= λ s'. slim_loop fuel e s'
]

-- The statistics are those passed in by reference, `written` what the writer holds already. Each
-- round reads 16 bytes at least: the length of the source is fuel enough.
unfoldable pub slim_pcap_to_writer_with_options : Reader → Bytes → SlimStats → Limits → Io Slimming
slim_pcap_to_writer_with_options src written stats limits = do
  (e, ghdr, r) ← read_global_header src
  let limits₁ = account_io limits 24
  let limits₂ = account_io limits₁ 24
  let batch : WriteBatch = record { buf = []; written = written ++ ghdr; limits = limits₂ }
  s ←
      slim_loop (suc (length src.rest)) e
        (record { reader = r; stats = record stats { in_bytes = length src.rest }; batch = batch })
  let w = flush s.batch
  ret (ok (record s { batch = record w { limits = flush_limits w.limits } }))

-- The new file, the statistics and the limiter calls.
unfoldable pub slim_pcap_with_options : Reader → Limits → Io (Bytes × SlimStats × Limits)
slim_pcap_with_options src limits = do
  s ← slim_pcap_to_writer_with_options src [] no_stats limits
  let out = s.batch.written
  ret (ok (out, record s.stats { out_bytes = length out }, flush_limits s.batch.limits))

-- `slim_pcap_to_writer` and `slim_pcap`: without a memory map, which a reader does not show.
unfoldable pub slim_pcap_to_writer : Reader → Bytes → SlimStats → Limits → Io Slimming
slim_pcap_to_writer src written stats limits =
    slim_pcap_to_writer_with_options src written stats limits

unfoldable pub slim_pcap : Reader → Limits → Io (Bytes × SlimStats × Limits)
slim_pcap src limits = slim_pcap_with_options src limits

-- What the loop of `analyze_pcap_with_options` holds.
pub record Analysis : Type 0 where
  pub reader : Reader
  pub stats : SlimStats
  pub body_bytes : ℕ
  pub limits : Limits

unfoldable pub analyze_record : Endian → Analysis → Bytes → Reader → Io Analysis
analyze_record e s rec_hdr r = do
  let limits₁ = account_io s.limits 16
  let incl_len = read_u32 e rec_hdr 8
  (frame, r') ← read_or_fail r incl_len
  let limits₂ = account_io limits₁ incl_len
  (outcome, was_truncated) ← lift (process_packet frame)
  let out_len = length (frame_out frame outcome)
  let stats = count_packet s.stats was_truncated
  ret (
      ok (record {
        reader = r';
        stats = stats;
        body_bytes = s.body_bytes + (16 + out_len);
        limits = maybe_cpu_tick limits₂ stats.in_pkts;
      }))

unfoldable pub analyze_loop : ℕ → Endian → Analysis → Io Analysis
analyze_loop zero e s = out_of_fuel
analyze_loop (suc fuel) e s = elim (read_exact s.reader 16) [
  | eof ↦ ret (ok s)
  | fault ↦ ret (err io_fault)
  | got rec_hdr r ↦ analyze_record e s rec_hdr r >>= λ s'. analyze_loop fuel e s'
]

unfoldable pub projected_file_size : ℕ → ℕ → ℕ
projected_file_size global_hdr_len per_packet_out = global_hdr_len + per_packet_out

unfoldable pub analyze_pcap_with_options : Reader → Limits → Io (SlimStats × Limits)
analyze_pcap_with_options src limits = do
  (e, ghdr, r) ← read_global_header src
  let limits₁ = account_io limits 24
  s ← analyze_loop (suc (length src.rest)) e (record {
    reader = r;
    stats = record no_stats { in_bytes = length src.rest };
    body_bytes = 0;
    limits = limits₁;
  })
  ret (
      ok
        (record s.stats { out_bytes = projected_file_size 24 s.body_bytes }, flush_limits s.limits))

-- `analyze_pcap`
unfoldable pub analyze_pcap : Reader → Limits → Io (SlimStats × Limits)
analyze_pcap src limits = analyze_pcap_with_options src limits
