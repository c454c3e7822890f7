-- ===== src/PcapIo/Count.antt =====
-- Counting the packets of a capture: count_packets_with_options of src/pcap_io.rs.
use rust_pcaprune.Prelude.{
  ℕ, zero, suc, ◌+◌, ◌-◌, true, false, ltb, min, length, Bytes, ret, out_of_fuel,
}
use rust_pcaprune.PcapIo.Base.{
  io_fault, ok, err, Io, ◌>>=◌, Reader, got, eof, fault, read_exact, read_or_fail, Limits,
  account_io, flush_limits, maybe_cpu_tick,
}
use rust_pcaprune.PcapIo.Header.{Endian, read_u32, read_global_header}

abbrev pub skip_buf_cap : ℕ
skip_buf_cap = 65536

-- `while remaining > 0`, in chunks of the skip buffer.
unfoldable pub skip_loop : ℕ → Reader → ℕ → Io Reader
skip_loop zero r remaining = out_of_fuel
skip_loop (suc fuel) r remaining = elim (ltb 0 remaining) [
  | false ↦ ret (ok r)
  | true ↦
      let chunk = min remaining skip_buf_cap in
      read_or_fail r chunk >>= λ br. skip_loop fuel br.1 (remaining - chunk)
]

-- Every chunk has a byte at least: the bytes left to skip are fuel enough.
unfoldable pub skip_packet_body : Reader → ℕ → Io Reader
skip_packet_body r incl_len = skip_loop (suc incl_len) r incl_len

pub record Counting : Type 0 where
  pub reader : Reader
  pub count : ℕ
  pub limits : Limits

unfoldable pub count_record : Endian → Counting → Bytes → Reader → Io Counting
count_record e s rec_hdr r = do
  let limits₁ = account_io s.limits 16
  let incl_len = read_u32 e rec_hdr 8
  r' ← skip_packet_body r incl_len
  let limits₂ = account_io limits₁ incl_len
  let count = s.count + 1
  ret (ok (record { reader = r'; count = count; limits = maybe_cpu_tick limits₂ count }))

unfoldable pub count_loop : ℕ → Endian → Counting → Io Counting
count_loop zero e s = out_of_fuel
count_loop (suc fuel) e s = elim (read_exact s.reader 16) [
  | eof ↦ ret (ok s)
  | fault ↦ ret (err io_fault)
  | got rec_hdr r ↦ count_record e s rec_hdr r >>= λ s'. count_loop fuel e s'
]

unfoldable pub count_packets_with_options : Reader → Limits → Io (ℕ × Limits)
count_packets_with_options src limits = do
  (e, ghdr, r) ← read_global_header src
  s ←
      count_loop (suc (length src.rest)) e
        (record { reader = r; count = 0; limits = account_io limits 24 })
  ret (ok (s.count, flush_limits s.limits))

-- `count_packets`
unfoldable pub count_packets : Reader → Limits → Io (ℕ × Limits)
count_packets src limits = count_packets_with_options src limits
