-- ===== src/Tests/Disks.antt =====
-- Slimming a file in place on a small disk.
use rust_pcaprune.Prelude.{
  ◌+◌, length, ◌<◌, ℕ, ◌≡◌, refl, ap, Bool, true, false, List, [], ◌∷◌, none, some, if◌then◌else◌,
  Bytes, Run, ret,
}
use rust_pcaprune.PcapIo.Base.{
  ok, read_exact, read_or_fail, SlimStats, account_io, flush_limits, maybe_cpu_tick, call,
}
use rust_pcaprune.PcapIo.Header.{read_u32, to_bytes, write_u32, read_header, read_global_header}
use rust_pcaprune.PcapIo.Batch.{flush, write_record}
use rust_pcaprune.PcapIo.Slim.{
  frame_out, count_packet, rewrite_header, slim_record, slim_loop, slim_pcap_to_writer_with_options,
  slim_pcap_with_options,
}
use rust_pcaprune.Packet.{process_packet}
use rust_pcaprune.PcapIo.Format.{CapturePacket}
use rust_pcaprune.Disk.{FilePath, Disk, path_eq, dir_eq, bytes_eq, put_file}
use rust_pcaprune.Coord.{
  opened, FileResult, skipped_marker, slimmed, Done, good, OnDisk, marker_path, is_marked, tmp_path,
  remove_file, rename, store_output, slim_path, before_dot, file_stem, compare_count,
  verify_tmp_packet_count, create_marker, finish_file, mark_file, commit_file, verify_file,
  slim_file_in_place, check_file,
}
use rust_pcaprune.Coord.Transaction.{Transacted, slim_file_in_place-Transacted}
use rust_pcaprune.Coord.Again.{slim_file_in_place_once}
use rust_pcaprune.PcapIo.Refine.{capture, stats_of}
use rust_pcaprune.PcapIo.Packets.{Slims}
use rust_pcaprune.Coord.Success.{slim_file_in_place_succeeds}
use rust_pcaprune.PcapIo.Count.{
  count_packets_with_options, count_loop, count_record, skip_packet_body, skip_loop,
}
use rust_pcaprune.PcapIo.Header.{check_magic_bytes, detect_endian}
use rust_pcaprune.Parse.{parse_frame}
use rust_pcaprune.Packet.{process_parsed}
use rust_pcaprune.Limit.{asked}
use rust_pcaprune.PcapIo.Base.{LimitCall, acquire_io, flush_io}
use rust_pcaprune.PcapIo.Charged.{slim_pcap_charges}
use rust_pcaprune.Tests.Captures.{
  little, ghdr, short_packet, source, packets, cut_header, packets-Capture, packets-NoneCut,
}

abbrev src : FilePath
src = record { dir = []; name = b'a' ∷ b'.' ∷ b'p' ∷ b'c' ∷ b'a' ∷ b'p' ∷ [] }

-- A disk with one file, and calls that fail as listed.
abbrev one_file : Bytes → List Bool → Disk
one_file b faults = record {
  content = λ p. if path_eq src p then some b else none;
  faults = faults;
  partial = 7;
}

abbrev input : Bytes
input = capture little ghdr (short_packet ∷ []) []

slim_file_in_place-Transacted_example :
    Transacted src none
      (one_file source (false ∷ false ∷ false ∷ false ∷ true ∷ []))
      (slim_file_in_place src none (one_file source (false ∷ false ∷ false ∷ false ∷ true ∷ []))).0
slim_file_in_place-Transacted_example =
    slim_file_in_place-Transacted src none
      (one_file source (false ∷ false ∷ false ∷ false ∷ true ∷ []))

abbrev input_stats : SlimStats
input_stats = record { in_pkts = 1; truncated = 0; kept = 1; in_bytes = 50; out_bytes = 50 }

slims-input : (slim_file_in_place src none (one_file input [])).1 ≡ ret (good (slimmed input_stats))
unfolding slim_file_in_place is_marked path_eq dir_eq marker_path verify_file slim_path put_file
    tmp_path bytes_eq file_stem before_dot store_output slim_pcap_with_options
    slim_pcap_to_writer_with_options read_global_header read_header read_exact check_magic_bytes
    detect_endian account_io call slim_loop slim_record read_u32 write_u32 to_bytes read_or_fail
    process_packet parse_frame process_parsed frame_out count_packet rewrite_header write_record
    maybe_cpu_tick flush flush_limits commit_file verify_tmp_packet_count compare_count
    count_packets_with_options count_loop count_record skip_packet_body skip_loop mark_file rename
    finish_file create_marker remove_file
slims-input = refl

-- The disk behind that run.
abbrev after : Disk
after = (slim_file_in_place src none (one_file input [])).0

pair : (m : OnDisk FileResult) (r : FileResult) → m.1 ≡ ret (good r) → m ≡ (m.0, ret (good r))
pair m r e = ap (λ (x : Run (Done FileResult)). (m.0, x)) e

slim_file_in_place_once_example :
    (slim_file_in_place src none after ≡ (after, ret (good skipped_marker)))
    × (check_file src none after ≡ (after, ret (good skipped_marker)))
slim_file_in_place_once_example =
    slim_file_in_place_once src none none (one_file input []) after (slimmed input_stats)
      (pair (slim_file_in_place src none (one_file input [])) (slimmed input_stats) slims-input)

unmarked : is_marked (one_file source []) src ≡ false
unfolding is_marked path_eq dir_eq bytes_eq marker_path
unmarked = refl

held : (one_file source []).content src ≡ some source
unfolding path_eq dir_eq bytes_eq
held = refl

slim_file_in_place_succeeds_example :
    (qs : List CapturePacket) × (t : ℕ) × (k : ℕ) × (d' : Disk) × Slims packets qs t k
    × (slim_file_in_place src none (one_file source [])
        ≡ (d', ret (good (slimmed (stats_of t k source (capture little ghdr qs []))))))
    × (d'.content src ≡ some (capture little ghdr qs []))
    × (d'.content (tmp_path src) ≡ none)
    × (is_marked d' src ≡ true)
slim_file_in_place_succeeds_example =
    slim_file_in_place_succeeds src none (one_file source []) little ghdr cut_header packets refl
      unmarked packets-Capture packets-NoneCut held

abbrev input_log : List LimitCall
input_log =
    acquire_io 24
    ∷ acquire_io 24
    ∷ acquire_io 16
    ∷ acquire_io 10
    ∷ acquire_io 26
    ∷ flush_io
    ∷ flush_io
    ∷ []

slims-logged :
    slim_pcap_with_options (opened input false) (some [])
    ≡ ret (ok (input, input_stats, some input_log))
unfolding slim_pcap_with_options slim_pcap_to_writer_with_options read_global_header read_header
    read_exact check_magic_bytes detect_endian account_io call slim_loop slim_record read_u32
    write_u32 to_bytes read_or_fail process_packet parse_frame process_parsed frame_out count_packet
    rewrite_header write_record maybe_cpu_tick flush flush_limits
slims-logged = refl

slim_pcap_charges_example :
    (log : List LimitCall) × (left : ℕ) × (some input_log ≡ some log)
    × (asked log + left ≡ length input + length input)
    × (left < 16)
slim_pcap_charges_example =
    slim_pcap_charges (opened input false) input input_stats (some input_log) slims-logged
