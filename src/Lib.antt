-- ===== src/Lib.antt =====
-- A model of RustPCAPrune, which shortens the encrypted payloads of captured packets to 24 bytes
-- and repairs lengths and checksums, and what is shown of it.
--
-- The program reads a capture record by record (src/pcap_io.rs), and src/coord.rs puts the result
-- in the place of the source, for the files that src/main.rs finds. Each frame is parsed down to
-- its TCP or UDP header (src/parse.rs), a policy on ports and first bytes decides (src/policy.rs),
-- and a frame to be shortened is cut and its fields are rewritten (src/truncate.rs) with the
-- checksums of src/checksum.rs; src/packet.rs composes the three. Paths are those of the
-- repository.
--
--   Prelude     bytes, `Run` (a value, a panic, or fuel that ran out), slices, lemmas on lists.
--   Checksum    src/checksum.rs: `checksum_sum`, `finish`, the pseudo-header sums. Sums are `u32`
--               that wrap, as in a release build; `debug_assert!` is left out. Fold, Words and
--               Verify hold the proofs; Receiver is what the other end checks.
--   Parse       src/parse.rs: Frame, PseudoDst and Parse have every function. `frame[i]` is `byte`,
--               which panics out of range. L2, L4, Ipv4, Ipv6 and Options follow the layers, Total
--               and Located the whole; Destination describes the options of IPv4.
--   Policy      src/policy.rs: `decide_action` and below; Rules and Total hold the proofs, Document
--               compares with pcap-slim-algorithm.md.
--   Truncate    src/truncate.rs: every function, the buffer passed on from update to update.
--   Packet      src/packet.rs: `process_packet`; Decision, Panic, Idempotent and Documented hold the
--               proofs.
--   PcapIo      src/pcap_io.rs: Base (errors, readers, statistics), Header (byte order and magic),
--               Batch (`WriteBatch`), Slim (`slim_pcap_with_options`, `analyze_pcap_with_options`),
--               Count (`count_packets_with_options`). Format describes captures; Steps, Packets,
--               Refine, Analyzed, Counted, Ends, Charged and Whole hold the proofs.
--   Limit       src/limit.rs: the batching of `acquire_io` and `flush_io`. Float is what the code
--               does with `f64`, as an interface with laws of IEEE 754; Bucket is `IoBucket`,
--               Governor `CpuGovernor`, Config `LimitConfig::build` and Calls the calls of
--               `ResourceLimits` on them; Lasting holds a proof. What clock, load and CPU time
--               answer is given, and a sleep is recorded.
--   Disk        files by path, for src/coord.rs: each call takes from a list whether it fails.
--   Coord       src/coord.rs: `slim_file_in_place`, `check_file` and below; Paths, Calls,
--               Transaction, Again, Success, Alike, Local and Outside hold the proofs. Listing is
--               `cleanup_stale_tmp` and `list_pending_pcaps` on what `read_dir` and `metadata`
--               return, with Cleanup, Tally, Pending and Order; Utf8 is `OsStr::to_str`.
--   MmapPolicy  src/mmap_policy.rs: `resolve_use_mmap`.
--   Output      src/output.rs: the reports, and the lines printed of them.
--   Main        src/main.rs: `run` on arguments and on a World, which answers for directories,
--               clocks and the thread pool. Files is what is done to each file, with Apart and
--               Independent; Workers is the same in steps, with Stages, Paths and Interleaved;
--               Summary, Captures, Untouched and Whole hold the proofs.
--   Testutil    src/testutil.rs: the frame builders; Fixtures has the writers of captures. Tests runs
--               the model.
--
-- Fuel. The tag walk has the length of the frame, the walk over extension headers that of the
-- frame too, the walk over IPv4 options the header's length: each round advances by a byte at
-- least. Folding a `u32` takes two rounds. A record loop has the length of the file, since a round
-- reads the 16 bytes of a record header, and skipping a packet has its length.
--
-- Numbers are natural numbers. A cast to `u16` or `u32` is a remainder, a `usize` subtraction that
-- would go below zero is a panic. A file is the bytes left to read and the way in which it ends
-- (end of file, or an error of the device); the written file is a list of bytes and its writer
-- does not fail; the calls of `ResourceLimits` are a log, in slimming and in a run as a whole, so
-- that a call that waits for ever does not show there but in Limit. Where slimming fails, the
-- temporary file is left empty; the program's dropped writer may still write its buffer to it.
-- `open_pcap_reader` with its memory map is
-- outside.
--
-- A run works on its files one after the other. rayon runs them on several threads: Workers has
-- their steps, each a stage of one file, in any order that they come in. A stage (a test of the
-- marker together with the writing of the output, the count, the rename, the marker) is one step;
-- an order inside a stage, and calls that fail while several files are under way, are left out.
--
-- Not modelled: the text of messages (paths, errors, decimals), argument parsing (clap), JSON
-- (serde), the memory map; benches, tests and scripts.
pub mod Prelude
pub mod Checksum
pub mod Parse
pub mod Policy
pub mod Truncate
pub mod Packet
pub mod PcapIo
pub mod Testutil
pub mod Disk
pub mod Limit
pub mod Coord
mod Tests
pub mod MmapPolicy
pub mod Output
pub mod Main
