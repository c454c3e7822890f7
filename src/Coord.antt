-- ===== src/Coord.antt =====
-- src/coord.rs: slimming a file in place, its marker and its temporary file.
pub mod Paths
pub mod Calls
pub mod Transaction
pub mod Again
pub mod Success
pub mod Alike
pub mod Local
pub mod Outside
pub mod Utf8
pub mod Listing
use rust_pcaprune.Prelude.{
  ℕ, ◌≡◌, Bool, true, false, List, [], ◌∷◌, ◌++◌, Option, none, some, ◌==◌, if◌then◌else◌, Bytes,
  Run, ret, panic, out_of_fuel, take,
}
use rust_pcaprune.Disk.{FilePath, Disk, next_fault, rest_faults, fails, tried, put_file, exists}
use rust_pcaprune.PcapIo.Base.{
  PcapError, io_fault, Res, ok, err, Io, Ending, end_of_file, device_error, Reader, SlimStats,
  Limits,
}
use rust_pcaprune.PcapIo.Slim.{slim_pcap_with_options, analyze_pcap_with_options}
use rust_pcaprune.PcapIo.Count.{count_packets_with_options}

-- `CoordError`
pub data CoordError : Type 0 where
  io_error : CoordError
  pcap_error : PcapError → CoordError
  packet_count_mismatch : ℕ → ℕ → CoordError

-- `FileResult`, with the statistics that go with `Ok`.
pub data FileResult : Type 0 where
  skipped_marker : FileResult
  slimmed : SlimStats → FileResult

-- `Result<A, CoordError>` of code that may panic, with the disk that it leaves behind.
pub data Done {ℓ} (A : Type ℓ) : Type ℓ where
  good : A → Done A
  bad : CoordError → Done A

abbrev pub OnDisk {ℓ} : Type ℓ → Type ℓ
OnDisk A = Disk × Run (Done A)

abbrev pub marker_dir : Bytes
marker_dir =
    b'.' ∷ b's' ∷ b'l' ∷ b'i' ∷ b'm' ∷ b'_' ∷ b'm' ∷ b'a' ∷ b'r' ∷ b'k' ∷ b'e' ∷ b'r' ∷ b's' ∷ []

unfoldable pub marker_path : FilePath → FilePath
marker_path src = record { dir = src.dir ++ marker_dir ∷ []; name = src.name }

unfoldable pub is_marked : Disk → FilePath → Bool
is_marked d src = exists d (marker_path src)

-- The name in front of its last dot.
unfoldable pub before_dot : Bytes → Option Bytes
before_dot [] = none
before_dot (x ∷ xs) = elim (before_dot xs) [
  | some s ↦ some (x ∷ s)
  | none ↦ if x == b'.' then some [] else none
]

-- `Path::file_stem`: a name whose only dot is in front has no extension.
unfoldable pub file_stem : Bytes → Bytes
file_stem name = elim (before_dot name) [ none ↦ name | some [] ↦ name | some (x ∷ s) ↦ x ∷ s ]

abbrev pub tmp_extension : Bytes
tmp_extension = b'.' ∷ b'p' ∷ b'c' ∷ b'a' ∷ b'p' ∷ b'.' ∷ b't' ∷ b'm' ∷ b'p' ∷ []

-- `src.with_extension("pcap.tmp")`
unfoldable pub tmp_path : FilePath → FilePath
tmp_path src = record { dir = src.dir; name = file_stem src.name ++ tmp_extension }

-- `fs::remove_file(…)`, its result thrown away.
unfoldable pub remove_file : FilePath → Disk → Disk
remove_file p d = if fails d then tried d else put_file p none (tried d)

-- `fs::rename(from, to)?`
unfoldable pub rename : FilePath → FilePath → Disk → OnDisk (Unit {0})
rename from to d = if fails d then (tried d, ret (bad io_error)) else elim (d.content from) [
  | none ↦ (tried d, ret (bad io_error))
  | some b ↦ (put_file from none (put_file to (some b) (tried d)), ret (good tt))
]

-- A file that is opened: its bytes, and a device that fails at their end or does not.
abbrev pub opened : Bytes → Bool → Reader
opened b fault = record { rest = b; ending = if fault then device_error else end_of_file }

-- The end of `slim_pcap_with_options`: its output is on the disk, or some of it.
unfoldable pub store_output :
    FilePath → Io (Bytes × SlimStats × Limits) → Disk → OnDisk (SlimStats × Limits)
store_output tmp (ret (ok (out, stats, l))) d =
    if fails d
    then (put_file tmp (some (take d.partial out)) (tried d), ret (bad (pcap_error io_fault)))
    else (put_file tmp (some out) (tried d), ret (good (stats, l)))
store_output tmp (ret (err e)) d = (d, ret (bad (pcap_error e)))
store_output tmp panic d = (d, panic)
store_output tmp out_of_fuel d = (d, out_of_fuel)

-- `slim_pcap_with_options(src, tmp)`: `File::create`, the run, and the writes.
unfoldable pub slim_path : FilePath → FilePath → Limits → Disk → OnDisk (SlimStats × Limits)
slim_path src tmp limits d =
    if fails d
    then (tried d, ret (bad (pcap_error io_fault)))
    else let created = put_file tmp (some []) (tried d) in
      elim (created.content src) [
        | none ↦ (created, ret (bad (pcap_error io_fault)))
        | some input ↦
            store_output tmp (slim_pcap_with_options (opened input (fails created)) limits)
              (tried created)
      ]

-- `verify_tmp_packet_count`, on what counting the temporary file returned.
unfoldable pub compare_count : ℕ → Io (ℕ × Limits) → Run (Done Limits)
compare_count expected (ret (ok (out_count, l))) =
    if out_count == expected
    then ret (good l)
    else ret (bad (packet_count_mismatch expected out_count))
compare_count expected (ret (err e)) = ret (bad (pcap_error e))
compare_count expected panic = panic
compare_count expected out_of_fuel = out_of_fuel

unfoldable pub verify_tmp_packet_count : ℕ → FilePath → Limits → Disk → OnDisk Limits
verify_tmp_packet_count expected tmp limits d = elim (d.content tmp) [
  | none ↦ (tried d, ret (bad (pcap_error io_fault)))
  | some b ↦
      (tried d, compare_count expected (count_packets_with_options (opened b (fails d)) limits))
]

-- `create_marker`: the directory, its permissions, the empty file, its permissions, its owner.
unfoldable pub create_marker : FilePath → Disk → OnDisk (Unit {0})
create_marker src d =
    if fails d
    then (tried d, ret (bad io_error))
    else let made = tried d in
      if fails made
      then (tried made, ret (bad io_error))
      else let permitted = tried made in
        if fails permitted
        then (tried permitted, ret (bad io_error))
        else let written = put_file (marker_path src) (some []) (tried permitted) in
          if fails written
          then (tried written, ret (bad io_error))
          else (tried (tried written), ret (good tt))

-- `fs::rename(&tmp, src)?; create_marker(src)?; Ok(…)`
unfoldable pub finish_file : SlimStats → OnDisk (Unit {0}) → OnDisk FileResult
finish_file stats (d, ret (good u)) = (d, ret (good (slimmed stats)))
finish_file stats (d, ret (bad e)) = (d, ret (bad e))
finish_file stats (d, panic) = (d, panic)
finish_file stats (d, out_of_fuel) = (d, out_of_fuel)

unfoldable pub mark_file : FilePath → SlimStats → OnDisk (Unit {0}) → OnDisk FileResult
mark_file src stats (d, ret (good u)) = finish_file stats (create_marker src d)
mark_file src stats (d, ret (bad e)) = (d, ret (bad e))
mark_file src stats (d, panic) = (d, panic)
mark_file src stats (d, out_of_fuel) = (d, out_of_fuel)

-- `if let Err(e) = verify_tmp_packet_count(…)`
unfoldable pub commit_file : FilePath → FilePath → SlimStats → OnDisk Limits → OnDisk FileResult
commit_file src tmp stats (d, ret (good l)) = mark_file src stats (rename tmp src d)
commit_file src tmp stats (d, ret (bad e)) = (remove_file tmp d, ret (bad e))
commit_file src tmp stats (d, panic) = (d, panic)
commit_file src tmp stats (d, out_of_fuel) = (d, out_of_fuel)

-- `match slim_pcap_with_options(…)`
unfoldable pub verify_file : FilePath → FilePath → OnDisk (SlimStats × Limits) → OnDisk FileResult
verify_file src tmp (d, ret (good (stats, l))) =
    commit_file src tmp stats (verify_tmp_packet_count stats.in_pkts tmp l d)
verify_file src tmp (d, ret (bad e)) = (remove_file tmp d, ret (bad e))
verify_file src tmp (d, panic) = (d, panic)
verify_file src tmp (d, out_of_fuel) = (d, out_of_fuel)

unfoldable pub slim_file_in_place : FilePath → Limits → Disk → OnDisk FileResult
slim_file_in_place src limits d =
    if is_marked d src
    then (d, ret (good skipped_marker))
    else verify_file src (tmp_path src) (slim_path src (tmp_path src) limits d)

-- `check_file`, on what analysing the file returned.
unfoldable pub checked : Io (SlimStats × Limits) → Run (Done FileResult)
checked (ret (ok (stats, l))) = ret (good (slimmed stats))
checked (ret (err e)) = ret (bad (pcap_error e))
checked panic = panic
checked out_of_fuel = out_of_fuel

unfoldable pub check_file : FilePath → Limits → Disk → OnDisk FileResult
check_file src limits d =
    if is_marked d src then (d, ret (good skipped_marker)) else elim (d.content src) [
      | none ↦ (tried d, ret (bad (pcap_error io_fault)))
      | some input ↦ (tried d, checked (analyze_pcap_with_options (opened input (fails d)) limits))
    ]
