-- ===== src/Main/Workers.antt =====
-- src/main.rs with several workers: the steps of the files that are processed come in any order.
-- A step is a stage of slim_file_in_place of src/coord.rs, or a check.
pub mod Stages
pub mod Paths
pub mod Interleaved
use rust_pcaprune.Prelude.{
  ℕ, zero, suc, Bool, true, false, List, [], ◌∷◌, if◌then◌else◌, Run, ret, panic, out_of_fuel,
}
use rust_pcaprune.Disk.{FilePath, Disk, path_eq}
use rust_pcaprune.PcapIo.Base.{SlimStats, Limits}
use rust_pcaprune.Coord.{
  CoordError, FileResult, skipped_marker, slimmed, Done, good, bad, OnDisk, is_marked, tmp_path,
  remove_file, rename, slim_path, verify_tmp_packet_count, create_marker, check_file,
}

-- How far a file is: nothing done yet, its output written, counted and moved, an error behind
-- which the temporary file is to be removed, or processed.
pub data Phase : Type 0 where
  waiting : Phase
  written : SlimStats → Limits → Phase
  counted : SlimStats → Phase
  moved : SlimStats → Phase
  aborted : CoordError → Phase
  processed : Run (Done FileResult) → Phase

-- The phase behind each stage, by its result.
abbrev pub on_slim : Run (Done (SlimStats × Limits)) → Phase
on_slim (ret (good (stats, l))) = written stats l
on_slim (ret (bad e)) = aborted e
on_slim panic = processed panic
on_slim out_of_fuel = processed out_of_fuel

abbrev pub on_count : SlimStats → Run (Done Limits) → Phase
on_count stats (ret (good l)) = counted stats
on_count stats (ret (bad e)) = aborted e
on_count stats panic = processed panic
on_count stats out_of_fuel = processed out_of_fuel

abbrev pub on_rename : SlimStats → Run (Done (Unit {0})) → Phase
on_rename stats (ret (good u)) = moved stats
on_rename stats (ret (bad e)) = processed (ret (bad e))
on_rename stats panic = processed panic
on_rename stats out_of_fuel = processed out_of_fuel

abbrev pub on_mark : SlimStats → Run (Done (Unit {0})) → Phase
on_mark stats (ret (good u)) = processed (ret (good (slimmed stats)))
on_mark stats (ret (bad e)) = processed (ret (bad e))
on_mark stats panic = processed panic
on_mark stats out_of_fuel = processed out_of_fuel

abbrev pub behind {ℓ} : {A : Type ℓ} → (Run (Done A) → Phase) → OnDisk A → Disk × Phase
behind next (d, r) = (d, next r)

-- The first step of a file.
unfoldable pub begin_file : (check_only : Bool) → Limits → FilePath → Disk → Disk × Phase
begin_file true limits path d = behind processed (check_file path limits d)
begin_file false limits path d =
    if is_marked d path
    then (d, processed (ret (good skipped_marker)))
    else behind on_slim (slim_path path (tmp_path path) limits d)

-- The next step of a file.
unfoldable pub advance : (check_only : Bool) → Limits → FilePath → Phase → Disk → Disk × Phase
advance check_only limits path waiting d = begin_file check_only limits path d
advance check_only limits path (written stats l) d =
    behind (on_count stats) (verify_tmp_packet_count stats.in_pkts (tmp_path path) l d)
advance check_only limits path (counted stats) d =
    behind (on_rename stats) (rename (tmp_path path) path d)
advance check_only limits path (moved stats) d = behind (on_mark stats) (create_marker path d)
advance check_only limits path (aborted e) d =
    (remove_file (tmp_path path) d, processed (ret (bad e)))
advance check_only limits path (processed r) d = (d, processed r)

-- The disk, and how far each file is.
pub record Workers : Type 0 where
  pub disk : Disk
  pub phase : FilePath → Phase

unfoldable pub start : Disk → Workers
start d = record { disk = d; phase = λ path. waiting }

-- A worker takes the next step of a file.
unfoldable pub work : (check_only : Bool) → Limits → FilePath → Workers → Workers
work check_only limits path s =
    let (d, next) = advance check_only limits path (s.phase path) s.disk in
    record { disk = d; phase = λ q. if path_eq path q then next else s.phase q }

-- The steps that the workers take, in the order in which they come.
unfoldable pub work_all : (check_only : Bool) → Limits → List FilePath → Workers → Workers
work_all check_only limits [] s = s
work_all check_only limits (path ∷ schedule) s =
    work_all check_only limits schedule (work check_only limits path s)

-- So many steps of one file alone.
unfoldable pub alone : (check_only : Bool) → Limits → FilePath → ℕ → Disk × Phase → Disk × Phase
alone check_only limits path zero (d, phase) = (d, phase)
alone check_only limits path (suc n) (d, phase) =
    alone check_only limits path n (advance check_only limits path phase d)
