-- ===== src/Main/Files.antt =====
-- src/main.rs on one file after the other: what `par_iter().map(…)` does to each. A file is slimmed
-- or checked in one step; the steps of several workers come in some order.
pub mod Apart
pub mod Independent
use rust_pcaprune.Prelude.{
  ℕ, Bool, true, false, List, [], ◌∷◌, Run, ret, panic, out_of_fuel, ◌>>=◌, if◌then◌else◌,
}
use rust_pcaprune.Disk.{FilePath, Disk}
use rust_pcaprune.PcapIo.Base.{Limits}
use rust_pcaprune.Coord.{
  FileResult, skipped_marker, slimmed, Done, good, bad, OnDisk, slim_file_in_place, check_file,
}
use rust_pcaprune.Output.{FileReport, report_skipped, report_fail, report_ok}

unfoldable pub process_path : (check_only : Bool) → Limits → FilePath → Disk → OnDisk FileResult
process_path check_only limits path d =
    if check_only then check_file path limits d else slim_file_in_place path limits d

-- `match result`: the third arm cannot be reached, since `Ok` has statistics.
unfoldable pub report_of : FilePath → ℕ → Run (Done FileResult) → Run FileReport
report_of path elapsed_ms (ret (good (slimmed stats))) = ret (report_ok path stats elapsed_ms)
report_of path elapsed_ms (ret (good skipped_marker)) = ret (report_skipped path)
report_of path elapsed_ms (ret (bad e)) = ret (report_fail path e)
report_of path elapsed_ms panic = panic
report_of path elapsed_ms out_of_fuel = out_of_fuel

-- The results, in the order of the files, and the disk behind them.
unfoldable pub process_files :
    (check_only : Bool) → Limits → List FilePath → Disk → Disk × List (Run (Done FileResult))
process_files check_only limits [] d = (d, [])
process_files check_only limits (path ∷ files) d =
    let (d', r) = process_path check_only limits path d in
    let (d'', rs) = process_files check_only limits files d' in (d'', r ∷ rs)

-- The reports; a panic of one task is a panic of the run.
unfoldable pub collect_reports :
    (FilePath → ℕ) → List FilePath → List (Run (Done FileResult)) → Run (List FileReport)
collect_reports elapsed_ms [] rs = ret []
collect_reports elapsed_ms (path ∷ files) [] = ret []
collect_reports elapsed_ms (path ∷ files) (r ∷ rs) = do
  report ← report_of path (elapsed_ms path) r
  reports ← collect_reports elapsed_ms files rs
  ret (report ∷ reports)
