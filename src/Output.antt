-- ===== src/Output.antt =====
-- src/output.rs: the report on a run, and what is printed of it. A line is what it is formatted
-- from; the text of paths, errors and times is left out.
use rust_pcaprune.Prelude.{ℕ, Bool, List, [], ◌∷◌, ◌++◌, Option, none, some}
use rust_pcaprune.Disk.{FilePath}
use rust_pcaprune.PcapIo.Base.{SlimStats}
use rust_pcaprune.Coord.{CoordError}

pub data FileStatus : Type 0 where
  ok skipped_marker fail : FileStatus

pub record FileReport : Type 0 where
  pub file : FilePath
  pub status : FileStatus
  pub in_pkts : Option ℕ
  pub truncated : Option ℕ
  pub kept : Option ℕ
  pub in_bytes : Option ℕ
  pub out_bytes : Option ℕ
  pub elapsed_ms : Option ℕ
  pub error : Option CoordError

pub record RunSummary : Type 0 where
  pub ok : ℕ
  pub skip : ℕ
  pub fail : ℕ
  pub elapsed_ms : ℕ
  pub check_only : Bool

pub record RunReport : Type 0 where
  pub summary : RunSummary
  pub files : List FileReport

-- `FileReport::skipped_marker`
unfoldable pub report_skipped : FilePath → FileReport
report_skipped path = record {
  file = path;
  status = FileStatus.skipped_marker;
  in_pkts = none;
  truncated = none;
  kept = none;
  in_bytes = none;
  out_bytes = none;
  elapsed_ms = none;
  error = none;
}

-- `FileReport::fail`
unfoldable pub report_fail : FilePath → CoordError → FileReport
report_fail path err = record {
  file = path;
  status = FileStatus.fail;
  in_pkts = none;
  truncated = none;
  kept = none;
  in_bytes = none;
  out_bytes = none;
  elapsed_ms = none;
  error = some err;
}

-- `FileReport::ok`
unfoldable pub report_ok : FilePath → SlimStats → ℕ → FileReport
report_ok path stats elapsed_ms = record {
  file = path;
  status = FileStatus.ok;
  in_pkts = some stats.in_pkts;
  truncated = some stats.truncated;
  kept = some stats.kept;
  in_bytes = some stats.in_bytes;
  out_bytes = some stats.out_bytes;
  elapsed_ms = some elapsed_ms;
  error = none;
}

-- A line on standard output or standard error.
pub data Line : Type 0 where
  ok_line : FilePath → (pkts truncated in_bytes out_bytes elapsed_ms : ℕ) → Line
  skip_line : FilePath → Line
  fail_line : FilePath → Option CoordError → Line
  summary_line : (check_only : Bool) → (ok_files skipped failed elapsed_ms : ℕ) → Line
  json_line : RunReport → Line

-- `unwrap_or(0)`
unfoldable pub or_zero : Option ℕ → ℕ
or_zero none = 0
or_zero (some n) = n

abbrev file_line : FileStatus → FileReport → Line
file_line FileStatus.ok f =
    ok_line f.file (or_zero f.in_pkts) (or_zero f.truncated) (or_zero f.in_bytes)
      (or_zero f.out_bytes) (or_zero f.elapsed_ms)
file_line FileStatus.skipped_marker f = skip_line f.file
file_line FileStatus.fail f = fail_line f.file f.error

abbrev file_lines : List FileReport → List Line
file_lines [] = []
file_lines (f ∷ files) = file_line f.status f ∷ file_lines files

unfoldable pub print_human : RunReport → List Line
print_human report =
    let s = report.summary in
    file_lines report.files ++ summary_line s.check_only s.ok s.skip s.fail s.elapsed_ms ∷ []

unfoldable pub print_json : RunReport → List Line
print_json report = json_line report ∷ []
