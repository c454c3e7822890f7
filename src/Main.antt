-- ===== src/Main.antt =====
-- src/main.rs: the command line and a run. What the rest of the machine answers is in a World;
-- what is printed is a list of messages.
pub mod Files
pub mod Summary
pub mod Captures
pub mod Untouched
pub mod Workers
pub mod Whole
use rust_pcaprune.Prelude.{
  ℕ, ◌+◌, ◌%◌, ◌^◌, Bool, true, false, not, ◌&&◌, List, [], ◌∷◌, ◌++◌, map, Option, none, some,
  Bytes, min, max, ltb, length, if◌then◌else◌, Run, ret, panic, out_of_fuel,
}
use mathlib.Core.Option
use rust_pcaprune.Disk.{FilePath, Disk}
use rust_pcaprune.PcapIo.Base.{Limits}
use rust_pcaprune.Coord.{FileResult, Done}
use rust_pcaprune.Coord.Listing.{ReadDir, cleanup_stale_tmp, list_pending_pcaps}
use rust_pcaprune.Limit.Float.{Float}
use rust_pcaprune.Limit.Config.{LimitConfig, ResourceLimits, build}
use rust_pcaprune.Limit.Governor.{Readings}
use rust_pcaprune.MmapPolicy.{dir_mmap_max_workers, resolve_use_mmap}
use rust_pcaprune.Output.{
  FileStatus, FileReport, RunSummary, RunReport, Line, print_human, print_json,
}
use rust_pcaprune.Main.Files.{process_files, collect_reports}

pub data OutputFormat : Type 0 where
  human json : OutputFormat

-- The arguments as clap parses them, which refuses `--dir` together with `--single`.
pub record Args {ℓ} (F : Type ℓ) : Type ℓ where
  pub dir : Option (List Bytes)
  pub single : Option FilePath
  pub workers : ℕ
  pub dry_run : Bool
  pub check_only : Bool
  pub output : OutputFormat
  pub max_io_mbps : Option F
  pub max_cpu_percent : Option F
  pub cpu_backoff_above : Option F
  pub cpu_backoff_strength : F
  pub age_minutes : Option ℕ
  pub no_mmap : Bool
  pub mmap : Bool

-- What the machine answers to a run: directories, clocks, the processor, and whether the thread
-- pool of rayon can be built.
pub record World {ℓ} (F : Type ℓ) : Type ℓ where
  pub read_dir : Disk → List Bytes → ReadDir
  pub cleanup_now : ℕ
  pub listing_now : ℕ
  pub parallelism : Option ℕ
  pub readings : Readings F
  pub builds_pool : ℕ → Bool
  pub file_elapsed : FilePath → ℕ
  pub elapsed : ℕ
  pub mmap_feature : Bool

pub data LimitPart {ℓ} (F : Type ℓ) : Type ℓ where
  io_part : F → LimitPart F
  cpu_cap_part : F → LimitPart F
  backoff_part : F → F → LimitPart F

pub data Message {ℓ} (F : Type ℓ) : Type ℓ where
  workers_without_effect : ℕ → Message F
  age_without_effect : Message F
  limits_message : List (LimitPart F) → Message F
  cleaned_message : ℕ → Message F
  nothing_to_process : Message F
  would_slim : OutputFormat → FilePath → Message F
  mapped_input : ℕ → Message F
  buffered_input : ℕ → Message F
  report_line : Line → Message F

-- The error that `run` returns.
pub data RunError : Type 0 where
  listing_failed no_input pool_failed files_failed : RunError

-- A run: the disk, the messages, and `Ok(())` or an error.
abbrev pub Outcome {ℓ} : Type ℓ → Type ℓ
Outcome F = Disk × List (Message F) × Run (Option RunError)

abbrev pub is_some {ℓ} : {A : Type ℓ} → Option A → Bool
is_some none = false
is_some (some a) = true

abbrev pub message_if {ℓ} : {F : Type ℓ} → Bool → Message F → List (Message F)
message_if true m = m ∷ []
message_if false m = []

abbrev parts_message {ℓ} : {F : Type ℓ} → List (LimitPart F) → List (Message F)
parts_message [] = []
parts_message (p ∷ parts) = limits_message (p ∷ parts) ∷ []

abbrev option_list {ℓ κ} : {A : Type ℓ} {B : Type κ} → (A → B) → Option A → List B
option_list g none = []
option_list g (some a) = g a ∷ []

-- `log_limits`
unfoldable pub log_limits {ℓ} : {F : Type ℓ} → LimitConfig F → List (Message F)
log_limits config = parts_message (
    option_list io_part config.max_io_mbps
    ++ option_list cpu_cap_part config.max_cpu_percent
    ++ option_list (λ above. backoff_part above config.cpu_backoff_strength)
        config.cpu_backoff_above)

-- `log_io_mode`
unfoldable pub log_io_mode {ℓ} :
    {F : Type ℓ} → (use_mmap is_dir_mode : Bool) → ℕ → (force_mmap : Bool) → List (Message F)
log_io_mode use_mmap false worker_count force_mmap = []
log_io_mode true true worker_count force_mmap =
    message_if (ltb dir_mmap_max_workers worker_count && not force_mmap)
      (mapped_input dir_mmap_max_workers)
log_io_mode false true worker_count force_mmap =
    message_if (ltb dir_mmap_max_workers worker_count) (buffered_input dir_mmap_max_workers)

-- The warnings that a run starts with.
unfoldable pub warnings {ℓ} : {F : Type ℓ} → Args F → List (Message F)
warnings args =
    message_if (is_some args.single && ltb 1 args.workers) (workers_without_effect args.workers)
    ++ message_if (is_some args.age_minutes && is_some args.single) age_without_effect

abbrev pub print_report : OutputFormat → RunReport → List Line
print_report human report = print_human report
print_report json report = print_json report

-- One more file with its status; the counts are `u64`.
unfoldable pub count_status : FileStatus → RunSummary → RunSummary
count_status FileStatus.ok s = record s { ok = (s.ok + 1) % 2 ^ 64 }
count_status FileStatus.skipped_marker s = record s { skip = (s.skip + 1) % 2 ^ 64 }
count_status FileStatus.fail s = record s { fail = (s.fail + 1) % 2 ^ 64 }

-- `for r in &file_reports`
unfoldable pub summarise : List FileReport → RunSummary → RunSummary
summarise [] s = s
summarise (r ∷ reports) s = summarise reports (count_status r.status s)

abbrev pub empty_summary : ℕ → Bool → RunSummary
empty_summary elapsed check_only = record {
  ok = 0;
  skip = 0;
  fail = 0;
  elapsed_ms = elapsed;
  check_only = check_only;
}

module _ {ℓ} {F : Type ℓ} ⦃f : Float F⦄ where
  unfoldable pub limit_config : Args F → LimitConfig F
  limit_config args = record {
    max_io_mbps = args.max_io_mbps;
    max_cpu_percent = args.max_cpu_percent;
    cpu_backoff_above = args.cpu_backoff_above;
    cpu_backoff_strength = args.cpu_backoff_strength;
  }

  -- Limits that are built have been called by nothing yet.
  unfoldable pub run_limits : Args F → World F → Limits
  run_limits args w = Option.map (λ r. []) (build (limit_config args) w.parallelism w.readings)

  -- The summary, the report that is printed, and the result.
  unfoldable pub finish_run :
      Args F → World F → List FileReport → List (Message F) × Option RunError
  finish_run args w reports =
      let summary = summarise reports (empty_summary w.elapsed args.check_only) in
      let report : RunReport = record { summary = summary; files = reports } in
      (
        map report_line (print_report args.output report),
        if ltb 0 summary.fail then some files_failed else none,
      )

  abbrev pub finished : Args F → World F → Disk → Run (List FileReport) → Outcome F
  finished args w d (ret reports) =
      let (messages, result) = finish_run args w reports in (d, messages, ret result)
  finished args w d panic = (d, [], panic)
  finished args w d out_of_fuel = (d, [], out_of_fuel)

  -- `args.workers.max(1).min(files.len())`
  unfoldable pub worker_count : Args F → List FilePath → ℕ
  worker_count args files = min (max args.workers 1) (length files)

  unfoldable pub io_mode_messages : Args F → World F → List FilePath → List (Message F)
  io_mode_messages args w files =
      let is_dir_mode = is_some args.dir in
      let workers = worker_count args files in
      let no_mmap = w.mmap_feature && args.no_mmap in
      let force_mmap = w.mmap_feature && args.mmap in
      log_io_mode (resolve_use_mmap w.mmap_feature is_dir_mode workers no_mmap force_mmap)
        is_dir_mode workers force_mmap

  abbrev pub say : List (Message F) → Outcome F → Outcome F
  say before (d, messages, result) = (d, before ++ messages, result)

  abbrev pub collected :
      Args F → World F → List FilePath → Disk × List (Run (Done FileResult)) → Outcome F
  collected args w files (d, rs) = finished args w d (collect_reports w.file_elapsed files rs)

  -- From `let worker_count` on.
  unfoldable pub run_files : Args F → World F → List FilePath → Disk → Outcome F
  run_files args w files d =
      let before = io_mode_messages args w files in
      let processed =
        collected args w files (process_files args.check_only (run_limits args w) files d) in
      if w.builds_pool (worker_count args files)
      then say before processed
      else (d, before, ret (some pool_failed))

  unfoldable pub empty_run : Args F → List (Message F)
  empty_run args = nothing_to_process ∷ (elim args.output [
    | human ↦ []
    | json ↦
        map report_line
          (print_json (record { summary = empty_summary 0 args.check_only; files = [] }))
  ])

  -- From `if files.is_empty()` on.
  unfoldable pub run_on : Args F → World F → List FilePath → Disk → Outcome F
  run_on args w [] d = (d, empty_run args, ret none)
  run_on args w (path ∷ files) d =
      let processed = run_files args w (path ∷ files) d in
      if args.dry_run then (d, map (would_slim args.output) (path ∷ files), ret none) else processed

  abbrev pub run_listed : Args F → World F → Disk → Option (List FilePath) → Outcome F
  run_listed args w d none = (d, [], ret (some listing_failed))
  run_listed args w d (some files) = run_on args w files d

  -- `list_pending_pcaps(dir, args.age_minutes)?` and what follows.
  unfoldable pub run_listing : Args F → World F → List Bytes → Disk → Outcome F
  run_listing args w dir d =
      run_listed args w d
        (list_pending_pcaps dir args.age_minutes w.listing_now (w.read_dir d dir) d)

  unfoldable pub run_dir : Args F → World F → List Bytes → Disk → Outcome F
  run_dir args w dir d =
      if args.check_only
      then run_listing args w dir d
      else let (d', cleaned) = cleanup_stale_tmp dir (w.read_dir d dir) w.cleanup_now d in
        say (message_if (ltb 0 cleaned) (cleaned_message cleaned)) (run_listing args w dir d')

  -- `if let Some(ref single) = args.single { … } else if let Some(ref dir) = args.dir { … }`
  unfoldable pub run_input :
      Args F → World F → Option FilePath → Option (List Bytes) → Disk → Outcome F
  run_input args w (some path) dir d = run_on args w (path ∷ []) d
  run_input args w none (some dir) d = run_dir args w dir d
  run_input args w none none d = (d, [], ret (some no_input))

  unfoldable pub run : Args F → World F → Disk → Outcome F
  run args w d =
      say (warnings args ++ log_limits (limit_config args))
        (run_input args w args.single args.dir d)

-- The exit code of `main`; a panic ends the process with 101.
unfoldable pub exit_code : Run (Option RunError) → ℕ
exit_code (ret none) = 0
exit_code (ret (some e)) = 1
exit_code panic = 101
exit_code out_of_fuel = 101
