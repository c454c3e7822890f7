-- ===== src/Main/Summary.antt =====
-- The summary and the result of a run of src/main.rs.
use rust_pcaprune.Prelude.{
  ℕ, suc, ◌+◌, ◌^◌, ◌<◌, ◌≡◌, ◌↔◌, refl, ap₂, subst, List, [], ◌∷◌, Option, none, some, map, length,
  ltb, ltb→lt, ltb-false, Run, ret, panic, out_of_fuel, >>=-eq-ret, ◌>>=◌, arith, Bool-cases, inl,
  inr,
}
use rust_pcaprune.Disk.{FilePath}
use rust_pcaprune.Coord.{FileResult, skipped_marker, slimmed, Done, good, bad}
use rust_pcaprune.Limit.Float.{Float}
use rust_pcaprune.Output.{
  FileStatus, FileReport, RunSummary, report_skipped, report_fail, report_ok,
}
use rust_pcaprune.Main.Files.{report_of, collect_reports}
use rust_pcaprune.Main.{
  Args, World, RunError, files_failed, count_status, summarise, empty_summary, finish_run,
}

-- How many files were slimmed, were skipped and failed, of the results.
abbrev pub Results : Type 0
Results = List (Run (Done FileResult))

abbrev pub one_if : FileStatus → Run (Done FileResult) → ℕ
one_if FileStatus.ok (ret (good (slimmed stats))) = 1
one_if FileStatus.skipped_marker (ret (good skipped_marker)) = 1
one_if FileStatus.fail (ret (bad e)) = 1
one_if status r = 0

abbrev pub number_of : FileStatus → Results → ℕ
number_of status [] = 0
number_of status (r ∷ rs) = one_if status r + number_of status rs

-- The summary counts, on top of what it has, so many of each.
abbrev Adds : RunSummary → RunSummary → Results → Type 0
Adds s s' rs =
    (s'.ok ≡ s.ok + number_of FileStatus.ok rs)
    × (s'.skip ≡ s.skip + number_of FileStatus.skipped_marker rs)
    × (s'.fail ≡ s.fail + number_of FileStatus.fail rs)

abbrev total : RunSummary → ℕ
total s = s.ok + s.skip + s.fail

ret_injective {ℓ} : {A : Type ℓ} (a b : A) → ◌≡◌ {A = Run A} (ret a) (ret b) → a ≡ b
ret_injective a b e = cc

one_more :
    (path : FilePath) (elapsed : ℕ) (r : Run (Done FileResult)) (report : FileReport)
    (s : RunSummary)
    → total s + 1 < 2 ^ 64
    → report_of path elapsed r ≡ ret report
    → Adds s (count_status report.status s) (r ∷ [])
      × (total (count_status report.status s) ≡ total s + 1)
      × (report.file ≡ path)
unfolding report_of count_status report_ok report_skipped report_fail
one_more path elapsed (ret (good (slimmed stats))) report s l e =
    subst
      (λ (x : FileReport).
        Adds s (count_status x.status s) (ret (good (slimmed stats)) ∷ [])
        × (total (count_status x.status s) ≡ total s + 1)
        × (x.file ≡ path))
      (ret_injective (report_ok path stats elapsed) report e)
      ((omega arith, omega arith, omega arith), omega arith, refl)
one_more path elapsed (ret (good skipped_marker)) report s l e =
    subst
      (λ (x : FileReport).
        Adds s (count_status x.status s) (ret (good skipped_marker) ∷ [])
        × (total (count_status x.status s) ≡ total s + 1)
        × (x.file ≡ path))
      (ret_injective (report_skipped path) report e)
      ((omega arith, omega arith, omega arith), omega arith, refl)
one_more path elapsed (ret (bad x)) report s l e =
    subst
      (λ (y : FileReport).
        Adds s (count_status y.status s) (ret (bad x) ∷ [])
        × (total (count_status y.status s) ≡ total s + 1)
        × (y.file ≡ path))
      (ret_injective (report_fail path x) report e)
      ((omega arith, omega arith, omega arith), omega arith, refl)
one_more path elapsed panic report s l e = cc
one_more path elapsed out_of_fuel report s l e = cc

summarise-Adds :
    (elapsed : FilePath → ℕ) (files : List FilePath) (rs : Results) (reports : List FileReport)
    (s : RunSummary)
    → length rs ≡ length files
    → total s + length files < 2 ^ 64
    → collect_reports elapsed files rs ≡ ret reports
    → Adds s (summarise reports s) rs
      × (total (summarise reports s) ≡ total s + length files)
      × (map (λ (r : FileReport). r.file) reports ≡ files)
unfolding collect_reports summarise
summarise-Adds elapsed [] [] reports s n l e =
    subst
      (λ (x : List FileReport).
        Adds s (summarise x s) []
        × (total (summarise x s) ≡ total s + 0)
        × (map (λ (r : FileReport). r.file) x ≡ []))
      (ret_injective [] reports e) ((omega arith, omega arith, omega arith), omega arith, refl)
summarise-Adds elapsed [] (r ∷ rs) reports s n l e = absurd (omega arith)
summarise-Adds elapsed (path ∷ files) [] reports s n l e = absurd (omega arith)
summarise-Adds elapsed (path ∷ files) (r ∷ rs) reports s n l e =
    let (report, a, e₁) =
      >>=-eq-ret (report_of path (elapsed path) r)
        (λ x. collect_reports elapsed files rs >>= λ xs. ret (x ∷ xs)) e in
    let (others, b, e₂) =
      >>=-eq-ret (collect_reports elapsed files rs) (λ xs. ret (report ∷ xs)) e₁ in
    let ((x, y, z), t, p) = one_more path (elapsed path) r report s (omega arith) a in
    let ((x', y', z'), t', q) =
      summarise-Adds elapsed files rs others (count_status report.status s) (omega arith)
        (omega (arith, t)) b in
    subst
      (λ (c : List FileReport).
        Adds s (summarise c s) (r ∷ rs)
        × (total (summarise c s) ≡ total s + suc (length files))
        × (map (λ (v : FileReport). v.file) c ≡ path ∷ files))
      (ret_injective (report ∷ others) reports e₂)
      (
        (omega (arith, x, x'), omega (arith, y, y'), omega (arith, z, z')),
        omega (arith, t, t'),
        ap₂ (◌∷◌) p q,
      )

-- The summary of a run is exact, and the run succeeds exactly where no file failed: if no file of
-- less than 2^64 panics, there is one report for each, in order; the summary counts as many
-- slimmed, skipped and failed files as there are such results, which is all files together; and the
-- result is `Ok(())` if and only if none failed.
pub finish_run_counts :
    {F : Type 0} ⦃f : Float F⦄ (args : Args F) (w : World F) (files : List FilePath) (rs : Results)
    (reports : List FileReport)
    → length rs ≡ length files
    → length files < 2 ^ 64
    → collect_reports w.file_elapsed files rs ≡ ret reports
    → let s = summarise reports (empty_summary w.elapsed args.check_only) in
      (map (λ (r : FileReport). r.file) reports ≡ files)
      × (s.ok ≡ number_of FileStatus.ok rs)
      × (s.skip ≡ number_of FileStatus.skipped_marker rs)
      × (s.fail ≡ number_of FileStatus.fail rs)
      × (s.ok + s.skip + s.fail ≡ length files)
      × (((finish_run args w reports).1 ≡ none) ↔ (number_of FileStatus.fail rs ≡ 0))
unfolding finish_run
finish_run_counts args w files rs reports n l e =
    let s = summarise reports (empty_summary w.elapsed args.check_only) in
    let ((a, b, c), t, m) =
      summarise-Adds w.file_elapsed files rs reports (empty_summary w.elapsed args.check_only) n
        (omega arith) e in
    (
      m,
      omega (arith, a),
      omega (arith, b),
      omega (arith, c),
      omega (arith, t),
      elim (Bool-cases (ltb 0 s.fail)) [
        | inl k ↦
            rw k (λ q. absurd (some_not_none q), λ z. absurd (omega (arith, c, ltb→lt 0 s.fail k)))
        | inr k ↦ rw k (λ q. omega (arith, c, ltb-false 0 s.fail k), λ z. refl)
      ],
    )
  where
    some_not_none : ◌≡◌ {A = Option RunError} (some files_failed) none → ⊥
    some_not_none q = cc
