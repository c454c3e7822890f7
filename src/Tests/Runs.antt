-- ===== src/Tests/Runs.antt =====
-- Runs of the program over that directory.
use rust_pcaprune.Prelude.{
  ◌+◌, ◌*◌, ◌^◌, ◌≡◌, ◌≢◌, ◌↔◌, ◌⊎◌, refl, sym, subst, Bool, true, false, List, [], ◌∷◌, Option,
  none, some, map, ret, arith, Bool-cases, inl, inr, ◌||◌, ◌&&◌, ◌∙◌, ◌≤◌,
}
use mathlib.Core.List.{Memᴰ}
use rust_pcaprune.Disk.{FilePath, Disk, path_eq, dir_eq, bytes_eq, put_file, path_eq-eq}
use rust_pcaprune.Coord.{io_error, skipped_marker, good, bad, remove_file}
use rust_pcaprune.Coord.Utf8.{to_str}
use rust_pcaprune.Coord.Local.{Footprint}
use rust_pcaprune.Coord.Listing.{
  DirEntry, entry_path, ends_with, pcap_extension, str_or_empty, mtime_cutoff, too_young,
  cleanup_stale_tmp, cleanup_tmp_older_than, clean_entries, clean_entry, clean_path, removes,
  is_older, cutoff_at,
}
use rust_pcaprune.Coord.Listing.Pending.{Readable}
use rust_pcaprune.Limit.Float.{Thousandths, thousandths}
use rust_pcaprune.Output.{FileStatus, FileReport, report_skipped, report_fail}
use rust_pcaprune.Main.{human, Args, World, run, empty_summary, summarise, finish_run}
use rust_pcaprune.Main.Captures.{HoldsCapture, Slimmed}
use rust_pcaprune.Main.Files.{process_path, collect_reports, report_of}
use rust_pcaprune.Main.Files.Independent.{AllApart}
use rust_pcaprune.Main.Files.Apart.{Captured, Captured-Apart}
use rust_pcaprune.Main.Summary.{Results, number_of, finish_run_counts}
use rust_pcaprune.Main.Workers.{work_all, start, processed}
use rust_pcaprune.Main.Workers.Paths.{times}
use rust_pcaprune.Main.Workers.Interleaved.{work_all_any_order}
use rust_pcaprune.Main.Untouched.{Stale, run_leaves_files}
use rust_pcaprune.Main.Whole.{cleaned, Pending, run_slims_directory}
use rust_pcaprune.Tests.Captures.{
  little, ghdr, source, packets, cut_header, packets-Capture, packets-NoneCut,
}
use rust_pcaprune.Tests.Listings.{
  a_pcap, b_pcap, x_tmp, entry_a, entry_b, entry_x, entries, here, three_files, differ,
  entries-Distinct,
}

abbrev args : Args Thousandths
args = record {
  dir = some here;
  single = none;
  workers = 2;
  dry_run = false;
  check_only = false;
  output = human;
  max_io_mbps = some 10000;
  max_cpu_percent = none;
  cpu_backoff_above = none;
  cpu_backoff_strength = 500;
  age_minutes = none;
  no_mmap = false;
  mmap = false;
}

abbrev world : World Thousandths
world = record {
  read_dir = λ d dir. some entries;
  cleanup_now = 300 * 10 ^ 9 + 7;
  listing_now = 300 * 10 ^ 9 + 7;
  parallelism = some 4;
  readings = record { now = 0; load = some 1000; usage = none };
  builds_pool = λ n. true;
  file_elapsed = λ p. 3;
  elapsed = 6;
  mmap_feature = true;
}

abbrev disk : Disk
disk = three_files source

a-Captured : Captured a_pcap
unfolding ends_with bytes_eq
a-Captured = (refl, differ a_pcap pcap_extension refl)

b-Captured : Captured b_pcap
unfolding ends_with bytes_eq
b-Captured = (refl, differ b_pcap pcap_extension refl)

a_not_b : a_pcap ≢ b_pcap
unfolding bytes_eq
a_not_b = differ a_pcap b_pcap refl

abbrev two : List FilePath
two = entry_path here entry_a ∷ entry_path here entry_b ∷ []

two-AllApart : AllApart two
unfolding entry_path
two-AllApart = (
  λ b m. elim m [
    | Memᴰ.head q ↦
        subst (λ p. (r : FilePath) → Footprint (entry_path here entry_a) r → Footprint p r → ⊥)
          (sym q)
          (Captured-Apart (entry_path here entry_a) (entry_path here entry_b) refl a_not_b
            a-Captured b-Captured)
    | Memᴰ.tail n ↦ elim n [ ]
  ],
  (λ b m. elim m [ ], tt),
)

-- The steps of two workers, each on one of the files.
abbrev schedule : List FilePath
schedule =
    let a = entry_path here entry_a in
    let b = entry_path here entry_b in a ∷ b ∷ b ∷ a ∷ a ∷ b ∷ a ∷ b ∷ []

abbrev all_in : List FilePath → Bool
all_in [] = true
all_in (q ∷ rest) =
    (path_eq (entry_path here entry_a) q || path_eq (entry_path here entry_b) q) && all_in rest

one_of :
    (path : FilePath) (schedule : List FilePath)
    → all_in schedule ≡ true
    → Memᴰ path schedule
    → Memᴰ path two
one_of path [] h m = elim m [ ]
one_of path (q ∷ rest) h m = elim (Bool-cases (path_eq (entry_path here entry_a) q)) [
  | inl e ↦ elim m [
    | Memᴰ.head x ↦ Memᴰ.head (x ∙ sym (path_eq-eq (entry_path here entry_a) q e))
    | Memᴰ.tail n ↦ one_of path rest (rw e at h) n
  ]
  | inr e ↦ elim (Bool-cases (path_eq (entry_path here entry_b) q)) [
    | inl i ↦ elim m [
      | Memᴰ.head x ↦ Memᴰ.tail (Memᴰ.head (x ∙ sym (path_eq-eq (entry_path here entry_b) q i)))
      | Memᴰ.tail n ↦ one_of path rest (rw (e, i) at h) n
    ]
    | inr i ↦ absurd (false_not_true (rw (e, i) at h))
  ]
]
  where
    false_not_true : false ≡ true → ⊥
    false_not_true q = cc

schedule_in : all_in schedule ≡ true
unfolding path_eq dir_eq bytes_eq entry_path
schedule_in = refl

work_all_any_order_example :
    let s = work_all false none schedule (start disk) in
    ((path : FilePath)
      → Memᴰ path two
      → 4 ≤ times path schedule
      → let m = process_path false none path disk in
        (s.phase path ≡ processed m.1)
        × ((p : FilePath) → Footprint path p → s.disk.content p ≡ m.0.content p))
    × ((p : FilePath)
        → ((path : FilePath) → Memᴰ path two → ¬ Footprint path p)
        → s.disk.content p ≡ disk.content p)
work_all_any_order_example =
    work_all_any_order false none two schedule disk refl two-AllApart
      (λ path m. one_of path schedule schedule_in m)

abbrev results : Results
results = ret (good skipped_marker) ∷ ret (bad io_error) ∷ []

abbrev reports : List FileReport
reports =
    report_skipped (entry_path here entry_a) ∷ report_fail (entry_path here entry_b) io_error ∷ []

collected-reports : collect_reports world.file_elapsed two results ≡ ret reports
unfolding collect_reports report_of
collected-reports = refl

finish_run_counts_example :
    let s = summarise reports (empty_summary 6 false) in
    (map (λ (r : FileReport). r.file) reports ≡ two)
    × (s.ok ≡ number_of FileStatus.ok results)
    × (s.skip ≡ number_of FileStatus.skipped_marker results)
    × (s.fail ≡ number_of FileStatus.fail results)
    × (s.ok + s.skip + s.fail ≡ 2)
    × (((finish_run args world reports).1 ≡ none) ↔ (number_of FileStatus.fail results ≡ 0))
finish_run_counts_example =
    finish_run_counts args world two results reports refl (omega arith) collected-reports

abbrev dry_args : Args Thousandths
dry_args = record args { dry_run = true }

run_leaves_files_example :
    ((run dry_args world disk).0.content (entry_path here entry_x)
      ≡ disk.content (entry_path here entry_x))
    ⊎ (((run dry_args world disk).0.content (entry_path here entry_x) ≡ none)
        × (false ≡ false)
        × Stale dry_args world disk (entry_path here entry_x))
run_leaves_files_example = run_leaves_files dry_args world disk (entry_path here entry_x) (inr refl)

abbrev clean_disk : Disk
clean_disk = cleaned args world here disk

holds_a : clean_disk.content (entry_path here entry_a) ≡ some source
unfolding cleanup_stale_tmp cleanup_tmp_older_than clean_entries clean_entry clean_path removes
    is_older ends_with bytes_eq path_eq dir_eq entry_path remove_file put_file cutoff_at
holds_a = refl

holds_b : clean_disk.content (entry_path here entry_b) ≡ some source
unfolding cleanup_stale_tmp cleanup_tmp_older_than clean_entries clean_entry clean_path removes
    is_older ends_with bytes_eq path_eq dir_eq entry_path remove_file put_file cutoff_at
holds_b = refl

x_not_pcap : ends_with pcap_extension (str_or_empty x_tmp) ≡ false
unfolding ends_with str_or_empty to_str bytes_eq
x_not_pcap = refl

x_not_bare : x_tmp ≢ pcap_extension
unfolding bytes_eq
x_not_bare = differ x_tmp pcap_extension refl

-- A property of the three entries.
each_entry :
    (P : DirEntry → Type 0)
    → P entry_a
    → P entry_x
    → P entry_b
    → (e : DirEntry) → Memᴰ (some e) entries
    → P e
each_entry P a x b e m = elim m [
  | Memᴰ.head q ↦ subst P (sym (some_injective e entry_a q)) a
  | Memᴰ.tail n ↦ elim n [
    | Memᴰ.head q ↦ subst P (sym (some_injective e entry_x q)) x
    | Memᴰ.tail k ↦ elim k [
      | Memᴰ.head q ↦ subst P (sym (some_injective e entry_b q)) b
      | Memᴰ.tail l ↦ elim l [ ]
    ]
  ]
]
  where
    some_injective : (a b : DirEntry) → ◌≡◌ {A = Option DirEntry} (some a) (some b) → a ≡ b
    some_injective a b q = cc

-- A file of the directory that holds the capture of the other tests.
abbrev holds : (p : FilePath) → clean_disk.content p ≡ some source → HoldsCapture clean_disk p
holds p h = (little, ghdr, cut_header, packets, packets-Capture, packets-NoneCut, h)

clash : {x : Bool} → x ≡ true → x ≡ false → ⊥
clash a b = cc

listed-Readable : Readable (mtime_cutoff world.listing_now none) entries
unfolding mtime_cutoff too_young
listed-Readable = (some_not_none, (some_not_none, (some_not_none, tt)))
  where
    some_not_none : ◌≡◌ {A = Option Bool} (some false) none → ⊥
    some_not_none e = cc

run_slims_directory_example :
    ((run args world disk).2 ≡ ret none)
    × ((e : DirEntry)
        → Pending args world here entries disk e
        → Slimmed clean_disk (run args world disk).0 (entry_path here e))
    × ((q : FilePath)
        → ((e : DirEntry)
            → Pending args world here entries disk e
            → ¬ Footprint (entry_path here e) q)
        → (run args world disk).0.content q ≡ clean_disk.content q)
run_slims_directory_example =
    run_slims_directory args world here entries disk refl refl refl refl (λ n. refl) refl refl
      entries-Distinct listed-Readable
      (each_entry (λ e. e.name ≢ pcap_extension) a-Captured.1 x_not_bare b-Captured.1)
      (λ e (m, p).
        each_entry
          (λ x.
            ends_with pcap_extension (str_or_empty x.name) ≡ true
            → HoldsCapture clean_disk (entry_path here x))
          (λ _. holds (entry_path here entry_a) holds_a) (λ t. absurd (clash t x_not_pcap))
          (λ _. holds (entry_path here entry_b) holds_b) e m p.1)
