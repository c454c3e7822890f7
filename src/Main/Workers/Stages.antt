-- ===== src/Main/Workers/Stages.antt =====
-- The steps of one file come to slim_file_in_place and check_file of src/coord.rs.
use rust_pcaprune.Prelude.{
  ℕ, zero, suc, ◌≤◌, ◌≡◌, refl, Bool, true, false, Run, ret, panic, out_of_fuel, arith, inl, inr,
  Bool-cases,
}
use rust_pcaprune.Disk.{FilePath, Disk}
use rust_pcaprune.PcapIo.Base.{SlimStats, Limits}
use rust_pcaprune.Coord.{
  FileResult, skipped_marker, slimmed, Done, good, bad, OnDisk, is_marked, tmp_path, remove_file,
  rename, slim_path, verify_tmp_packet_count, create_marker, finish_file, mark_file, commit_file,
  verify_file, slim_file_in_place, check_file,
}
use rust_pcaprune.Main.Files.{process_path}
use rust_pcaprune.Main.Workers.{
  waiting, processed, on_slim, on_count, on_rename, on_mark, behind, begin_file, advance, alone,
}

module _ (check_only : Bool) (limits : Limits) (path : FilePath) where
  -- A file that is processed stays so.
  alone-processed :
      (n : ℕ) (d : Disk) (r : Run (Done FileResult))
      → alone check_only limits path n (d, processed r) ≡ (d, processed r)
  unfolding alone advance
  alone-processed zero d r = refl
  alone-processed (suc n) d r = alone-processed n d r

  marked_alone :
      (n : ℕ) (stats : SlimStats) (m : OnDisk (Unit {0}))
      → alone check_only limits path n (behind (on_mark stats) m)
        ≡ behind processed (finish_file stats m)
  unfolding finish_file
  marked_alone n stats (d, ret (good u)) = alone-processed n d (ret (good (slimmed stats)))
  marked_alone n stats (d, ret (bad e)) = alone-processed n d (ret (bad e))
  marked_alone n stats (d, panic) = alone-processed n d panic
  marked_alone n stats (d, out_of_fuel) = alone-processed n d out_of_fuel

  renamed_alone :
      (n : ℕ) (stats : SlimStats) (m : OnDisk (Unit {0}))
      → alone check_only limits path (suc n) (behind (on_rename stats) m)
        ≡ behind processed (mark_file path stats m)
  unfolding alone advance mark_file
  renamed_alone n stats (d, ret (good u)) = marked_alone n stats (create_marker path d)
  renamed_alone n stats (d, ret (bad e)) = alone-processed n d (ret (bad e))
  renamed_alone n stats (d, panic) = alone-processed n d panic
  renamed_alone n stats (d, out_of_fuel) = alone-processed n d out_of_fuel

  counted_alone :
      (n : ℕ) (stats : SlimStats) (m : OnDisk Limits)
      → alone check_only limits path (suc (suc n)) (behind (on_count stats) m)
        ≡ behind processed (commit_file path (tmp_path path) stats m)
  unfolding alone advance commit_file
  counted_alone n stats (d, ret (good l)) = renamed_alone n stats (rename (tmp_path path) path d)
  counted_alone n stats (d, ret (bad e)) =
      alone-processed (suc n) (remove_file (tmp_path path) d) (ret (bad e))
  counted_alone n stats (d, panic) = alone-processed n d panic
  counted_alone n stats (d, out_of_fuel) = alone-processed n d out_of_fuel

  slimmed_alone :
      (n : ℕ) (m : OnDisk (SlimStats × Limits))
      → alone check_only limits path (suc (suc (suc n))) (behind on_slim m)
        ≡ behind processed (verify_file path (tmp_path path) m)
  unfolding alone advance verify_file
  slimmed_alone n (d, ret (good (stats, l))) =
      counted_alone n stats (verify_tmp_packet_count stats.in_pkts (tmp_path path) l d)
  slimmed_alone n (d, ret (bad e)) =
      alone-processed (suc (suc n)) (remove_file (tmp_path path) d) (ret (bad e))
  slimmed_alone n (d, panic) = alone-processed n d panic
  slimmed_alone n (d, out_of_fuel) = alone-processed n d out_of_fuel

-- Four steps or more of one file come to what the code does with it in one go, whichever calls of
-- the file system fail.
pub alone-process_path :
    (check_only : Bool) (limits : Limits) (path : FilePath) (n : ℕ) (d : Disk)
    → 4 ≤ n
    → alone check_only limits path n (d, waiting)
      ≡ behind processed (process_path check_only limits path d)
unfolding alone advance begin_file process_path slim_file_in_place
alone-process_path true limits path (suc n) d l =
    let m = check_file path limits d in alone-processed true limits path n m.0 m.1
alone-process_path false limits path (suc (suc (suc (suc n)))) d l =
    elim (Bool-cases (is_marked d path)) [
      | inl f ↦
          rw f (alone-processed false limits path (suc (suc (suc n))) d (ret (good skipped_marker)))
      | inr f ↦ rw f (slimmed_alone false limits path n (slim_path path (tmp_path path) limits d))
    ]
alone-process_path check_only limits path n d l = absurd (omega arith)
