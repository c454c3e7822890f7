-- ===== src/Coord/Outside.antt =====
-- slim_file_in_place of src/coord.rs leaves every other file alone.
use rust_pcaprune.Prelude.{◌≡◌, ◌≢◌, refl, ap, ◌∙◌, ret, panic, out_of_fuel, Bool-cases, inl, inr}
use rust_pcaprune.Disk.{FilePath, Disk}
use rust_pcaprune.PcapIo.Base.{SlimStats, Limits}
use rust_pcaprune.Coord.{
  good, bad, OnDisk, marker_path, is_marked, tmp_path, rename, slim_path, verify_tmp_packet_count,
  create_marker, mark_file, commit_file, verify_file, slim_file_in_place,
}
use rust_pcaprune.Coord.Paths.{tmp_not_src}
use rust_pcaprune.Coord.Calls.{OnlyAt-remove_file, OnlyAt-slim_path}
use rust_pcaprune.Coord.Transaction.{
  verify-content, rename_cases, create_marker-other, finish_file-disk,
}

module _ (src p : FilePath) (not_src : src ≢ p) (not_tmp : tmp_path src ≢ p)
    (not_marker : marker_path src ≢ p) where
  mark_file-outside :
      (stats : SlimStats) (m : OnDisk (Unit {0}))
      → (mark_file src stats m).0.content p ≡ m.0.content p
  unfolding mark_file
  mark_file-outside stats (d, ret (good u)) =
      ap (λ (x : Disk). x.content p) (finish_file-disk stats (create_marker src d))
      ∙ create_marker-other src d p not_marker
  mark_file-outside stats (d, ret (bad e)) = refl
  mark_file-outside stats (d, panic) = refl
  mark_file-outside stats (d, out_of_fuel) = refl

  pub rename-outside : (d : Disk) → (rename (tmp_path src) src d).0.content p ≡ d.content p
  rename-outside d = elim (rename_cases (tmp_path src) src d (tmp_not_src src)) [
    | inl (d', e, _, o) ↦ ap (λ (m : OnDisk (Unit {0})). m.0.content p) e ∙ o p not_tmp not_src
    | inr (d', x, e, o) ↦ ap (λ (m : OnDisk (Unit {0})). m.0.content p) e ∙ o p
  ]

  commit_file-outside :
      (stats : SlimStats) (m : OnDisk Limits)
      → (commit_file src (tmp_path src) stats m).0.content p ≡ m.0.content p
  unfolding commit_file
  commit_file-outside stats (d, ret (good l)) =
      mark_file-outside stats (rename (tmp_path src) src d) ∙ rename-outside d
  commit_file-outside stats (d, ret (bad e)) = OnlyAt-remove_file (tmp_path src) d p not_tmp
  commit_file-outside stats (d, panic) = refl
  commit_file-outside stats (d, out_of_fuel) = refl

  verify_file-outside :
      (m : OnDisk (SlimStats × Limits))
      → (verify_file src (tmp_path src) m).0.content p ≡ m.0.content p
  unfolding verify_file
  verify_file-outside (d, ret (good (stats, l))) =
      commit_file-outside stats (verify_tmp_packet_count stats.in_pkts (tmp_path src) l d)
      ∙ verify-content stats.in_pkts (tmp_path src) l d p
  verify_file-outside (d, ret (bad e)) = OnlyAt-remove_file (tmp_path src) d p not_tmp
  verify_file-outside (d, panic) = refl
  verify_file-outside (d, out_of_fuel) = refl

  pub slim_file_in_place-outside :
      (limits : Limits) (d : Disk) → (slim_file_in_place src limits d).0.content p ≡ d.content p
  unfolding slim_file_in_place
  slim_file_in_place-outside limits d = elim (Bool-cases (is_marked d src)) [
    | inl f ↦ rw f refl
    | inr f ↦ rw f (
        verify_file-outside (slim_path src (tmp_path src) limits d)
        ∙ OnlyAt-slim_path src (tmp_path src) limits d p not_tmp)
  ]
