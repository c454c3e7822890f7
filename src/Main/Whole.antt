-- ===== src/Main/Whole.antt =====
-- A whole run of src/main.rs over a directory of captures.
use rust_pcaprune.Prelude.{
  ℕ, ◌≡◌, ◌≢◌, refl, sym, ap, ◌∙◌, subst, Bool, true, false, List, [], ◌∷◌, Option, none, some, map,
  Bytes, ltb, if◌then◌else◌, ret, if_elim, inl, inr,
}
use mathlib.Core.List.{Memᴰ}
use rust_pcaprune.Disk.{FilePath, Disk, is_there}
use rust_pcaprune.PcapIo.Base.{SlimStats}
use rust_pcaprune.Coord.{slimmed, good, marker_path, tmp_path, is_marked}
use rust_pcaprune.Coord.Success.{Sound}
use rust_pcaprune.Coord.Local.{Footprint}
use rust_pcaprune.Coord.Listing.{
  DirEntry, entry_path, pcap_extension, cleanup_stale_tmp, list_pending_pcaps, mtime_cutoff,
  ReadDir,
}
use rust_pcaprune.Coord.Listing.Cleanup.{cleanup_stale_tmp-Sound}
use rust_pcaprune.Coord.Listing.Tally.{Distinct}
use rust_pcaprune.Coord.Listing.Pending.{IsPending, Readable}
use rust_pcaprune.Coord.Listing.Order.{list_pending_pcaps-Pending}
use rust_pcaprune.Limit.Float.{Float}
use rust_pcaprune.Output.{FileReport, RunSummary}
use rust_pcaprune.Main.Files.{process_path, process_files, collect_reports}
use rust_pcaprune.Main.Files.Independent.{AllApart, process_files_independent}
use rust_pcaprune.Main.Files.Apart.{ends_with-str, AllApart-entries}
use rust_pcaprune.Main.{
  Args, World, Outcome, summarise, empty_summary, finish_run, run_limits, collected, finished,
  worker_count, io_mode_messages, run_files, run_on, run_listed, run_listing, run_dir, run_input,
  run, say, message_if, cleaned_message, would_slim, pool_failed, files_failed,
}
use rust_pcaprune.Main.Captures.{
  HoldsCapture, Slimmed, slims_alone, all_slimmed, AllSlimmed, mem_map, map_mem,
}

module _ {F : Type 0} ⦃f : Float F⦄ (args : Args F) (w : World F) where
  finish-none :
      (reports : List FileReport)
      → ((s : RunSummary) → (summarise reports s).fail ≡ s.fail)
      → (finish_run args w reports).1 ≡ none
  unfolding finish_run
  finish-none reports h =
      ap (λ n. if ltb 0 n then some files_failed else none)
        (h (empty_summary w.elapsed args.check_only))

  -- Files that are apart and hold captures, and what processing them comes to.
  processed :
      (files : List FilePath) (d : Disk)
      → Sound d
      → AllApart files
      → ((p : FilePath) → Memᴰ p files → (is_marked d p ≡ false) × HoldsCapture d p)
      → AllSlimmed d files
          (collected args w files (process_files false (run_limits args w) files d))
  unfolding is_marked
  processed files d h apart held =
      let limits = run_limits args w in
      let (results, left, outside) = process_files_independent false limits files d h apart in
      let alone : (p : FilePath)
          → Memᴰ p files
          → ((stats : SlimStats) × ((process_path false limits p d).1 ≡ ret (good (slimmed stats))))
            × Slimmed d (process_path false limits p d).0 p =
        λ p m. slims_alone limits d p h (held p m).0 (held p m).1 in
      let (reports, c, s) =
        all_slimmed w.file_elapsed files (λ p. (process_path false limits p d).1)
          (λ p m. (alone p m).0) in
      let m = process_files false limits files d in
      let e : collected args w files m ≡ finished args w m.0 (ret reports) =
        ap (λ rs. finished args w m.0 (collect_reports w.file_elapsed files rs)) results
        ∙ ap (finished args w m.0) c in
      subst (AllSlimmed d files) (sym e) (
        ap (λ x. ret x) (finish-none reports s),
        λ p i.
            let (en, ghdr, tail, ps, qs, t, k, b, x, a, n, g) = (alone p i).1 in
            (
              en,
              ghdr,
              tail,
              ps,
              qs,
              t,
              k,
              b,
              x,
              left p i p (inl refl) ∙ a,
              left p i (tmp_path p) (inr (inl refl)) ∙ n,
              ap is_there (left p i (marker_path p) (inr (inr refl))) ∙ g,
            ),
        outside,
      )

  runs_files :
      (files : List FilePath) (d : Disk)
      → args.check_only ≡ false
      → ((n : ℕ) → w.builds_pool n ≡ true)
      → AllSlimmed d files
          (collected args w files (process_files false (run_limits args w) files d))
      → AllSlimmed d files (run_files args w files d)
  unfolding run_files
  runs_files files d c b x =
      let run_pool : Bool → Outcome F =
        λ y. collected args w files (process_files y (run_limits args w) files d) in
      if_elim (AllSlimmed d files) (w.builds_pool (worker_count args files))
        (say (io_mode_messages args w files) (run_pool args.check_only))
        (d, io_mode_messages args w files, ret (some pool_failed))
        (λ _. subst (λ (y : Bool). AllSlimmed d files (run_pool y)) (sym c) x)
        (λ n. absurd (clash (b (worker_count args files)) n))
    where
      clash : {x : Bool} → x ≡ true → x ≡ false → ⊥
      clash p q = cc

  runs_on :
      (files : List FilePath) (d : Disk)
      → args.dry_run ≡ false
      → AllSlimmed d files (run_files args w files d)
      → AllSlimmed d files (run_on args w files d)
  unfolding run_on
  runs_on [] d y x = (refl, λ p m. elim m [ ], λ q n. refl)
  runs_on (path ∷ files) d y x =
      if_elim (AllSlimmed d (path ∷ files)) args.dry_run
        (d, map (would_slim args.output) (path ∷ files), ret none)
        (run_files args w (path ∷ files) d) (λ t. absurd (clash t y)) (λ _. x)
    where
      clash : {x : Bool} → x ≡ true → x ≡ false → ⊥
      clash p q = cc

  -- The disk behind the cleaning.
  abbrev pub cleaned : List Bytes → Disk → Disk
  cleaned dir d = (cleanup_stale_tmp dir (w.read_dir d dir) w.cleanup_now d).0

  runs_dir :
      (dir : List Bytes) (files : List FilePath) (d : Disk)
      → args.check_only ≡ false
      → list_pending_pcaps dir args.age_minutes w.listing_now
          (w.read_dir (cleaned dir d) dir)
          (cleaned dir d)
        ≡ some files
      → AllSlimmed (cleaned dir d) files (run_on args w files (cleaned dir d))
      → AllSlimmed (cleaned dir d) files (run_dir args w dir d)
  unfolding run_dir run_listing
  runs_dir dir files d c l x =
      let (d', n) = cleanup_stale_tmp dir (w.read_dir d dir) w.cleanup_now d in
      if_elim (AllSlimmed d' files) args.check_only (run_listing args w dir d)
        (say (message_if (ltb 0 n) (cleaned_message n)) (run_listing args w dir d'))
        (λ t. absurd (clash t c))
        (λ _. subst (λ o. AllSlimmed d' files (run_listed args w d' o)) (sym l) x)
    where
      clash : {x : Bool} → x ≡ true → x ≡ false → ⊥
      clash p q = cc

  runs :
      (dir : List Bytes) (files : List FilePath) (d d' : Disk)
      → args.single ≡ none
      → args.dir ≡ some dir
      → AllSlimmed d' files (run_dir args w dir d)
      → AllSlimmed d' files (run args w d)
  unfolding run run_input
  runs dir files d d' s e x =
      subst (λ o. AllSlimmed d' files (run_input args w o args.dir d)) (sym s)
        (subst (λ o. AllSlimmed d' files (run_input args w none o d)) (sym e) x)

  -- The entries of a directory that are pending behind the cleaning.
  abbrev pub Pending : List Bytes → List (Option DirEntry) → Disk → DirEntry → Type 0
  Pending dir entries d e =
      Memᴰ (some e) entries
      × IsPending dir (mtime_cutoff w.listing_now args.age_minutes) (cleaned dir d) e

  -- A run over a directory slims it: where no call of the file system fails and the thread pool is
  -- built, each name is listed once, each entry (and its time where an age is asked for) can be
  -- read, none has the bare name `.pcap`, and each file that is pending behind the removal of stale
  -- temporary files holds a capture none of whose packets announces IPv4 and ends before its flags.
  -- The run then returns `Ok(())`; each pending file holds the capture of its packets slimmed, is
  -- marked, and has no temporary file; and every path but those files, their temporary files and
  -- their markers is as the removal left it.
  pub run_slims_directory :
      (dir : List Bytes) (entries : List (Option DirEntry)) (d : Disk)
      → args.single ≡ none
      → args.dir ≡ some dir
      → args.dry_run ≡ false
      → args.check_only ≡ false
      → ((n : ℕ) → w.builds_pool n ≡ true)
      → Sound d
      → w.read_dir (cleaned dir d) dir ≡ some entries
      → Distinct entries
      → Readable (mtime_cutoff w.listing_now args.age_minutes) entries
      → ((e : DirEntry) → Memᴰ (some e) entries → e.name ≢ pcap_extension)
      → ((e : DirEntry) → Pending dir entries d e → HoldsCapture (cleaned dir d) (entry_path dir e))
      → ((run args w d).2 ≡ ret none)
        × ((e : DirEntry)
            → Pending dir entries d e
            → Slimmed (cleaned dir d) (run args w d).0 (entry_path dir e))
        × ((q : FilePath)
            → ((e : DirEntry) → Pending dir entries d e → ¬ Footprint (entry_path dir e) q)
            → (run args w d).0.content q ≡ (cleaned dir d).content q)
  run_slims_directory dir entries d s e y c b h r u k bare held =
      let d' = cleaned dir d in
      let (files, l, _, distinct, only) =
        list_pending_pcaps-Pending dir args.age_minutes w.listing_now entries d' u k in
      let paths = map (entry_path dir) files in
      let listed =
        ap (λ (o : ReadDir). list_pending_pcaps dir args.age_minutes w.listing_now o d') r ∙ l in
      let apart =
        AllApart-entries dir files distinct
          (λ x m. let (i, (_, p, _, _)) = (only x).0 m in (ends_with-str x.name p, bare x i)) in
      let ready : (p : FilePath) → Memᴰ p paths → (is_marked d' p ≡ false) × HoldsCapture d' p =
        λ p m.
          let (x, i, q) = mem_map dir files p m in
          let pending = (only x).0 i in
          subst (λ z. (is_marked d' z ≡ false) × HoldsCapture d' z) (sym q)
            (pending.1.3, held x pending) in
      let (a, f, o) = runs dir paths d d' s e (
        runs_dir dir paths d c listed (
          runs_on paths d' y (
            runs_files paths d' c b (
              processed paths d' (cleanup_stale_tmp-Sound dir (w.read_dir d dir) w.cleanup_now d h)
                apart ready)))) in
      (
        a,
        λ x pending. f (entry_path dir x) (map_mem dir files x ((only x).1 pending)),
        λ q n. o q (λ p m.
            let (x, i, z) = mem_map dir files p m in
            subst (λ v. ¬ Footprint v q) (sym z) (n x ((only x).0 i))),
      )
