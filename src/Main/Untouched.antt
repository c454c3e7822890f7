-- ===== src/Main/Untouched.antt =====
-- The runs of src/main.rs that are to leave the captures alone: --check-only and --dry-run.
use rust_pcaprune.Prelude.{
  ◌≡◌, refl, ap, ◌∙◌, Bool, true, false, List, [], ◌∷◌, Option, none, some, ◌⊎◌, inl, inr, Bytes,
  Run, ret, panic, out_of_fuel, if_elim, map, ltb,
}
use rust_pcaprune.Disk.{FilePath, Disk}
use rust_pcaprune.PcapIo.Base.{Limits}
use rust_pcaprune.Coord.Local.{check_file-content}
use rust_pcaprune.Coord.Listing.{
  DirEntry, ReadDir, cutoff_at, stale_tmp_secs, cleanup_tmp_older_than, cleanup_stale_tmp,
  list_pending_pcaps,
}
use rust_pcaprune.Coord.Listing.Cleanup.{StalePath, cleanup_removes_stale}
use rust_pcaprune.Limit.Float.{Float}
use rust_pcaprune.Output.{FileReport}
use rust_pcaprune.Main.Files.{process_path, process_files, collect_reports}
use rust_pcaprune.Main.{
  Args, World, Outcome, worker_count, run_limits, finished, collected, run_files, run_on,
  run_listed, run_listing, run_dir, run_input, run, say, would_slim, message_if, cleaned_message,
  io_mode_messages, pool_failed,
}

checking-content :
    (limits : Limits) (files : List FilePath) (d : Disk) (p : FilePath)
    → (process_files true limits files d).0.content p ≡ d.content p
unfolding process_files process_path
checking-content limits [] d p = refl
checking-content limits (path ∷ files) d p =
    checking-content limits files (process_path true limits path d).0 p
    ∙ check_file-content path limits d p

module _ {F : Type 0} ⦃f : Float F⦄ (args : Args F) (w : World F) where
  pub finished-disk : (d : Disk) (r : Run (List FileReport)) → (finished args w d r).0 ≡ d
  finished-disk d (ret reports) = refl
  finished-disk d panic = refl
  finished-disk d out_of_fuel = refl

  run_files-content :
      (files : List FilePath) (d : Disk) (p : FilePath)
      → args.check_only ≡ true
      → (run_files args w files d).0.content p ≡ d.content p
  unfolding run_files
  run_files-content files d p c =
      let m = process_files args.check_only (run_limits args w) files d in
      if_elim (λ (x : Outcome F). x.0.content p ≡ d.content p)
        (w.builds_pool (worker_count args files))
        (say (io_mode_messages args w files) (collected args w files m))
        (d, io_mode_messages args w files, ret (some pool_failed))
        (λ _.
          ap (λ (x : Disk). x.content p)
            (finished-disk m.0 (collect_reports w.file_elapsed files m.1))
          ∙ ap (λ (x : Bool). (process_files x (run_limits args w) files d).0.content p) c
          ∙ checking-content (run_limits args w) files d p)
        (λ _. refl)

  run_on-content :
      (files : List FilePath) (d : Disk) (p : FilePath)
      → (args.check_only ≡ true) ⊎ (args.dry_run ≡ true)
      → (run_on args w files d).0.content p ≡ d.content p
  unfolding run_on
  run_on-content [] d p safe = refl
  run_on-content (path ∷ files) d p safe =
      if_elim (λ (x : Outcome F). x.0.content p ≡ d.content p) args.dry_run
        (d, map (would_slim args.output) (path ∷ files), ret none)
        (run_files args w (path ∷ files) d) (λ _. refl)
        (λ n. elim safe [
          | inl c ↦ run_files-content (path ∷ files) d p c
          | inr y ↦ absurd (clash y n)
        ])
    where
      clash : {x : Bool} → x ≡ true → x ≡ false → ⊥
      clash a b = cc

  run_listed-content :
      (d : Disk) (o : Option (List FilePath)) (p : FilePath)
      → (args.check_only ≡ true) ⊎ (args.dry_run ≡ true)
      → (run_listed args w d o).0.content p ≡ d.content p
  run_listed-content d none p safe = refl
  run_listed-content d (some files) p safe = run_on-content files d p safe

  run_listing-content :
      (dir : List Bytes) (d : Disk) (p : FilePath)
      → (args.check_only ≡ true) ⊎ (args.dry_run ≡ true)
      → (run_listing args w dir d).0.content p ≡ d.content p
  unfolding run_listing
  run_listing-content dir d p safe =
      run_listed-content d
        (list_pending_pcaps dir args.age_minutes w.listing_now (w.read_dir d dir) d) p safe

  -- A path that a cleaning may have removed.
  abbrev pub Stale : Disk → FilePath → Type 0
  Stale d p =
      (dir : List Bytes) × (entries : List (Option DirEntry)) × (args.dir ≡ some dir)
      × (w.read_dir d dir ≡ some entries)
      × StalePath dir (cutoff_at w.cleanup_now stale_tmp_secs) entries p

  cleanup-content :
      (dir : List Bytes) (r : ReadDir) (d : Disk) (p : FilePath)
      → ((cleanup_stale_tmp dir r w.cleanup_now d).0.content p ≡ d.content p)
        ⊎ (((cleanup_stale_tmp dir r w.cleanup_now d).0.content p ≡ none)
            × ((entries : List (Option DirEntry)) × (r ≡ some entries)
                × StalePath dir (cutoff_at w.cleanup_now stale_tmp_secs) entries p))
  unfolding cleanup_stale_tmp cleanup_tmp_older_than
  cleanup-content dir none d p = inl refl
  cleanup-content dir (some entries) d p =
      elim (cleanup_removes_stale dir entries (cutoff_at w.cleanup_now stale_tmp_secs) d p) [
        | inl (e, s) ↦ inr (e, (entries, refl, s))
        | inr (e, _) ↦ inl e
      ]

  run_input-content :
      (single : Option FilePath) (dir : Option (List Bytes)) (d : Disk) (p : FilePath)
      → args.dir ≡ dir
      → (args.check_only ≡ true) ⊎ (args.dry_run ≡ true)
      → ((run_input args w single dir d).0.content p ≡ d.content p)
        ⊎ (((run_input args w single dir d).0.content p ≡ none)
            × (args.check_only ≡ false)
            × Stale d p)
  unfolding run_input run_dir
  run_input-content (some path) dir d p q safe = inl (run_on-content (path ∷ []) d p safe)
  run_input-content none none d p q safe = inl refl
  run_input-content none (some dir) d p q safe =
      let (d', cleaned) = cleanup_stale_tmp dir (w.read_dir d dir) w.cleanup_now d in
      if_elim
        (λ (x : Outcome F).
          (x.0.content p ≡ d.content p)
          ⊎ ((x.0.content p ≡ none) × (args.check_only ≡ false) × Stale d p))
        args.check_only (run_listing args w dir d)
        (say (message_if (ltb 0 cleaned) (cleaned_message cleaned)) (run_listing args w dir d'))
        (λ _. inl (run_listing-content dir d p safe))
        (λ n. elim (cleanup-content dir (w.read_dir d dir) d p) [
          | inl e ↦ inl (run_listing-content dir d' p safe ∙ e)
          | inr (e, (entries, r, s)) ↦
              inr (run_listing-content dir d' p safe ∙ e, n, (dir, entries, q, r, s))
        ])

  -- A run with --check-only or --dry-run leaves each path with its content, or, without
  -- --check-only, with none where it is that of a temporary file in the run's directory that is
  -- older than five minutes.
  pub run_leaves_files :
      (d : Disk) (p : FilePath)
      → (args.check_only ≡ true) ⊎ (args.dry_run ≡ true)
      → ((run args w d).0.content p ≡ d.content p)
        ⊎ (((run args w d).0.content p ≡ none) × (args.check_only ≡ false) × Stale d p)
  unfolding run
  run_leaves_files d p safe = run_input-content args.single args.dir d p refl safe
