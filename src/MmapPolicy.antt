-- ===== src/MmapPolicy.antt =====
-- src/mmap_policy.rs: whether the input is mapped into memory. `feature` says whether the program
-- was built with the feature `mmap`.
use rust_pcaprune.Prelude.{ℕ, Bool, true, false, leb, if◌then◌else◌}

-- `DIR_MMAP_MAX_WORKERS`
abbrev pub dir_mmap_max_workers : ℕ
dir_mmap_max_workers = 2

unfoldable pub resolve_use_mmap : (feature is_dir : Bool) → ℕ → (no_mmap force_mmap : Bool) → Bool
resolve_use_mmap false is_dir workers no_mmap force_mmap = false
resolve_use_mmap true is_dir workers no_mmap force_mmap =
    if no_mmap
    then false
    else if force_mmap
    then true
    else if is_dir
    then leb workers dir_mmap_max_workers
    else false
