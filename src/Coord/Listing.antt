-- ===== src/Coord/Listing.antt =====
-- src/coord.rs on a directory: removing stale temporary files and listing the captures to slim.
-- A time counts the nanoseconds from the least SystemTime on. What read_dir and metadata return is
-- given: an entry that could not be read is `none`, and so is a modification time. A file that is
-- listed is a regular file where the disk has content at its path.
pub mod Cleanup
pub mod Tally
pub mod Pending
pub mod Order
use rust_pcaprune.Prelude.{
  ℕ, ◌+◌, ◌-◌, ◌*◌, ◌%◌, ◌^◌, Bool, true, false, not, ◌&&◌, ◌||◌, List, [], ◌∷◌, ◌++◌, Option, none,
  some, map, ltb, leb, if◌then◌else◌, length, drop, Bytes,
}
use mathlib.Core.Option
use rust_pcaprune.Disk.{FilePath, Disk, fails, exists, bytes_eq}
use rust_pcaprune.Coord.{is_marked, remove_file, tmp_extension}
use rust_pcaprune.Coord.Utf8.{to_str}

pub record DirEntry : Type 0 where
  pub name : Bytes
  pub mtime : Option ℕ

-- What `fs::read_dir` returns.
abbrev pub ReadDir : Type 0
ReadDir = Option (List (Option DirEntry))

unfoldable pub entry_path : List Bytes → DirEntry → FilePath
entry_path dir entry = record { dir = dir; name = entry.name }

-- `name.ends_with(suffix)`
unfoldable pub ends_with : Bytes → Bytes → Bool
ends_with suffix name = bytes_eq (drop (length name - length suffix) name) suffix

abbrev pub pcap_extension : Bytes
pcap_extension = b'.' ∷ b'p' ∷ b'c' ∷ b'a' ∷ b'p' ∷ []

abbrev pub stale_tmp_secs : ℕ
stale_tmp_secs = 300

-- `SystemTime::UNIX_EPOCH`: the least SystemTime has i64::MIN seconds.
abbrev pub unix_epoch : ℕ
unix_epoch = 2 ^ 63 * 10 ^ 9

-- `SystemTime::now().checked_sub(Duration::from_secs(secs)).unwrap_or(SystemTime::UNIX_EPOCH)`
unfoldable pub cutoff_at : ℕ → ℕ → ℕ
cutoff_at now secs = if leb (secs * 10 ^ 9) now then now - secs * 10 ^ 9 else unix_epoch

-- Whether `fs::remove_file` of the path succeeds.
unfoldable pub removes : FilePath → Disk → Bool
removes p d = not (fails d) && exists d p

-- The count is a `u32`.
unfoldable pub clean_path : FilePath → Disk × ℕ → Disk × ℕ
clean_path path (d, cleaned) =
    (remove_file path d, if removes path d then (cleaned + 1) % 2 ^ 32 else cleaned)

-- `if let Ok(mtime) = … { if mtime < cutoff`
unfoldable pub is_older : ℕ → Option ℕ → Bool
is_older cutoff none = false
is_older cutoff (some mtime) = ltb mtime cutoff

-- The body of the loop. The name is compared after a lossy conversion, which changes no ASCII
-- suffix.
unfoldable pub clean_entry : List Bytes → ℕ → DirEntry → Disk × ℕ → Disk × ℕ
clean_entry dir cutoff entry s =
    if not (ends_with tmp_extension entry.name)
    then s
    else if is_older cutoff entry.mtime
    then clean_path (entry_path dir entry) s
    else s

-- `for entry in entries.flatten()`
unfoldable pub clean_entries : List Bytes → ℕ → List (Option DirEntry) → Disk × ℕ → Disk × ℕ
clean_entries dir cutoff [] s = s
clean_entries dir cutoff (none ∷ entries) s = clean_entries dir cutoff entries s
clean_entries dir cutoff (some entry ∷ entries) s =
    clean_entries dir cutoff entries (clean_entry dir cutoff entry s)

unfoldable pub cleanup_tmp_older_than : List Bytes → ReadDir → ℕ → Disk → Disk × ℕ
cleanup_tmp_older_than dir none cutoff d = (d, 0)
cleanup_tmp_older_than dir (some entries) cutoff d = clean_entries dir cutoff entries (d, 0)

unfoldable pub cleanup_stale_tmp : List Bytes → ReadDir → ℕ → Disk → Disk × ℕ
cleanup_stale_tmp dir entries now d =
    cleanup_tmp_older_than dir entries (cutoff_at now stale_tmp_secs) d

-- The name as `to_str().unwrap_or("")`.
unfoldable pub str_or_empty : Bytes → Bytes
str_or_empty name = elim (to_str name) [ none ↦ [] | some s ↦ s ]

-- `if let Some(cutoff) = mtime_cutoff`: whether the file is too young, or the error of metadata.
unfoldable pub too_young : Option ℕ → Option ℕ → Option Bool
too_young none mtime = some false
too_young (some cutoff) none = none
too_young (some cutoff) (some mtime) = some (ltb cutoff mtime)

-- The body of the loop: whether the path is pushed, `none` where `?` returns an error.
unfoldable pub pushes : List Bytes → Option ℕ → Disk → DirEntry → Option Bool
pushes dir cutoff d entry =
    let path = entry_path dir entry in
    let name = str_or_empty entry.name in
    if not (exists d path)
    then some false
    else if not (ends_with pcap_extension name) || ends_with tmp_extension name
    then some false
    else elim (too_young cutoff entry.mtime) [
      | none ↦ none
      | some true ↦ some false
      | some false ↦ some (not (is_marked d path))
    ]

abbrev pub push_if : Bool → DirEntry → List DirEntry → List DirEntry
push_if true entry files = entry ∷ files
push_if false entry files = files

-- `for entry in fs::read_dir(dir)?`
unfoldable pub gather :
    List Bytes → Option ℕ → Disk → List (Option DirEntry) → Option (List DirEntry)
gather dir cutoff d [] = some []
gather dir cutoff d (none ∷ entries) = none
gather dir cutoff d (some entry ∷ entries) =
    let rest = gather dir cutoff d entries in
    elim (pushes dir cutoff d entry) [ none ↦ none | some b ↦ Option.map (push_if b entry) rest ]

-- The order of the sort keys: `None` stands before every time.
unfoldable pub mtime_le : Option ℕ → Option ℕ → Bool
mtime_le none t = true
mtime_le (some s) none = false
mtime_le (some s) (some t) = leb s t

-- `files.sort_by_key(…)`, which is stable.
unfoldable pub insert_by_mtime : DirEntry → List DirEntry → List DirEntry
insert_by_mtime entry [] = entry ∷ []
insert_by_mtime entry (f ∷ files) =
    let rest = insert_by_mtime entry files in
    if mtime_le entry.mtime f.mtime then entry ∷ f ∷ files else f ∷ rest

unfoldable pub sort_by_mtime : List DirEntry → List DirEntry
sort_by_mtime [] = []
sort_by_mtime (entry ∷ files) = insert_by_mtime entry (sort_by_mtime files)

-- `age_minutes.map(…)`
unfoldable pub mtime_cutoff : ℕ → Option ℕ → Option ℕ
mtime_cutoff now none = none
mtime_cutoff now (some minutes) = some (cutoff_at now (minutes * 60))

unfoldable pub list_pending_pcaps :
    List Bytes → Option ℕ → ℕ → ReadDir → Disk → Option (List FilePath)
list_pending_pcaps dir age_minutes now none d = none
list_pending_pcaps dir age_minutes now (some entries) d =
    Option.map (λ files. map (entry_path dir) (sort_by_mtime files))
      (gather dir (mtime_cutoff now age_minutes) d entries)
