-- ===== src/Tests/Listings.antt =====
-- A directory with two captures and a stale temporary file.
use rust_pcaprune.Prelude.{
  ◌^◌, ◌≡◌, ◌≢◌, ◌↔◌, ◌⊎◌, refl, sym, ap, ◌∙◌, subst, Bool, true, false, not, ◌&&◌, List, [], ◌∷◌,
  Option, none, some, map, if◌then◌else◌, Bytes, arith, Bool-cases, inl, inr,
}
use mathlib.Core.List.{Memᴰ}
use rust_pcaprune.Disk.{Disk, path_eq, dir_eq, bytes_eq, bytes_eq_refl, put_file, exists}
use rust_pcaprune.Coord.Utf8.{to_str}
use rust_pcaprune.Coord.{is_marked, marker_path, remove_file}
use rust_pcaprune.Coord.Success.{Sound}
use rust_pcaprune.Coord.Listing.{
  DirEntry, entry_path, cleanup_tmp_older_than, list_pending_pcaps, mtime_cutoff, cutoff_at,
  too_young, gather, pushes, ends_with, str_or_empty, sort_by_mtime, insert_by_mtime, mtime_le,
  clean_entries, clean_entry, clean_path, removes, is_older,
}
use rust_pcaprune.Coord.Listing.Cleanup.{StalePath, cleanup_removes_stale}
use rust_pcaprune.Coord.Listing.Tally.{Distinct, number_gone, cleanup_counts_removed}
use rust_pcaprune.Coord.Listing.Pending.{IsPending, Readable}
use rust_pcaprune.Coord.Listing.Order.{OldestFirst, DistinctNames, list_pending_pcaps-Pending}

abbrev pub a_pcap : Bytes
a_pcap = b'a' ∷ b'.' ∷ b'p' ∷ b'c' ∷ b'a' ∷ b'p' ∷ []

abbrev pub b_pcap : Bytes
b_pcap = b'b' ∷ b'.' ∷ b'p' ∷ b'c' ∷ b'a' ∷ b'p' ∷ []

abbrev pub x_tmp : Bytes
x_tmp = b'x' ∷ b'.' ∷ b'p' ∷ b'c' ∷ b'a' ∷ b'p' ∷ b'.' ∷ b't' ∷ b'm' ∷ b'p' ∷ []

abbrev pub entry_a : DirEntry
entry_a = record { name = a_pcap; mtime = some 20 }

abbrev pub entry_b : DirEntry
entry_b = record { name = b_pcap; mtime = some 10 }

abbrev pub entry_x : DirEntry
entry_x = record { name = x_tmp; mtime = some 5 }

abbrev pub entries : List (Option DirEntry)
entries = some entry_a ∷ some entry_x ∷ some entry_b ∷ []

abbrev pub here : List Bytes
here = []

-- A disk on which the three files hold the same bytes.
abbrev pub three_files : Bytes → Disk
three_files b = record {
  content = λ p.
      if path_eq (entry_path here entry_a) p
      then some b
      else if path_eq (entry_path here entry_b) p
      then some b
      else if path_eq (entry_path here entry_x) p
      then some b
      else none;
  faults = [];
  partial = 0;
}

abbrev other_names : Bytes → List (Option DirEntry) → Bool
other_names name [] = true
other_names name (none ∷ es) = other_names name es
other_names name (some e ∷ es) = not (bytes_eq name e.name) && other_names name es

pub differ : (a b : Bytes) → bytes_eq a b ≡ false → a ≢ b
differ a b e q = clash (ap (bytes_eq a) (sym q) ∙ bytes_eq_refl a) e
  where
    clash : {x : Bool} → x ≡ true → x ≡ false → ⊥
    clash p r = cc

other_names_lem :
    (name : Bytes) (es : List (Option DirEntry))
    → other_names name es ≡ true
    → (f : DirEntry) → Memᴰ (some f) es
    → name ≢ f.name
other_names_lem name [] h f m = elim m [ ]
other_names_lem name (none ∷ es) h f (Memᴰ.head e) = cc
other_names_lem name (none ∷ es) h f (Memᴰ.tail m) = other_names_lem name es h f m
other_names_lem name (some e ∷ es) h f m = elim (Bool-cases (bytes_eq name e.name)) [
  | inl y ↦ absurd (clash (rw y at h))
  | inr n ↦ elim m [
    | Memᴰ.head q ↦
        subst (λ (x : DirEntry). name ≢ x.name) (sym (some_injective f e q)) (differ name e.name n)
    | Memᴰ.tail k ↦ other_names_lem name es (rw n at h) f k
  ]
]
  where
    clash : false ≡ true → ⊥
    clash q = cc

    some_injective : (a b : DirEntry) → ◌≡◌ {A = Option DirEntry} (some a) (some b) → a ≡ b
    some_injective a b q = cc

others_a : other_names a_pcap (some entry_x ∷ some entry_b ∷ []) ≡ true
unfolding bytes_eq
others_a = refl

others_x : other_names x_tmp (some entry_b ∷ []) ≡ true
unfolding bytes_eq
others_x = refl

pub entries-Distinct : Distinct entries
entries-Distinct = (
  other_names_lem a_pcap (some entry_x ∷ some entry_b ∷ []) others_a,
  (other_names_lem x_tmp (some entry_b ∷ []) others_x, (other_names_lem b_pcap [] refl, tt)),
)

cleanup_removes_stale_example :
    let d' = (cleanup_tmp_older_than here (some entries) 7 (three_files [])).0 in
    let p = entry_path here entry_x in
    ((d'.content p ≡ none) × StalePath here 7 entries p)
    ⊎ ((d'.content p ≡ (three_files []).content p)
        × ¬ (
            StalePath here 7 entries p
            × Sound (three_files [])
            × (exists (three_files []) p ≡ true)))
cleanup_removes_stale_example =
    cleanup_removes_stale here entries 7 (three_files []) (entry_path here entry_x)

cleanup_counts_removed_example :
    (cleanup_tmp_older_than here (some entries) 7 (three_files [])).1
    ≡ number_gone here
        (three_files [])
        (cleanup_tmp_older_than here (some entries) 7 (three_files [])).0
        entries
cleanup_counts_removed_example =
    cleanup_counts_removed here entries 7 (three_files []) (omega arith) entries-Distinct

pub entries-Readable : Readable (mtime_cutoff (10 ^ 12) (some 10)) entries
unfolding mtime_cutoff cutoff_at too_young
entries-Readable = (some_not_none false, (some_not_none false, (some_not_none false, tt)))
  where
    some_not_none : (b : Bool) → ◌≡◌ {A = Option Bool} (some b) none → ⊥
    some_not_none b e = cc

list_pending_pcaps-Pending_example :
    (files : List DirEntry) × (list_pending_pcaps here
        (some 10)
        (10 ^ 12)
        (some entries)
        (three_files [])
      ≡ some (map (entry_path here) files))
    × OldestFirst files
    × DistinctNames files
    × ((e : DirEntry)
        → Memᴰ e files ↔ (
            Memᴰ (some e) entries
            × IsPending here (mtime_cutoff (10 ^ 12) (some 10)) (three_files []) e))
list_pending_pcaps-Pending_example =
    list_pending_pcaps-Pending here (some 10) (10 ^ 12) entries (three_files []) entries-Distinct
      entries-Readable

-- The oldest first, without the temporary file.
lists-entries :
    list_pending_pcaps here (some 10) (10 ^ 12) (some entries) (three_files [])
    ≡ some (entry_path here entry_b ∷ entry_path here entry_a ∷ [])
unfolding list_pending_pcaps gather pushes too_young ends_with str_or_empty to_str bytes_eq path_eq
    dir_eq is_marked marker_path sort_by_mtime insert_by_mtime mtime_le mtime_cutoff cutoff_at
    entry_path
lists-entries = refl

-- One file is removed.
cleans-entries : (cleanup_tmp_older_than here (some entries) 7 (three_files [])).1 ≡ 1
unfolding cleanup_tmp_older_than clean_entries clean_entry clean_path removes is_older ends_with
    bytes_eq path_eq dir_eq entry_path remove_file put_file
cleans-entries = refl
