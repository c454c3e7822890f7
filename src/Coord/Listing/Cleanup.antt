-- ===== src/Coord/Listing/Cleanup.antt =====
-- cleanup_tmp_older_than of src/coord.rs: which files it removes.
use rust_pcaprune.Prelude.{
  ℕ, ◌<◌, ◌≡◌, refl, sym, ap, ◌∙◌, true, false, List, [], ◌∷◌, Option, none, some, ◌⊎◌, inl, inr,
  Bytes, Bool-cases, Option-cases, ltb→lt, lt→ltb, subst, ◌↔◌,
}
use mathlib.Core.List.{Memᴰ}
use rust_pcaprune.Disk.{FilePath, Disk, fails, tried, put_file-same, exists, is_there, path_cases}
use rust_pcaprune.Coord.{remove_file, tmp_extension}
use rust_pcaprune.Coord.Calls.{OnlyAt-remove_file}
use rust_pcaprune.Coord.Success.{Sound, put_file-Sound, tried-Sound, fails-Sound}
use rust_pcaprune.Coord.Listing.{
  DirEntry, entry_path, ends_with, removes, is_older, clean_path, clean_entry, clean_entries,
  cleanup_tmp_older_than, cleanup_stale_tmp, cutoff_at, stale_tmp_secs, ReadDir,
}

-- An old temporary file.
abbrev pub IsStale : ℕ → DirEntry → Type 0
IsStale cutoff entry =
    (ends_with tmp_extension entry.name ≡ true) × ((t : ℕ) × (entry.mtime ≡ some t) × (t < cutoff))

is_older_iff :
    (cutoff : ℕ) (mtime : Option ℕ)
    → (is_older cutoff mtime ≡ true) ↔ ((t : ℕ) × (mtime ≡ some t) × (t < cutoff))
unfolding is_older
is_older_iff cutoff none = (λ e. cc, λ (t, e, l). cc)
is_older_iff cutoff (some t) = (
  λ e. (t, refl, ltb→lt t cutoff e),
  λ (u, e, l). lt→ltb t cutoff (subst (λ o. get_time o < cutoff) (sym e) l),
)
  where
    get_time : Option ℕ → ℕ
    get_time none = 0
    get_time (some u) = u

-- The path of one that is listed.
abbrev pub StalePath : List Bytes → ℕ → List (Option DirEntry) → FilePath → Type 0
StalePath dir cutoff entries p =
    (entry : DirEntry) × Memᴰ (some entry) entries
    × IsStale cutoff entry
    × (p ≡ entry_path dir entry)

pub clean_entry_cases :
    (dir : List Bytes) (cutoff : ℕ) (entry : DirEntry) (s : Disk × ℕ)
    → (IsStale cutoff entry
        × (clean_entry dir cutoff entry s ≡ clean_path (entry_path dir entry) s))
      ⊎ ((clean_entry dir cutoff entry s ≡ s) × ¬ IsStale cutoff entry)
unfolding clean_entry
clean_entry_cases dir cutoff entry s = elim (Bool-cases (ends_with tmp_extension entry.name)) [
  | inr f ↦ inr (rw f refl, λ (e, _). cc)
  | inl f ↦ elim (Bool-cases (is_older cutoff entry.mtime)) [
    | inr q ↦ inr (rw (f, q) refl, λ (_, x). let e = (is_older_iff cutoff entry.mtime).1 x in cc)
    | inl q ↦ inl ((f, (is_older_iff cutoff entry.mtime).0 q), rw (f, q) refl)
  ]
]

pub remove_file_cases :
    (p : FilePath) (d : Disk)
    → ((removes p d ≡ true) × (exists d p ≡ true) × ((remove_file p d).content p ≡ none))
      ⊎ ((removes p d ≡ false) × ((remove_file p d).content p ≡ d.content p))
unfolding remove_file removes
remove_file_cases p d = elim (Bool-cases (fails d)) [
  | inl f ↦ inr (rw f refl, rw f refl)
  | inr f ↦ elim (Option-cases (d.content p)) [
    | inl q ↦ inr (rw (f, q) refl, rw f (put_file-same p none (tried d)) ∙ sym q)
    | inr (b, q) ↦ inl (rw (f, q) refl, rw q refl, rw f (put_file-same p none (tried d)))
  ]
]

pub step_content :
    (dir : List Bytes) (cutoff : ℕ) (entry : DirEntry) (s : Disk × ℕ) (p : FilePath)
    → ((clean_entry dir cutoff entry s).0.content p ≡ s.0.content p)
      ⊎ (((clean_entry dir cutoff entry s).0.content p ≡ none)
          × IsStale cutoff entry
          × (p ≡ entry_path dir entry))
unfolding clean_path
step_content dir cutoff entry (d, n) p = elim (clean_entry_cases dir cutoff entry (d, n)) [
  | inr (e, _) ↦ inl (ap (λ (x : Disk × ℕ). x.0.content p) e)
  | inl (h, e) ↦ elim (path_cases (entry_path dir entry) p) [
    | inr ne ↦
        inl (
          ap (λ (x : Disk × ℕ). x.0.content p) e ∙ OnlyAt-remove_file (entry_path dir entry) d p ne)
    | inl q ↦ elim (remove_file_cases (entry_path dir entry) d) [
      | inl (_, _, c) ↦ inr (
        ap (λ (x : Disk × ℕ). x.0.content p) e
            ∙ ap (remove_file (entry_path dir entry) d).content (sym q)
            ∙ c,
        h,
        sym q,
      )
      | inr (_, c) ↦ inl (
          ap (λ (x : Disk × ℕ). x.0.content p) e
          ∙ ap (remove_file (entry_path dir entry) d).content (sym q)
          ∙ c
          ∙ ap d.content q)
    ]
  ]
]

-- What the loop leaves of the content at a path.
pub clean_entries-content :
    (dir : List Bytes) (cutoff : ℕ) (entries : List (Option DirEntry)) (s : Disk × ℕ) (p : FilePath)
    → ((clean_entries dir cutoff entries s).0.content p ≡ s.0.content p)
      ⊎ (((clean_entries dir cutoff entries s).0.content p ≡ none) × StalePath dir cutoff entries p)
unfolding clean_entries
clean_entries-content dir cutoff [] s p = inl refl
clean_entries-content dir cutoff (none ∷ entries) s p =
    elim (clean_entries-content dir cutoff entries s p) [
      | inl e ↦ inl e
      | inr (e, x) ↦ inr (e, (x.0, Memᴰ.tail x.1, x.2, x.3))
    ]
clean_entries-content dir cutoff (some entry ∷ entries) s p =
    elim (clean_entries-content dir cutoff entries (clean_entry dir cutoff entry s) p) [
      | inr (e, x) ↦ inr (e, (x.0, Memᴰ.tail x.1, x.2, x.3))
      | inl e ↦ elim (step_content dir cutoff entry s p) [
        | inl f ↦ inl (e ∙ f)
        | inr (f, h, q) ↦ inr (e ∙ f, (entry, Memᴰ.head refl, h, q))
      ]
    ]

remove_file-Sound : (p : FilePath) (d : Disk) → Sound d → Sound (remove_file p d)
unfolding remove_file
remove_file-Sound p d h = rw (fails-Sound d h) (put_file-Sound p none (tried d) (tried-Sound d h))

clean_entry-Sound :
    (dir : List Bytes) (cutoff : ℕ) (entry : DirEntry) (s : Disk × ℕ)
    → Sound s.0
    → Sound (clean_entry dir cutoff entry s).0
unfolding clean_path
clean_entry-Sound dir cutoff entry (d, n) h = elim (clean_entry_cases dir cutoff entry (d, n)) [
  | inr (e, _) ↦ subst (λ (x : Disk × ℕ). Sound x.0) (sym e) h
  | inl (_, e) ↦
      subst (λ (x : Disk × ℕ). Sound x.0) (sym e) (remove_file-Sound (entry_path dir entry) d h)
]

removed-Sound : (p : FilePath) (d : Disk) → Sound d → (remove_file p d).content p ≡ none
unfolding remove_file
removed-Sound p d h = rw (fails-Sound d h) (put_file-same p none (tried d))

step_removes :
    (dir : List Bytes) (cutoff : ℕ) (entry : DirEntry) (s : Disk × ℕ)
    → Sound s.0
    → IsStale cutoff entry
    → (clean_entry dir cutoff entry s).0.content (entry_path dir entry) ≡ none
unfolding clean_path
step_removes dir cutoff entry (d, n) h x = elim (clean_entry_cases dir cutoff entry (d, n)) [
  | inr (_, not_stale) ↦ absurd (not_stale x)
  | inl (_, e) ↦
      ap (λ (y : Disk × ℕ). y.0.content (entry_path dir entry)) e
      ∙ removed-Sound (entry_path dir entry) d h
]

stays_none :
    (dir : List Bytes) (cutoff : ℕ) (entries : List (Option DirEntry)) (s : Disk × ℕ) (p : FilePath)
    → s.0.content p ≡ none
    → (clean_entries dir cutoff entries s).0.content p ≡ none
stays_none dir cutoff entries s p h = elim (clean_entries-content dir cutoff entries s p) [
  | inl e ↦ e ∙ h
  | inr (e, _) ↦ e
]

clean_entries_removes :
    (dir : List Bytes) (cutoff : ℕ) (entries : List (Option DirEntry)) (s : Disk × ℕ)
    (entry : DirEntry)
    → Sound s.0
    → Memᴰ (some entry) entries
    → IsStale cutoff entry
    → (clean_entries dir cutoff entries s).0.content (entry_path dir entry) ≡ none
unfolding clean_entries
clean_entries_removes dir cutoff [] s entry h m x = elim m [ ]
clean_entries_removes dir cutoff (none ∷ entries) s entry h (Memᴰ.head e) x = cc
clean_entries_removes dir cutoff (none ∷ entries) s entry h (Memᴰ.tail m) x =
    clean_entries_removes dir cutoff entries s entry h m x
clean_entries_removes dir cutoff (some f ∷ entries) s entry h (Memᴰ.head e) x =
    let same : entry ≡ f = entry_injective entry f e in
    stays_none dir cutoff entries (clean_entry dir cutoff f s) (entry_path dir entry) (
      subst (λ g. (clean_entry dir cutoff g s).0.content (entry_path dir entry) ≡ none) same
        (step_removes dir cutoff entry s h x))
  where
    entry_injective : (a b : DirEntry) → ◌≡◌ {A = Option DirEntry} (some a) (some b) → a ≡ b
    entry_injective a b q = cc
clean_entries_removes dir cutoff (some f ∷ entries) s entry h (Memᴰ.tail m) x =
    clean_entries_removes dir cutoff entries (clean_entry dir cutoff f s) entry
      (clean_entry-Sound dir cutoff f s h) m x

-- Removing stale temporary files removes nothing else: whichever calls fail, a path either has no
-- content afterwards and is that of a listed entry whose name ends with `.pcap.tmp` and whose time
-- is before the cutoff, or keeps its content. It does not keep it as a file where it is the path of
-- such an entry and no call fails.
pub cleanup_removes_stale :
    (dir : List Bytes) (entries : List (Option DirEntry)) (cutoff : ℕ) (d : Disk) (p : FilePath)
    → let d' = (cleanup_tmp_older_than dir (some entries) cutoff d).0 in
      ((d'.content p ≡ none) × StalePath dir cutoff entries p)
      ⊎ ((d'.content p ≡ d.content p)
          × ¬ (StalePath dir cutoff entries p × Sound d × (exists d p ≡ true)))
unfolding cleanup_tmp_older_than
cleanup_removes_stale dir entries cutoff d p =
    elim (clean_entries-content dir cutoff entries (d, 0) p) [
      | inr x ↦ inl x
      | inl e ↦ inr (
        e,
        λ ((entry, m, x, q), h, there).
            let gone : d.content p ≡ none =
              sym e
              ∙ ap (clean_entries dir cutoff entries (d, 0)).0.content q
              ∙ clean_entries_removes dir cutoff entries (d, 0) entry h m x in
            let clash : true ≡ false = sym there ∙ ap is_there gone in cc,
      )
    ]

clean_entries-Sound :
    (dir : List Bytes) (cutoff : ℕ) (entries : List (Option DirEntry)) (s : Disk × ℕ)
    → Sound s.0
    → Sound (clean_entries dir cutoff entries s).0
unfolding clean_entries
clean_entries-Sound dir cutoff [] s h = h
clean_entries-Sound dir cutoff (none ∷ entries) s h = clean_entries-Sound dir cutoff entries s h
clean_entries-Sound dir cutoff (some entry ∷ entries) s h =
    clean_entries-Sound dir cutoff entries (clean_entry dir cutoff entry s)
      (clean_entry-Sound dir cutoff entry s h)

pub cleanup_stale_tmp-Sound :
    (dir : List Bytes) (r : ReadDir) (now : ℕ) (d : Disk)
    → Sound d
    → Sound (cleanup_stale_tmp dir r now d).0
unfolding cleanup_stale_tmp cleanup_tmp_older_than
cleanup_stale_tmp-Sound dir none now d h = h
cleanup_stale_tmp-Sound dir (some entries) now d h =
    clean_entries-Sound dir (cutoff_at now stale_tmp_secs) entries (d, 0) h
