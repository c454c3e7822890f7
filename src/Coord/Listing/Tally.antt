-- ===== src/Coord/Listing/Tally.antt =====
-- What cleanup_tmp_older_than of src/coord.rs counts.
use rust_pcaprune.Prelude.{
  ℕ, suc, ◌+◌, ◌^◌, ◌≤◌, ◌<◌, ◌≡◌, ◌≢◌, refl, sym, ap, ap₂, ◌∙◌, Bool, true, false, not, ◌&&◌, List,
  [], ◌∷◌, Option, none, some, inl, inr, if◌then◌else◌, length, Bytes, arith, Bool-cases,
}
use mathlib.Core.List.{Memᴰ}
use rust_pcaprune.Disk.{FilePath, Disk, exists, is_there}
use rust_pcaprune.Coord.Listing.{
  DirEntry, entry_path, clean_path, clean_entry, clean_entries, cleanup_tmp_older_than,
}
use rust_pcaprune.Coord.Listing.Cleanup.{
  clean_entry_cases, remove_file_cases, step_content, clean_entries-content,
}

-- The listed files that are there before and not behind.
abbrev pub number_gone : List Bytes → Disk → Disk → List (Option DirEntry) → ℕ
number_gone dir d d' [] = 0
number_gone dir d d' (none ∷ entries) = number_gone dir d d' entries
number_gone dir d d' (some entry ∷ entries) =
    let rest = number_gone dir d d' entries in
    if exists d (entry_path dir entry) && not (exists d' (entry_path dir entry))
    then suc rest
    else rest

-- A directory lists a name once.
abbrev pub Distinct : List (Option DirEntry) → Type 0
Distinct [] = Unit
Distinct (none ∷ entries) = Distinct entries
Distinct (some entry ∷ entries) =
    ((f : DirEntry) → Memᴰ (some f) entries → entry.name ≢ f.name) × Distinct entries

number_gone_ext :
    (dir : List Bytes) (d₁ d d' : Disk) (entries : List (Option DirEntry))
    → ((f : DirEntry)
        → Memᴰ (some f) entries
        → d₁.content (entry_path dir f) ≡ d.content (entry_path dir f))
    → number_gone dir d₁ d' entries ≡ number_gone dir d d' entries
number_gone_ext dir d₁ d d' [] h = refl
number_gone_ext dir d₁ d d' (none ∷ entries) h =
    number_gone_ext dir d₁ d d' entries (λ f m. h f (Memᴰ.tail m))
number_gone_ext dir d₁ d d' (some entry ∷ entries) h =
    ap₂
      (λ (o : Option Bytes) (n : ℕ).
        if is_there o && not (exists d' (entry_path dir entry)) then suc n else n)
      (h entry (Memᴰ.head refl)) (number_gone_ext dir d₁ d d' entries (λ f m. h f (Memᴰ.tail m)))

other_path :
    (dir : List Bytes) (a b : DirEntry) → a.name ≢ b.name → entry_path dir a ≢ entry_path dir b
unfolding entry_path
other_path dir a b n = λ e. n (ap (λ (p : FilePath). p.name) e)

-- Behind the loop, a path that none of its entries has holds what it held.
not_listed_content :
    (dir : List Bytes) (cutoff : ℕ) (entries : List (Option DirEntry)) (s : Disk × ℕ)
    (entry : DirEntry)
    → ((f : DirEntry) → Memᴰ (some f) entries → entry.name ≢ f.name)
    → (clean_entries dir cutoff entries s).0.content (entry_path dir entry)
      ≡ s.0.content (entry_path dir entry)
not_listed_content dir cutoff entries s entry h =
    elim (clean_entries-content dir cutoff entries s (entry_path dir entry)) [
      | inl e ↦ e
      | inr (_, (f, m, _, q)) ↦ absurd (other_path dir entry f (h f m) q)
    ]

-- One step of the count.
step_count :
    (dir : List Bytes) (cutoff : ℕ) (entry : DirEntry) (d : Disk) (n k : ℕ)
    → n + 1 < 2 ^ 32
    → let s = clean_entry dir cutoff entry (d, n) in
      s.1 + k
      ≡ n
        + (if exists d (entry_path dir entry) && not (exists s.0 (entry_path dir entry))
            then suc k
            else k)
unfolding clean_path
step_count dir cutoff entry d n k l =
    let p = entry_path dir entry in
    elim (clean_entry_cases dir cutoff entry (d, n)) [
      | inr (e, _) ↦ rw e (elim (Bool-cases (exists d p)) [ inl t ↦ rw t refl | inr t ↦ rw t refl ])
      | inl (_, e) ↦ elim (remove_file_cases p d) [
        | inl (r, t, c) ↦ rw e (rw (r, t, c) (omega arith))
        | inr (r, c) ↦
            rw e
              (rw (r, c) (elim (Bool-cases (exists d p)) [ inl t ↦ rw t refl | inr t ↦ rw t refl ]))
      ]
    ]

step_elsewhere :
    (dir : List Bytes) (cutoff : ℕ) (entry f : DirEntry) (s : Disk × ℕ)
    → entry.name ≢ f.name
    → (clean_entry dir cutoff entry s).0.content (entry_path dir f) ≡ s.0.content (entry_path dir f)
step_elsewhere dir cutoff entry f s h = elim (step_content dir cutoff entry s (entry_path dir f)) [
  | inl e ↦ e
  | inr (_, _, q) ↦ absurd (other_path dir entry f h (sym q))
]

if_le : (b : Bool) → (if b then 1 else 0) ≤ 1
if_le true = omega arith
if_le false = omega arith

clean_entries-count :
    (dir : List Bytes) (cutoff : ℕ) (entries : List (Option DirEntry)) (d : Disk) (n : ℕ)
    → n + length entries < 2 ^ 32
    → Distinct entries
    → (clean_entries dir cutoff entries (d, n)).1
      ≡ n + number_gone dir d (clean_entries dir cutoff entries (d, n)).0 entries
unfolding clean_entries
clean_entries-count dir cutoff [] d n l u = omega arith
clean_entries-count dir cutoff (none ∷ entries) d n l u =
    clean_entries-count dir cutoff entries d n (omega arith) u
clean_entries-count dir cutoff (some entry ∷ entries) d n l (fresh, u) =
    let p = entry_path dir entry in
    let s = clean_entry dir cutoff entry (d, n) in
    let s' = clean_entries dir cutoff entries s in
    let gone = exists d p && not (exists s.0 p) in
    let small = step_count dir cutoff entry d n 0 (omega arith) in
    let bound : s.1 ≤ n + 1 = omega (arith, small, if_le gone) in
    let k = number_gone dir d s'.0 entries in
    clean_entries-count dir cutoff entries s.0 s.1 (omega arith) u
    ∙ ap (λ m. s.1 + m)
        (number_gone_ext dir s.0 d s'.0 entries
          (λ f m. step_elsewhere dir cutoff entry f (d, n) (fresh f m)))
    ∙ step_count dir cutoff entry d n k (omega arith)
    ∙ ap (λ (o : Option Bytes). n + (if exists d p && not (is_there o) then suc k else k))
        (sym (not_listed_content dir cutoff entries s entry fresh))

-- The count that is returned is exact, whichever calls fail: where a directory of less than 2^32
-- entries lists each name once, it is the number of listed files that are there before and not
-- afterwards.
pub cleanup_counts_removed :
    (dir : List Bytes) (entries : List (Option DirEntry)) (cutoff : ℕ) (d : Disk)
    → length entries < 2 ^ 32
    → Distinct entries
    → (cleanup_tmp_older_than dir (some entries) cutoff d).1
      ≡ number_gone dir d (cleanup_tmp_older_than dir (some entries) cutoff d).0 entries
unfolding cleanup_tmp_older_than
cleanup_counts_removed dir entries cutoff d l u =
    clean_entries-count dir cutoff entries d 0 (omega arith) u ∙ omega arith
