-- ===== src/Coord/Listing/Order.antt =====
-- list_pending_pcaps of src/coord.rs: the order of its list.
use rust_pcaprune.Prelude.{
  ℕ, ◌≡◌, ◌≢◌, refl, sym, ap, ◌∙◌, Bool, true, false, List, [], ◌∷◌, Option, none, some, map, ◌⊎◌,
  ◌↔◌, inl, inr, Bytes, arith, Bool-cases, subst,
}
use mathlib.Core.List.{Memᴰ}
use rust_pcaprune.Disk.{Disk}
use rust_pcaprune.Coord.Listing.{
  DirEntry, entry_path, gather, mtime_le, insert_by_mtime, sort_by_mtime, mtime_cutoff, push_if,
  list_pending_pcaps,
}
use rust_pcaprune.Coord.Listing.Tally.{Distinct}
use rust_pcaprune.Coord.Listing.Pending.{IsPending, Readable, gather-cons, gather_iff, gather-some}

mtime_le_trans :
    (a b c : Option ℕ) → mtime_le a b ≡ true → mtime_le b c ≡ true → mtime_le a c ≡ true
unfolding mtime_le
mtime_le_trans none b c p q = refl
mtime_le_trans (some x) none c p q = cc
mtime_le_trans (some x) (some y) none p q = cc
mtime_le_trans (some x) (some y) (some z) p q = ground arith

mtime_le_total : (a b : Option ℕ) → mtime_le a b ≡ false → mtime_le b a ≡ true
unfolding mtime_le
mtime_le_total none b p = cc
mtime_le_total (some x) none p = refl
mtime_le_total (some x) (some y) p = ground arith

-- Sorted by the time of modification, the files without one in front.
abbrev pub OldestFirst : List DirEntry → Type 0
OldestFirst [] = Unit
OldestFirst (e ∷ files) =
    ((f : DirEntry) → Memᴰ f files → mtime_le e.mtime f.mtime ≡ true) × OldestFirst files

-- No name occurs twice.
abbrev pub DistinctNames : List DirEntry → Type 0
DistinctNames [] = Unit
DistinctNames (e ∷ files) = ((f : DirEntry) → Memᴰ f files → e.name ≢ f.name) × DistinctNames files

mem_insert :
    (x e : DirEntry) (files : List DirEntry)
    → Memᴰ x (insert_by_mtime e files) ↔ ((x ≡ e) ⊎ Memᴰ x files)
unfolding insert_by_mtime
mem_insert x e [] = (
  λ m. elim m [ Memᴰ.head q ↦ inl q | Memᴰ.tail n ↦ elim n [ ] ],
  λ y. elim y [ inl q ↦ Memᴰ.head q | inr n ↦ elim n [ ] ],
)
mem_insert x e (f ∷ files) = elim (Bool-cases (mtime_le e.mtime f.mtime)) [
  | inl l ↦ rw l (
    λ m. elim m [ Memᴰ.head q ↦ inl q | Memᴰ.tail n ↦ inr n ],
    λ y. elim y [ inl q ↦ Memᴰ.head q | inr n ↦ Memᴰ.tail n ],
  )
  | inr l ↦
      let (to, from) = mem_insert x e files in
      rw l (
        λ m. elim m [
          | Memᴰ.head q ↦ inr (Memᴰ.head q)
          | Memᴰ.tail n ↦ elim (to n) [ inl q ↦ inl q | inr k ↦ inr (Memᴰ.tail k) ]
        ],
        λ y. elim y [
          | inl q ↦ Memᴰ.tail (from (inl q))
          | inr n ↦ elim n [ Memᴰ.head q ↦ Memᴰ.head q | Memᴰ.tail k ↦ Memᴰ.tail (from (inr k)) ]
        ],
      )
]

OldestFirst-insert :
    (e : DirEntry) (files : List DirEntry)
    → OldestFirst files
    → OldestFirst (insert_by_mtime e files)
unfolding insert_by_mtime
OldestFirst-insert e [] h = (λ f m. elim m [ ], tt)
OldestFirst-insert e (f ∷ files) (first, h) = elim (Bool-cases (mtime_le e.mtime f.mtime)) [
  | inl l ↦ rw l (
    λ g m. elim m [
      | Memᴰ.head q ↦ ap (λ (x : DirEntry). mtime_le e.mtime x.mtime) q ∙ l
      | Memᴰ.tail n ↦ mtime_le_trans e.mtime f.mtime g.mtime l (first g n)
    ],
    (first, h),
  )
  | inr l ↦ rw l (
    λ g m. elim ((mem_insert g e files).0 m) [
      | inl q ↦ ap (λ (x : DirEntry). mtime_le f.mtime x.mtime) q ∙ mtime_le_total e.mtime f.mtime l
      | inr n ↦ first g n
    ],
    OldestFirst-insert e files h,
  )
]

DistinctNames-insert :
    (e : DirEntry) (files : List DirEntry)
    → ((f : DirEntry) → Memᴰ f files → e.name ≢ f.name)
    → DistinctNames files
    → DistinctNames (insert_by_mtime e files)
unfolding insert_by_mtime
DistinctNames-insert e [] n h = (n, h)
DistinctNames-insert e (f ∷ files) n (first, h) = elim (Bool-cases (mtime_le e.mtime f.mtime)) [
  | inl l ↦ rw l (n, (first, h))
  | inr l ↦ rw l (
    λ g m. elim ((mem_insert g e files).0 m) [
      | inl q ↦ λ same. n f (Memᴰ.head refl) (sym (same ∙ ap (λ (x : DirEntry). x.name) q))
      | inr k ↦ first g k
    ],
    DistinctNames-insert e files (λ g m. n g (Memᴰ.tail m)) h,
  )
]

mem_sort : (x : DirEntry) (files : List DirEntry) → Memᴰ x (sort_by_mtime files) ↔ Memᴰ x files
unfolding sort_by_mtime
mem_sort x [] = (λ m. m, λ m. m)
mem_sort x (e ∷ files) =
    let (to, from) = mem_insert x e (sort_by_mtime files) in
    let (down, up) = mem_sort x files in
    (
      λ m. elim (to m) [ inl q ↦ Memᴰ.head q | inr n ↦ Memᴰ.tail (down n) ],
      λ m. elim m [ Memᴰ.head q ↦ from (inl q) | Memᴰ.tail n ↦ from (inr (up n)) ],
    )

OldestFirst-sort : (files : List DirEntry) → OldestFirst (sort_by_mtime files)
unfolding sort_by_mtime
OldestFirst-sort [] = tt
OldestFirst-sort (e ∷ files) = OldestFirst-insert e (sort_by_mtime files) (OldestFirst-sort files)

DistinctNames-sort :
    (files : List DirEntry) → DistinctNames files → DistinctNames (sort_by_mtime files)
unfolding sort_by_mtime
DistinctNames-sort [] h = tt
DistinctNames-sort (e ∷ files) (n, h) =
    DistinctNames-insert e (sort_by_mtime files) (λ f m. n f ((mem_sort f files).0 m))
      (DistinctNames-sort files h)

DistinctNames-gather :
    (dir : List Bytes) (cutoff : Option ℕ) (d : Disk) (entries : List (Option DirEntry))
    (files : List DirEntry)
    → Distinct entries
    → gather dir cutoff d entries ≡ some files
    → DistinctNames files
unfolding gather
DistinctNames-gather dir cutoff d [] files u q = subst DistinctNames (some_injective [] files q) tt
  where
    some_injective :
        (a b : List DirEntry) → ◌≡◌ {A = Option (List DirEntry)} (some a) (some b) → a ≡ b
    some_injective a b e = cc
DistinctNames-gather dir cutoff d (none ∷ entries) files u q = cc
DistinctNames-gather dir cutoff d (some entry ∷ entries) files (n, u) q =
    let (b, rest, v, g, f) = gather-cons dir cutoff d entry entries files q in
    subst DistinctNames (sym f) (
      go b rest (λ x m. n x ((gather_iff dir cutoff d entries rest x g).0 m).0)
        (DistinctNames-gather dir cutoff d entries rest u g))
  where
    go :
        (b : Bool) (rest : List DirEntry)
        → ((x : DirEntry) → Memᴰ x rest → entry.name ≢ x.name)
        → DistinctNames rest
        → DistinctNames (push_if b entry rest)
    go true rest h k = (h, k)
    go false rest h k = k

-- What list_pending_pcaps returns, for a directory that lists each name once and whose entries,
-- and times where an age is asked for, can be read: the paths of the pending entries, each once,
-- and of no others, the oldest first. Pending is a regular file without marker whose name is text
-- that ends with `.pcap` and whose time is no later than the cutoff of the age, where one is given.
pub list_pending_pcaps-Pending :
    (dir : List Bytes) (age_minutes : Option ℕ) (now : ℕ) (entries : List (Option DirEntry))
    (d : Disk)
    → Distinct entries
    → Readable (mtime_cutoff now age_minutes) entries
    → (files : List DirEntry) × (list_pending_pcaps dir age_minutes now (some entries) d
        ≡ some (map (entry_path dir) files))
      × OldestFirst files
      × DistinctNames files
      × ((e : DirEntry)
          → Memᴰ e files
            ↔ (Memᴰ (some e) entries × IsPending dir (mtime_cutoff now age_minutes) d e))
unfolding list_pending_pcaps
list_pending_pcaps-Pending dir age_minutes now entries d u r =
    let cutoff = mtime_cutoff now age_minutes in
    let (found, g) = gather-some dir cutoff d entries r in
    (
      sort_by_mtime found,
      rw g refl,
      OldestFirst-sort found,
      DistinctNames-sort found (DistinctNames-gather dir cutoff d entries found u g),
      λ e.
          let (down, up) = mem_sort e found in
          let (to, from) = gather_iff dir cutoff d entries found e g in
          (λ m. to (down m), λ m. up (from m)),
    )
