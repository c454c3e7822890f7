-- ===== src/Main/Workers/Paths.antt =====
-- A step of a file uses the paths of that file only, for src/main.rs.
use rust_pcaprune.Prelude.{
  ℕ, zero, suc, ◌≡◌, ◌≢◌, refl, sym, ap, ◌∙◌, subst, Bool, true, false, List, [], ◌∷◌, Run, inl,
  inr, if◌then◌else◌, Bool-cases,
}
use mathlib.Core.List.{Memᴰ}
use rust_pcaprune.Disk.{FilePath, Disk, path_eq, is_there}
use rust_pcaprune.PcapIo.Base.{Limits}
use rust_pcaprune.Coord.{
  Done, OnDisk, marker_path, is_marked, tmp_path, rename, slim_path, verify_tmp_packet_count,
  create_marker, check_file,
}
use rust_pcaprune.Coord.Calls.{OnlyAt-remove_file, OnlyAt-slim_path}
use rust_pcaprune.Coord.Transaction.{verify-content, create_marker-other}
use rust_pcaprune.Coord.Alike.{
  Alike, AlikeOn, Alike-remove_file, Alike-rename, Alike-slim_path, Alike-verify,
  Alike-create_marker,
}
use rust_pcaprune.Coord.Local.{Footprint, check_file-Alike, check_file-content}
use rust_pcaprune.Coord.Outside.{rename-outside}
use rust_pcaprune.Main.Files.Independent.{Apart, AllApart}
use rust_pcaprune.Main.Workers.{
  Phase, waiting, written, counted, moved, aborted, processed, on_slim, on_count, on_rename,
  on_mark, behind, begin_file, advance, alone,
}

-- Two states of a file in the same phase, on disks that agree on its paths.
unfoldable pub AlikeAt : FilePath → Disk × Phase → Disk × Phase → Type 0
AlikeAt path m m' = (m.1 ≡ m'.1) × Alike (Footprint path) m.0 m'.0

-- What follows a stage keeps its disk, and looks at nothing but its result.
AlikeAt-behind :
    {A : Type 0} (path : FilePath) (next : Run (Done A) → Phase) (m m' : OnDisk A)
    → AlikeOn (Footprint path) m m'
    → AlikeAt path (behind next m) (behind next m')
unfolding AlikeAt
AlikeAt-behind path next m m' (e, a) = (ap next e, a)

AlikeAt-begin :
    (check_only : Bool) (limits : Limits) (path : FilePath) (d d' : Disk)
    → Alike (Footprint path) d d'
    → AlikeAt path (begin_file check_only limits path d) (begin_file check_only limits path d')
unfolding begin_file AlikeAt is_marked
AlikeAt-begin true limits path d d' a =
    AlikeAt-behind path processed (check_file path limits d) (check_file path limits d')
      (check_file-Alike path limits d d' a)
AlikeAt-begin false limits path d d' a =
    let same = ap is_there (a.2 (marker_path path) (inr (inr refl))) in
    elim (Bool-cases (is_marked d path)) [
      | inl f ↦ rw (f, sym same ∙ f) (refl, a)
      | inr f ↦
          rw (f, sym same ∙ f)
            (AlikeAt-behind path on_slim (slim_path path (tmp_path path) limits d)
              (slim_path path (tmp_path path) limits d')
              (Alike-slim_path (Footprint path) path (tmp_path path) limits d d' (inl refl) a))
    ]

begin_file-outside :
    (check_only : Bool) (limits : Limits) (path : FilePath) (d : Disk) (p : FilePath)
    → ¬ Footprint path p
    → (begin_file check_only limits path d).0.content p ≡ d.content p
unfolding begin_file
begin_file-outside true limits path d p n = check_file-content path limits d p
begin_file-outside false limits path d p n = elim (Bool-cases (is_marked d path)) [
  | inl f ↦ rw f refl
  | inr f ↦ rw f (OnlyAt-slim_path path (tmp_path path) limits d p (λ e. n (inr (inl (sym e)))))
]

module _ (check_only : Bool) (limits : Limits) (path : FilePath) where
  temporary : Footprint path (tmp_path path)
  temporary = inr (inl refl)

  pub AlikeAt-advance :
      (phase : Phase) (d d' : Disk)
      → Alike (Footprint path) d d'
      → AlikeAt path
          (advance check_only limits path phase d)
          (advance check_only limits path phase d')
  unfolding advance AlikeAt
  AlikeAt-advance waiting d d' a = AlikeAt-begin check_only limits path d d' a
  AlikeAt-advance (written stats l) d d' a =
      AlikeAt-behind path (on_count stats)
        (verify_tmp_packet_count stats.in_pkts (tmp_path path) l d)
        (verify_tmp_packet_count stats.in_pkts (tmp_path path) l d')
        (Alike-verify (Footprint path) stats.in_pkts (tmp_path path) l d d' temporary a)
  AlikeAt-advance (counted stats) d d' a =
      AlikeAt-behind path (on_rename stats) (rename (tmp_path path) path d)
        (rename (tmp_path path) path d')
        (Alike-rename (Footprint path) (tmp_path path) path d d' temporary a)
  AlikeAt-advance (moved stats) d d' a =
      AlikeAt-behind path (on_mark stats) (create_marker path d) (create_marker path d')
        (Alike-create_marker (Footprint path) path d d' a)
  AlikeAt-advance (aborted e) d d' a =
      (refl, Alike-remove_file (Footprint path) (tmp_path path) d d' a)
  AlikeAt-advance (processed r) d d' a = (refl, a)

  pub advance-outside :
      (phase : Phase) (d : Disk) (p : FilePath)
      → ¬ Footprint path p
      → (advance check_only limits path phase d).0.content p ≡ d.content p
  unfolding advance
  advance-outside waiting d p n = begin_file-outside check_only limits path d p n
  advance-outside (written stats l) d p n = verify-content stats.in_pkts (tmp_path path) l d p
  advance-outside (counted stats) d p n =
      rename-outside path p (λ e. n (inl (sym e))) (λ e. n (inr (inl (sym e))))
        (λ e. n (inr (inr (sym e)))) d
  advance-outside (moved stats) d p n = create_marker-other path d p (λ e. n (inr (inr (sym e))))
  advance-outside (aborted e) d p n =
      OnlyAt-remove_file (tmp_path path) d p (λ q. n (inr (inl (sym q))))
  advance-outside (processed r) d p n = refl

  pub AlikeAt-alone :
      (n : ℕ) (phase : Phase) (d d' : Disk)
      → Alike (Footprint path) d d'
      → AlikeAt path
          (alone check_only limits path n (d, phase))
          (alone check_only limits path n (d', phase))
  unfolding alone AlikeAt
  AlikeAt-alone zero phase d d' a = (refl, a)
  AlikeAt-alone (suc n) phase d d' a =
      let (e, b) = AlikeAt-advance phase d d' a in
      let m = advance check_only limits path phase d in
      let m' = advance check_only limits path phase d' in
      subst
        (λ next.
          AlikeAt path (alone check_only limits path n m)
            (alone check_only limits path n (m'.0, next)))
        e (AlikeAt-alone n m.1 m.0 m'.0 b)

-- How often a file is worked on.
abbrev pub times : FilePath → List FilePath → ℕ
times path [] = 0
times path (q ∷ schedule) =
    let rest = times path schedule in if path_eq q path then suc rest else rest

pub Apart-AllApart :
    (files : List FilePath) (a b : FilePath)
    → AllApart files
    → Memᴰ a files
    → Memᴰ b files
    → a ≢ b
    → Apart a b
Apart-AllApart [] a b u m k n = elim m [ ]
Apart-AllApart (x ∷ files) a b (first, u) m k n = elim m [
  | Memᴰ.head e ↦ elim k [
    | Memᴰ.head e' ↦ absurd (n (e ∙ sym e'))
    | Memᴰ.tail j ↦ subst (λ y. Apart y b) (sym e) (first b j)
  ]
  | Memᴰ.tail i ↦ elim k [
    | Memᴰ.head e' ↦ λ p f g. first a i p (subst (λ y. Footprint y p) e' g) f
    | Memᴰ.tail j ↦ Apart-AllApart files a b u i j n
  ]
]
