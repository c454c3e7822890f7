-- ===== src/Main/Files/Independent.antt =====
-- The files that a run of src/main.rs processes do not get in each other's way.
use rust_pcaprune.Prelude.{
  ◌≡◌, refl, sym, ap, ap₂, ◌∙◌, Bool, true, false, List, [], ◌∷◌, map, Run, inl, inr, subst,
}
use mathlib.Core.List.{Memᴰ}
use rust_pcaprune.Disk.{FilePath, Disk}
use rust_pcaprune.PcapIo.Base.{Limits}
use rust_pcaprune.Coord.{FileResult, Done}
use rust_pcaprune.Coord.Success.{Sound}
use rust_pcaprune.Coord.Local.{
  Footprint, slim_file_in_place-Alike, check_file-Alike, check_file-content,
}
use rust_pcaprune.Coord.Alike.{Alike, AlikeOn}
use rust_pcaprune.Coord.Outside.{slim_file_in_place-outside}
use rust_pcaprune.Main.Files.{process_path, process_files}

-- Two files whose sources, temporary files and markers are all different.
abbrev pub Apart : FilePath → FilePath → Type 0
Apart a b = (p : FilePath) → Footprint a p → Footprint b p → ⊥

abbrev pub AllApart : List FilePath → Type 0
AllApart [] = Unit
AllApart (a ∷ files) = ((b : FilePath) → Memᴰ b files → Apart a b) × AllApart files

process_path-Alike :
    (check_only : Bool) (limits : Limits) (path : FilePath) (d d' : Disk)
    → Alike (Footprint path) d d'
    → AlikeOn
        (Footprint path)
        (process_path check_only limits path d)
        (process_path check_only limits path d')
unfolding process_path
process_path-Alike true limits path d d' a = check_file-Alike path limits d d' a
process_path-Alike false limits path d d' a = slim_file_in_place-Alike path limits d d' a

pub process_path-outside :
    (check_only : Bool) (limits : Limits) (path : FilePath) (d : Disk) (p : FilePath)
    → ¬ Footprint path p
    → (process_path check_only limits path d).0.content p ≡ d.content p
unfolding process_path
process_path-outside true limits path d p n = check_file-content path limits d p
process_path-outside false limits path d p n =
    slim_file_in_place-outside path p (λ e. n (inl (sym e))) (λ e. n (inr (inl (sym e))))
      (λ e. n (inr (inr (sym e)))) limits d

pub process_path-Sound :
    (check_only : Bool) (limits : Limits) (path : FilePath) (d : Disk)
    → Sound d
    → Sound (process_path check_only limits path d).0
process_path-Sound check_only limits path d h =
    (process_path-Alike check_only limits path d d (h, h, λ p f. refl)).1.0

pub process_files-outside :
    (check_only : Bool) (limits : Limits) (files : List FilePath) (d : Disk) (p : FilePath)
    → ((f : FilePath) → Memᴰ f files → ¬ Footprint f p)
    → (process_files check_only limits files d).0.content p ≡ d.content p
unfolding process_files
process_files-outside check_only limits [] d p n = refl
process_files-outside check_only limits (path ∷ files) d p n =
    process_files-outside check_only limits files (process_path check_only limits path d).0 p
      (λ f m. n f (Memᴰ.tail m))
    ∙ process_path-outside check_only limits path d p (n path (Memᴰ.head refl))

-- Behind a file that is apart from it, a file is processed as it was in front of it.
behind_other :
    (check_only : Bool) (limits : Limits) (path other : FilePath) (d : Disk)
    → Sound d
    → Apart path other
    → AlikeOn
        (Footprint other)
        (process_path check_only limits other (process_path check_only limits path d).0)
        (process_path check_only limits other d)
behind_other check_only limits path other d h apart =
    process_path-Alike check_only limits other (process_path check_only limits path d).0 d (
      process_path-Sound check_only limits path d h,
      h,
      λ p f. process_path-outside check_only limits path d p (λ g. apart p g f),
    )

map_ext :
    (g h : FilePath → Run (Done FileResult)) (files : List FilePath)
    → ((f : FilePath) → Memᴰ f files → g f ≡ h f)
    → map g files ≡ map h files
map_ext g h [] e = refl
map_ext g h (f ∷ files) e =
    ap₂ (◌∷◌) (e f (Memᴰ.head refl)) (map_ext g h files (λ x m. e x (Memᴰ.tail m)))

-- Files that are apart do not get in each other's way, where no call of the file system fails: each
-- has the result, and leaves at its source, temporary file and marker what it would if it were
-- processed alone, so that their order does not matter; and all else is left alone.
pub process_files_independent :
    (check_only : Bool) (limits : Limits) (files : List FilePath) (d : Disk)
    → Sound d
    → AllApart files
    → ((process_files check_only limits files d).1
        ≡ map (λ path. (process_path check_only limits path d).1) files)
      × ((path : FilePath)
          → Memᴰ path files
          → (p : FilePath) → Footprint path p
          → (process_files check_only limits files d).0.content p
            ≡ (process_path check_only limits path d).0.content p)
      × ((p : FilePath)
          → ((path : FilePath) → Memᴰ path files → ¬ Footprint path p)
          → (process_files check_only limits files d).0.content p ≡ d.content p)
unfolding process_files
process_files_independent check_only limits [] d h u = (refl, λ path m. elim m [ ], λ p n. refl)
process_files_independent check_only limits (first ∷ files) d h (apart, u) =
    let d' = (process_path check_only limits first d).0 in
    let h' = process_path-Sound check_only limits first d h in
    let (results, left, _) = process_files_independent check_only limits files d' h' u in
    (
      ap (◌∷◌ (process_path check_only limits first d).1) (
          results
          ∙ map_ext (λ path. (process_path check_only limits path d').1)
              (λ path. (process_path check_only limits path d).1) files
              (λ other m. (behind_other check_only limits first other d h (apart other m)).0)),
      λ path m p f. elim m [
        | Memᴰ.head e ↦
            process_files-outside check_only limits files d' p
              (λ other k g. apart other k p (subst (λ x. Footprint x p) e f) g)
            ∙ ap (λ x. (process_path check_only limits x d).0.content p) (sym e)
        | Memᴰ.tail k ↦
            left path k p f ∙ (behind_other check_only limits first path d h (apart path k)).1.2 p f
      ],
      λ p n. process_files-outside check_only limits (first ∷ files) d p n,
    )
