-- ===== src/Main/Workers/Interleaved.antt =====
-- Whatever the order of the workers' steps, a run of src/main.rs comes to the same.
use rust_pcaprune.Prelude.{
  ℕ, suc, ◌≤◌, ◌≡◌, ◌≢◌, refl, sym, ap, ◌∙◌, subst, Bool, List, [], ◌∷◌, inl, inr, if◌then◌else◌,
}
use mathlib.Core.List.{Memᴰ}
use rust_pcaprune.Disk.{FilePath, Disk, path_eq, path_eq_refl, path_eq-ne, path_cases}
use rust_pcaprune.PcapIo.Base.{Limits}
use rust_pcaprune.Coord.Success.{Sound}
use rust_pcaprune.Coord.Local.{Footprint}
use rust_pcaprune.Main.Files.{process_path}
use rust_pcaprune.Main.Files.Independent.{Apart, AllApart}
use rust_pcaprune.Main.Workers.{Phase, processed, advance, Workers, start, work, work_all, alone}
use rust_pcaprune.Main.Workers.Stages.{alone-process_path}
use rust_pcaprune.Main.Workers.Paths.{
  AlikeAt, times, Apart-AllApart, AlikeAt-advance, advance-outside, AlikeAt-alone,
}

-- A file on the disk, with its phase.
abbrev at : FilePath → Workers → Disk × Phase
at path s = (s.disk, s.phase path)

module _ (check_only : Bool) (limits : Limits) where
  work_self :
      (path : FilePath) (s : Workers)
      → at path (work check_only limits path s)
        ≡ advance check_only limits path (s.phase path) s.disk
  unfolding work
  work_self path s =
      let (d, next) = advance check_only limits path (s.phase path) s.disk in
      ap (λ (b : Bool). (d, if b then next else s.phase path)) (path_eq_refl path)

  work-other :
      (path q : FilePath) (s : Workers)
      → path ≢ q
      → (work check_only limits path s).phase q ≡ s.phase q
  unfolding work
  work-other path q s n =
      let next = (advance check_only limits path (s.phase path) s.disk).1 in
      ap (λ (b : Bool). if b then next else s.phase q) (path_eq-ne path q n)

  work-content :
      (path : FilePath) (s : Workers) (p : FilePath)
      → ¬ Footprint path p
      → (work check_only limits path s).disk.content p ≡ s.disk.content p
  unfolding work
  work-content path s p n = advance-outside check_only limits path (s.phase path) s.disk p n

  work-Sound :
      (path : FilePath) (s : Workers) → Sound s.disk → Sound (work check_only limits path s).disk
  unfolding work AlikeAt
  work-Sound path s h =
      (AlikeAt-advance check_only limits path (s.phase path) s.disk s.disk (h, h, λ p f. refl)).1.0

  AlikeAt-AlikeAt :
      (path : FilePath) (a b c : Disk × Phase)
      → AlikeAt path a b
      → AlikeAt path b c
      → AlikeAt path a c
  unfolding AlikeAt
  AlikeAt-AlikeAt path a b c (e, (h, _, x)) (e', (_, h', y)) =
      (e ∙ e', (h, h', λ p f. x p f ∙ y p f))

  -- Behind a step of another file, a file goes on as if there had been none.
  step_of_other :
      (path q : FilePath) (n : ℕ) (s : Workers)
      → Sound s.disk
      → path ≢ q
      → Apart path q
      → AlikeAt q
          (alone check_only limits q n (at q (work check_only limits path s)))
          (alone check_only limits q n (at q s))
  step_of_other path q n s h ne apart =
      subst
        (λ ph.
          AlikeAt q (alone check_only limits q n ((work check_only limits path s).disk, ph))
            (alone check_only limits q n (at q s)))
        (sym (work-other path q s ne))
        (AlikeAt-alone check_only limits q n (s.phase q) (work check_only limits path s).disk s.disk
          (work-Sound path s h, h, λ p f. work-content path s p (λ g. apart p g f)))

  -- Each file is as far as its own steps take it alone.
  work_all-alone :
      (files schedule : List FilePath) (s : Workers)
      → AllApart files
      → ((g : FilePath) → Memᴰ g schedule → Memᴰ g files)
      → Sound s.disk
      → (path : FilePath) → Memᴰ path files
      → AlikeAt path
          (at path (work_all check_only limits schedule s))
          (alone check_only limits path (times path schedule) (at path s))
  unfolding work_all alone AlikeAt
  work_all-alone files [] s u k h path m = (refl, (h, h, λ p f. refl))
  work_all-alone files (g ∷ schedule) s u k h path m =
      let s' = work check_only limits g s in
      let n = times path schedule in
      let rest =
        work_all-alone files schedule s' u (λ x i. k x (Memᴰ.tail i)) (work-Sound g s h) path m in
      let end = at path (work_all check_only limits schedule s') in
      elim (path_cases g path) [
        | inl e ↦
            let t : times path (g ∷ schedule) ≡ suc n =
              ap (λ (b : Bool). if b then suc n else n) (ap (path_eq g) (sym e) ∙ path_eq_refl g) in
            let one : alone check_only limits path n (at path s')
                ≡ alone check_only limits path (suc n) (at path s) =
              ap (alone check_only limits path n) (
                subst
                  (λ x.
                    at x (work check_only limits g s)
                    ≡ advance check_only limits x (s.phase x) s.disk)
                  e (work_self g s)) in
            subst (AlikeAt path end)
              (one ∙ ap (λ i. alone check_only limits path i (at path s)) (sym t)) rest
        | inr ne ↦
            let t : times path (g ∷ schedule) ≡ n =
              ap (λ (b : Bool). if b then suc n else n) (path_eq-ne g path ne) in
            subst (λ i. AlikeAt path end (alone check_only limits path i (at path s))) (sym t)
              (AlikeAt-AlikeAt path end (alone check_only limits path n (at path s'))
                (alone check_only limits path n (at path s)) rest
                (step_of_other g path n s h ne
                  (Apart-AllApart files g path u (k g (Memᴰ.head refl)) m ne)))
      ]

  work_all-outside :
      (schedule : List FilePath) (s : Workers) (p : FilePath)
      → ((g : FilePath) → Memᴰ g schedule → ¬ Footprint g p)
      → (work_all check_only limits schedule s).disk.content p ≡ s.disk.content p
  unfolding work_all
  work_all-outside [] s p n = refl
  work_all-outside (g ∷ schedule) s p n =
      work_all-outside schedule (work check_only limits g s) p (λ x i. n x (Memᴰ.tail i))
      ∙ work-content g s p (n g (Memᴰ.head refl))

-- Whatever the order in which the workers' steps come, a run comes to the same, where no call of
-- the file system fails and the files are apart. Each step is of one of the files. A file that had
-- four steps is processed, with the result, and the contents of its source, its temporary file and
-- its marker, that it has if it is processed in one go on the disk of the start; and each path that
-- belongs to no file is left alone.
pub work_all_any_order :
    (check_only : Bool) (limits : Limits) (files schedule : List FilePath) (d : Disk)
    → Sound d
    → AllApart files
    → ((path : FilePath) → Memᴰ path schedule → Memᴰ path files)
    → let s = work_all check_only limits schedule (start d) in
      ((path : FilePath)
        → Memᴰ path files
        → 4 ≤ times path schedule
        → let m = process_path check_only limits path d in
          (s.phase path ≡ processed m.1)
          × ((p : FilePath) → Footprint path p → s.disk.content p ≡ m.0.content p))
      × ((p : FilePath)
          → ((path : FilePath) → Memᴰ path files → ¬ Footprint path p)
          → s.disk.content p ≡ d.content p)
unfolding start AlikeAt
work_all_any_order check_only limits files schedule d h u k = (
  λ path m l.
      let (e, (_, _, c)) = work_all-alone check_only limits files schedule (start d) u k h path m in
      let q = alone-process_path check_only limits path (times path schedule) d l in
      (
        e ∙ ap (λ (x : Disk × Phase). x.1) q,
        λ p f. c p f ∙ ap (λ (x : Disk × Phase). x.0.content p) q,
      ),
  λ p n. work_all-outside check_only limits schedule (start d) p (λ g i. n g (k g i)),
)
