-- ===== src/Coord/Paths.antt =====
-- The temporary file and the marker of src/coord.rs are other files than the source.
use rust_pcaprune.Prelude.{
  ℕ, ◌≡◌, ◌≢◌, refl, sym, ap, ◌∙◌, List, [], ◌∷◌, ◌++◌, some, Bytes, length, length-append, arith,
}
use rust_pcaprune.Disk.{FilePath}
use rust_pcaprune.Coord.{marker_dir, marker_path, before_dot, file_stem, tmp_extension, tmp_path}

-- The name of a temporary file in front of its last dot.
before_dot-tmp :
    (s : Bytes)
    → before_dot (s ++ tmp_extension) ≡ some (s ++ (b'.' ∷ b'p' ∷ b'c' ∷ b'a' ∷ b'p' ∷ []))
unfolding before_dot
before_dot-tmp [] = refl
before_dot-tmp (x ∷ s) = rw (before_dot-tmp s, before_dot) refl

cons_of : (s : Bytes) (c : ℕ) (t : Bytes) → (x : ℕ) × (r : Bytes) × (s ++ (c ∷ t) ≡ x ∷ r)
cons_of [] c t = (c, t, refl)
cons_of (y ∷ s) c t = (y, s ++ (c ∷ t), refl)

file_stem-some :
    (name : Bytes) (x : ℕ) (r : Bytes) → before_dot name ≡ some (x ∷ r) → file_stem name ≡ x ∷ r
unfolding file_stem
file_stem-some name x r e = rw (e, file_stem) refl

file_stem-tmp :
    (s : Bytes) → file_stem (s ++ tmp_extension) ≡ s ++ (b'.' ∷ b'p' ∷ b'c' ∷ b'a' ∷ b'p' ∷ [])
file_stem-tmp s =
    let (x, r, e) = cons_of s b'.' (b'p' ∷ b'c' ∷ b'a' ∷ b'p' ∷ []) in
    file_stem-some (s ++ tmp_extension) x r (before_dot-tmp s ∙ ap some e) ∙ sym e

pub tmp_not_src : (src : FilePath) → tmp_path src ≢ src
unfolding tmp_path
tmp_not_src src = λ e.
    let s = file_stem src.name in
    let n : s ++ tmp_extension ≡ src.name = ap (λ (p : FilePath). p.name) e in
    let m : s ++ (b'.' ∷ b'p' ∷ b'c' ∷ b'a' ∷ b'p' ∷ []) ≡ s =
      sym (file_stem-tmp s) ∙ ap file_stem n in
    omega (
      arith,
      ap (λ (b : Bytes). length b) m,
      length-append s (b'.' ∷ b'p' ∷ b'c' ∷ b'a' ∷ b'p' ∷ []),
    )

pub dir_length : (xs : List Bytes) (y : Bytes) → xs ++ (y ∷ []) ≢ xs
dir_length xs y = λ e. omega (arith, ap (λ (d : List Bytes). length d) e, length-append xs (y ∷ []))

pub marker_not_src : (src : FilePath) → marker_path src ≢ src
unfolding marker_path
marker_not_src src = λ e. dir_length src.dir marker_dir (ap (λ (p : FilePath). p.dir) e)

pub marker_not_tmp : (src : FilePath) → marker_path src ≢ tmp_path src
unfolding marker_path tmp_path
marker_not_tmp src = λ e. dir_length src.dir marker_dir (ap (λ (p : FilePath). p.dir) e)
