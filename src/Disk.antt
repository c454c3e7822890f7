-- ===== src/Disk.antt =====
-- The part of the file system that src/coord.rs uses: files by path, each call able to fail. The
-- list of faults says of the next calls which fail; what it does not reach succeeds.
-- `partial` bytes of an output reach the disk in front of a write that fails.
use rust_pcaprune.Prelude.{
  ℕ, ◌≡◌, ◌≢◌, refl, ap₂, Bool, true, false, ◌&&◌, List, [], ◌∷◌, Option, none, some, ◌==◌,
  if◌then◌else◌, Bytes, Bool-cases, ==→eq, eq→==, inl, inr, ap, ◌⊎◌,
}

-- A path: its directory, by components, and the file name.
pub record FilePath : Type 0 where
  pub dir : List Bytes
  pub name : Bytes

unfoldable pub bytes_eq : Bytes → Bytes → Bool
bytes_eq [] [] = true
bytes_eq [] (y ∷ ys) = false
bytes_eq (x ∷ xs) [] = false
bytes_eq (x ∷ xs) (y ∷ ys) = x == y && bytes_eq xs ys

unfoldable pub dir_eq : List Bytes → List Bytes → Bool
dir_eq [] [] = true
dir_eq [] (y ∷ ys) = false
dir_eq (x ∷ xs) [] = false
dir_eq (x ∷ xs) (y ∷ ys) = bytes_eq x y && dir_eq xs ys

unfoldable pub path_eq : FilePath → FilePath → Bool
path_eq p q = dir_eq p.dir q.dir && bytes_eq p.name q.name

pub bytes_eq_refl : (xs : Bytes) → bytes_eq xs xs ≡ true
unfolding bytes_eq
bytes_eq_refl [] = refl
bytes_eq_refl (x ∷ xs) = rw (eq→== x x refl, bytes_eq_refl xs) refl

dir_eq_refl : (xs : List Bytes) → dir_eq xs xs ≡ true
unfolding dir_eq
dir_eq_refl [] = refl
dir_eq_refl (x ∷ xs) = rw (bytes_eq_refl x, dir_eq_refl xs) refl

pub path_eq_refl : (p : FilePath) → path_eq p p ≡ true
unfolding path_eq
path_eq_refl p = rw (dir_eq_refl p.dir, bytes_eq_refl p.name) refl

and-true : (a b : Bool) → (a && b) ≡ true → (a ≡ true) × (b ≡ true)
and-true true b e = (refl, e)
and-true false b e = cc

pub bytes_eq-eq : (xs ys : Bytes) → bytes_eq xs ys ≡ true → xs ≡ ys
unfolding bytes_eq
bytes_eq-eq [] [] e = refl
bytes_eq-eq [] (y ∷ ys) e = cc
bytes_eq-eq (x ∷ xs) [] e = cc
bytes_eq-eq (x ∷ xs) (y ∷ ys) e =
    let (a, b) = and-true (x == y) (bytes_eq xs ys) e in
    ap₂ (◌∷◌) (==→eq x y a) (bytes_eq-eq xs ys b)

dir_eq-eq : (xs ys : List Bytes) → dir_eq xs ys ≡ true → xs ≡ ys
unfolding dir_eq
dir_eq-eq [] [] e = refl
dir_eq-eq [] (y ∷ ys) e = cc
dir_eq-eq (x ∷ xs) [] e = cc
dir_eq-eq (x ∷ xs) (y ∷ ys) e =
    let (a, b) = and-true (bytes_eq x y) (dir_eq xs ys) e in
    ap₂ (◌∷◌) (bytes_eq-eq x y a) (dir_eq-eq xs ys b)

pub path_eq-eq : (p q : FilePath) → path_eq p q ≡ true → p ≡ q
unfolding path_eq
path_eq-eq p q e =
    let (a, b) = and-true (dir_eq p.dir q.dir) (bytes_eq p.name q.name) e in
    ap₂ (λ (d : List Bytes) (n : Bytes). record { dir = d; name = n }) (dir_eq-eq p.dir q.dir a)
      (bytes_eq-eq p.name q.name b)

pub path_eq-ne : (p q : FilePath) → p ≢ q → path_eq p q ≡ false
path_eq-ne p q n = elim (Bool-cases (path_eq p q)) [
  | inl e ↦ absurd (n (path_eq-eq p q e))
  | inr e ↦ e
]

pub path_cases : (p q : FilePath) → (p ≡ q) ⊎ (p ≢ q)
path_cases p q = elim (Bool-cases (path_eq p q)) [
  | inl e ↦ inl (path_eq-eq p q e)
  | inr e ↦ inr λ h. let t = ap (path_eq p) h in let r = path_eq_refl p in cc
]

pub record Disk : Type 0 where
  pub content : FilePath → Option Bytes
  pub faults : List Bool
  pub partial : ℕ

-- Whether the next call fails, and the disk for the calls behind it.
abbrev pub next_fault : List Bool → Bool
next_fault [] = false
next_fault (b ∷ bs) = b

abbrev pub rest_faults : List Bool → List Bool
rest_faults [] = []
rest_faults (b ∷ bs) = bs

abbrev pub fails : Disk → Bool
fails d = next_fault d.faults

abbrev pub tried : Disk → Disk
tried d = record d { faults = rest_faults d.faults }

-- The disk with what stands at one path replaced.
unfoldable pub put_file : FilePath → Option Bytes → Disk → Disk
put_file p b d = record d { content = λ q. if path_eq p q then b else d.content q }

pub put_file-same : (p : FilePath) (b : Option Bytes) (d : Disk) → (put_file p b d).content p ≡ b
unfolding put_file
put_file-same p b d = rw (path_eq_refl p) refl

pub put_file-other :
    (p q : FilePath) (b : Option Bytes) (d : Disk)
    → p ≢ q
    → (put_file p b d).content q ≡ d.content q
unfolding put_file
put_file-other p q b d n = rw (path_eq-ne p q n) refl

abbrev pub is_there : Option Bytes → Bool
is_there none = false
is_there (some b) = true

-- `path.exists()`
abbrev pub exists : Disk → FilePath → Bool
exists d p = is_there (d.content p)
