-- ===== src/Main/Files/Apart.antt =====
-- The captures of one directory are apart, for src/main.rs and src/coord.rs.
use rust_pcaprune.Prelude.{
  ℕ, ◌-◌, ◌≡◌, ◌≢◌, refl, sym, ap, ◌∙◌, Bool, true, false, List, [], ◌∷◌, ◌++◌, some, map, length,
  take, drop, length-append, take-append, drop-append, take-append-drop, Bytes, arith, Option-cases,
  inl, inr, subst,
}
use mathlib.Core.List.{Memᴰ}
use rust_pcaprune.Disk.{FilePath, bytes_eq, bytes_eq_refl, bytes_eq-eq}
use rust_pcaprune.Coord.{marker_dir, marker_path, before_dot, file_stem, tmp_extension, tmp_path}
use rust_pcaprune.Coord.Paths.{dir_length}
use rust_pcaprune.Coord.Utf8.{to_str, to_str-same}
use rust_pcaprune.Coord.Listing.{DirEntry, entry_path, ends_with, pcap_extension, str_or_empty}
use rust_pcaprune.Coord.Listing.Pending.{pcap_not_tmp}
use rust_pcaprune.Coord.Listing.Order.{DistinctNames}
use rust_pcaprune.Main.Files.Independent.{Apart, AllApart}

-- A name with something in front of `.pcap`.
abbrev pub Captured : Bytes → Type 0
Captured name = (ends_with pcap_extension name ≡ true) × (name ≢ pcap_extension)

before_dot-pcap : (s : Bytes) → before_dot (s ++ pcap_extension) ≡ some s
unfolding before_dot
before_dot-pcap [] = refl
before_dot-pcap (x ∷ s) = rw (before_dot-pcap s, before_dot) refl

file_stem-pcap : (x : ℕ) (s : Bytes) → file_stem ((x ∷ s) ++ pcap_extension) ≡ x ∷ s
unfolding file_stem
file_stem-pcap x s = rw (before_dot-pcap (x ∷ s), file_stem) refl

stem_of : (name : Bytes) → Captured name → file_stem name ++ pcap_extension ≡ name
unfolding ends_with
stem_of name (e, n) =
    let k = length name - length pcap_extension in
    let front = take k name in
    let whole : front ++ pcap_extension ≡ name =
      ap (λ b. front ++ b) (sym (bytes_eq-eq (drop k name) pcap_extension e))
      ∙ take-append-drop k name in
    go front whole
  where
    go : (s : Bytes) → s ++ pcap_extension ≡ name → file_stem name ++ pcap_extension ≡ name
    go [] w = absurd (n (sym w))
    go (x ∷ s) w =
        ap (λ b. file_stem b ++ pcap_extension) (sym w)
        ∙ ap (λ b. b ++ pcap_extension) (file_stem-pcap x s)
        ∙ w

ends_with-append : (s suffix : Bytes) → ends_with suffix (s ++ suffix) ≡ true
unfolding ends_with
ends_with-append s suffix =
    let here : length (s ++ suffix) - length suffix ≡ length s =
      omega (arith, length-append s suffix) in
    ap (λ k. bytes_eq (drop k (s ++ suffix)) suffix) here
    ∙ ap (λ b. bytes_eq b suffix) (drop-append s suffix)
    ∙ bytes_eq_refl suffix

cancel_right : (s t e : Bytes) → s ++ e ≡ t ++ e → s ≡ t
cancel_right s t e q =
    let same : length s ≡ length t =
      omega (arith, ap (λ (b : Bytes). length b) q, length-append s e, length-append t e) in
    sym (take-append s e)
    ∙ ap (take (length s)) q
    ∙ ap (λ n. take n (t ++ e)) same
    ∙ take-append t e

source_not_tmp : (a b : FilePath) → Captured a.name → a ≢ tmp_path b
unfolding tmp_path
source_not_tmp a b c = λ e.
    let n : a.name ≡ file_stem b.name ++ tmp_extension = ap (λ (p : FilePath). p.name) e in
    let yes = ends_with-append (file_stem b.name) tmp_extension in
    let not_so = pcap_not_tmp a.name c.0 in clash (ap (ends_with tmp_extension) n ∙ yes) not_so
  where
    clash : {x : Bool} → x ≡ true → x ≡ false → ⊥
    clash p q = cc

tmp_not_tmp :
    (a b : FilePath) → Captured a.name → Captured b.name → a.name ≢ b.name → tmp_path a ≢ tmp_path b
unfolding tmp_path
tmp_not_tmp a b c c' n = λ e.
    let stems : file_stem a.name ≡ file_stem b.name =
      cancel_right (file_stem a.name) (file_stem b.name) tmp_extension
        (ap (λ (p : FilePath). p.name) e) in
    n (sym (stem_of a.name c) ∙ ap (λ s. s ++ pcap_extension) stems ∙ stem_of b.name c')

not_marker : (p b : FilePath) → p.dir ≡ b.dir → p ≢ marker_path b
unfolding marker_path
not_marker p b same = λ e. dir_length b.dir marker_dir (sym (ap (λ (q : FilePath). q.dir) e) ∙ same)

tmp_dir : (a : FilePath) → (tmp_path a).dir ≡ a.dir
unfolding tmp_path
tmp_dir a = refl

marker_not_marker : (a b : FilePath) → a.name ≢ b.name → marker_path a ≢ marker_path b
unfolding marker_path
marker_not_marker a b n = λ e. n (ap (λ (p : FilePath). p.name) e)

-- Two captures of one directory share no file that slimming them uses.
pub Captured-Apart :
    (a b : FilePath)
    → a.dir ≡ b.dir
    → a.name ≢ b.name
    → Captured a.name
    → Captured b.name
    → Apart a b
Captured-Apart a b same n c c' p f g = elim f [
  | inl e ↦ elim g [
    | inl e' ↦ n (ap (λ (q : FilePath). q.name) (sym e ∙ e'))
    | inr (inl e') ↦ source_not_tmp a b c (sym e ∙ e')
    | inr (inr e') ↦ not_marker a b same (sym e ∙ e')
  ]
  | inr (inl e) ↦ elim g [
    | inl e' ↦ source_not_tmp b a c' (sym e' ∙ e)
    | inr (inl e') ↦ tmp_not_tmp a b c c' n (sym e ∙ e')
    | inr (inr e') ↦ not_marker (tmp_path a) b (tmp_dir a ∙ same) (sym e ∙ e')
  ]
  | inr (inr e) ↦ elim g [
    | inl e' ↦ not_marker b a (sym same) (sym e' ∙ e)
    | inr (inl e') ↦ not_marker (tmp_path b) a (tmp_dir b ∙ sym same) (sym e' ∙ e)
    | inr (inr e') ↦ marker_not_marker a b n (sym e ∙ e')
  ]
]

pub ends_with-str :
    (name : Bytes)
    → ends_with pcap_extension (str_or_empty name) ≡ true
    → ends_with pcap_extension name ≡ true
unfolding str_or_empty ends_with bytes_eq
ends_with-str name e = elim (Option-cases (to_str name)) [
  | inl q ↦ absurd (nothing_ends (rw (q, str_or_empty) at e))
  | inr (s, q) ↦
      ap (ends_with pcap_extension) (sym (to_str-same name s q)) ∙ (rw (q, str_or_empty) at e)
]
  where
    nothing_ends : bytes_eq [] pcap_extension ≡ true → ⊥
    nothing_ends q = cc

pub AllApart-entries :
    (dir : List Bytes) (files : List DirEntry)
    → DistinctNames files
    → ((e : DirEntry) → Memᴰ e files → Captured e.name)
    → AllApart (map (entry_path dir) files)
unfolding entry_path
AllApart-entries dir [] u c = tt
AllApart-entries dir (e ∷ files) (n, u) c = (
  λ b m. go files m n (λ x k. c x (Memᴰ.tail k)),
  AllApart-entries dir files u (λ x k. c x (Memᴰ.tail k)),
)
  where
    go :
        {b : FilePath} (others : List DirEntry)
        → Memᴰ b (map (entry_path dir) others)
        → ((x : DirEntry) → Memᴰ x others → e.name ≢ x.name)
        → ((x : DirEntry) → Memᴰ x others → Captured x.name)
        → Apart (entry_path dir e) b
    go [] m h k = elim m [ ]
    go (x ∷ others) m h k = elim m [
      | Memᴰ.head q ↦ subst (Apart (entry_path dir e)) (sym q) (
          Captured-Apart (entry_path dir e) (entry_path dir x) refl (h x (Memᴰ.head refl))
            (c e (Memᴰ.head refl)) (k x (Memᴰ.head refl)))
      | Memᴰ.tail i ↦ go others i (λ y j. h y (Memᴰ.tail j)) (λ y j. k y (Memᴰ.tail j))
    ]
