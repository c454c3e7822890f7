-- ===== src/Coord/Local.antt =====
-- slim_file_in_place of src/coord.rs reads and writes the source, its temporary file and its
-- marker only.
use rust_pcaprune.Prelude.{
  ◌≡◌, refl, sym, ap, ◌∙◌, Bool, Option, none, some, Bytes, ret, Bool-cases, ◌⊎◌, inl, inr, subst,
}
use rust_pcaprune.Disk.{FilePath, Disk, fails, tried, is_there}
use rust_pcaprune.PcapIo.Base.{io_fault, Limits}
use rust_pcaprune.Coord.{
  pcap_error, FileResult, bad, OnDisk, marker_path, is_marked, tmp_path, opened, slim_path,
  slim_file_in_place, checked, check_file,
}
use rust_pcaprune.PcapIo.Slim.{analyze_pcap_with_options}
use rust_pcaprune.Coord.Success.{fails-Sound}
use rust_pcaprune.Coord.Alike.{Alike, AlikeOn, Alike-tried, Alike-slim_path, Alike-verify_file}

-- The paths that slimming a file in place uses.
abbrev pub Footprint : FilePath → FilePath → Type 0
Footprint src p = (p ≡ src) ⊎ ((p ≡ tmp_path src) ⊎ (p ≡ marker_path src))

pub slim_file_in_place-Alike :
    (src : FilePath) (limits : Limits) (d d' : Disk)
    → Alike (Footprint src) d d'
    → AlikeOn (Footprint src) (slim_file_in_place src limits d) (slim_file_in_place src limits d')
unfolding slim_file_in_place is_marked
slim_file_in_place-Alike src limits d d' a =
    let tmp = tmp_path src in
    let same = ap is_there (a.2 (marker_path src) (inr (inr refl))) in
    elim (Bool-cases (is_marked d src)) [
      | inl f ↦ rw (f, sym same ∙ f) (refl, a)
      | inr f ↦
          rw (f, sym same ∙ f)
            (Alike-verify_file (Footprint src) src tmp (slim_path src tmp limits d)
              (slim_path src tmp limits d') (inr (inl refl))
              (Alike-slim_path (Footprint src) src tmp limits d d' (inl refl) a))
    ]

-- Checking writes nothing at all.
pub check_file-content :
    (src : FilePath) (limits : Limits) (d : Disk) (p : FilePath)
    → (check_file src limits d).0.content p ≡ d.content p
unfolding check_file
check_file-content src limits d p = elim (Bool-cases (is_marked d src)) [
  | inl f ↦ rw f refl
  | inr f ↦ rw f (go (d.content src))
]
  where
    go :
        (o : Option Bytes)
        → (elim o as (λ _. OnDisk FileResult) [
          | none ↦ (tried d, ret (bad (pcap_error io_fault)))
          | some input ↦
              (tried d, checked (analyze_pcap_with_options (opened input (fails d)) limits))
        ]).0.content
            p
          ≡ d.content p
    go none = refl
    go (some b) = refl

pub check_file-Alike :
    (src : FilePath) (limits : Limits) (d d' : Disk)
    → Alike (Footprint src) d d'
    → AlikeOn (Footprint src) (check_file src limits d) (check_file src limits d')
unfolding check_file is_marked
check_file-Alike src limits d d' a =
    let same = ap is_there (a.2 (marker_path src) (inr (inr refl))) in
    let after = Alike-tried (Footprint src) d d' a in
    elim (Bool-cases (is_marked d src)) [
      | inl f ↦ rw (f, sym same ∙ f) (refl, a)
      | inr f ↦
          rw (f, sym same ∙ f)
            (subst (λ o. AlikeOn (Footprint src) (answer d (d.content src)) (answer d' o))
              (a.2 src (inl refl)) (go (d.content src) after))
    ]
  where
    answer : Disk → Option Bytes → OnDisk FileResult
    answer e o = elim o [
      | none ↦ (tried e, ret (bad (pcap_error io_fault)))
      | some input ↦ (tried e, checked (analyze_pcap_with_options (opened input (fails e)) limits))
    ]

    go :
        (o : Option Bytes)
        → Alike (Footprint src) (tried d) (tried d')
        → AlikeOn (Footprint src) (answer d o) (answer d' o)
    go none x = (refl, x)
    go (some b) x = (
      ap (λ (y : Bool). checked (analyze_pcap_with_options (opened b y) limits))
          (fails-Sound d a.0 ∙ sym (fails-Sound d' a.1)),
      x,
    )
