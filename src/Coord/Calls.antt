-- ===== src/Coord/Calls.antt =====
-- What the calls of src/coord.rs that slim a file into the temporary file do to the disk.
use rust_pcaprune.Prelude.{
  ◌≡◌, ◌≢◌, refl, sym, ap, ◌∙◌, Bool, true, false, [], Option, none, some, Bytes, Bool-cases, inl,
  inr, Run, ret, panic, out_of_fuel, take, subst,
}
use rust_pcaprune.Disk.{FilePath, Disk, fails, tried, put_file, put_file-same, put_file-other}
use rust_pcaprune.PcapIo.Base.{io_fault, ok, err, Io, SlimStats, Limits}
use rust_pcaprune.PcapIo.Slim.{slim_pcap_with_options}
use rust_pcaprune.Coord.{
  CoordError, pcap_error, Done, good, bad, OnDisk, remove_file, opened, store_output, slim_path,
}

-- The disks agree everywhere but at one path.
abbrev pub OnlyAt : FilePath → Disk → Disk → Type 0
OnlyAt t d d' = (p : FilePath) → t ≢ p → d'.content p ≡ d.content p

OnlyAt-put_file : (t : FilePath) (b : Option Bytes) (d : Disk) → OnlyAt t d (put_file t b d)
OnlyAt-put_file t b d p n = put_file-other t p b d n

pub OnlyAt-remove_file : (t : FilePath) (d : Disk) → OnlyAt t d (remove_file t d)
unfolding remove_file
OnlyAt-remove_file t d p n = elim (Bool-cases (fails d)) [
  | inl f ↦ rw f refl
  | inr f ↦ rw f (put_file-other t p none (tried d) n)
]

OnlyAt-store_output :
    (t : FilePath) (m : Io (Bytes × SlimStats × Limits)) (d : Disk)
    → OnlyAt t d (store_output t m d).0
unfolding store_output
OnlyAt-store_output t (ret (ok (out, stats, l))) d p n = elim (Bool-cases (fails d)) [
  | inl f ↦ rw f (put_file-other t p (some (take d.partial out)) (tried d) n)
  | inr f ↦ rw f (put_file-other t p (some out) (tried d) n)
]
OnlyAt-store_output t (ret (err e)) d p n = refl
OnlyAt-store_output t panic d p n = refl
OnlyAt-store_output t out_of_fuel d p n = refl

-- What a run that succeeded has read and written.
abbrev pub Written : FilePath → FilePath → Limits → Disk → Disk → SlimStats → Limits → Type 0
Written src tmp limits d d' stats l =
    (input : Bytes) × (out : Bytes) × (f : Bool) × (d.content src ≡ some input)
    × (slim_pcap_with_options (opened input f) limits ≡ ret (ok (out, stats, l)))
    × (d'.content tmp ≡ some out)

pub good_not_bad :
    {A : Type 0} (e : CoordError) (a : A) → ◌≢◌ {A = Run (Done A)} (ret (bad e)) (ret (good a))
good_not_bad e a = λ q. cc

pub good_injective :
    {A : Type 0} (x y : A) → ◌≡◌ {A = Run (Done A)} (ret (good x)) (ret (good y)) → x ≡ y
good_injective x y e = cc

store_output-good :
    (t : FilePath) (m : Io (Bytes × SlimStats × Limits)) (d : Disk) (stats : SlimStats) (l : Limits)
    → (store_output t m d).1 ≡ ret (good (stats, l))
    → (out : Bytes) × (m ≡ ret (ok (out, stats, l))) × ((store_output t m d).0.content t ≡ some out)
unfolding store_output
store_output-good t (ret (ok (out, stats', l'))) d stats l e = elim (Bool-cases (fails d)) [
  | inl f ↦ absurd (good_not_bad (pcap_error io_fault) (stats, l) (rw f at e))
  | inr f ↦ (
    out,
    ap (λ (x : SlimStats × Limits). ret (ok (out, x.0, x.1)))
        (good_injective (stats', l') (stats, l) (rw f at e)),
    rw f (put_file-same t (some out) (tried d)),
  )
]
store_output-good t (ret (err x)) d stats l e = cc
store_output-good t panic d stats l e = cc
store_output-good t out_of_fuel d stats l e = cc

abbrev pub ran : FilePath → FilePath → Limits → Disk → Option Bytes → OnDisk (SlimStats × Limits)
ran src tmp limits created none = (created, ret (bad (pcap_error io_fault)))
ran src tmp limits created (some input) =
    store_output tmp (slim_pcap_with_options (opened input (fails created)) limits) (tried created)

pub slim_path-ran :
    (src tmp : FilePath) (limits : Limits) (d : Disk)
    → fails d ≡ false
    → slim_path src tmp limits d
      ≡ ran src tmp limits
          (put_file tmp (some []) (tried d))
          ((put_file tmp (some []) (tried d)).content src)
unfolding slim_path
slim_path-ran src tmp limits d f = rw f refl

slim_path-fails :
    (src tmp : FilePath) (limits : Limits) (d : Disk)
    → fails d ≡ true
    → slim_path src tmp limits d ≡ (tried d, ret (bad (pcap_error io_fault)))
unfolding slim_path
slim_path-fails src tmp limits d f = rw f refl

OnlyAt-ran :
    (src tmp : FilePath) (limits : Limits) (d created : Disk) (o : Option Bytes)
    → OnlyAt tmp d created
    → OnlyAt tmp d (ran src tmp limits created o).0
OnlyAt-ran src tmp limits d created none h p n = h p n
OnlyAt-ran src tmp limits d created (some input) h p n =
    OnlyAt-store_output tmp (slim_pcap_with_options (opened input (fails created)) limits)
      (tried created) p n
    ∙ h p n

pub OnlyAt-slim_path :
    (src tmp : FilePath) (limits : Limits) (d : Disk) → OnlyAt tmp d (slim_path src tmp limits d).0
OnlyAt-slim_path src tmp limits d = elim (Bool-cases (fails d)) [
  | inl f ↦ λ p n.
      ap (λ (m : OnDisk (SlimStats × Limits)). m.0.content p) (slim_path-fails src tmp limits d f)
  | inr f ↦ λ p n.
      ap (λ (m : OnDisk (SlimStats × Limits)). m.0.content p) (slim_path-ran src tmp limits d f)
      ∙ OnlyAt-ran src tmp limits d (put_file tmp (some []) (tried d))
          ((put_file tmp (some []) (tried d)).content src) (OnlyAt-put_file tmp (some []) (tried d))
          p n
]

ran-good :
    (src tmp : FilePath) (limits : Limits) (d created : Disk) (o : Option Bytes) (stats : SlimStats)
    (l : Limits)
    → d.content src ≡ o
    → (ran src tmp limits created o).1 ≡ ret (good (stats, l))
    → Written src tmp limits d (ran src tmp limits created o).0 stats l
ran-good src tmp limits d created none stats l h e =
    absurd (good_not_bad (pcap_error io_fault) (stats, l) e)
ran-good src tmp limits d created (some input) stats l h e =
    let (out, q, c) =
      store_output-good tmp (slim_pcap_with_options (opened input (fails created)) limits)
        (tried created) stats l e in
    (input, out, fails created, h, q, c)

pub slim_path-good :
    (src tmp : FilePath) (limits : Limits) (d : Disk) (stats : SlimStats) (l : Limits)
    → tmp ≢ src
    → (slim_path src tmp limits d).1 ≡ ret (good (stats, l))
    → Written src tmp limits d (slim_path src tmp limits d).0 stats l
slim_path-good src tmp limits d stats l n e = elim (Bool-cases (fails d)) [
  | inl f ↦ absurd (
      good_not_bad (pcap_error io_fault) (stats, l)
        (sym (ap (λ (m : OnDisk (SlimStats × Limits)). m.1) (slim_path-fails src tmp limits d f))
          ∙ e))
  | inr f ↦
      let created = put_file tmp (some []) (tried d) in
      let q = slim_path-ran src tmp limits d f in
      subst (λ (m : OnDisk (SlimStats × Limits)). Written src tmp limits d m.0 stats l) (sym q)
        (ran-good src tmp limits d created (created.content src) stats l
          (sym (put_file-other tmp src (some []) (tried d) n))
          (sym (ap (λ (m : OnDisk (SlimStats × Limits)). m.1) q) ∙ e))
]
