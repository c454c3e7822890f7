-- ===== src/Coord/Alike.antt =====
-- The stages of slim_file_in_place of src/coord.rs on disks that agree on the paths that they read.
use rust_pcaprune.Prelude.{
  ℕ, ◌≡◌, refl, sym, ap, ◌∙◌, Bool, [], Option, none, some, Bytes, Run, ret, panic, out_of_fuel,
  inl, inr, subst,
}
use rust_pcaprune.Disk.{
  FilePath, Disk, fails, tried, put_file, put_file-same, put_file-other, path_cases,
}
use rust_pcaprune.PcapIo.Base.{io_fault, ok, err, Io, SlimStats, Limits}
use rust_pcaprune.Coord.{
  io_error, pcap_error, Done, good, bad, OnDisk, marker_path, remove_file, rename, opened,
  store_output, slim_path, compare_count, verify_tmp_packet_count, create_marker, finish_file,
  mark_file, commit_file, verify_file,
}
use rust_pcaprune.PcapIo.Slim.{slim_pcap_with_options}
use rust_pcaprune.PcapIo.Count.{count_packets_with_options}
use rust_pcaprune.Coord.Success.{
  Sound, create_marker-Sound, put_file-Sound, tried-Sound, fails-Sound,
}
use rust_pcaprune.Coord.Calls.{slim_path-ran, ran}

-- Two disks on which no call fails and which agree on some paths.
abbrev pub Alike : (FilePath → Type 0) → Disk → Disk → Type 0
Alike F d d' = Sound d × Sound d' × ((p : FilePath) → F p → d.content p ≡ d'.content p)

-- Two stages with the same result, which leave such disks.
abbrev pub AlikeOn {ℓ} : {A : Type ℓ} → (FilePath → Type 0) → OnDisk A → OnDisk A → Type ℓ
AlikeOn F m m' = (m.1 ≡ m'.1) × Alike F m.0 m'.0

module _ (F : FilePath → Type 0) where
  pub Alike-tried : (d d' : Disk) → Alike F d d' → Alike F (tried d) (tried d')
  Alike-tried d d' (h, h', c) = (tried-Sound d h, tried-Sound d' h', c)

  Alike-put_file :
      (q : FilePath) (b : Option Bytes) (d d' : Disk)
      → Alike F d d'
      → Alike F (put_file q b d) (put_file q b d')
  Alike-put_file q b d d' (h, h', c) = (
    put_file-Sound q b d h,
    put_file-Sound q b d' h',
    λ p f. elim (path_cases q p) [
      | inl e ↦
          subst (λ r. (put_file q b d).content r ≡ (put_file q b d').content r) e
            (put_file-same q b d ∙ sym (put_file-same q b d'))
      | inr n ↦ put_file-other q p b d n ∙ c p f ∙ sym (put_file-other q p b d' n)
    ],
  )

  pub Alike-remove_file :
      (q : FilePath) (d d' : Disk) → Alike F d d' → Alike F (remove_file q d) (remove_file q d')
  unfolding remove_file
  Alike-remove_file q d d' a =
      rw (fails-Sound d a.0, fails-Sound d' a.1)
        (Alike-put_file q none (tried d) (tried d') (Alike-tried d d' a))

  pub Alike-rename :
      (from to : FilePath) (d d' : Disk)
      → F from
      → Alike F d d'
      → AlikeOn F (rename from to d) (rename from to d')
  unfolding rename
  Alike-rename from to d d' f a =
      rw (fails-Sound d a.0, fails-Sound d' a.1)
        (go (d.content from) (d'.content from) (a.2 from f))
    where
      moved : Option Bytes → Disk → OnDisk (Unit {0})
      moved o e = elim o [
        | none ↦ (tried e, ret (bad io_error))
        | some b ↦ (put_file from none (put_file to (some b) (tried e)), ret (good tt))
      ]

      same : (o : Option Bytes) → AlikeOn F (moved o d) (moved o d')
      same none = (refl, Alike-tried d d' a)
      same (some b) = (
        refl,
        Alike-put_file from none (put_file to (some b) (tried d)) (put_file to (some b) (tried d'))
            (Alike-put_file to (some b) (tried d) (tried d') (Alike-tried d d' a)),
      )

      go : (o o' : Option Bytes) → o ≡ o' → AlikeOn F (moved o d) (moved o' d')
      go o o' q = subst (λ x. AlikeOn F (moved o d) (moved x d')) q (same o)

  Alike-store_output :
      (tmp : FilePath) (m : Io (Bytes × SlimStats × Limits)) (d d' : Disk)
      → Alike F d d'
      → AlikeOn F (store_output tmp m d) (store_output tmp m d')
  unfolding store_output
  Alike-store_output tmp (ret (ok (out, stats, l))) d d' a =
      rw (fails-Sound d a.0, fails-Sound d' a.1)
        (refl, Alike-put_file tmp (some out) (tried d) (tried d') (Alike-tried d d' a))
  Alike-store_output tmp (ret (err e)) d d' a = (refl, a)
  Alike-store_output tmp panic d d' a = (refl, a)
  Alike-store_output tmp out_of_fuel d d' a = (refl, a)

  Alike-ran :
      (src tmp : FilePath) (limits : Limits) (c c' : Disk) (o : Option Bytes)
      → Alike F c c'
      → AlikeOn F (ran src tmp limits c o) (ran src tmp limits c' o)
  Alike-ran src tmp limits c c' none a = (refl, a)
  Alike-ran src tmp limits c c' (some input) a =
      subst
        (λ (f : Bool).
          AlikeOn F (ran src tmp limits c (some input))
            (store_output tmp (slim_pcap_with_options (opened input f) limits) (tried c')))
        (fails-Sound c a.0 ∙ sym (fails-Sound c' a.1))
        (Alike-store_output tmp (slim_pcap_with_options (opened input (fails c)) limits) (tried c)
          (tried c') (Alike-tried c c' a))

  pub Alike-slim_path :
      (src tmp : FilePath) (limits : Limits) (d d' : Disk)
      → F src
      → Alike F d d'
      → AlikeOn F (slim_path src tmp limits d) (slim_path src tmp limits d')
  Alike-slim_path src tmp limits d d' f a =
      let c = put_file tmp (some []) (tried d) in
      let c' = put_file tmp (some []) (tried d') in
      let b = Alike-put_file tmp (some []) (tried d) (tried d') (Alike-tried d d' a) in
      subst (λ m. AlikeOn F m (slim_path src tmp limits d'))
        (sym (slim_path-ran src tmp limits d (fails-Sound d a.0)))
        (subst (AlikeOn F (ran src tmp limits c (c.content src)))
          (ap (ran src tmp limits c') (b.2 src f)
            ∙ sym (slim_path-ran src tmp limits d' (fails-Sound d' a.1)))
          (Alike-ran src tmp limits c c' (c.content src) b))

  pub Alike-verify :
      (n : ℕ) (tmp : FilePath) (limits : Limits) (d d' : Disk)
      → F tmp
      → Alike F d d'
      → AlikeOn F (verify_tmp_packet_count n tmp limits d) (verify_tmp_packet_count n tmp limits d')
  unfolding verify_tmp_packet_count
  Alike-verify n tmp limits d d' f a =
      subst (λ o. AlikeOn F (counted d (d.content tmp)) (counted d' o)) (a.2 tmp f)
        (go (d.content tmp))
    where
      counted : Disk → Option Bytes → OnDisk Limits
      counted e o = elim o [
        | none ↦ (tried e, ret (bad (pcap_error io_fault)))
        | some b ↦
            (tried e, compare_count n (count_packets_with_options (opened b (fails e)) limits))
      ]

      go : (o : Option Bytes) → AlikeOn F (counted d o) (counted d' o)
      go none = (refl, Alike-tried d d' a)
      go (some b) = (
        ap (λ (x : Bool). compare_count n (count_packets_with_options (opened b x) limits))
            (fails-Sound d a.0 ∙ sym (fails-Sound d' a.1)),
        Alike-tried d d' a,
      )

  pub Alike-create_marker :
      (src : FilePath) (d d' : Disk)
      → Alike F d d'
      → AlikeOn F (create_marker src d) (create_marker src d')
  Alike-create_marker src d d' a =
      let made = Alike-tried d d' a in
      let permitted = Alike-tried (tried d) (tried d') made in
      let written = λ (e : Disk). put_file (marker_path src) (some []) (tried (tried (tried e))) in
      let w =
        Alike-put_file (marker_path src) (some []) (tried (tried (tried d)))
          (tried (tried (tried d'))) (Alike-tried (tried (tried d)) (tried (tried d')) permitted) in
      subst (λ m. AlikeOn F m (create_marker src d')) (sym (create_marker-Sound src d a.0))
        (subst (AlikeOn F (tried (tried (written d)), ret (good tt)))
          (sym (create_marker-Sound src d' a.1))
          (
            refl,
            Alike-tried (tried (written d)) (tried (written d'))
                (Alike-tried (written d) (written d') w),
          ))

  Alike-finish_file :
      (stats : SlimStats) (m m' : OnDisk (Unit {0}))
      → AlikeOn F m m'
      → AlikeOn F (finish_file stats m) (finish_file stats m')
  unfolding finish_file
  Alike-finish_file stats (d, r) (d', r') (e, a) =
      subst (λ x. AlikeOn F (finish_file stats (d, r)) (finish_file stats (d', x))) e (go r)
    where
      go :
          (x : Run (Done (Unit {0})))
          → AlikeOn F (finish_file stats (d, x)) (finish_file stats (d', x))
      go (ret (good u)) = (refl, a)
      go (ret (bad x)) = (refl, a)
      go panic = (refl, a)
      go out_of_fuel = (refl, a)

  Alike-mark_file :
      (src : FilePath) (stats : SlimStats) (m m' : OnDisk (Unit {0}))
      → AlikeOn F m m'
      → AlikeOn F (mark_file src stats m) (mark_file src stats m')
  unfolding mark_file
  Alike-mark_file src stats (d, r) (d', r') (e, a) =
      subst (λ x. AlikeOn F (mark_file src stats (d, r)) (mark_file src stats (d', x))) e (go r)
    where
      go :
          (x : Run (Done (Unit {0})))
          → AlikeOn F (mark_file src stats (d, x)) (mark_file src stats (d', x))
      go (ret (good u)) =
          Alike-finish_file stats (create_marker src d) (create_marker src d')
            (Alike-create_marker src d d' a)
      go (ret (bad x)) = (refl, a)
      go panic = (refl, a)
      go out_of_fuel = (refl, a)

  Alike-commit_file :
      (src tmp : FilePath) (stats : SlimStats) (m m' : OnDisk Limits)
      → F tmp
      → AlikeOn F m m'
      → AlikeOn F (commit_file src tmp stats m) (commit_file src tmp stats m')
  unfolding commit_file
  Alike-commit_file src tmp stats (d, r) (d', r') f (e, a) =
      subst (λ x. AlikeOn F (commit_file src tmp stats (d, r)) (commit_file src tmp stats (d', x)))
        e (go r)
    where
      go :
          (x : Run (Done Limits))
          → AlikeOn F (commit_file src tmp stats (d, x)) (commit_file src tmp stats (d', x))
      go (ret (good l)) =
          Alike-mark_file src stats (rename tmp src d) (rename tmp src d')
            (Alike-rename tmp src d d' f a)
      go (ret (bad x)) = (refl, Alike-remove_file tmp d d' a)
      go panic = (refl, a)
      go out_of_fuel = (refl, a)

  pub Alike-verify_file :
      (src tmp : FilePath) (m m' : OnDisk (SlimStats × Limits))
      → F tmp
      → AlikeOn F m m'
      → AlikeOn F (verify_file src tmp m) (verify_file src tmp m')
  unfolding verify_file
  Alike-verify_file src tmp (d, r) (d', r') f (e, a) =
      subst (λ x. AlikeOn F (verify_file src tmp (d, r)) (verify_file src tmp (d', x))) e (go r)
    where
      go :
          (x : Run (Done (SlimStats × Limits)))
          → AlikeOn F (verify_file src tmp (d, x)) (verify_file src tmp (d', x))
      go (ret (good (stats, l))) =
          Alike-commit_file src tmp stats (verify_tmp_packet_count stats.in_pkts tmp l d)
            (verify_tmp_packet_count stats.in_pkts tmp l d') f
            (Alike-verify stats.in_pkts tmp l d d' f a)
      go (ret (bad x)) = (refl, Alike-remove_file tmp d d' a)
      go panic = (refl, a)
      go out_of_fuel = (refl, a)
