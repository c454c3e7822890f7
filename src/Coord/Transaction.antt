-- ===== src/Coord/Transaction.antt =====
-- slim_file_in_place of src/coord.rs as a transaction, whichever calls of the file system fail.
use rust_pcaprune.Prelude.{
  ℕ, ◌≡◌, ◌≢◌, refl, sym, ap, ◌∙◌, Bool, [], none, some, ◌==◌, Bytes, Option-cases, Bool-cases, inl,
  inr, ◌⊎◌, Run, ret, panic, out_of_fuel, ==→eq,
}
use rust_pcaprune.Disk.{FilePath, Disk, fails, tried, put_file, put_file-same, put_file-other}
use rust_pcaprune.PcapIo.Base.{ok, err, Io, SlimStats, Limits}
use rust_pcaprune.PcapIo.Slim.{slim_pcap_with_options}
use rust_pcaprune.PcapIo.Count.{count_packets_with_options}
use rust_pcaprune.Coord.{
  CoordError, io_error, packet_count_mismatch, Done, good, bad, OnDisk, marker_path, is_marked,
  tmp_path, rename, opened, slim_path, compare_count, verify_tmp_packet_count, create_marker,
  finish_file, mark_file, commit_file, verify_file, slim_file_in_place,
}
use rust_pcaprune.Coord.Paths.{tmp_not_src, marker_not_src}
use rust_pcaprune.Coord.Calls.{
  OnlyAt, OnlyAt-remove_file, Written, good_not_bad, good_injective, OnlyAt-slim_path,
  slim_path-good,
}

-- The source holds its slimmed form, in which as many packets were counted as were read.
abbrev pub Replaced : FilePath → Limits → Disk → Disk → Type 0
Replaced src limits d d' =
    (input : Bytes) × (out : Bytes) × (f : Bool) × (stats : SlimStats) × (l : Limits) × (d.content
        src
      ≡ some input)
    × (slim_pcap_with_options (opened input f) limits ≡ ret (ok (out, stats, l)))
    × ((g : Bool) × (m : Limits) × (count_packets_with_options (opened out g) l
          ≡ ret (ok (stats.in_pkts, m))))
    × (d'.content src ≡ some out)

abbrev pub Transacted : FilePath → Limits → Disk → Disk → Type 0
Transacted src limits d d' = (d'.content src ≡ d.content src) ⊎ Replaced src limits d d'

compare_count-good :
    (n : ℕ) (m : Io (ℕ × Limits)) (l : Limits)
    → compare_count n m ≡ ret (good l)
    → m ≡ ret (ok (n, l))
unfolding compare_count
compare_count-good n (ret (ok (c, l'))) l e = elim (Bool-cases (c == n)) [
  | inl q ↦
      ap (λ (x : ℕ). ret (ok (x, l'))) (==→eq c n q)
      ∙ ap (λ (x : Limits). ret (ok (n, x))) (good_injective l' l (rw q at e))
  | inr q ↦ absurd (good_not_bad (packet_count_mismatch n c) l (rw q at e))
]
compare_count-good n (ret (err x)) l e = cc
compare_count-good n panic l e = cc
compare_count-good n out_of_fuel l e = cc

verify-good :
    (n : ℕ) (tmp : FilePath) (limits l : Limits) (d : Disk) (out : Bytes)
    → d.content tmp ≡ some out
    → (verify_tmp_packet_count n tmp limits d).1 ≡ ret (good l)
    → count_packets_with_options (opened out (fails d)) limits ≡ ret (ok (n, l))
unfolding verify_tmp_packet_count
verify-good n tmp limits l d out h e =
    compare_count-good n (count_packets_with_options (opened out (fails d)) limits) l
      (rw (h, verify_tmp_packet_count) at e)

pub verify-content :
    (n : ℕ) (tmp : FilePath) (limits : Limits) (d : Disk) (p : FilePath)
    → (verify_tmp_packet_count n tmp limits d).0.content p ≡ d.content p
unfolding verify_tmp_packet_count
verify-content n tmp limits d p = elim (Option-cases (d.content tmp)) [
  | inl q ↦ rw (q, verify_tmp_packet_count) refl
  | inr (b, q) ↦ rw (q, verify_tmp_packet_count) refl
]

-- Renaming moves the file, or changes nothing.
pub rename_cases :
    (from to : FilePath) (d : Disk)
    → from ≢ to
    → ((d' : Disk) × (rename from to d ≡ (d', ret (good tt)))
        × (d'.content to ≡ d.content from)
        × ((p : FilePath) → from ≢ p → to ≢ p → d'.content p ≡ d.content p))
      ⊎ ((d' : Disk) × (e : CoordError) × (rename from to d ≡ (d', ret (bad e)))
          × ((p : FilePath) → d'.content p ≡ d.content p))
unfolding rename
rename_cases from to d n = elim (Bool-cases (fails d)) [
  | inl f ↦ inr (tried d, io_error, rw f refl, λ p. refl)
  | inr f ↦ elim (Option-cases (d.content from)) [
    | inl q ↦ inr (tried d, io_error, rw f (rw (q, rename) refl), λ p. refl)
    | inr (b, q) ↦
        let moved = put_file to (some b) (tried d) in
        inl (
          put_file from none moved,
          rw f (rw (q, rename) refl),
          put_file-other from to none moved n ∙ put_file-same to (some b) (tried d) ∙ sym q,
          λ p a c. put_file-other from p none moved a ∙ put_file-other to p (some b) (tried d) c,
        )
  ]
]

pub create_marker-other :
    (src : FilePath) (d : Disk) (p : FilePath)
    → marker_path src ≢ p
    → (create_marker src d).0.content p ≡ d.content p
unfolding create_marker
create_marker-other src d p n =
    let made = tried d in
    let permitted = tried made in
    let written = put_file (marker_path src) (some []) (tried permitted) in
    elim (Bool-cases (fails d)) [
      | inl f ↦ rw f refl
      | inr f ↦ elim (Bool-cases (fails made)) [
        | inl g ↦ rw (f, g) refl
        | inr g ↦ elim (Bool-cases (fails permitted)) [
          | inl h ↦ rw (f, g, h) refl
          | inr h ↦ elim (Bool-cases (fails written)) [
            | inl i ↦
                rw (f, g, h, i) (put_file-other (marker_path src) p (some []) (tried permitted) n)
            | inr i ↦
                rw (f, g, h, i) (put_file-other (marker_path src) p (some []) (tried permitted) n)
          ]
        ]
      ]
    ]

pub finish_file-disk : (stats : SlimStats) (m : OnDisk (Unit {0})) → (finish_file stats m).0 ≡ m.0
unfolding finish_file
finish_file-disk stats (d, ret (good u)) = refl
finish_file-disk stats (d, ret (bad e)) = refl
finish_file-disk stats (d, panic) = refl
finish_file-disk stats (d, out_of_fuel) = refl

marked-content :
    (src : FilePath) (stats : SlimStats) (d : Disk)
    → (mark_file src stats (d, ret (good tt))).0.content src ≡ d.content src
unfolding mark_file
marked-content src stats d =
    ap (λ (x : Disk). x.content src) (finish_file-disk stats (create_marker src d))
    ∙ create_marker-other src d src (marker_not_src src)

mark_file-content :
    (src tmp : FilePath) (stats : SlimStats) (d : Disk)
    → tmp ≢ src
    → ((mark_file src stats (rename tmp src d)).0.content src ≡ d.content src)
      ⊎ ((mark_file src stats (rename tmp src d)).0.content src ≡ d.content tmp)
unfolding mark_file
mark_file-content src tmp stats d n = elim (rename_cases tmp src d n) [
  | inl (d', e, c, o) ↦
      inr (ap (λ m. (mark_file src stats m).0.content src) e ∙ marked-content src stats d' ∙ c)
  | inr (d', x, e, c) ↦ inl (ap (λ m. (mark_file src stats m).0.content src) e ∙ c src)
]

-- What `verify_tmp_packet_count` answers decides whether the file is replaced.
commit_file-content :
    (src tmp : FilePath) (stats : SlimStats) (d : Disk) (r : Run (Done Limits))
    → tmp ≢ src
    → ((commit_file src tmp stats (d, r)).0.content src ≡ d.content src)
      ⊎ (((l : Limits) × (r ≡ ret (good l)))
          × ((commit_file src tmp stats (d, r)).0.content src ≡ d.content tmp))
unfolding commit_file
commit_file-content src tmp stats d (ret (good l)) n = elim (mark_file-content src tmp stats d n) [
  | inl e ↦ inl e
  | inr e ↦ inr ((l, refl), e)
]
commit_file-content src tmp stats d (ret (bad e)) n = inl (OnlyAt-remove_file tmp d src n)
commit_file-content src tmp stats d panic n = inl refl
commit_file-content src tmp stats d out_of_fuel n = inl refl

verified :
    (src tmp : FilePath) (limits : Limits) (d₀ d : Disk) (stats : SlimStats) (l : Limits)
    → tmp ≢ src
    → OnlyAt tmp d₀ d
    → Written src tmp limits d₀ d stats l
    → Transacted src limits d₀
        (commit_file src tmp stats (verify_tmp_packet_count stats.in_pkts tmp l d)).0
verified src tmp limits d₀ d stats l n o (input, out, f, a, b, c) =
    let v = verify_tmp_packet_count stats.in_pkts tmp l d in
    elim (commit_file-content src tmp stats v.0 v.1 n) [
      | inl e ↦ inl (e ∙ verify-content stats.in_pkts tmp l d src ∙ o src n)
      | inr ((m, q), e) ↦ inr (
        input,
        out,
        f,
        stats,
        l,
        a,
        b,
        (fails d, m, verify-good stats.in_pkts tmp l m d out c q),
        e ∙ verify-content stats.in_pkts tmp l d tmp ∙ c,
      )
    ]

verify_file-Transacted :
    (src tmp : FilePath) (limits : Limits) (d₀ : Disk) (m : OnDisk (SlimStats × Limits))
    → tmp ≢ src
    → OnlyAt tmp d₀ m.0
    → ((stats : SlimStats) (l : Limits)
        → m.1 ≡ ret (good (stats, l))
        → Written src tmp limits d₀ m.0 stats l)
    → Transacted src limits d₀ (verify_file src tmp m).0
unfolding verify_file
verify_file-Transacted src tmp limits d₀ (d, ret (good (stats, l))) n o w =
    verified src tmp limits d₀ d stats l n o (w stats l refl)
verify_file-Transacted src tmp limits d₀ (d, ret (bad e)) n o w =
    inl (OnlyAt-remove_file tmp d src n ∙ o src n)
verify_file-Transacted src tmp limits d₀ (d, panic) n o w = inl (o src n)
verify_file-Transacted src tmp limits d₀ (d, out_of_fuel) n o w = inl (o src n)

-- Slimming in place is a transaction on the source, whichever calls of the file system fail, and
-- also when the run ends in an error or a panic: behind it the source holds what it held, or the
-- output of a run of `slim_pcap` on it that succeeded, in which `count_packets` found as many
-- packets as the run had read.
pub slim_file_in_place-Transacted :
    (src : FilePath) (limits : Limits) (d : Disk)
    → Transacted src limits d (slim_file_in_place src limits d).0
unfolding slim_file_in_place
slim_file_in_place-Transacted src limits d = elim (Bool-cases (is_marked d src)) [
  | inl f ↦ rw f (inl refl)
  | inr f ↦ rw f (
      verify_file-Transacted src (tmp_path src) limits d (slim_path src (tmp_path src) limits d)
        (tmp_not_src src) (OnlyAt-slim_path src (tmp_path src) limits d)
        (λ stats l e. slim_path-good src (tmp_path src) limits d stats l (tmp_not_src src) e))
]
