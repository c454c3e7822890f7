-- ===== src/Coord/Success.antt =====
-- slim_file_in_place of src/coord.rs where no call of the file system fails.
use rust_pcaprune.Prelude.{
  ℕ, ◌≡◌, ◌≢◌, refl, sym, ap, ◌∙◌, Bool, true, false, List, [], Option, none, some, Bytes, arith,
  ret, eq→==,
}
use rust_pcaprune.Disk.{
  FilePath, Disk, next_fault, rest_faults, fails, tried, put_file, put_file-same, put_file-other,
}
use rust_pcaprune.PcapIo.Base.{ok, SlimStats, Limits}
use rust_pcaprune.PcapIo.Slim.{slim_pcap_with_options}
use rust_pcaprune.PcapIo.Count.{count_packets_with_options}
use rust_pcaprune.Coord.{
  FileResult, slimmed, good, OnDisk, marker_path, is_marked, tmp_path, rename, opened, store_output,
  slim_path, compare_count, verify_tmp_packet_count, create_marker, finish_file, mark_file,
  commit_file, verify_file, slim_file_in_place,
}
use rust_pcaprune.Coord.Paths.{tmp_not_src, marker_not_src, marker_not_tmp}
use rust_pcaprune.Coord.Transaction.{create_marker-other}
use rust_pcaprune.Coord.Calls.{slim_path-ran, ran}
use rust_pcaprune.Coord.Again.{ends_marked}
use rust_pcaprune.PcapIo.Header.{Endian}
use rust_pcaprune.PcapIo.Format.{CapturePacket}
use rust_pcaprune.PcapIo.Refine.{capture, stats_of}
use rust_pcaprune.PcapIo.Packets.{Slims}
use rust_pcaprune.PcapIo.Counted.{count_packets_counts}
use rust_pcaprune.PcapIo.Whole.{Capture, NoneCut, slim_pcap_refines, AllFit-Slims, length-Slims}

-- No call fails.
abbrev pub Sound : Disk → Type 0
Sound d = d.faults ≡ []

pub fails-Sound : (d : Disk) → Sound d → fails d ≡ false
fails-Sound d h = ap next_fault h

pub tried-Sound : (d : Disk) → Sound d → Sound (tried d)
tried-Sound d h = ap rest_faults h

pub put_file-Sound : (p : FilePath) (b : Option Bytes) (d : Disk) → Sound d → Sound (put_file p b d)
unfolding put_file
put_file-Sound p b d h = h

-- The outcome of a stage that succeeds.
abbrev Succeeds {ℓ} : {A : Type ℓ} → OnDisk A → A → (Disk → Type 0) → Type ℓ
Succeeds m a P = (d : Disk) × (m ≡ (d, ret (good a))) × Sound d × P d

store_output-Sound :
    (tmp : FilePath) (out : Bytes) (stats : SlimStats) (l : Limits) (d : Disk)
    → Sound d
    → Succeeds
        (store_output tmp (ret (ok (out, stats, l))) d)
        (stats, l)
        (λ d'. d'.content tmp ≡ some out)
unfolding store_output
store_output-Sound tmp out stats l d h = (
  put_file tmp (some out) (tried d),
  rw (fails-Sound d h) refl,
  put_file-Sound tmp (some out) (tried d) (tried-Sound d h),
  put_file-same tmp (some out) (tried d),
)

slim_path-Sound :
    (src tmp : FilePath) (limits : Limits) (d : Disk) (input out : Bytes) (stats : SlimStats)
    (l : Limits)
    → tmp ≢ src
    → Sound d
    → d.content src ≡ some input
    → slim_pcap_with_options (opened input false) limits ≡ ret (ok (out, stats, l))
    → Succeeds (slim_path src tmp limits d) (stats, l) (λ d'. d'.content tmp ≡ some out)
slim_path-Sound src tmp limits d input out stats l n h c e =
    let created = put_file tmp (some []) (tried d) in
    let s = put_file-Sound tmp (some []) (tried d) (tried-Sound d h) in
    let (d', q, s', c') =
      store_output-Sound tmp out stats l (tried created) (tried-Sound created s) in
    (
      d',
      slim_path-ran src tmp limits d (fails-Sound d h)
          ∙ ap (ran src tmp limits created) (put_file-other tmp src (some []) (tried d) n ∙ c)
          ∙ ap
              (λ (f : Bool).
                store_output tmp (slim_pcap_with_options (opened input f) limits) (tried created))
              (fails-Sound created s)
          ∙ ap (λ m. store_output tmp m (tried created)) e
          ∙ q,
      s',
      c',
    )

verify-Sound :
    (n : ℕ) (tmp : FilePath) (l m : Limits) (d : Disk) (out : Bytes)
    → Sound d
    → d.content tmp ≡ some out
    → count_packets_with_options (opened out false) l ≡ ret (ok (n, m))
    → verify_tmp_packet_count n tmp l d ≡ (tried d, ret (good m))
unfolding verify_tmp_packet_count compare_count
verify-Sound n tmp l m d out h c e =
    rw (c, verify_tmp_packet_count) (rw (fails-Sound d h) (rw e (rw (eq→== n n refl) refl)))

rename-Sound :
    (from to : FilePath) (d : Disk) (out : Bytes)
    → from ≢ to
    → Sound d
    → d.content from ≡ some out
    → Succeeds (rename from to d) tt (λ d'. (d'.content to ≡ some out) × (d'.content from ≡ none))
unfolding rename
rename-Sound from to d out n h c =
    let moved = put_file to (some out) (tried d) in
    (
      put_file from none moved,
      rw (fails-Sound d h) (rw (c, rename) refl),
      put_file-Sound from none moved (put_file-Sound to (some out) (tried d) (tried-Sound d h)),
      (
        put_file-other from to none moved n ∙ put_file-same to (some out) (tried d),
        put_file-same from none moved,
      ),
    )

pub create_marker-Sound :
    (src : FilePath) (d : Disk)
    → Sound d
    → create_marker src d ≡ (
      tried (tried (put_file (marker_path src) (some []) (tried (tried (tried d))))),
      ret (good tt),
    )
unfolding create_marker
create_marker-Sound src d h =
    let made = tried d in
    let permitted = tried made in
    let s₁ = tried-Sound d h in
    let s₂ = tried-Sound made s₁ in
    let written = put_file (marker_path src) (some []) (tried permitted) in
    let s₃ =
      put_file-Sound (marker_path src) (some []) (tried permitted) (tried-Sound permitted s₂) in
    rw (fails-Sound d h, fails-Sound made s₁, fails-Sound permitted s₂, fails-Sound written s₃) refl

mark_file-Sound :
    (src : FilePath) (stats : SlimStats) (d : Disk)
    → Sound d
    → (d' : Disk) × (mark_file src stats (d, ret (good tt)) ≡ (d', ret (good (slimmed stats))))
      × ((p : FilePath) → marker_path src ≢ p → d'.content p ≡ d.content p)
unfolding mark_file finish_file
mark_file-Sound src stats d h =
    let d' = tried (tried (put_file (marker_path src) (some []) (tried (tried (tried d))))) in
    let e = create_marker-Sound src d h in
    (
      d',
      ap (finish_file stats) e,
      λ p n. ap (λ (m : OnDisk (Unit {0})). m.0.content p) (sym e) ∙ create_marker-other src d p n,
    )

-- The stages one after the other, where the run and the count succeed.
slim_file_in_place-Sound :
    (src : FilePath) (limits l m : Limits) (d : Disk) (input out : Bytes) (stats : SlimStats)
    → Sound d
    → is_marked d src ≡ false
    → d.content src ≡ some input
    → slim_pcap_with_options (opened input false) limits ≡ ret (ok (out, stats, l))
    → count_packets_with_options (opened out false) l ≡ ret (ok (stats.in_pkts, m))
    → (d' : Disk) × (slim_file_in_place src limits d ≡ (d', ret (good (slimmed stats))))
      × (d'.content src ≡ some out)
      × (d'.content (tmp_path src) ≡ none)
      × (is_marked d' src ≡ true)
unfolding slim_file_in_place verify_file commit_file
slim_file_in_place-Sound src limits l m d input out stats h u c e k =
    let tmp = tmp_path src in
    let n = tmp_not_src src in
    let (d₁, q₁, s₁, c₁) = slim_path-Sound src tmp limits d input out stats l n h c e in
    let q₂ = verify-Sound stats.in_pkts tmp l m d₁ out s₁ c₁ k in
    let (d₃, q₃, s₃, c₃) = rename-Sound tmp src (tried d₁) out n (tried-Sound d₁ s₁) c₁ in
    let (d₄, q₄, o₄) = mark_file-Sound src stats d₃ s₃ in
    let r : slim_file_in_place src limits d ≡ (d₄, ret (good (slimmed stats))) = rw u (
      ap (verify_file src tmp) q₁
      ∙ ap (commit_file src tmp stats) q₂
      ∙ ap (mark_file src stats) q₃
      ∙ q₄) in
    (
      d₄,
      r,
      o₄ src (marker_not_src src) ∙ c₃.0,
      o₄ tmp (marker_not_tmp src) ∙ c₃.1,
      sym (ap (λ (x : OnDisk FileResult). is_marked x.0 src) r)
          ∙ ends_marked src limits d (slimmed stats) (ap (λ (x : OnDisk FileResult). x.1) r),
    )

-- Slimming a capture in place succeeds, if it has no marker, none of its packets announces IPv4 and
-- ends before its flags, and no call of the file system fails: the source then holds the capture
-- of its packets slimmed, no temporary file is left, and the marker is there.
pub slim_file_in_place_succeeds :
    (src : FilePath) (limits : Limits) (d : Disk) (e : Endian) (ghdr tail : Bytes)
    (ps : List CapturePacket)
    → Sound d
    → is_marked d src ≡ false
    → Capture e ghdr tail ps
    → NoneCut ps
    → d.content src ≡ some (capture e ghdr ps tail)
    → (qs : List CapturePacket) × (t : ℕ) × (k : ℕ) × (d' : Disk) × Slims ps qs t k
      × (slim_file_in_place src limits d ≡ (
        d',
        ret (good (slimmed (stats_of t k (capture e ghdr ps tail) (capture e ghdr qs [])))),
      ))
      × (d'.content src ≡ some (capture e ghdr qs []))
      × (d'.content (tmp_path src) ≡ none)
      × (is_marked d' src ≡ true)
slim_file_in_place_succeeds src limits d e ghdr tail ps h u c n held =
    let (qs, t, k, l, x, r) = slim_pcap_refines e ghdr tail ps limits c n in
    let (m, q) =
      count_packets_counts e ghdr [] qs l c.header (omega arith) (AllFit-Slims c.fit x) in
    let (d', a, b, f, g) =
      slim_file_in_place-Sound src limits l m d (capture e ghdr ps tail) (capture e ghdr qs [])
        (stats_of t k (capture e ghdr ps tail) (capture e ghdr qs [])) h u held r
        (q ∙ ap (λ i. ret (ok (i, m))) (length-Slims x).1) in
    (qs, t, k, d', x, a, b, f, g)
