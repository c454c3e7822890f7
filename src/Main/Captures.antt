-- ===== src/Main/Captures.antt =====
-- A file with a capture that src/main.rs slims, and the reports on such files.
use rust_pcaprune.Prelude.{
  ℕ, ◌≡◌, refl, sym, ap, ◌∙◌, subst, true, false, List, [], ◌∷◌, none, some, map, Bytes, Run, ret,
  ◌>>=◌,
}
use mathlib.Core.List.{Memᴰ}
use rust_pcaprune.Disk.{FilePath, Disk}
use rust_pcaprune.PcapIo.Base.{SlimStats, Limits}
use rust_pcaprune.PcapIo.Header.{Endian}
use rust_pcaprune.PcapIo.Format.{CapturePacket}
use rust_pcaprune.PcapIo.Refine.{capture, stats_of}
use rust_pcaprune.PcapIo.Packets.{Slims}
use rust_pcaprune.PcapIo.Whole.{Capture, NoneCut}
use rust_pcaprune.Coord.{FileResult, slimmed, Done, good, tmp_path, is_marked, slim_file_in_place}
use rust_pcaprune.Coord.Success.{Sound, slim_file_in_place_succeeds}
use rust_pcaprune.Coord.Local.{Footprint}
use rust_pcaprune.Coord.Listing.{DirEntry, entry_path}
use rust_pcaprune.Output.{FileReport, RunSummary, report_ok}
use rust_pcaprune.Main.Files.{process_path, report_of, collect_reports}
use rust_pcaprune.Main.{Outcome, count_status, summarise}

-- A file that holds a capture none of whose packets is cut.
abbrev pub HoldsCapture : Disk → FilePath → Type 0
HoldsCapture d p =
    (e : Endian) × (ghdr : Bytes) × (tail : Bytes) × (ps : List CapturePacket) × Capture e ghdr tail
      ps
    × NoneCut ps
    × (d.content p ≡ some (capture e ghdr ps tail))

-- A file that held a capture holds the capture of its packets slimmed, is marked, and has no
-- temporary file.
abbrev pub Slimmed : Disk → Disk → FilePath → Type 0
Slimmed d d' p =
    (e : Endian) × (ghdr : Bytes) × (tail : Bytes) × (ps : List CapturePacket) × (qs : List
      CapturePacket)
    × (t : ℕ) × (k : ℕ) × (d.content p ≡ some (capture e ghdr ps tail))
    × Slims ps qs t k
    × (d'.content p ≡ some (capture e ghdr qs []))
    × (d'.content (tmp_path p) ≡ none)
    × (is_marked d' p ≡ true)

pub slims_alone :
    (limits : Limits) (d : Disk) (p : FilePath)
    → Sound d
    → is_marked d p ≡ false
    → HoldsCapture d p
    → ((stats : SlimStats) × ((process_path false limits p d).1 ≡ ret (good (slimmed stats))))
      × Slimmed d (process_path false limits p d).0 p
unfolding process_path
slims_alone limits d p h u (e, ghdr, tail, ps, c, n, held) =
    let (qs, t, k, d', x, r, a, b, g) =
      slim_file_in_place_succeeds p limits d e ghdr tail ps h u c n held in
    let after : d' ≡ (slim_file_in_place p limits d).0 = sym (ap (λ m. m.0) r) in
    (
      (stats_of t k (capture e ghdr ps tail) (capture e ghdr qs []), ap (λ m. m.1) r),
      (
        e,
        ghdr,
        tail,
        ps,
        qs,
        t,
        k,
        held,
        x,
        subst (λ (y : Disk). y.content p ≡ some (capture e ghdr qs [])) after a,
        subst (λ (y : Disk). y.content (tmp_path p) ≡ none) after b,
        subst (λ (y : Disk). is_marked y p ≡ true) after g,
      ),
    )

-- Reports on files that were all slimmed.
pub all_slimmed :
    (elapsed : FilePath → ℕ) (files : List FilePath) (g : FilePath → Run (Done FileResult))
    → ((p : FilePath) → Memᴰ p files → (stats : SlimStats) × (g p ≡ ret (good (slimmed stats))))
    → (reports : List FileReport) × (collect_reports elapsed files (map g files) ≡ ret reports)
      × ((s : RunSummary) → (summarise reports s).fail ≡ s.fail)
unfolding collect_reports report_of summarise count_status report_ok
all_slimmed elapsed [] g h = ([], refl, λ s. refl)
all_slimmed elapsed (p ∷ files) g h =
    let (stats, e) = h p (Memᴰ.head refl) in
    let (reports, c, s) = all_slimmed elapsed files g (λ q m. h q (Memᴰ.tail m)) in
    (
      report_ok p stats (elapsed p) ∷ reports,
      ap
            (λ r. report_of p (elapsed p) r >>= λ x.
              collect_reports elapsed files (map g files) >>= λ xs. ret (x ∷ xs))
            e
          ∙ ap (λ r. r >>= λ xs. ret (report_ok p stats (elapsed p) ∷ xs)) c,
      λ z. s (count_status (report_ok p stats (elapsed p)).status z),
    )

-- What a run that slims files comes to.
abbrev pub AllSlimmed {ℓ} : {F : Type ℓ} → Disk → List FilePath → Outcome F → Type 0
AllSlimmed d files x =
    (x.2 ≡ ret none)
    × ((p : FilePath) → Memᴰ p files → Slimmed d x.0 p)
    × ((q : FilePath)
        → ((p : FilePath) → Memᴰ p files → ¬ Footprint p q)
        → x.0.content q ≡ d.content q)

pub mem_map :
    (dir : List Bytes) (files : List DirEntry) (p : FilePath)
    → Memᴰ p (map (entry_path dir) files)
    → (e : DirEntry) × Memᴰ e files × (p ≡ entry_path dir e)
mem_map dir [] p m = elim m [ ]
mem_map dir (e ∷ files) p m = elim m [
  | Memᴰ.head q ↦ (e, Memᴰ.head refl, q)
  | Memᴰ.tail n ↦ let (x, i, q) = mem_map dir files p n in (x, Memᴰ.tail i, q)
]

pub map_mem :
    (dir : List Bytes) (files : List DirEntry) (e : DirEntry)
    → Memᴰ e files
    → Memᴰ (entry_path dir e) (map (entry_path dir) files)
map_mem dir (x ∷ files) e (Memᴰ.head q) = Memᴰ.head (ap (entry_path dir) q)
map_mem dir (x ∷ files) e (Memᴰ.tail n) = Memᴰ.tail (map_mem dir files e n)
map_mem dir [] e m = elim m [ ]
