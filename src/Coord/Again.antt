-- ===== src/Coord/Again.antt =====
-- The marker of src/coord.rs: a file that was slimmed in place is left alone from then on.
use rust_pcaprune.Prelude.{
  ◌≡◌, refl, sym, ap, ◌∙◌, true, [], some, Bool-cases, inl, inr, ret, panic, out_of_fuel,
}
use rust_pcaprune.Disk.{FilePath, Disk, fails, tried, put_file, put_file-same, is_there}
use rust_pcaprune.PcapIo.Base.{SlimStats, Limits}
use rust_pcaprune.Coord.{
  io_error, FileResult, skipped_marker, good, bad, OnDisk, marker_path, is_marked, tmp_path, rename,
  slim_path, verify_tmp_packet_count, create_marker, finish_file, mark_file, commit_file,
  verify_file, slim_file_in_place,
}
use rust_pcaprune.Coord.{check_file}
use rust_pcaprune.Coord.Calls.{good_not_bad}

Marked : FilePath → Disk → Type 0
Marked src d = d.content (marker_path src) ≡ some []

create_marker-good :
    (src : FilePath) (d : Disk)
    → (create_marker src d).1 ≡ ret (good tt)
    → Marked src (create_marker src d).0
unfolding create_marker Marked
create_marker-good src d e =
    let made = tried d in
    let permitted = tried made in
    let written = put_file (marker_path src) (some []) (tried permitted) in
    elim (Bool-cases (fails d)) [
      | inl f ↦ absurd (good_not_bad io_error tt (rw f at e))
      | inr f ↦ elim (Bool-cases (fails made)) [
        | inl g ↦ absurd (good_not_bad io_error tt (rw (f, g) at e))
        | inr g ↦ elim (Bool-cases (fails permitted)) [
          | inl h ↦ absurd (good_not_bad io_error tt (rw (f, g, h) at e))
          | inr h ↦ elim (Bool-cases (fails written)) [
            | inl i ↦ absurd (good_not_bad io_error tt (rw (f, g, h, i) at e))
            | inr i ↦ rw (f, g, h, i) (put_file-same (marker_path src) (some []) (tried permitted))
          ]
        ]
      ]
    ]

finish_file-Marked :
    (src : FilePath) (stats : SlimStats) (r : FileResult) (m : OnDisk (Unit {0}))
    → (m.1 ≡ ret (good tt) → Marked src m.0)
    → (finish_file stats m).1 ≡ ret (good r)
    → Marked src (finish_file stats m).0
unfolding finish_file
finish_file-Marked src stats r (d, ret (good u)) h e = h refl
finish_file-Marked src stats r (d, ret (bad x)) h e = absurd (good_not_bad x r e)
finish_file-Marked src stats r (d, panic) h e = cc
finish_file-Marked src stats r (d, out_of_fuel) h e = cc

mark_file-Marked :
    (src : FilePath) (stats : SlimStats) (r : FileResult) (m : OnDisk (Unit {0}))
    → (mark_file src stats m).1 ≡ ret (good r)
    → Marked src (mark_file src stats m).0
unfolding mark_file
mark_file-Marked src stats r (d, ret (good u)) e =
    finish_file-Marked src stats r (create_marker src d) (create_marker-good src d) e
mark_file-Marked src stats r (d, ret (bad x)) e = absurd (good_not_bad x r e)
mark_file-Marked src stats r (d, panic) e = cc
mark_file-Marked src stats r (d, out_of_fuel) e = cc

commit_file-Marked :
    (src tmp : FilePath) (stats : SlimStats) (r : FileResult) (m : OnDisk Limits)
    → (commit_file src tmp stats m).1 ≡ ret (good r)
    → Marked src (commit_file src tmp stats m).0
unfolding commit_file
commit_file-Marked src tmp stats r (d, ret (good l)) e =
    mark_file-Marked src stats r (rename tmp src d) e
commit_file-Marked src tmp stats r (d, ret (bad x)) e = absurd (good_not_bad x r e)
commit_file-Marked src tmp stats r (d, panic) e = cc
commit_file-Marked src tmp stats r (d, out_of_fuel) e = cc

verify_file-Marked :
    (src tmp : FilePath) (r : FileResult) (m : OnDisk (SlimStats × Limits))
    → (verify_file src tmp m).1 ≡ ret (good r)
    → Marked src (verify_file src tmp m).0
unfolding verify_file
verify_file-Marked src tmp r (d, ret (good (stats, l))) e =
    commit_file-Marked src tmp stats r (verify_tmp_packet_count stats.in_pkts tmp l d) e
verify_file-Marked src tmp r (d, ret (bad x)) e = absurd (good_not_bad x r e)
verify_file-Marked src tmp r (d, panic) e = cc
verify_file-Marked src tmp r (d, out_of_fuel) e = cc

Marked-is_marked : (src : FilePath) (d : Disk) → Marked src d → is_marked d src ≡ true
unfolding Marked is_marked
Marked-is_marked src d h = ap is_there h

pub ends_marked :
    (src : FilePath) (limits : Limits) (d : Disk) (r : FileResult)
    → (slim_file_in_place src limits d).1 ≡ ret (good r)
    → is_marked (slim_file_in_place src limits d).0 src ≡ true
unfolding slim_file_in_place
ends_marked src limits d r e = elim (Bool-cases (is_marked d src)) [
  | inl f ↦ rw f f
  | inr f ↦ rw f (
      Marked-is_marked src
        (verify_file src (tmp_path src) (slim_path src (tmp_path src) limits d)).0
        (verify_file-Marked src (tmp_path src) r (slim_path src (tmp_path src) limits d)
          (rw f at e)))
]

-- Where slimming in place returns without an error the file carries its marker, and from then on
-- it is skipped: slimming it again, or checking it, answers so and does not touch the disk.
pub slim_file_in_place_once :
    (src : FilePath) (limits limits' : Limits) (d d' : Disk) (r : FileResult)
    → slim_file_in_place src limits d ≡ (d', ret (good r))
    → (slim_file_in_place src limits' d' ≡ (d', ret (good skipped_marker)))
      × (check_file src limits' d' ≡ (d', ret (good skipped_marker)))
slim_file_in_place_once src limits limits' d d' r e =
    let m : is_marked d' src ≡ true =
      sym (ap (λ (x : OnDisk FileResult). is_marked x.0 src) e)
      ∙ ends_marked src limits d r (ap (λ (x : OnDisk FileResult). x.1) e) in
    (unfold slim_file_in_place in rw m refl, unfold check_file in rw m refl)
