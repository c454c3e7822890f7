-- ===== src/Parse/L2.antt =====
-- The VLAN walk of src/parse.rs against the tag stack that a frame carries.
use rust_pcaprune.Prelude.{
  ℕ, zero, suc, ◌+◌, ◌*◌, ◌≤◌, ◌<◌, ◌≡◌, ◌≢◌, ap, ◌∙◌, not, Option, none, some, ltb, ◌==◌,
  if◌then◌else◌, length, Bytes, ret, at, word, inl, inr, ◌↔◌, arith, be16-word, Bool-cases,
}
use rust_pcaprune.Parse.{vlan_walk, l2_ethertype_and_l3_start}

-- From offset `off` the frame has 802.1Q tags and then the type `et`, behind which layer 3 starts.
pub data Tagged (frame : Bytes) : ℕ → ℕ → ℕ → Type 0 where
  inner :
      {off et l3 : ℕ}
      → off + 2 ≤ length frame
      → et ≡ word frame off
      → et ≢ 0x8100
      → l3 ≡ off + 2
      → Tagged frame off et l3
  tag :
      {off et l3 : ℕ}
      → off + 4 ≤ length frame
      → word frame off ≡ 0x8100
      → Tagged frame (off + 4) et l3
      → Tagged frame off et l3

-- The walk over total reads.
unfoldable pub vlan_at : ℕ → Bytes → ℕ → Option (ℕ × ℕ)
vlan_at zero frame off = none
vlan_at (suc fuel) frame off =
    let next = vlan_at fuel frame (off + 4) in
    if ltb (length frame) (off + 2)
    then none
    else if not (word frame off == 0x8100)
    then some (word frame off, off + 2)
    else if ltb (length frame) (off + 4)
    then none
    else next

unfoldable pub l2_at : Bytes → Option (ℕ × ℕ)
unfolding vlan_at
l2_at frame = if ltb (length frame) 14 then none else vlan_at (length frame) frame 12

vlan_walk_total :
    (fuel : ℕ) (frame : Bytes) (off : ℕ)
    → off ≤ length frame
    → length frame < off + 4 * fuel
    → vlan_walk fuel frame off ≡ ret (vlan_at fuel frame off)
unfolding vlan_walk vlan_at
vlan_walk_total zero frame off h k = absurd (omega arith)
vlan_walk_total (suc fuel) frame off h k =
    ground (arith, be16-word frame off, vlan_walk_total fuel frame (off + 4))

-- The walk ends within its fuel, and reads nothing out of range.
pub l2-l2_at : (frame : Bytes) → l2_ethertype_and_l3_start frame ≡ ret (l2_at frame)
unfolding l2_ethertype_and_l3_start l2_at
l2-l2_at frame = ground (arith, vlan_walk_total (length frame) frame 12)

vlan_at-Tagged :
    (fuel : ℕ) (frame : Bytes) (off : ℕ) {et l3 : ℕ}
    → vlan_at fuel frame off ≡ some (et, l3)
    → Tagged frame off et l3
unfolding vlan_at
vlan_at-Tagged zero frame off e = cc
vlan_at-Tagged (suc fuel) frame off e = elim (Bool-cases (ltb (length frame) (off + 2))) [
  | inl short ↦ ground arith
  | inr long ↦ elim (Bool-cases (word frame off == 0x8100)) [
    | inl vlan ↦ elim (Bool-cases (ltb (length frame) (off + 4))) [
      | inl cut ↦ ground arith
      | inr whole ↦
          tag (ground arith) (ground arith) (vlan_at-Tagged fuel frame (off + 4) (ground arith))
    ]
    | inr other ↦ inner (ground arith) (ground arith) (ground arith) (ground arith)
  ]
]

Tagged-vlan_at :
    (fuel : ℕ) {frame : Bytes} {off et l3 : ℕ}
    → Tagged frame off et l3
    → length frame < off + 4 * fuel
    → vlan_at fuel frame off ≡ some (et, l3)
unfolding vlan_at
Tagged-vlan_at zero (inner a b c d) h = absurd (omega arith)
Tagged-vlan_at zero (tag a b t) h = absurd (omega arith)
Tagged-vlan_at (suc fuel) (inner a b c d) h = ground arith
Tagged-vlan_at (suc fuel) (tag a b t) h = ground (arith, Tagged-vlan_at fuel t (omega arith))

pub Tagged-bounds :
    {frame : Bytes} {off et l3 : ℕ} → Tagged frame off et l3 → (off + 2 ≤ l3) × (l3 ≤ length frame)
Tagged-bounds (inner a b c d) = omega arith
Tagged-bounds (tag a b t) = omega (arith, Tagged-bounds t)

pub l2_at-Tagged : (frame : Bytes) {et l3 : ℕ} → l2_at frame ≡ some (et, l3) → Tagged frame 12 et l3
unfolding l2_at
l2_at-Tagged frame e = elim (Bool-cases (ltb (length frame) 14)) [
  | inl short ↦ ground arith
  | inr long ↦ vlan_at-Tagged (length frame) frame 12 (ground arith)
]

pub Tagged-l2_at : {frame : Bytes} {et l3 : ℕ} → Tagged frame 12 et l3 → l2_at frame ≡ some (et, l3)
unfolding l2_at
Tagged-l2_at {frame} t =
    ground
      (arith, Tagged-bounds t, Tagged-vlan_at (length frame) t (omega (arith, Tagged-bounds t)))

-- `l2_ethertype_and_l3_start` finds an ethertype and a layer 3 offset exactly when the frame
-- carries them behind its 802.1Q tags, all inside the frame.
pub l2_iff_Tagged :
    (frame : Bytes) (et l3 : ℕ)
    → (l2_ethertype_and_l3_start frame ≡ ret (some (et, l3))) ↔ Tagged frame 12 et l3
l2_iff_Tagged frame et l3 =
    (λ e. l2_at-Tagged frame (cc (l2-l2_at frame)), λ t. l2-l2_at frame ∙ ap ret (Tagged-l2_at t))

-- The bytes in front of `b` from `a` on are the same.
abbrev pub Same : Bytes → Bytes → ℕ → ℕ → Type 0
Same frame frame' a b = (i : ℕ) → a ≤ i → i < b → at frame' i ≡ at frame i

-- A frame that keeps the bytes of the tag stack keeps the tag stack.
pub Tagged-Same :
    {frame : Bytes} {off et l3 : ℕ} (frame' : Bytes)
    → Tagged frame off et l3
    → Same frame frame' off l3
    → l3 ≤ length frame'
    → Tagged frame' off et l3
Tagged-Same {off = off} frame' (inner a b c d) s h =
    inner (omega arith) (omega (arith, s off, s (off + 1))) c d
Tagged-Same {off = off} frame' (tag a b t) s h =
    tag (omega (arith, Tagged-bounds t)) (omega (arith, s off, s (off + 1), Tagged-bounds t))
      (Tagged-Same frame' t (λ i p q. s i (omega arith) q) h)
