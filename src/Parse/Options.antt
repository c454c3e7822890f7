-- ===== src/Parse/Options.antt =====
-- ipv4_pseudo_dst of src/parse.rs: the walk over IPv4 options reads inside the header only.
use rust_pcaprune.Prelude.{
  ℕ, zero, suc, ◌+◌, ◌-◌, ◌%◌, ◌^◌, ◌≤◌, ◌<◌, ◌≡◌, refl, ap, Bool, ◌||◌, ◌&&◌, not, [], ◌∷◌, Option,
  none, some, ltb, leb, ◌==◌, if◌then◌else◌, length, Bytes, Run, ret, at, ◌⊎◌, inl, inr, arith,
  byte-at, Bool-cases, Option-cases,
}
use rust_pcaprune.Parse.PseudoDst.{read_ip4, option_step, options_walk, ipv4_pseudo_dst}
use rust_pcaprune.Parse.L2.{Same}

abbrev pub four_at : Bytes → ℕ → Bytes
four_at buf i = at buf i ∷ at buf (i + 1) ∷ at buf (i + 2) ∷ at buf (i + 3) ∷ []

pub read_ip4-four_at :
    (buf : Bytes) (i : ℕ) → i + 3 < length buf → read_ip4 buf i ≡ ret (four_at buf i)
unfolding read_ip4
read_ip4-four_at buf i h =
    ground (arith, byte-at buf i, byte-at buf (i + 1), byte-at buf (i + 2), byte-at buf (i + 3))

-- A source route option whose last address lies in the option.
abbrev is_route : ℕ → ℕ → Bool
is_route kind opt_len = (kind % 2 ^ 5 == 3 || kind % 2 ^ 5 == 9) && leb 7 opt_len

-- The walk over total reads.
unfoldable pub step_at : Bytes → ℕ → ℕ → ℕ → ℕ → Option Bytes → Option Bytes
step_at buf end i kind opt_len rest =
    if ltb opt_len 2 || ltb end (i + opt_len)
    then none
    else if is_route kind opt_len
    then some (four_at buf (i + opt_len - 4))
    else rest

unfoldable pub options_at : ℕ → Bytes → ℕ → ℕ → Option Bytes
options_at zero buf end i = none
options_at (suc fuel) buf end i =
    let rest = options_at fuel buf end (i + at buf (i + 1)) in
    if not (ltb (i + 1) end)
    then none
    else if at buf i == 0
    then none
    else step_at buf end i (at buf i) (at buf (i + 1)) rest

unfoldable pub pseudo_dst_at : Bytes → ℕ → ℕ → Bytes
pseudo_dst_at buf ip hl =
    if leb hl 20 then four_at buf (ip + 16) else elim (options_at hl buf (ip + hl) (ip + 20)) [
      | some addr ↦ addr
      | none ↦ four_at buf (ip + 16)
    ]

abbrev WalksOptions : ℕ → Bytes → ℕ → Type 0
WalksOptions fuel buf end =
    (i : ℕ)
    → i ≤ end
    → end < i + fuel
    → options_walk fuel buf end i ≡ ret (options_at fuel buf end i)

option_step-step_at :
    (buf : Bytes) (end i kind opt_len : ℕ) (next : ℕ → Run (Option Bytes)) (rest : Option Bytes)
    → end ≤ length buf
    → (2 ≤ opt_len → i + opt_len ≤ end → next (i + opt_len) ≡ ret rest)
    → option_step buf end i kind opt_len next ≡ ret (step_at buf end i kind opt_len rest)
unfolding option_step step_at
option_step-step_at buf end i kind opt_len next rest h k =
    ground (arith, read_ip4-four_at buf (i + opt_len - 4), k)

WalksOptions-suc :
    (fuel : ℕ) (buf : Bytes) (end : ℕ)
    → end ≤ length buf
    → WalksOptions fuel buf end
    → WalksOptions (suc fuel) buf end
unfolding options_walk options_at
WalksOptions-suc fuel buf end h ih i k m = ground (
  arith,
  byte-at buf i,
  byte-at buf (i + 1),
  option_step-step_at buf end i (at buf i) (at buf (i + 1)) (λ (j : ℕ). options_walk fuel buf end j)
      (options_at fuel buf end (i + at buf (i + 1))) h
      (λ p q. ih (i + at buf (i + 1)) q (omega arith)),
)

options_walk_total :
    (fuel : ℕ) (buf : Bytes) (end : ℕ) → end ≤ length buf → WalksOptions fuel buf end
options_walk_total zero buf end h = λ i k m. absurd (omega arith)
options_walk_total (suc fuel) buf end h =
    WalksOptions-suc fuel buf end h (options_walk_total fuel buf end h)

-- With the fixed header and the claimed header inside the buffer, the address is found with no
-- panic and within the fuel.
pub ipv4_pseudo_dst-at :
    (buf : Bytes) (ip hl : ℕ)
    → ip + 20 ≤ length buf
    → ip + hl ≤ length buf
    → ipv4_pseudo_dst buf ip hl ≡ ret (pseudo_dst_at buf ip hl)
unfolding ipv4_pseudo_dst pseudo_dst_at
ipv4_pseudo_dst-at buf ip hl h k = elim (Bool-cases (leb hl 20)) [
  | inl short ↦ ground (arith, read_ip4-four_at buf (ip + 16))
  | inr long ↦ elim (Option-cases (options_at hl buf (ip + hl) (ip + 20))) [
    | inl n ↦
        ground
          (arith, read_ip4-four_at buf (ip + 16), options_walk_total hl buf (ip + hl) k (ip + 20))
    | inr (a, s) ↦
        ground
          (arith, read_ip4-four_at buf (ip + 16), options_walk_total hl buf (ip + hl) k (ip + 20))
  ]
]

four_at-Same : (buf buf' : Bytes) (i : ℕ) → Same buf buf' i (i + 4) → four_at buf' i ≡ four_at buf i
four_at-Same buf buf' i s = ground (
  arith,
  s i (omega arith) (omega arith),
  s (i + 1) (omega arith) (omega arith),
  s (i + 2) (omega arith) (omega arith),
  s (i + 3) (omega arith) (omega arith),
)

step_at-Same :
    (buf buf' : Bytes) (end i kind opt_len : ℕ) (rest rest' : Option Bytes)
    → Same buf buf' i end
    → (2 ≤ opt_len → rest' ≡ rest)
    → step_at buf' end i kind opt_len rest' ≡ step_at buf end i kind opt_len rest
unfolding step_at
step_at-Same buf buf' end i kind opt_len rest rest' s r =
    elim (Bool-cases (ltb opt_len 2 || ltb end (i + opt_len))) [
      | inl out ↦ rw out
      | inr inside ↦ rw inside (elim (Bool-cases (is_route kind opt_len)) [
        | inl route ↦ rw route (
            ap some (
              four_at-Same buf buf' (i + opt_len - 4) (λ j p q. s j (ground arith) (ground arith))))
        | inr other ↦ rw other (r (ground arith))
      ])
    ]

options_at-Same :
    (fuel : ℕ) (buf buf' : Bytes) (end i : ℕ)
    → Same buf buf' i end
    → options_at fuel buf' end i ≡ options_at fuel buf end i
unfolding options_at
options_at-Same zero buf buf' end i s = refl
options_at-Same (suc fuel) buf buf' end i s = elim (Bool-cases (ltb (i + 1) end)) [
  | inr out ↦ ground arith
  | inl inside ↦ ground (
    arith,
    s i (omega arith) (ground arith),
    s (i + 1) (omega arith) (ground arith),
    step_at-Same buf buf' end i (at buf i) (at buf (i + 1))
        (options_at fuel buf end (i + at buf (i + 1)))
        (options_at fuel buf' end (i + at buf (i + 1))) s
        (λ p.
          options_at-Same fuel buf buf' end (i + at buf (i + 1)) (λ j q r. s j (omega arith) r)),
  )
]

-- The address depends only on the destination field and on the options of the header.
pub pseudo_dst_at-Same :
    (buf buf' : Bytes) (ip hl : ℕ)
    → Same buf buf' (ip + 16) (ip + 20)
    → Same buf buf' (ip + 20) (ip + hl)
    → pseudo_dst_at buf' ip hl ≡ pseudo_dst_at buf ip hl
unfolding pseudo_dst_at
pseudo_dst_at-Same buf buf' ip hl s r = ground (
  arith,
  four_at-Same buf buf' (ip + 16) (λ i p q. s i p (omega arith)),
  options_at-Same hl buf buf' (ip + hl) (ip + 20) r,
)

-- An address found in the options lies in them.
InOptions : Bytes → ℕ → ℕ → Option Bytes → Type 0
InOptions buf end i o =
    (addr : Bytes) → o ≡ some addr → (j : ℕ) × (i + 3 ≤ j) × (j + 4 ≤ end) × (addr ≡ four_at buf j)

step_at-InOptions :
    (buf : Bytes) (end i kind opt_len : ℕ) (rest : Option Bytes)
    → InOptions buf end i rest
    → InOptions buf end i (step_at buf end i kind opt_len rest)
unfolding InOptions step_at
step_at-InOptions buf end i kind opt_len rest h addr e =
    elim (Bool-cases (ltb opt_len 2 || ltb end (i + opt_len))) [
      | inl out ↦ cc (rw out at e)
      | inr fits ↦ elim (Bool-cases (is_route kind opt_len)) [
        | inl route ↦
            (i + opt_len - 4, ground arith, ground arith, ground (arith, rw (fits, route) at e))
        | inr other ↦ h addr (rw (fits, other) at e)
      ]
    ]

options_at-InOptions :
    (fuel : ℕ) (buf : Bytes) (end i : ℕ) → InOptions buf end i (options_at fuel buf end i)
unfolding InOptions options_at
options_at-InOptions zero buf end i addr e = cc
options_at-InOptions (suc fuel) buf end i addr e = elim (Bool-cases (not (ltb (i + 1) end))) [
  | inl last ↦ cc (rw last at e)
  | inr more ↦ elim (Bool-cases (at buf i == 0)) [
    | inl eol ↦ cc (rw (more, eol) at e)
    | inr option ↦
        let rest = options_at fuel buf end (i + at buf (i + 1)) in
        step_at-InOptions buf end i (at buf i) (at buf (i + 1)) rest
          (λ a q.
            let (j, u, v, w) = options_at-InOptions fuel buf end (i + at buf (i + 1)) a q in
            (j, omega arith, v, w))
          addr (rw (more, option) at e)
  ]
]

-- Whatever the options say, with the header that the packet claims inside the buffer the walk
-- ends without a panic: the destination is the header's own field, or four bytes that lie inside
-- the options, behind the three bytes that start one.
pub ipv4_pseudo_dst_total :
    (buf : Bytes) (ip hl : ℕ)
    → ip + 20 ≤ length buf
    → ip + hl ≤ length buf
    → (dst : Bytes) × (ipv4_pseudo_dst buf ip hl ≡ ret dst)
      × ((dst ≡ four_at buf (ip + 16))
          ⊎ ((j : ℕ) × (ip + 23 ≤ j) × (j + 4 ≤ ip + hl) × (dst ≡ four_at buf j)))
unfolding pseudo_dst_at InOptions
ipv4_pseudo_dst_total buf ip hl h k = (
  pseudo_dst_at buf ip hl,
  ipv4_pseudo_dst-at buf ip hl h k,
  elim (Bool-cases (leb hl 20)) [
    | inl short ↦ inl (rw short refl)
    | inr long ↦ elim (Option-cases (options_at hl buf (ip + hl) (ip + 20))) [
      | inl n ↦ inl (rw (long, n) refl)
      | inr (a, e) ↦
          let (j, u, v, w) = options_at-InOptions hl buf (ip + hl) (ip + 20) a e in
          inr (j, omega arith, v, rw (long, e) w)
    ]
  ],
)
