-- ===== src/Limit/Governor/Target.antt =====
-- The target of CpuGovernor of src/limit.rs stays within the hard cap.
use rust_pcaprune.Prelude.{◌≡◌, Bool, true, false, Option, none, some, Bool-cases, inl, inr, arith}
use rust_pcaprune.Limit.Float.{Float, as_f64, clamp, ◌≼◌, Finite, IsIeee}
use rust_pcaprune.Limit.Governor.{
  CpuGovernor, hard_cap, reduction, target_above, effective_target_percent,
}

-- From 0 to a bound.
abbrev pub Within : {F : Type 0} ⦃f : Float F⦄ → F → F → F → Type 0
Within low high x = (low ≼ x) × (x ≼ high)

abbrev pub ValidCap : {F : Type 0} ⦃f : Float F⦄ → Option F → Type 0
ValidCap none = Unit
ValidCap (some p) = (as_f64 0 ≼ p) × Finite p

abbrev pub ValidThreshold : {F : Type 0} ⦃f : Float F⦄ → Option F → Type 0
ValidThreshold none = Unit
ValidThreshold (some a) = as_f64 0 ≼ a

-- A governor whose limits are numbers, with a strength from 0 to 1 and a load from 0 to 100.
abbrev pub Valid : {F : Type 0} ⦃f : Float F⦄ → CpuGovernor F → Type 0
Valid g =
    ValidCap g.max_cpu_percent
    × ValidThreshold g.backoff_above
    × Within (as_f64 0) (as_f64 1) g.backoff_strength
    × Within (as_f64 0) (as_f64 100) g.system_busy_percent

module _ {F : Type 0} ⦃f : Float F⦄ (ieee : IsIeee F) where
  pub one_refl : f.le (as_f64 1) (as_f64 1) ≡ true
  one_refl = ieee.le_refl_left (as_f64 1) (as_f64 100) ieee.one_le_hundred

  pub zero_refl : f.le (as_f64 0) (as_f64 0) ≡ true
  zero_refl = ieee.le_refl_left (as_f64 0) (as_f64 1) ieee.zero_le_one

  pub zero_le_hundred : f.le (as_f64 0) (as_f64 100) ≡ true
  zero_le_hundred =
      ieee.le_trans (as_f64 0) (as_f64 1) (as_f64 100) ieee.zero_le_one ieee.one_le_hundred

  hundred_refl : f.le (as_f64 100) (as_f64 100) ≡ true
  hundred_refl = ieee.as_f64_le 100 100 (omega arith) (omega arith)

  -- `clamp` of a number.
  pub clamp-Within :
      (x low high : F) → x ≼ x → low ≼ high → high ≼ high → Within low high (clamp x low high)
  clamp-Within x low high r l h =
      let low_refl = ieee.le_refl_left low high l in
      elim (Bool-cases (f.lt x low)) [
        | inl a ↦ elim (Bool-cases (f.lt high low)) [
          | inl b ↦ absurd (clash l (ieee.lt_not_le high low b))
          | inr b ↦ rw (a, b) (low_refl, l)
        ]
        | inr a ↦ elim (Bool-cases (f.lt high x)) [
          | inl b ↦ rw (a, b) (l, h)
          | inr b ↦ rw (a, b) (ieee.not_lt_le low x low_refl r a, ieee.not_lt_le x high r h b)
        ]
      ]
    where
      clash : {x : Bool} → x ≡ true → x ≡ false → ⊥
      clash a b = cc

  hard_cap-Valid : (o : Option F) → ValidCap o → (as_f64 0 ≼ hard_cap o) × Finite (hard_cap o)
  unfolding hard_cap
  hard_cap-Valid none u =
      (zero_le_hundred, ieee.bounded_finite (as_f64 100) zero_le_hundred hundred_refl)
  hard_cap-Valid (some p) u = u

  reduction-Within :
      (strength busy threshold : F)
      → Within (as_f64 0) (as_f64 1) strength
      → Within (as_f64 0) (as_f64 100) busy
      → as_f64 0 ≼ threshold
      → threshold ≼ busy
      → Within (as_f64 0) (as_f64 1) (reduction strength busy threshold)
  unfolding reduction
  reduction-Within strength busy threshold (s, s') (b, b') t l =
      let span = f.maximum (f.sub (as_f64 100) threshold) (as_f64 1) in
      let over = f.div (f.sub busy threshold) span in
      let busy_finite = ieee.bounded_finite busy b b' in
      let left = f.sub (as_f64 100) threshold in
      let below = ieee.le_trans threshold busy (as_f64 100) l b' in
      let hundred_finite = ieee.bounded_finite (as_f64 100) zero_le_hundred hundred_refl in
      let one_le_span = ieee.le_max_right left (as_f64 1) one_refl in
      let span_finite : Finite span =
        ieee.bounded_finite span
          (ieee.le_trans (as_f64 0) (as_f64 1) span ieee.zero_le_one one_le_span)
          (ieee.max_least left (as_f64 1) (as_f64 100)
            (ieee.sub_nonneg_le (as_f64 100) threshold t below hundred_finite)
            ieee.one_le_hundred) in
      let over_nonneg : as_f64 0 ≼ over =
        ieee.div_nonneg (f.sub busy threshold) span (ieee.sub_nonneg busy threshold t l busy_finite)
          one_le_span span_finite in
      ieee.mul_unit strength (f.minimum over (as_f64 1)) s s'
        (ieee.min_greatest over (as_f64 1) (as_f64 0) over_nonneg ieee.zero_le_one)
        (ieee.min_le_right over (as_f64 1) one_refl)

  target_above-Within :
      (o : Option F) (hard strength busy : F)
      → ValidThreshold o
      → as_f64 0 ≼ hard
      → Finite hard
      → Within (as_f64 0) (as_f64 1) strength
      → Within (as_f64 0) (as_f64 100) busy
      → Within (as_f64 0) hard (target_above o hard strength busy)
  unfolding target_above
  target_above-Within none hard strength busy t h k s b = (h, ieee.le_refl_right (as_f64 0) hard h)
  target_above-Within (some threshold) hard strength busy t h k s b =
      let hard_refl = ieee.le_refl_right (as_f64 0) hard h in
      let busy_refl = ieee.le_refl_right (as_f64 0) busy b.0 in
      let threshold_refl = ieee.le_refl_right (as_f64 0) threshold t in
      elim (Bool-cases (f.lt busy threshold)) [
        | inl l ↦ rw l (h, hard_refl)
        | inr l ↦
            let over = ieee.not_lt_le threshold busy threshold_refl busy_refl l in
            let (r, r') = reduction-Within strength busy threshold s b t over in
            rw l (ieee.scale_down hard (reduction strength busy threshold) h k r r')
      ]

  pub effective_target-Within :
      (g : CpuGovernor F)
      → Valid g
      → Within (as_f64 0) (hard_cap g.max_cpu_percent) (effective_target_percent g)
  unfolding effective_target_percent
  effective_target-Within g (c, t, s, b) =
      let (h, k) = hard_cap-Valid g.max_cpu_percent c in
      target_above-Within g.backoff_above (hard_cap g.max_cpu_percent) g.backoff_strength
        g.system_busy_percent t h k s b
