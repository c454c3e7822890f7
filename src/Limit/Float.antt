-- ===== src/Limit/Float.antt =====
-- What src/limit.rs does with `f64`: literals, conversions, arithmetic and comparisons, and the
-- laws of IEEE 754 that its theorems use. NaN is the value that is not `<=` itself.
use rust_pcaprune.Prelude.{
  ℕ, zero, suc, ◌+◌, ◌-◌, ◌*◌, ◌/◌, ◌^◌, ◌≤◌, ◌<◌, ◌≡◌, refl, ap, Bool, true, false, arith, min,
  max, ltb, leb, if◌then◌else◌, leb→le, le→leb,
}

pub record Float {ℓ} (F : Type ℓ) : Type ℓ where
  -- The literal of a fraction.
  pub ratio : ℕ → ℕ → F
  -- `as_secs_f64` of so many nanoseconds.
  pub as_secs : ℕ → F
  pub add : F → F → F
  pub sub : F → F → F
  pub mul : F → F → F
  pub div : F → F → F
  pub minimum : F → F → F
  pub maximum : F → F → F
  pub lt : F → F → Bool
  pub le : F → F → Bool
  pub is_finite : F → Bool

module _ {ℓ} {F : Type ℓ} ⦃f : Float F⦄ where
  -- An integer `as f64`.
  abbrev pub as_f64 : ℕ → F
  as_f64 n = f.ratio n 1

  -- `x.clamp(low, high)`, which leaves a NaN as it is.
  abbrev pub clamp : F → F → F → F
  clamp x low high = let y = if f.lt x low then low else x in if f.lt high y then high else y

infix 4 ◌≼◌ ◌≺◌
abbrev pub ◌≼◌ {ℓ} : {F : Type ℓ} ⦃f : Float F⦄ → F → F → Type 0
◌≼◌ ⦃f⦄ x y = f.le x y ≡ true

abbrev pub ◌≺◌ {ℓ} : {F : Type ℓ} ⦃f : Float F⦄ → F → F → Type 0
◌≺◌ ⦃f⦄ x y = f.lt x y ≡ true

abbrev pub Finite {ℓ} : {F : Type ℓ} ⦃f : Float F⦄ → F → Type 0
Finite ⦃f⦄ x = f.is_finite x ≡ true

pub record IsIeee {ℓ} (F : Type ℓ) ⦃f : Float F⦄ : Type ℓ where
  pub le_trans : (x y z : F) → x ≼ y → y ≼ z → x ≼ z
  pub le_refl_left : (x y : F) → x ≼ y → x ≼ x
  pub le_refl_right : (x y : F) → x ≼ y → y ≼ y
  pub lt_not_le : (x y : F) → x ≺ y → f.le y x ≡ false
  pub not_lt_le : (x y : F) → x ≼ x → y ≼ y → f.lt y x ≡ false → x ≼ y
  pub lt_le : (x y : F) → x ≺ y → x ≼ y
  pub min_le_right : (x y : F) → y ≼ y → f.minimum x y ≼ y
  pub min_greatest : (x y z : F) → z ≼ x → z ≼ y → z ≼ f.minimum x y
  pub le_max_right : (x y : F) → y ≼ y → y ≼ f.maximum x y
  pub lt_le_trans : (x y z : F) → x ≺ y → y ≼ z → x ≺ z
  pub max_least : (x y z : F) → x ≼ z → y ≼ z → f.maximum x y ≼ z
  -- Rounding is monotone.
  pub as_f64_le : (m n : ℕ) → m ≤ n → n < 2 ^ 64 → f.ratio m 1 ≼ f.ratio n 1
  pub as_f64_lt : (m n : ℕ) → m < n → n ≤ 2 ^ 53 → f.ratio m 1 ≺ f.ratio n 1
  pub mul_comm : (x y : F) → f.mul x y ≡ f.mul y x
  pub sub_le : (x y : F) (n : ℕ) → n < 2 ^ 64 → x ≼ y → f.sub x (f.ratio n 1) ≼ y
  pub sub_nonneg : (x y : F) → f.ratio 0 1 ≼ y → y ≼ x → Finite x → f.ratio 0 1 ≼ f.sub x y
  pub sub_nonneg_le : (x y : F) → f.ratio 0 1 ≼ y → y ≼ x → Finite x → f.sub x y ≼ x
  pub sub_pos : (x y : F) → y ≺ x → f.ratio 0 1 ≼ f.sub x y
  pub div_nonneg :
      (x y : F) → f.ratio 0 1 ≼ x → f.ratio 1 1 ≼ y → Finite y → f.ratio 0 1 ≼ f.div x y
  pub mul_nonneg :
      (x y : F) → f.ratio 0 1 ≺ x → Finite x → f.ratio 0 1 ≼ y → f.ratio 0 1 ≼ f.mul x y
  pub mul_unit :
      (x y : F)
      → f.ratio 0 1 ≼ x
      → x ≼ f.ratio 1 1
      → f.ratio 0 1 ≼ y
      → y ≼ f.ratio 1 1
      → (f.ratio 0 1 ≼ f.mul x y) × (f.mul x y ≼ f.ratio 1 1)
  pub scale_down :
      (x r : F)
      → f.ratio 0 1 ≼ x
      → Finite x
      → f.ratio 0 1 ≼ r
      → r ≼ f.ratio 1 1
      → (f.ratio 0 1 ≼ f.mul x (f.sub (f.ratio 1 1) r)) × (f.mul x (f.sub (f.ratio 1 1) r) ≼ x)
  pub bounded_finite : (x : F) → f.ratio 0 1 ≼ x → x ≼ f.ratio 100 1 → Finite x
  pub below_finite : (x y : F) → x ≺ y → Finite (f.maximum x (f.ratio 1 1))
  -- The literals.
  pub zero_le_one : f.ratio 0 1 ≼ f.ratio 1 1
  pub one_le_hundred : f.ratio 1 1 ≼ f.ratio 100 1
  pub zero_lt_twentieth : f.ratio 0 1 ≺ f.ratio 5 100
  pub twentieth_finite : Finite (f.ratio 5 100)
  pub milli_le_half : f.ratio 1 1000 ≼ f.ratio 5 10

-- The laws can be met: thousandths.
abbrev pub Thousandths : Type 0
Thousandths = ℕ

instance abbrev pub thousandths : Float Thousandths
thousandths = record {
  ratio = λ n d. n * 1000 / d;
  as_secs = λ n. n / 1000000;
  add = λ x y. x + y;
  sub = λ x y. x - y;
  mul = λ x y. x * y / 1000;
  div = λ x y. x * 1000 / y;
  minimum = min;
  maximum = max;
  lt = ltb;
  le = leb;
  is_finite = λ x. true;
}

mul_le : (a b c : ℕ) → b ≤ c → a * b ≤ a * c
mul_le zero b c h = omega arith
mul_le (suc a) b c h = omega (arith, mul_le a b c h)

commute : (a b : ℕ) → a * b ≡ b * a
commute a b = omega arith

scaled_le : (a k : ℕ) → k ≤ 1000 → a * k / 1000 ≤ a
scaled_le a k h = omega (arith, mul_le a k 1000 h)

pub Thousandths-IsIeee : IsIeee Thousandths
Thousandths-IsIeee = record {
  le_trans = λ x y z p q. ground arith;
  le_refl_left = λ x y p. ground arith;
  le_refl_right = λ x y p. ground arith;
  lt_not_le = λ x y p. ground arith;
  not_lt_le = λ x y p q r. ground arith;
  lt_le = λ x y p. ground arith;
  min_le_right = λ x y p. ground arith;
  min_greatest = λ x y z p q. ground arith;
  le_max_right = λ x y p. ground arith;
  lt_le_trans = λ x y z p q. ground arith;
  as_f64_le = λ m n p q. ground arith;
  as_f64_lt = λ m n p q. ground arith;
  mul_comm = λ x y. ap (λ z. z / 1000) (commute x y);
  sub_le = λ x y n l p. ground arith;
  sub_nonneg = λ x y p q r. ground arith;
  sub_nonneg_le = λ x y p q r. ground arith;
  max_least = λ x y z p q. ground arith;
  sub_pos = λ x y p. ground arith;
  div_nonneg = λ x y p q r. ground arith;
  mul_nonneg = λ x y p q r. ground arith;
  mul_unit = λ x y p q r s. (
    ground arith,
    le→leb (x * y / 1000) 1000
        (omega (arith, leb→le x 1000 q, leb→le y 1000 s, scaled_le x y (leb→le y 1000 s))),
  );
  scale_down = λ x r p q s t.
      (ground arith, le→leb (x * (1000 - r) / 1000) x (scaled_le x (1000 - r) (omega arith)));
  bounded_finite = λ x p q. refl;
  below_finite = λ x y p. refl;
  zero_le_one = refl;
  one_le_hundred = refl;
  zero_lt_twentieth = refl;
  twentieth_finite = refl;
  milli_le_half = refl;
}
