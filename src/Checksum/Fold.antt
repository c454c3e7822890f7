-- ===== src/Checksum/Fold.antt =====
-- The carry loop of src/checksum.rs computes the representative of its argument modulo 65535.
use rust_pcaprune.Prelude.{
  ℕ, zero, suc, ◌+◌, ◌-◌, ◌/◌, ◌%◌, ◌^◌, ◌<◌, ◌≡◌, sym, ◌==◌, if◌then◌else◌, arith,
}
use rust_pcaprune.Checksum.{add_u32, fold_loop, fold, finish}

-- 0 for 0, and else the representative of `n` modulo 65535 from 1 to 65535.
unfoldable pub norm : ℕ → ℕ
norm n = if n == 0 then 0 else (n - 1) % 65535 + 1

pub norm-lt : (n : ℕ) → norm n < 65536
unfolding norm
norm-lt n = ground arith

pub norm_small : (n : ℕ) → n < 65536 → norm n ≡ n
unfolding norm
norm_small n h = ground arith

norm_round : (n : ℕ) → n < 2 ^ 32 → norm (add_u32 (n % 2 ^ 16) (n / 2 ^ 16)) ≡ norm n
unfolding norm
norm_round n h = ground arith

pub norm-add_left : (a b : ℕ) → norm (norm a + b) ≡ norm (a + b)
unfolding norm
norm-add_left a b = ground arith

pub norm-add_right : (a b : ℕ) → norm (a + norm b) ≡ norm (a + b)
unfolding norm
norm-add_right a b = ground arith

-- Each round shrinks the sum, and `norm` does not see it.
fold_loop-norm : (fuel n : ℕ) → n < 2 ^ 32 → fold_loop fuel n < 65536 → fold_loop fuel n ≡ norm n
unfolding fold_loop
fold_loop-norm zero n h k = sym (norm_small n k)
fold_loop-norm (suc fuel) n h k =
    ground
      (arith, fold_loop-norm fuel (add_u32 (n % 2 ^ 16) (n / 2 ^ 16)), norm_small n, norm_round n h)

-- For a `u32` the loop ends by its test within the fuel.
pub fold-lt : (n : ℕ) → n < 2 ^ 32 → fold n < 65536
unfolding fold
fold-lt n h = ground arith

pub fold-norm : (n : ℕ) → n < 2 ^ 32 → fold n ≡ norm n
unfolding fold
fold-norm n h = fold_loop-norm 3 n h (fold-lt n h)

pub finish-norm : (n : ℕ) → n < 2 ^ 32 → finish n ≡ 65535 - norm n
unfolding finish
finish-norm n h = omega (arith, fold-norm n h, norm-lt n)
