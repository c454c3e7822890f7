-- ===== src/Checksum/Words.antt =====
-- The word loop of src/checksum.rs against the exact sum of the 16-bit words, and what writing one
-- aligned word does to that sum.
use rust_pcaprune.Prelude.{
  ℕ, zero, suc, ◌+◌, ◌*◌, ◌/◌, ◌%◌, ◌^◌, ◌≤◌, ◌<◌, ◌≡◌, ap, ◌∙◌, [], ◌∷◌, arith, length, set, at,
  put16, Bytes, IsBytes,
}
use rust_pcaprune.Checksum.{fold, sum_words, checksum_sum}
use rust_pcaprune.Checksum.Fold.{norm, fold-norm, fold-lt}

-- The sum of the big-endian words, an odd last byte padded with a zero, in unbounded numbers.
unfoldable pub words : Bytes → ℕ
words [] = 0
words (x ∷ []) = x * 256
words (x ∷ y ∷ rest) = x * 256 + y + words rest

pub words-le : (d : Bytes) → IsBytes d → 2 * words d ≤ 65535 * (length d + 1)
unfolding words
words-le [] h = omega arith
words-le (x ∷ []) h = omega (arith, h.0)
words-le (x ∷ y ∷ rest) h = omega (arith, h.0, h.1.0, words-le rest h.1.1)

-- Every buffer of at most 128 KiB is summed with no wrap.
pub words-lt : (d : Bytes) → IsBytes d → length d ≤ 2 ^ 17 → words d < 2 ^ 32
words-lt d h k = omega (arith, words-le d h)

sum_words-words : (acc : ℕ) (d : Bytes) → acc + words d < 2 ^ 32 → sum_words acc d ≡ acc + words d
unfolding sum_words words
sum_words-words acc [] h = omega arith
sum_words-words acc (x ∷ []) h = omega arith
sum_words-words acc (x ∷ y ∷ rest) h =
    omega (arith, sum_words-words ((acc + (x * 256 + y)) % 2 ^ 32) rest (omega arith))

pub checksum_sum-norm : (d : Bytes) → words d < 2 ^ 32 → checksum_sum d ≡ norm (words d)
unfolding checksum_sum
checksum_sum-norm d h =
    ap fold (sum_words-words 0 d (omega arith))
    ∙ fold-norm (0 + words d) (omega arith)
    ∙ ap norm zero_add
  where
    zero_add : 0 + words d ≡ words d
    zero_add = omega arith

sum_words-lt : (acc : ℕ) (d : Bytes) → acc < 2 ^ 32 → sum_words acc d < 2 ^ 32
unfolding sum_words
sum_words-lt acc [] h = h
sum_words-lt acc (x ∷ []) h = omega arith
sum_words-lt acc (x ∷ y ∷ rest) h = sum_words-lt ((acc + (x * 256 + y)) % 2 ^ 32) rest (omega arith)

pub checksum_sum-lt : (d : Bytes) → checksum_sum d < 65536
unfolding checksum_sum
checksum_sum-lt d = fold-lt (sum_words 0 d) (sum_words-lt 0 d (omega arith))

-- The offset of the word number `k`.
abbrev pub double : ℕ → ℕ
double zero = zero
double (suc k) = suc (suc (double k))

pub double-eq : (k : ℕ) → double k ≡ k + k
double-eq zero = omega arith
double-eq (suc k) = omega (arith, double-eq k)

words-set :
    (d : Bytes) (k x y : ℕ)
    → suc (double k) < length d
    → words (set (set d (double k) x) (suc (double k)) y)
        + (at d (double k) * 256 + at d (suc (double k)))
      ≡ words d + (x * 256 + y)
unfolding words
words-set [] k x y h = absurd (omega arith)
words-set (a ∷ []) zero x y h = absurd (omega arith)
words-set (a ∷ []) (suc k) x y h = absurd (omega arith)
words-set (a ∷ b ∷ rest) zero x y h = omega arith
words-set (a ∷ b ∷ rest) (suc k) x y h = omega (arith, words-set rest k x y (omega arith))

-- Filling a zeroed word adds its value to the sum.
pub words-put16 :
    (d : Bytes) (k v : ℕ)
    → suc (double k) < length d
    → at d (double k) ≡ 0
    → at d (suc (double k)) ≡ 0
    → v < 2 ^ 16
    → words (put16 d (double k) v) ≡ words d + v
words-put16 d k v h p q r =
    ap (λ i. words (set (set d (double k) (v / 2 ^ 8 % 2 ^ 8)) i (v % 2 ^ 8))) next
    ∙ omega (arith, words-set d k (v / 2 ^ 8 % 2 ^ 8) (v % 2 ^ 8) h, p, q)
  where
    next : double k + 1 ≡ suc (double k)
    next = omega arith
