-- ===== src/Prelude/Slices.antt =====
-- Slices of a buffer in which a 16-bit field was written.
use Prim.Native.Nat.{ℕ, zero, suc, ◌+◌, ◌-◌, ◌/◌, ◌%◌, ◌^◌, ◌≤◌, ◌<◌, min}
use mathlib.Core.Path.{◌≡◌, refl, ap, ◌∙◌}
use mathlib.Core.List.{List, [], ◌∷◌}
use native.Mathlib.Omega.{arith}
use rust_pcaprune.Prelude.Lists.{
  length, set, take, drop, length-take, length-drop, take-set, drop-set_ge, get_or-take,
  get_or-drop,
}
use rust_pcaprune.Prelude.Buffers.{Bytes, IsBytes, at, sub, put16, IsBytes-take, IsBytes-drop}

pub set-out {ℓ} : {A : Type ℓ} (xs : List A) (i : ℕ) (v : A) → length xs ≤ i → set xs i v ≡ xs
set-out [] i v h = refl
set-out (x ∷ xs) zero v h = absurd (omega arith)
set-out (x ∷ xs) (suc i) v h = ap (◌∷◌ x) (set-out xs i v (omega arith))

pub sub-set_in : (b : Bytes) (s e f v : ℕ) → s ≤ f → sub (set b f v) s e ≡ set (sub b s e) (f - s) v
sub-set_in b s e f v h =
    ap (λ x. take (e - s) x) (drop-set_ge s b f v h) ∙ take-set (e - s) (drop s b) (f - s) v

pub sub-put16_in :
    (b : Bytes) (s e f v : ℕ) → s ≤ f → sub (put16 b f v) s e ≡ put16 (sub b s e) (f - s) v
sub-put16_in b s e f v h =
    sub-set_in (set b f (v / 2 ^ 8 % 2 ^ 8)) s e (f + 1) (v % 2 ^ 8) (omega arith)
    ∙ ap (λ x. set x (f + 1 - s) (v % 2 ^ 8)) (sub-set_in b s e f (v / 2 ^ 8 % 2 ^ 8) h)
    ∙ ap (λ k. set (set (sub b s e) (f - s) (v / 2 ^ 8 % 2 ^ 8)) k (v % 2 ^ 8)) next
  where
    next : f + 1 - s ≡ f - s + 1
    next = omega arith

pub length-sub : (b : Bytes) (s e : ℕ) → length (sub b s e) ≡ min (e - s) (length b - s)
length-sub b s e = omega (arith, length-take (e - s) (drop s b), length-drop s b)

-- A write behind a slice is not seen in it.
sub-set_out : (b : Bytes) (s e f v : ℕ) → s ≤ e → e ≤ f → sub (set b f v) s e ≡ sub b s e
sub-set_out b s e f v h k =
    sub-set_in b s e f v (omega arith)
    ∙ set-out (sub b s e) (f - s) v (omega (arith, length-sub b s e))

pub sub-put16_out : (b : Bytes) (s e f v : ℕ) → s ≤ e → e ≤ f → sub (put16 b f v) s e ≡ sub b s e
sub-put16_out b s e f v h k =
    sub-set_out (set b f (v / 2 ^ 8 % 2 ^ 8)) s e (f + 1) (v % 2 ^ 8) h (omega arith)
    ∙ sub-set_out b s e f (v / 2 ^ 8 % 2 ^ 8) h k

pub at-sub : (b : Bytes) (s e j : ℕ) → j < e - s → at (sub b s e) j ≡ at b (s + j)
at-sub b s e j h = get_or-take (e - s) (drop s b) j 0 h ∙ get_or-drop s b j 0

pub IsBytes-sub : (b : Bytes) (s e : ℕ) → IsBytes b → IsBytes (sub b s e)
IsBytes-sub b s e h = IsBytes-take (e - s) (drop s b) (IsBytes-drop s b h)
