-- ===== src/Prelude/Buffers.antt =====
-- Byte strings: `buf[i]`, `buf[i] = v`, `&buf[a..b]` and `u16::from_be_bytes` with Rust's panics,
-- and the total reads that equal them inside the bounds.
use Prim.Native.Nat.{ℕ, zero, suc, ◌+◌, ◌-◌, ◌*◌, ◌/◌, ◌%◌, ◌^◌, ◌≤◌, ◌<◌}
use mathlib.Core.Path.{◌≡◌, ap, ◌∙◌}
use mathlib.Core.Logic.{◌≢◌, inl, inr}
use mathlib.Core.Bool.{◌||◌}
use mathlib.Core.List.{List, [], ◌∷◌}
use mathlib.Core.Option.{Option, none, some}
use native.Mathlib.Omega.{arith}
use rust_pcaprune.Prelude.Tests.{ltb, if◌then◌else◌, Bool-cases}
use rust_pcaprune.Prelude.Lists.{
  length, get_elem?, get_or, set, take, drop, length-set, get_elem?-get_or, get_elem?-none,
  get_or-set_self, get_or-set_ne,
}
use rust_pcaprune.Prelude.Outcome.{Run, ret, panic, ◌>>=◌}

abbrev pub Bytes : Type 0
Bytes = List ℕ

-- Every entry is a `u8`.
abbrev pub IsBytes : Bytes → Type 0
IsBytes [] = Unit {0}
IsBytes (x ∷ xs) = (x < 256) × IsBytes xs

-- The read that the proofs use: 0 out of range.
abbrev pub at : Bytes → ℕ → ℕ
at b i = get_or b i 0

abbrev pub word : Bytes → ℕ → ℕ
word b i = at b i * 256 + at b (i + 1)

-- `b[i]`
abbrev pub from_option {ℓ} : {A : Type ℓ} → Option A → Run A
from_option none = panic
from_option (some x) = ret x

unfoldable pub byte : Bytes → ℕ → Run ℕ
byte b i = from_option (get_elem? b i)

-- `u16::from_be_bytes([b[i], b[i + 1]])`
unfoldable pub be16 : Bytes → ℕ → Run ℕ
be16 b i = do x ← byte b i; y ← byte b (i + 1); ret (x * 256 + y)

-- `b[i] = v`
unfoldable pub store : Bytes → ℕ → ℕ → Run Bytes
store b i v = if ltb i (length b) then ret (set b i v) else panic

-- `b[i] = (v >> 8) as u8; b[i + 1] = (v & 0xff) as u8`
unfoldable pub store16 : Bytes → ℕ → ℕ → Run Bytes
store16 b i v = do b' ← store b i (v / 2 ^ 8 % 2 ^ 8); store b' (i + 1) (v % 2 ^ 8)

-- The bytes from `s` up to `e`.
abbrev pub sub : Bytes → ℕ → ℕ → Bytes
sub b s e = take (e - s) (drop s b)

-- `&b[s..e]`
unfoldable pub slice : Bytes → ℕ → ℕ → Run Bytes
slice b s e = if ltb e s || ltb (length b) e then panic else ret (sub b s e)

abbrev pub put16 : Bytes → ℕ → ℕ → Bytes
put16 b i v = set (set b i (v / 2 ^ 8 % 2 ^ 8)) (i + 1) (v % 2 ^ 8)

pub byte-at : (b : Bytes) (i : ℕ) → i < length b → byte b i ≡ ret (at b i)
unfolding byte
byte-at b i h = ap from_option (get_elem?-get_or b i 0 h)

pub byte-panic : (b : Bytes) (i : ℕ) → length b ≤ i → byte b i ≡ panic
unfolding byte
byte-panic b i h = ap from_option (get_elem?-none b i h)

pub be16-word : (b : Bytes) (i : ℕ) → i + 1 < length b → be16 b i ≡ ret (word b i)
unfolding be16
be16-word b i h = ground (arith, byte-at b i, byte-at b (i + 1))

pub be16-panic : (b : Bytes) (i : ℕ) → length b ≤ i + 1 → be16 b i ≡ panic
unfolding be16
be16-panic b i h = elim (Bool-cases (ltb i (length b))) [
  | inl p ↦ ground (arith, byte-at b i, byte-panic b (i + 1))
  | inr p ↦ ground (arith, byte-panic b i)
]

pub store-set : (b : Bytes) (i v : ℕ) → i < length b → store b i v ≡ ret (set b i v)
unfolding store
store-set b i v h = ground arith

pub store16-put16 : (b : Bytes) (i v : ℕ) → i + 1 < length b → store16 b i v ≡ ret (put16 b i v)
unfolding store16
store16-put16 b i v h = ground (
  arith,
  store-set b i (v / 2 ^ 8 % 2 ^ 8),
  store-set (set b i (v / 2 ^ 8 % 2 ^ 8)) (i + 1) (v % 2 ^ 8),
  length-set b i (v / 2 ^ 8 % 2 ^ 8),
)

pub slice-sub : (b : Bytes) (s e : ℕ) → s ≤ e → e ≤ length b → slice b s e ≡ ret (sub b s e)
unfolding slice
slice-sub b s e h k = ground arith

pub length-put16 : (b : Bytes) (i v : ℕ) → length (put16 b i v) ≡ length b
length-put16 b i v =
    length-set (set b i (v / 2 ^ 8 % 2 ^ 8)) (i + 1) (v % 2 ^ 8)
    ∙ length-set b i (v / 2 ^ 8 % 2 ^ 8)

pub at-put16_hi : (b : Bytes) (i v : ℕ) → i + 1 < length b → at (put16 b i v) i ≡ v / 2 ^ 8 % 2 ^ 8
at-put16_hi b i v h =
    get_or-set_ne (set b i (v / 2 ^ 8 % 2 ^ 8)) (i + 1) i (v % 2 ^ 8) 0 (omega arith)
    ∙ get_or-set_self b i (v / 2 ^ 8 % 2 ^ 8) 0 (omega arith)

pub at-put16_lo : (b : Bytes) (i v : ℕ) → i + 1 < length b → at (put16 b i v) (i + 1) ≡ v % 2 ^ 8
at-put16_lo b i v h =
    get_or-set_self (set b i (v / 2 ^ 8 % 2 ^ 8)) (i + 1) (v % 2 ^ 8) 0
      (omega (arith, length-set b i (v / 2 ^ 8 % 2 ^ 8)))

-- The two bytes written read back as the value.
pub word-put16 : (b : Bytes) (i v : ℕ) → i + 1 < length b → v < 2 ^ 16 → word (put16 b i v) i ≡ v
word-put16 b i v h k = omega (arith, at-put16_hi b i v h, at-put16_lo b i v h)

pub at-put16_ne : (b : Bytes) (i v j : ℕ) → i ≢ j → i + 1 ≢ j → at (put16 b i v) j ≡ at b j
at-put16_ne b i v j h k =
    get_or-set_ne (set b i (v / 2 ^ 8 % 2 ^ 8)) (i + 1) j (v % 2 ^ 8) 0 k
    ∙ get_or-set_ne b i j (v / 2 ^ 8 % 2 ^ 8) 0 h

pub at-lt : (b : Bytes) (i : ℕ) → IsBytes b → at b i < 256
at-lt [] i h = omega arith
at-lt (x ∷ xs) zero h = h.0
at-lt (x ∷ xs) (suc i) h = at-lt xs i h.1

pub IsBytes-set : (b : Bytes) (i v : ℕ) → IsBytes b → v < 256 → IsBytes (set b i v)
IsBytes-set [] i v h k = tt
IsBytes-set (x ∷ xs) zero v h k = (k, h.1)
IsBytes-set (x ∷ xs) (suc i) v h k = (h.0, IsBytes-set xs i v h.1 k)

pub IsBytes-put16 : (b : Bytes) (i v : ℕ) → IsBytes b → IsBytes (put16 b i v)
IsBytes-put16 b i v h =
    IsBytes-set (set b i (v / 2 ^ 8 % 2 ^ 8)) (i + 1) (v % 2 ^ 8)
      (IsBytes-set b i (v / 2 ^ 8 % 2 ^ 8) h (omega arith)) (omega arith)

pub IsBytes-take : (n : ℕ) (b : Bytes) → IsBytes b → IsBytes (take n b)
IsBytes-take zero b h = tt
IsBytes-take (suc n) [] h = tt
IsBytes-take (suc n) (x ∷ xs) h = (h.0, IsBytes-take n xs h.1)

pub IsBytes-drop : (n : ℕ) (b : Bytes) → IsBytes b → IsBytes (drop n b)
IsBytes-drop zero b h = h
IsBytes-drop (suc n) [] h = tt
IsBytes-drop (suc n) (x ∷ xs) h = IsBytes-drop n xs h.1
