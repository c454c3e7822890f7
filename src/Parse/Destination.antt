-- ===== src/Parse/Destination.antt =====
-- The destination of an IPv4 packet, as its options say it (RFC 791), and ipv4_pseudo_dst of
-- src/parse.rs.
use rust_pcaprune.Prelude.{
  ℕ, zero, suc, ◌+◌, ◌-◌, ◌%◌, ◌≤◌, ◌<◌, ◌≡◌, ◌≢◌, sym, ap, Option, none, some, Bytes, at, ◌⊎◌, inl,
  inr, arith, Bool-cases, Option-cases, leb,
}
use rust_pcaprune.Parse.Options.{four_at, step_at, options_at, pseudo_dst_at}

-- The address is at `j`: in the header's field, or, for a loose or strict source route (types 131
-- and 137), the last one of the route. The options from `off` to `end` are read one by one. A
-- packet with a no-operation option (type 1) among the options so read has no description here.
pub data Destination (b : Bytes) (end field j : ℕ) : ℕ → Type 0 where
  no_more : {off : ℕ} → end ≤ off → j ≡ field → Destination b end field j off
  end_of_options : {off : ℕ} → off < end → at b off ≡ 0 → j ≡ field → Destination b end field j off
  route :
      {off : ℕ}
      → off + 1 < end
      → (at b off ≡ 131) ⊎ (at b off ≡ 137)
      → 7 ≤ at b (off + 1)
      → off + at b (off + 1) ≤ end
      → j ≡ off + at b (off + 1) - 4
      → Destination b end field j off
  other :
      {off : ℕ}
      → off + 1 < end
      → 1 < at b off
      → at b off % 32 ≢ 3
      → at b off % 32 ≢ 9
      → 2 ≤ at b (off + 1)
      → off + at b (off + 1) ≤ end
      → Destination b end field j (off + at b (off + 1))
      → Destination b end field j off

abbrev or_field : Bytes → ℕ → Option Bytes → Bytes
or_field b field none = four_at b field
or_field b field (some a) = a

options_at-Destination :
    (fuel : ℕ) (b : Bytes) (end field j off : ℕ)
    → end < off + fuel
    → Destination b end field j off
    → or_field b field (options_at fuel b end off) ≡ four_at b j
unfolding options_at step_at
options_at-Destination zero b end field j off h (no_more x e) = ap (four_at b) (sym e)
options_at-Destination zero b end field j off h (end_of_options x y e) = absurd (omega arith)
options_at-Destination zero b end field j off h (route x k l m e) = absurd (omega arith)
options_at-Destination zero b end field j off h (other x k r s l m d) = absurd (omega arith)
options_at-Destination (suc fuel) b end field j off h (no_more x e) = ground arith
options_at-Destination (suc fuel) b end field j off h (end_of_options x y e) = ground arith
options_at-Destination (suc fuel) b end field j off h (route x (inl k) l m e) = ground arith
options_at-Destination (suc fuel) b end field j off h (route x (inr k) l m e) = ground arith
options_at-Destination (suc fuel) b end field j off h (other x k r s l m d) =
    ground (arith, options_at-Destination fuel b end field j (off + at b (off + 1)) (omega arith) d)

field_alone :
    (b : Bytes) (end field j off : ℕ) → end ≤ off → Destination b end field j off → j ≡ field
field_alone b end field j off h (no_more x e) = e
field_alone b end field j off h (end_of_options x y e) = e
field_alone b end field j off h (route x k l m e) = absurd (omega arith)
field_alone b end field j off h (other x k r s l m d) = absurd (omega arith)

-- `ipv4_pseudo_dst` finds it.
pub pseudo_dst_at-Destination :
    (b : Bytes) (ip hl j : ℕ)
    → 20 ≤ hl
    → Destination b (ip + hl) (ip + 16) j (ip + 20)
    → pseudo_dst_at b ip hl ≡ four_at b j
unfolding pseudo_dst_at
pseudo_dst_at-Destination b ip hl j h d = elim (Bool-cases (leb hl 20)) [
  | inl short ↦
      rw short
        (ap (four_at b) (sym (field_alone b (ip + hl) (ip + 16) j (ip + 20) (ground arith) d)))
  | inr long ↦
      let q = options_at-Destination hl b (ip + hl) (ip + 16) j (ip + 20) (omega arith) d in
      elim (Option-cases (options_at hl b (ip + hl) (ip + 20))) [
        | inl n ↦ rw (long, n) (rw n at q)
        | inr (a, n) ↦ rw (long, n) (rw n at q)
      ]
]
