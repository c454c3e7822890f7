-- ===== src/Checksum/Verify.antt =====
-- A checksum of src/checksum.rs, written into its zeroed field, verifies: the receiver's sum over
-- the same bytes comes out as zero.
use rust_pcaprune.Prelude.{
  ℕ, suc, ◌+◌, ◌-◌, ◌%◌, ◌^◌, ◌≤◌, ◌<◌, ◌≡◌, ap, ◌∙◌, arith, length, at, put16, Bytes, IsBytes,
  length-put16, IsBytes-put16, ◌⊎◌, inl, inr,
}
use rust_pcaprune.Checksum.{
  add_u32, fold, finish, checksum_sum, internet_checksum, pseudo_ipv4, checksum_sum_pseudo_ipv4,
  checksum_sum_pseudo_ipv6, to_be_bytes, transport_checksum_ipv4, transport_checksum_ipv6,
  udp_checksum_wire,
}
use rust_pcaprune.Checksum.Fold.{norm, norm-lt, norm_small, norm-add_right, fold-norm, finish-norm}
use rust_pcaprune.Checksum.Words.{
  words, words-lt, checksum_sum-norm, checksum_sum-lt, double, words-put16,
}

norm-norm : (n : ℕ) → norm (norm n) ≡ norm n
norm-norm n = norm_small (norm n) (norm-lt n)

-- The arithmetic of a verified sum, for the checksum and for 0xffff sent in place of 0.
norm_closes : (s : ℕ) → norm (s + (65535 - norm s)) ≡ 65535
unfolding norm
norm_closes s = ground arith

norm_closes_wire : (s : ℕ) → norm (s + udp_checksum_wire (65535 - norm s)) ≡ 65535
unfolding norm udp_checksum_wire
norm_closes_wire s = ground arith

udp_checksum_wire-lt : (c : ℕ) → c < 2 ^ 16 → udp_checksum_wire c < 2 ^ 16
unfolding udp_checksum_wire
udp_checksum_wire-lt c h = ground arith

-- `internet_checksum` is the complement of the one's complement sum of the words of its buffer,
-- which is at most 128 KiB long.
pub internet_checksum-norm :
    (d : Bytes) → IsBytes d → length d ≤ 2 ^ 17 → internet_checksum d ≡ 65535 - norm (words d)
unfolding internet_checksum
internet_checksum-norm d h k =
    ap finish (checksum_sum-norm d (words-lt d h k))
    ∙ finish-norm (norm (words d)) (omega (arith, norm-lt (words d)))
    ∙ ap (λ n. 65535 - n) (norm-norm (words d))

-- A buffer of at most 128 KiB of bytes whose 16-bit checksum field (inside it, at an even offset)
-- is zero gets a checksum that verifies.
pub internet_checksum-put16 :
    (d : Bytes) (k : ℕ)
    → IsBytes d
    → length d ≤ 2 ^ 17
    → suc (double k) < length d
    → at d (double k) ≡ 0
    → at d (suc (double k)) ≡ 0
    → internet_checksum (put16 d (double k) (internet_checksum d)) ≡ 0
internet_checksum-put16 d k h l i p q =
    internet_checksum-norm (put16 d (double k) c) (IsBytes-put16 d (double k) c h)
      (omega (arith, length-put16 d (double k) c))
    ∙ omega (
      arith,
      ap norm (words-put16 d k c i p q (omega (arith, internet_checksum-norm d h l))),
      ap (λ x. norm (words d + x)) (internet_checksum-norm d h l),
      norm_closes (words d),
    )
  where
    c : ℕ
    c = internet_checksum d

fold_two :
    (a : ℕ) (d : Bytes)
    → a < 2 ^ 18
    → words d < 2 ^ 32
    → fold (add_u32 a (checksum_sum d)) ≡ norm (a + words d)
fold_two a d h k =
    fold-norm (add_u32 a (checksum_sum d)) (omega arith)
    ∙ ap norm no_wrap
    ∙ ap (λ x. norm (a + x)) (checksum_sum-norm d k)
    ∙ norm-add_right a (words d)
  where
    no_wrap : add_u32 a (checksum_sum d) ≡ a + checksum_sum d
    no_wrap = omega (arith, checksum_sum-lt d)

finish-norm-norm : (n : ℕ) → finish (norm n) ≡ 65535 - norm n
finish-norm-norm n =
    finish-norm (norm n) (omega (arith, norm-lt n)) ∙ ap (λ x. 65535 - x) (norm-norm n)

-- What the pseudo-headers add to the sum of a segment of `len` bytes.
unfoldable pub pseudo_sum4 : Bytes → Bytes → ℕ → ℕ → ℕ
pseudo_sum4 src dst proto len = checksum_sum (pseudo_ipv4 src dst proto (len % 2 ^ 16))

unfoldable pub pseudo_sum6 : Bytes → Bytes → ℕ → ℕ → ℕ
pseudo_sum6 src dst proto len =
    add_u32
      (add_u32 (add_u32 (checksum_sum src) (checksum_sum dst))
        (checksum_sum (to_be_bytes (len % 2 ^ 32))))
      proto

-- The transport checksums are the complement of the one's complement sum of pseudo-header and
-- segment.
pub transport4-norm :
    (src dst : Bytes) (proto : ℕ) (segment : Bytes)
    → words segment < 2 ^ 32
    → transport_checksum_ipv4 src dst proto segment
      ≡ 65535 - norm (pseudo_sum4 src dst proto (length segment) + words segment)
unfolding transport_checksum_ipv4 checksum_sum_pseudo_ipv4 pseudo_sum4
transport4-norm src dst proto segment k =
    ap finish (fold_two pseudo segment (omega (arith, checksum_sum-lt ph)) k)
    ∙ finish-norm-norm (pseudo + words segment)
  where
    ph : Bytes
    ph = pseudo_ipv4 src dst proto (length segment % 2 ^ 16)

    pseudo : ℕ
    pseudo = checksum_sum ph

pub transport6-norm :
    (src dst : Bytes) (proto : ℕ) (segment : Bytes)
    → proto < 256
    → words segment < 2 ^ 32
    → transport_checksum_ipv6 src dst proto segment
      ≡ 65535 - norm (pseudo_sum6 src dst proto (length segment) + words segment)
unfolding transport_checksum_ipv6 checksum_sum_pseudo_ipv6 pseudo_sum6
transport6-norm src dst proto segment h k =
    ap finish (
      fold_two (pseudo_sum6 src dst proto (length segment)) segment
        (omega (
          arith,
          checksum_sum-lt src,
          checksum_sum-lt dst,
          checksum_sum-lt (to_be_bytes (length segment % 2 ^ 32)),
        ))
        k)
    ∙ finish-norm-norm (pseudo_sum6 src dst proto (length segment) + words segment)

-- The field of a segment: the word number `k`, in range and zero.
pub record ZeroField (segment : Bytes) (k : ℕ) : Type 0 where
  pub bytes : IsBytes segment
  pub short : length segment ≤ 2 ^ 17
  pub inside : suc (double k) < length segment
  pub zero_hi : at segment (double k) ≡ 0
  pub zero_lo : at segment (suc (double k)) ≡ 0

module _ {segment : Bytes} {k : ℕ} (z : ZeroField segment k) where
  segment-lt : words segment < 2 ^ 32
  segment-lt = words-lt segment z.bytes z.short

  filled-lt : (v : ℕ) → words (put16 segment (double k) v) < 2 ^ 32
  filled-lt v =
      words-lt (put16 segment (double k) v) (IsBytes-put16 segment (double k) v z.bytes)
        (omega (arith, length-put16 segment (double k) v, z.short))

  filled-words : (v : ℕ) → v < 2 ^ 16 → words (put16 segment (double k) v) ≡ words segment + v
  filled-words v h = words-put16 segment k v z.inside z.zero_hi z.zero_lo h

  -- A sum closed by the checksum `c`, or by what UDP sends for it, verifies.
  closes :
      (p v : ℕ)
      → (v ≡ 65535 - norm (p + words segment))
        ⊎ (v ≡ udp_checksum_wire (65535 - norm (p + words segment)))
      → (v < 2 ^ 16) × (norm (p + words (put16 segment (double k) v)) ≡ 65535)
  closes p v e =
      (bound e, ap (λ x. norm (p + x)) (filled-words v (bound e)) ∙ ap norm regroup ∙ closed e)
    where
      s : ℕ
      s = p + words segment

      bound : (v ≡ 65535 - norm s) ⊎ (v ≡ udp_checksum_wire (65535 - norm s)) → v < 2 ^ 16
      bound (inl q) = omega arith
      bound (inr q) = omega (arith, udp_checksum_wire-lt (65535 - norm s) (omega arith))

      regroup : p + (words segment + v) ≡ s + v
      regroup = omega arith

      closed :
          (v ≡ 65535 - norm s) ⊎ (v ≡ udp_checksum_wire (65535 - norm s)) → norm (s + v) ≡ 65535
      closed (inl q) = ap (λ x. norm (s + x)) q ∙ norm_closes s
      closed (inr q) = ap (λ x. norm (s + x)) q ∙ norm_closes_wire s

  -- The checksum computed over IPv4 pseudo-header and segment, written into the segment's zeroed
  -- field as TCP or as UDP writes it, makes the receiver's checksum zero, for a segment of at most
  -- 128 KiB of bytes with the field inside it at an even offset.
  pub transport4_verifies :
      (src dst : Bytes) (proto : ℕ)
      → (transport_checksum_ipv4 src dst proto
            (put16 segment (double k) (transport_checksum_ipv4 src dst proto segment))
          ≡ 0)
        × (transport_checksum_ipv4 src dst proto (
              put16 segment
                (double k)
                (udp_checksum_wire (transport_checksum_ipv4 src dst proto segment)))
            ≡ 0)
  transport4_verifies src dst proto =
      (verifies c (inl tc), verifies (udp_checksum_wire c) (inr (ap udp_checksum_wire tc)))
    where
      c : ℕ
      c = transport_checksum_ipv4 src dst proto segment

      p : ℕ
      p = pseudo_sum4 src dst proto (length segment)

      tc : c ≡ 65535 - norm (p + words segment)
      tc = transport4-norm src dst proto segment segment-lt

      verifies :
          (v : ℕ)
          → (v ≡ 65535 - norm (p + words segment))
            ⊎ (v ≡ udp_checksum_wire (65535 - norm (p + words segment)))
          → transport_checksum_ipv4 src dst proto (put16 segment (double k) v) ≡ 0
      verifies v e =
          transport4-norm src dst proto (put16 segment (double k) v) (filled-lt v)
          ∙ ap
              (λ l. 65535 - norm (pseudo_sum4 src dst proto l + words (put16 segment (double k) v)))
              (length-put16 segment (double k) v)
          ∙ omega (arith, (closes p v e).1)

  -- The same over the IPv6 pseudo-header with a protocol below 256: the checksum written into the
  -- zeroed field of a segment of at most 128 KiB of bytes makes the receiver's checksum zero.
  pub transport6_verifies :
      (src dst : Bytes) (proto : ℕ)
      → proto < 256
      → (transport_checksum_ipv6 src dst proto
            (put16 segment (double k) (transport_checksum_ipv6 src dst proto segment))
          ≡ 0)
        × (transport_checksum_ipv6 src dst proto (
              put16 segment
                (double k)
                (udp_checksum_wire (transport_checksum_ipv6 src dst proto segment)))
            ≡ 0)
  transport6_verifies src dst proto h =
      (verifies c (inl tc), verifies (udp_checksum_wire c) (inr (ap udp_checksum_wire tc)))
    where
      c : ℕ
      c = transport_checksum_ipv6 src dst proto segment

      p : ℕ
      p = pseudo_sum6 src dst proto (length segment)

      tc : c ≡ 65535 - norm (p + words segment)
      tc = transport6-norm src dst proto segment h segment-lt

      verifies :
          (v : ℕ)
          → (v ≡ 65535 - norm (p + words segment))
            ⊎ (v ≡ udp_checksum_wire (65535 - norm (p + words segment)))
          → transport_checksum_ipv6 src dst proto (put16 segment (double k) v) ≡ 0
      verifies v e =
          transport6-norm src dst proto (put16 segment (double k) v) h (filled-lt v)
          ∙ ap
              (λ l. 65535 - norm (pseudo_sum6 src dst proto l + words (put16 segment (double k) v)))
              (length-put16 segment (double k) v)
          ∙ omega (arith, (closes p v e).1)
