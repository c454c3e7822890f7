-- ===== src/Checksum/Receiver.antt =====
-- What a receiver checks (RFC 1071, RFC 768, RFC 9293, RFC 8200) against the sums of
-- src/checksum.rs: the one's complement sum of all 16-bit words, the pseudo-header's first, is 0xffff.
use rust_pcaprune.Prelude.{
  ℕ, zero, suc, ◌+◌, ◌-◌, ◌/◌, ◌%◌, ◌^◌, ◌≤◌, ◌<◌, ◌≡◌, sym, ap, ap₂, ◌∙◌, [], ◌∷◌, ◌++◌, arith,
  length, length-append, Bytes, IsBytes,
}
use rust_pcaprune.Checksum.{
  checksum_sum, pseudo_ipv4, to_be_bytes, transport_checksum_ipv4, transport_checksum_ipv6,
  internet_checksum,
}
use rust_pcaprune.Checksum.Fold.{norm, norm-lt, norm-add_left}
use rust_pcaprune.Checksum.Words.{words, words-lt, words-le, double, checksum_sum-norm}
use rust_pcaprune.Checksum.Verify.{
  pseudo_sum4, pseudo_sum6, transport4-norm, transport6-norm, internet_checksum-norm,
}

abbrev pub Verifies : Bytes → Type 0
Verifies b = norm (words b) ≡ 65535

-- The pseudo-header of IPv4: addresses, a zero, the protocol, the length of the segment.
abbrev pub pseudo_header4 : Bytes → Bytes → ℕ → ℕ → Bytes
pseudo_header4 src dst proto n = src ++ (dst ++ (0 ∷ proto ∷ (n / 256) ∷ (n % 256) ∷ []))

-- That of IPv6: addresses, the length in four bytes, three zeros, the protocol.
abbrev pub pseudo_header6 : Bytes → Bytes → ℕ → ℕ → Bytes
pseudo_header6 src dst proto n =
    src ++ (dst ++ (0 ∷ 0 ∷ (n / 256) ∷ (n % 256) ∷ 0 ∷ 0 ∷ 0 ∷ proto ∷ []))

words-append :
    (k : ℕ) (xs ys : Bytes) → length xs ≡ double k → words (xs ++ ys) ≡ words xs + words ys
unfolding words
words-append zero [] ys h = omega arith
words-append zero (x ∷ xs) ys h = absurd (omega arith)
words-append (suc k) [] ys h = absurd (omega arith)
words-append (suc k) (x ∷ []) ys h = absurd (omega arith)
words-append (suc k) (x ∷ y ∷ xs) ys h = omega (arith, words-append k xs ys (omega arith))

pub header-Verifies :
    (d : Bytes) → IsBytes d → length d ≤ 2 ^ 17 → internet_checksum d ≡ 0 → Verifies d
header-Verifies d h k e = omega (arith, internet_checksum-norm d h k, norm-lt (words d))

-- A pseudo-header of an even length, whose sum `p` the code has folded in part, with its segment.
joined :
    (k p : ℕ) (pseudo segment : Bytes)
    → length pseudo ≡ double k
    → norm (p + words segment) ≡ norm (words pseudo + words segment)
    → 65535 - norm (p + words segment) ≡ 0
    → Verifies (pseudo ++ segment)
joined k p pseudo segment l e z =
    ap norm (words-append k pseudo segment l) ∙ omega (arith, e, norm-lt (p + words segment))

segment_words :
    (segment : Bytes) → IsBytes segment → length segment < 2 ^ 16 → words segment < 2 ^ 32
segment_words segment b l = words-lt segment b (omega arith)

-- The sum of an IPv4 packet's transport checksum is what a receiver expects.
pub transport4-Verifies :
    (src dst : Bytes) (proto : ℕ) (segment : Bytes)
    → length src ≡ 4
    → length dst ≡ 4
    → IsBytes src
    → IsBytes dst
    → proto < 256
    → IsBytes segment
    → length segment < 2 ^ 16
    → transport_checksum_ipv4 src dst proto segment ≡ 0
    → Verifies (pseudo_header4 src dst proto (length segment) ++ segment)
unfolding pseudo_sum4 words
transport4-Verifies src dst proto segment ls ld bs bd bp b l e =
    joined 6 (pseudo_sum4 src dst proto n) ph segment twelve
      (ap (λ (x : Bytes). norm (checksum_sum x + words segment)) same
        ∙ ap (λ x. norm (x + words segment)) (checksum_sum-norm ph small)
        ∙ norm-add_left (words ph) (words segment))
      (sym (transport4-norm src dst proto segment (segment_words segment b l)) ∙ e)
  where
    n : ℕ
    n = length segment

    ph : Bytes
    ph = pseudo_header4 src dst proto n

    rest : Bytes
    rest = 0 ∷ proto ∷ (n / 256) ∷ (n % 256) ∷ []

    same : pseudo_ipv4 src dst proto (n % 2 ^ 16) ≡ ph
    same = ap₂ (λ x y. src ++ (dst ++ (0 ∷ proto ∷ x ∷ y ∷ []))) (omega arith) (omega arith)

    twelve : length ph ≡ 12
    twelve = omega (arith, length-append src (dst ++ rest), length-append dst rest)

    small : words ph < 2 ^ 32
    small = omega (
      arith,
      words-append 2 src (dst ++ rest) ls,
      words-append 2 dst rest ld,
      words-le src bs,
      words-le dst bd,
    )

norm_three : (a b c r : ℕ) → norm (norm a + norm b + norm c + r) ≡ norm (a + b + c + r)
norm_three a b c r =
    ap norm first
    ∙ norm-add_left a (norm b + norm c + r)
    ∙ ap norm second
    ∙ norm-add_left b (a + norm c + r)
    ∙ ap norm third
    ∙ norm-add_left c (a + b + r)
    ∙ ap norm fourth
  where
    first : norm a + norm b + norm c + r ≡ norm a + (norm b + norm c + r)
    first = omega arith

    second : a + (norm b + norm c + r) ≡ norm b + (a + norm c + r)
    second = omega arith

    third : b + (a + norm c + r) ≡ norm c + (a + b + r)
    third = omega arith

    fourth : c + (a + b + r) ≡ a + b + c + r
    fourth = omega arith

-- That of an IPv6 packet too.
pub transport6-Verifies :
    (src dst : Bytes) (proto : ℕ) (segment : Bytes)
    → length src ≡ 16
    → length dst ≡ 16
    → IsBytes src
    → IsBytes dst
    → proto < 256
    → IsBytes segment
    → length segment < 2 ^ 16
    → transport_checksum_ipv6 src dst proto segment ≡ 0
    → Verifies (pseudo_header6 src dst proto (length segment) ++ segment)
unfolding pseudo_sum6 words
transport6-Verifies src dst proto segment ls ld bs bd bp b l e =
    joined 20 (pseudo_sum6 src dst proto n) ph segment forty
      (ap (λ x. norm (x + words segment)) parts
        ∙ ap norm regroup
        ∙ norm_three (words src) (words dst) (words len) (proto + words segment)
        ∙ ap norm total)
      (sym (transport6-norm src dst proto segment bp (segment_words segment b l)) ∙ e)
  where
    n : ℕ
    n = length segment

    ph : Bytes
    ph = pseudo_header6 src dst proto n

    rest : Bytes
    rest = 0 ∷ 0 ∷ (n / 256) ∷ (n % 256) ∷ 0 ∷ 0 ∷ 0 ∷ proto ∷ []

    forty : length ph ≡ 40
    forty = omega (arith, length-append src (dst ++ rest), length-append dst rest)

    sum : words ph ≡ words src + words dst + n + proto
    sum = omega (arith, words-append 8 src (dst ++ rest) ls, words-append 8 dst rest ld)

    len : Bytes
    len = to_be_bytes (n % 2 ^ 32)

    sums : (d : Bytes) → words d < 2 ^ 32 → checksum_sum d ≡ norm (words d)
    sums d h = checksum_sum-norm d h

    parts :
        pseudo_sum6 src dst proto n ≡ norm (words src) + norm (words dst) + norm (words len) + proto
    parts = omega (
      arith,
      sums src (omega (arith, words-le src bs)),
      sums dst (omega (arith, words-le dst bd)),
      sums len (omega arith),
      norm-lt (words src),
      norm-lt (words dst),
      norm-lt (words len),
    )

    regroup :
        norm (words src) + norm (words dst) + norm (words len) + proto + words segment
        ≡ norm (words src) + norm (words dst) + norm (words len) + (proto + words segment)
    regroup = omega arith

    total : words src + words dst + words len + (proto + words segment) ≡ words ph + words segment
    total = omega (arith, sum)
