-- ===== src/Truncate/Segments.antt =====
-- The sums over a segment in which a field is filled, for the checksums of src/truncate.rs.
use rust_pcaprune.Prelude.{
  ℕ, suc, ◌+◌, ◌-◌, ◌^◌, ◌≤◌, ◌<◌, ◌≡◌, refl, ap, ◌∙◌, Bool, true, false, length, Bytes, sub, at,
  put16, arith, IsBytes, length-put16, at-put16_ne, at-put16_hi, at-put16_lo, IsBytes-put16,
  sub-put16_in, sub-put16_out, at-sub, length-sub, IsBytes-sub, ap₂,
}
use rust_pcaprune.Checksum.{transport_checksum_ipv4, transport_checksum_ipv6, udp_checksum_wire}
use rust_pcaprune.Checksum.Words.{double}
use rust_pcaprune.Checksum.Verify.{ZeroField, transport4_verifies, transport6_verifies}
use rust_pcaprune.Parse.Options.{four_at, pseudo_dst_at, pseudo_dst_at-Same}
use rust_pcaprune.Truncate.Updates.{sum_at}

-- The pseudo-header lies in front of the fields of the transport header.
sum_at-put16 :
    (z : Bytes) (ip hl : ℕ) (v6 : Bool) (proto : ℕ) (segment : Bytes) (f v : ℕ)
    → (v6 ≡ true → hl ≡ 40)
    → 20 ≤ hl
    → ip + hl ≤ f
    → sum_at (put16 z f v) ip hl v6 proto segment ≡ sum_at z ip hl v6 proto segment
unfolding sum_at
sum_at-put16 z ip hl true proto segment f v six h k =
    ap₂ (λ s d. transport_checksum_ipv6 s d proto segment)
      (sub-put16_out z (ip + 8) (ip + 8 + 16) f v (omega arith) (omega (arith, six refl)))
      (sub-put16_out z (ip + 24) (ip + 24 + 16) f v (omega arith) (omega (arith, six refl)))
sum_at-put16 z ip hl false proto segment f v six h k =
    ap₂ (λ s d. transport_checksum_ipv4 s d proto segment)
      (ground (
        arith,
        at-put16_ne z f v (ip + 12) (omega arith) (omega arith),
        at-put16_ne z f v (ip + 12 + 1) (omega arith) (omega arith),
        at-put16_ne z f v (ip + 12 + 2) (omega arith) (omega arith),
        at-put16_ne z f v (ip + 12 + 3) (omega arith) (omega arith),
      ))
      (pseudo_dst_at-Same z (put16 z f v) ip hl
        (λ j p q. at-put16_ne z f v j (omega arith) (omega arith))
        (λ j p q. at-put16_ne z f v j (omega arith) (omega arith)))

-- A zeroed field of the segment from `start` to the end `n`.
pub segment_field :
    (s : Bytes) (start k n : ℕ)
    → IsBytes s
    → n ≤ length s
    → n ≤ start + 2 ^ 17
    → start + double k + 1 < n
    → ZeroField (sub (put16 s (start + double k) 0) start n) k
segment_field s start k n h e l q = record {
  bytes = IsBytes-sub z start n (IsBytes-put16 s f 0 h);
  short = omega (arith, size);
  inside = omega (arith, size);
  zero_hi = at-sub z start n (double k) (omega arith) ∙ at-put16_hi s f 0 (omega arith);
  zero_lo =
      at-sub z start n (suc (double k)) (omega arith)
      ∙ ap (λ j. at z j) next
      ∙ at-put16_lo s f 0 (omega arith);
}
  where
    f : ℕ
    f = start + double k

    z : Bytes
    z = put16 s f 0

    size : length (sub z start n) ≡ n - start
    size = omega (arith, length-sub z start n, length-put16 s f 0)

    next : start + suc (double k) ≡ f + 1
    next = omega arith

-- The segment with its field filled is the slice of the buffer with the field filled.
pub segment_filled :
    (z : Bytes) (start k n v : ℕ)
    → sub (put16 z (start + double k) v) start n ≡ put16 (sub z start n) (double k) v
segment_filled z start k n v =
    sub-put16_in z start n (start + double k) v (omega arith)
    ∙ ap (λ j. put16 (sub z start n) j v) offset
  where
    offset : start + double k - start ≡ double k
    offset = omega arith

pub sum_at_verifies :
    (z : Bytes) (ip hl : ℕ) (v6 : Bool) (proto : ℕ) (segment : Bytes) (k : ℕ)
    → proto < 256
    → ZeroField segment k
    → (sum_at z ip hl v6 proto (put16 segment (double k) (sum_at z ip hl v6 proto segment)) ≡ 0)
      × (sum_at z ip hl v6 proto
            (put16 segment (double k) (udp_checksum_wire (sum_at z ip hl v6 proto segment)))
          ≡ 0)
unfolding sum_at
sum_at_verifies z ip hl true proto segment k h f =
    transport6_verifies f (sub z (ip + 8) (ip + 8 + 16)) (sub z (ip + 24) (ip + 24 + 16)) proto h
sum_at_verifies z ip hl false proto segment k h f =
    transport4_verifies f (four_at z (ip + 12)) (pseudo_dst_at z ip hl) proto

-- The sum over pseudo-header and segment of a buffer in which the field of word `k` of
-- the segment was filled with `v`.
pub refilled :
    (z : Bytes) (ip hl : ℕ) (v6 : Bool) (proto start k n v : ℕ)
    → (v6 ≡ true → hl ≡ 40)
    → 20 ≤ hl
    → ip + hl ≤ start
    → sum_at
        (put16 z (start + double k) v)
        ip
        hl
        v6
        proto
        (sub (put16 z (start + double k) v) start n)
      ≡ sum_at z ip hl v6 proto (put16 (sub z start n) (double k) v)
refilled z ip hl v6 proto start k n v six h b =
    sum_at-put16 z ip hl v6 proto (sub (put16 z (start + double k) v) start n) (start + double k) v
      six h (omega arith)
    ∙ ap (λ x. sum_at z ip hl v6 proto x) (segment_filled z start k n v)
