-- ===== src/Limit/Bucket.antt =====
-- IoBucket of src/limit.rs. An Instant counts nanoseconds; the readings of the clock are given, and
-- a sleep is recorded.
use rust_pcaprune.Prelude.{
  ℕ, ◌-◌, ◌^◌, ◌≤◌, ◌<◌, ◌≡◌, ◌≢◌, refl, sym, ◌∙◌, subst, Bool, true, false, List, [], ◌∷◌,
  if◌then◌else◌, Bool-cases, ◌↔◌, ◌⊎◌, inl, inr, arith,
}
use rust_pcaprune.Limit.{io_batch_bytes}
use rust_pcaprune.Limit.Float.{Float, as_f64, ◌≼◌, ◌≺◌, IsIeee}

pub record IoBucket {ℓ} (F : Type ℓ) : Type ℓ where
  pub rate : F
  pub burst : F
  pub tokens : F
  pub last_refill : ℕ

-- What a call of `acquire` does: sleep, and be granted, or wait for a next reading of the clock.
pub data Acquiring {ℓ} (F : Type ℓ) : Type ℓ where
  granted : IoBucket F → Acquiring F
  waiting : IoBucket F → Acquiring F
  slept : F → Acquiring F → Acquiring F

module _ {ℓ} {F : Type ℓ} ⦃f : Float F⦄ where
  unfoldable pub bucket_new : F → ℕ → IoBucket F
  bucket_new max_mbps now =
      let rate = f.mul max_mbps (as_f64 1000000) in
      let burst = f.mul rate (as_f64 2) in
      record { rate = rate; burst = burst; tokens = burst; last_refill = now }

  unfoldable pub refill : IoBucket F → ℕ → IoBucket F
  refill bucket now =
      let dt = f.as_secs (now - bucket.last_refill) in
      if f.lt (as_f64 0) dt
      then record bucket {
        tokens = f.minimum (f.add bucket.tokens (f.mul bucket.rate dt)) bucket.burst;
        last_refill = now;
      }
      else bucket

  -- The body of the loop behind the refill.
  unfoldable pub grant : IoBucket F → F → IoBucket F
  grant bucket need = record bucket { tokens = f.sub bucket.tokens need }

  unfoldable pub wait_secs : IoBucket F → F → F
  wait_secs bucket need = f.minimum (f.div (f.sub need bucket.tokens) bucket.rate) (as_f64 1)

  unfoldable pub acquire_loop : F → List ℕ → IoBucket F → Acquiring F
  acquire_loop need [] bucket = waiting bucket
  acquire_loop need (now ∷ clock) bucket =
      let filled = refill bucket now in
      let rest = acquire_loop need clock filled in
      if f.le need filled.tokens
      then granted (grant filled need)
      else slept (wait_secs filled need) rest

  unfoldable pub acquire : ℕ → List ℕ → IoBucket F → Acquiring F
  acquire bytes clock bucket =
      if f.le (as_f64 bytes) (as_f64 0)
      then granted bucket
      else acquire_loop (as_f64 bytes) clock bucket

-- The bucket holds no more than its burst.
abbrev pub Bounded : {F : Type 0} ⦃f : Float F⦄ → IoBucket F → Type 0
Bounded b = (b.tokens ≼ b.burst) × (b.burst ≼ b.burst)

-- The two buckets have the same rate and burst.
abbrev pub SameLimits : {F : Type 0} → IoBucket F → IoBucket F → Type 0
SameLimits b c = (c.rate ≡ b.rate) × (c.burst ≡ b.burst)

-- A bucket at any point of a call, and every sleep of it.
abbrev pub Always : {F : Type 0} → (IoBucket F → Type 0) → (F → Type 0) → Acquiring F → Type 0
Always P S (granted b) = P b
Always P S (waiting b) = P b
Always P S (slept s a) = S s × Always P S a

-- The call is never granted.
abbrev pub Waits : {F : Type 0} → Acquiring F → Type 0
Waits (granted b) = ⊥
Waits (waiting b) = Unit
Waits (slept s a) = Waits a

module _ {F : Type 0} ⦃f : Float F⦄ (ieee : IsIeee F) where
  Bounded-refill :
      (b : IoBucket F) (now : ℕ) → Bounded b → Bounded (refill b now) × SameLimits b (refill b now)
  unfolding refill
  Bounded-refill b now (t, u) =
      let dt = f.as_secs (now - b.last_refill) in
      elim (Bool-cases (f.lt (as_f64 0) dt)) [
        | inl l ↦
            rw l ((ieee.min_le_right (f.add b.tokens (f.mul b.rate dt)) b.burst u, u), (refl, refl))
        | inr l ↦ rw l ((t, u), (refl, refl))
      ]

  one : f.le (as_f64 1) (as_f64 1) ≡ true
  one = ieee.le_refl_left (as_f64 1) (as_f64 100) ieee.one_le_hundred

  sleeps_short : (b : IoBucket F) (need : F) → wait_secs b need ≼ as_f64 1
  unfolding wait_secs
  sleeps_short b need = ieee.min_le_right (f.div (f.sub need b.tokens) b.rate) (as_f64 1) one

  acquire_loop-Bounded :
      (n : ℕ) (clock : List ℕ) (b c : IoBucket F)
      → n < 2 ^ 64
      → Bounded c
      → SameLimits b c
      → Always
          (λ x. Bounded x × SameLimits b x)
          (λ s. s ≼ as_f64 1)
          (acquire_loop (as_f64 n) clock c)
  unfolding acquire_loop grant
  acquire_loop-Bounded n [] b c l h s = (h, s)
  acquire_loop-Bounded n (now ∷ clock) b c l h (r, u) =
      let x = refill c now in
      let (k, (r', u')) = Bounded-refill c now h in
      elim (Bool-cases (f.le (as_f64 n) x.tokens)) [
        | inl e ↦ rw e ((ieee.sub_le x.tokens x.burst n l k.0, k.1), (r' ∙ r, u' ∙ u))
        | inr e ↦
            rw e (sleeps_short x (as_f64 n), acquire_loop-Bounded n clock b x l k (r' ∙ r, u' ∙ u))
      ]

  -- Whatever the clock reads, a call of `acquire` keeps the bucket within its burst, on each of its
  -- branches and at any point of its loop, changes neither rate nor burst, and sleeps for no more
  -- than a second at a time.
  pub acquire-Bounded :
      (n : ℕ) (clock : List ℕ) (b : IoBucket F)
      → n < 2 ^ 64
      → Bounded b
      → Always (λ x. Bounded x × SameLimits b x) (λ s. s ≼ as_f64 1) (acquire n clock b)
  unfolding acquire
  acquire-Bounded n clock b l h = elim (Bool-cases (f.le (as_f64 n) (as_f64 0))) [
    | inl e ↦ rw e (h, (refl, refl))
    | inr e ↦ rw e (acquire_loop-Bounded n clock b b l h (refl, refl))
  ]

  not_enough : (b : IoBucket F) (need : F) → Bounded b → b.burst ≺ need → f.le need b.tokens ≡ false
  not_enough b need (t, u) l = elim (Bool-cases (f.le need b.tokens)) [
    | inr e ↦ e
    | inl e ↦
        let yes = ieee.le_trans need b.tokens b.burst e t in
        let not_so = ieee.lt_not_le b.burst need l in absurd (true_not_false (sym yes ∙ not_so))
  ]
    where
      true_not_false : true ≢ false
      true_not_false = λ e. cc

  acquire_loop-Waits :
      (need : F) (clock : List ℕ) (b c : IoBucket F)
      → Bounded c
      → SameLimits b c
      → b.burst ≺ need
      → Waits (acquire_loop need clock c)
  unfolding acquire_loop
  acquire_loop-Waits need [] b c h s l = tt
  acquire_loop-Waits need (now ∷ clock) b c h (r, u) l =
      let x = refill c now in
      let (k, (r', u')) = Bounded-refill c now h in
      let small = subst (λ y. y ≺ need) (sym (u' ∙ u)) l in
      rw (not_enough x need k small) (acquire_loop-Waits need clock b x k (r' ∙ r, u' ∙ u) l)

  filled_enough :
      (b : IoBucket F) (need : F) (now : ℕ)
      → need ≼ b.burst
      → as_f64 0 ≺ f.as_secs (now - b.last_refill)
      → need ≼ f.add b.tokens (f.mul b.rate (f.as_secs (now - b.last_refill)))
      → need ≼ (refill b now).tokens
  unfolding refill
  filled_enough b need now small later full = rw later (
      ieee.min_greatest (f.add b.tokens (f.mul b.rate (f.as_secs (now - b.last_refill)))) b.burst
        need full small)

  never_granted :
      (n : ℕ) (clock : List ℕ) (b : IoBucket F)
      → Bounded b
      → as_f64 0 ≼ b.burst
      → b.burst ≺ as_f64 n
      → Waits (acquire n clock b)
  unfolding acquire
  never_granted n clock b h p l = elim (Bool-cases (f.le (as_f64 n) (as_f64 0))) [
    | inl e ↦ absurd (
        not_both (ieee.le_trans (as_f64 n) (as_f64 0) b.burst e p)
          (ieee.lt_not_le b.burst (as_f64 n) l))
    | inr e ↦ rw e (acquire_loop-Waits (as_f64 n) clock b b h (refl, refl) l)
  ]
    where
      not_both : {x : Bool} → x ≡ true → x ≡ false → ⊥
      not_both a c = cc

  granted_at_once :
      (n now : ℕ) (clock : List ℕ) (b : IoBucket F)
      → as_f64 0 ≺ f.as_secs (now - b.last_refill)
      → as_f64 n ≼ f.add b.tokens (f.mul b.rate (f.as_secs (now - b.last_refill)))
      → as_f64 n ≼ b.burst
      → ¬ Waits (acquire n (now ∷ clock) b)
  unfolding acquire acquire_loop
  granted_at_once n now clock b later full small = elim (Bool-cases (f.le (as_f64 n) (as_f64 0))) [
    | inl e ↦ rw e (λ w. w)
    | inr e ↦ rw (e, filled_enough b (as_f64 n) now small later full) (λ w. w)
  ]

  -- Where there is a reading of the clock by which the rate has brought in what is missing, a call
  -- of `acquire` waits for ever, whatever the clock reads, if and only if the amount is above the
  -- burst. Otherwise it is granted at that reading.
  pub acquire_grantable :
      (n now : ℕ) (b : IoBucket F)
      → Bounded b
      → as_f64 0 ≼ b.burst
      → n < 2 ^ 64
      → as_f64 0 ≺ f.as_secs (now - b.last_refill)
      → as_f64 n ≼ f.add b.tokens (f.mul b.rate (f.as_secs (now - b.last_refill)))
      → (((clock : List ℕ) → Waits (acquire n clock b)) ↔ (b.burst ≺ as_f64 n))
        × ((b.burst ≺ as_f64 n) ⊎ ((clock : List ℕ) → ¬ Waits (acquire n (now ∷ clock) b)))
  acquire_grantable n now b h p k later full = elim (Bool-cases (f.lt b.burst (as_f64 n))) [
    | inl l ↦ ((λ _. l, λ _ clock. never_granted n clock b h p l), inl l)
    | inr l ↦
        let small = ieee.not_lt_le (as_f64 n) b.burst (ieee.as_f64_le n n (omega arith) k) h.1 l in
        let go : (clock : List ℕ) → ¬ Waits (acquire n (now ∷ clock) b) =
          λ clock. granted_at_once n now clock b later full small in
        ((λ w. absurd (go [] (w (now ∷ []))), λ r clock. never_granted n clock b h p r), inr go)
  ]

  -- A limit whose bucket holds less than a batch blocks every call for a batch or more for ever.
  pub slow_limit_blocks :
      (max_mbps : F) (start n : ℕ) (clock : List ℕ)
      → as_f64 0 ≼ (bucket_new max_mbps start).burst
      → (bucket_new max_mbps start).burst ≺ as_f64 io_batch_bytes
      → io_batch_bytes ≤ n
      → n < 2 ^ 64
      → Waits (acquire n clock (bucket_new max_mbps start))
  unfolding bucket_new
  slow_limit_blocks max_mbps start n clock p l m k =
      let b = bucket_new max_mbps start in
      let self =
        ieee.le_refl_left b.burst (as_f64 io_batch_bytes)
          (ieee.lt_le b.burst (as_f64 io_batch_bytes) l) in
      never_granted n clock b (self, self) p
        (ieee.lt_le_trans b.burst (as_f64 io_batch_bytes) (as_f64 n) l
          (ieee.as_f64_le io_batch_bytes n m k))
