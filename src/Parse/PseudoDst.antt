-- ===== src/Parse/PseudoDst.antt =====
-- ipv4_pseudo_dst of src/parse.rs: the destination that a source route leads to. The loop over the
-- IPv4 options runs on fuel.
use rust_pcaprune.Prelude.{
  ℕ, zero, suc, ◌+◌, ◌-◌, ◌%◌, ◌^◌, ◌||◌, ◌&&◌, not, [], ◌∷◌, Option, none, some, ltb, leb, ◌==◌,
  if◌then◌else◌, Bytes, Run, ret, out_of_fuel, ◌>>=◌, byte,
}

-- `[buf[i], buf[i + 1], buf[i + 2], buf[i + 3]]`
unfoldable pub read_ip4 : Bytes → ℕ → Run Bytes
read_ip4 buf off = do
  a ← byte buf off
  b ← byte buf (off + 1)
  c ← byte buf (off + 2)
  d ← byte buf (off + 3)
  ret (a ∷ b ∷ c ∷ d ∷ [])

-- The loop body of `ipv4_pseudo_dst` behind the read of `opt_len`; `next` goes on at an offset. The
-- last test of the source, `opt_len == 0`, is dead behind `opt_len < 2` and is kept in its place.
unfoldable pub option_step : Bytes → ℕ → ℕ → ℕ → ℕ → (ℕ → Run (Option Bytes)) → Run (Option Bytes)
option_step buf end i kind opt_len next =
    let ty = kind % 2 ^ 5 in
    if ltb opt_len 2 || ltb end (i + opt_len)
    then ret none
    else if (ty == 3 || ty == 9) && leb (i + 3 + 4) (i + opt_len)
    then (do addr ← read_ip4 buf (i + opt_len - 4); ret (some addr))
    else if opt_len == 0
    then ret none
    else next (i + opt_len)

-- The loop from offset `i`; `none` is a `break`, `some` an early `return`.
unfoldable pub options_walk : ℕ → Bytes → ℕ → ℕ → Run (Option Bytes)
options_walk zero buf end i = out_of_fuel
options_walk (suc fuel) buf end i =
    let next = λ (j : ℕ). options_walk fuel buf end j in
    if not (ltb i end) then ret none else do
      kind ← byte buf i
      if kind == 0
          then ret none
          else if leb end (i + 1)
          then ret none
          else do opt_len ← byte buf (i + 1); option_step buf end i kind opt_len next

-- Each option takes two bytes at least: the header's length is fuel enough.
unfoldable pub ipv4_pseudo_dst : Bytes → ℕ → ℕ → Run Bytes
ipv4_pseudo_dst buf ip_start ip_header_len = do
  default ← read_ip4 buf (ip_start + 16)
  if leb ip_header_len 20 then ret default else do
    found ← options_walk ip_header_len buf (ip_start + ip_header_len) (ip_start + 20)
    elim found [ some addr ↦ ret addr | none ↦ ret default ]
