-- ===== src/Coord/Utf8.antt =====
-- `OsStr::to_str`: the name as text, where its bytes are UTF-8.
use rust_pcaprune.Prelude.{
  ◌≡◌, ℕ, zero, suc, Bool, true, false, false, ◌&&◌, [], ◌∷◌, Option, none, some, leb,
  if◌then◌else◌, Bytes,
}

-- What is to come behind a byte: so many continuation bytes, the next of them in a range.
pub data Expected : Type 0 where
  expected : (more low high : ℕ) → Expected

abbrev nothing : Expected
nothing = expected 0 0x80 0xbf

abbrev between : ℕ → ℕ → ℕ → Bool
between a b x = leb a x && leb x b

-- What a first byte announces.
abbrev lead : ℕ → Option Expected
lead b =
    if between 0 0x7f b
    then some nothing
    else if between 0xc2 0xdf b
    then some (expected 1 0x80 0xbf)
    else if between 0xe0 0xe0 b
    then some (expected 2 0xa0 0xbf)
    else if between 0xed 0xed b
    then some (expected 2 0x80 0x9f)
    else if between 0xe1 0xef b
    then some (expected 2 0x80 0xbf)
    else if between 0xf0 0xf0 b
    then some (expected 3 0x90 0xbf)
    else if between 0xf1 0xf3 b
    then some (expected 3 0x80 0xbf)
    else if between 0xf4 0xf4 b
    then some (expected 3 0x80 0x8f)
    else none

abbrev advance : Expected → ℕ → Option Expected
advance (expected zero l h) b = lead b
advance (expected (suc n) l h) b = if between l h b then some (expected n 0x80 0xbf) else none

abbrev is_utf8_from : Option Expected → Bytes → Bool
is_utf8_from none bytes = false
is_utf8_from (some (expected more low high)) [] = leb more 0
is_utf8_from (some e) (b ∷ bytes) = is_utf8_from (advance e b) bytes

unfoldable pub to_str : Bytes → Option Bytes
to_str name = if is_utf8_from (some nothing) name then some name else none

pub to_str-same : (name s : Bytes) → to_str name ≡ some s → s ≡ name
unfolding to_str
to_str-same name s e = go (is_utf8_from (some nothing) name) e
  where
    go : (b : Bool) → (if b then some name else none) ≡ some s → s ≡ name
    go true q = cc
    go false q = cc
