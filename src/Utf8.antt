-- ===== src/Utf8.antt =====
-- `str::from_utf8` of the standard library: which bytes are UTF-8 (the Unicode standard, table 3-7).
use v9_worker.Base.{ℕ, Bool, true, false, ◌&&◌, [], ◌∷◌, Text, leb, if◌then◌else◌}

-- What must follow in the middle of a character: so many continuation bytes, the first of them in a
-- range of its own.
pub data Expect : Type 0 where
  lead : Expect
  tail1 tail2 : Expect
  second : (lo hi : ℕ) → Expect → Expect
  invalid : Expect

abbrev within : ℕ → ℕ → ℕ → Bool
within lo hi b = leb lo b && leb b hi

pub after_lead : ℕ → Expect
after_lead b =
    if within 0 0x7f b
    then lead
    else if within 0xc2 0xdf b
    then second 0x80 0xbf lead
    else if within 0xe0 0xe0 b
    then second 0xa0 0xbf tail1
    else if within 0xe1 0xec b
    then second 0x80 0xbf tail1
    else if within 0xed 0xed b
    then second 0x80 0x9f tail1
    else if within 0xee 0xef b
    then second 0x80 0xbf tail1
    else if within 0xf0 0xf0 b
    then second 0x90 0xbf tail2
    else if within 0xf1 0xf3 b
    then second 0x80 0xbf tail2
    else if within 0xf4 0xf4 b
    then second 0x80 0x8f tail2
    else invalid

-- The state after one more byte.
pub advance : Expect → ℕ → Expect
unfolding after_lead
advance lead b = after_lead b
advance tail1 b = if within 0x80 0xbf b then lead else invalid
advance tail2 b = if within 0x80 0xbf b then tail1 else invalid
advance (second lo hi next) b = if within lo hi b then next else invalid
advance invalid b = invalid

pub advance_all : Expect → Text → Expect
advance_all e [] = e
advance_all e (b ∷ bs) = advance_all (advance e b) bs

abbrev is_lead : Expect → Bool
is_lead lead = true
is_lead _ = false

unfoldable pub is_utf8 : Text → Bool
unfolding advance_all advance
is_utf8 v = is_lead (advance_all lead v)
