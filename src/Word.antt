-- ===== src/Word.antt =====
-- Two's complement words of w bits, kept as bit patterns: h stands for 2 ^ (w - 1), so that a word
-- is a number below h + h. The C operators of int32_t and int64_t that the programs use.
pub mod Laws
use cs_24_coursework.Prelude.{
  ℕ, ◌+◌, ◌-◌, ◌*◌, ◌/◌, ◌%◌, ◌^◌, ◌<◌, Bool, Option, none, some, ◌&&◌, not, true, false, ltb, leb,
  ◌==◌, if◌then◌else◌,
}
use cs_24_coursework.Prelude.Int.{ℤ, pos, negsuc, ltb_ℤ}

abbrev pub half32 : ℕ
half32 = 2 ^ 31

abbrev pub half64 : ℕ
half64 = 2 ^ 63

-- The integer that a pattern stands for.
abbrev pub signed : ℕ → ℕ → ℤ
signed h a = if ltb a h then pos a else negsuc (h + h - a - 1)

unfoldable pub add_w : ℕ → ℕ → ℕ → ℕ
add_w h a b = (a + b) % (h + h)

unfoldable pub sub_w : ℕ → ℕ → ℕ → ℕ
sub_w h a b = (a + (h + h) - b) % (h + h)

unfoldable pub mul_w : ℕ → ℕ → ℕ → ℕ
mul_w h a b = a * b % (h + h)

-- a < b and a = b, read as signed numbers.
unfoldable pub slt : ℕ → ℕ → ℕ → Bool
slt h a b = ltb_ℤ (signed h a) (signed h b)

abbrev pub is_neg : ℕ → ℕ → Bool
is_neg h a = leb h a

abbrev pub differ : Bool → Bool → Bool
differ true b = not b
differ false b = b

abbrev pub magnitude : ℕ → ℕ → ℕ
magnitude h a = if is_neg h a then h + h - a else a

-- Division that truncates towards zero; `none` where the quotient does not exist or does not fit.
unfoldable pub sdiv : ℕ → ℕ → ℕ → Option ℕ
sdiv h a b =
    if b == 0
    then none
    else if (a == h) && (b == h + h - 1)
    then none
    else (let q = magnitude h a / magnitude h b in
        some (if differ (is_neg h a) (is_neg h b) then (h + h - q) % (h + h) else q))

-- The remainder takes the sign of the dividend.
unfoldable pub srem : ℕ → ℕ → ℕ → Option ℕ
srem h a b =
    if b == 0
    then none
    else if (a == h) && (b == h + h - 1)
    then none
    else (let r = magnitude h a % magnitude h b in
        some (if is_neg h a then (h + h - r) % (h + h) else r))
