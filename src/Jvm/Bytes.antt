-- ===== src/Jvm/Bytes.antt =====
-- The conversions that project01-kweng/jvm.c makes with the bytes of the code. An int32_t is its
-- pattern below 2 ^ 32, a size_t is below 2 ^ 64.
use Prim.Native.Nat.{bit_or}
use cs_24_coursework.Prelude.{
  ℕ, zero, suc, ◌+◌, ◌-◌, ◌*◌, ◌^◌, ◌<◌, ◌≡◌, refl, Bool, true, false, ltb, ◌==◌, Bool-cases, ◌⊎◌,
  inl, inr, if◌then◌else◌, arith,
}

-- (int8_t) b and (int16_t) w as int32_t.
unfoldable pub int8 : ℕ → ℕ
int8 b = if ltb b (2 ^ 7) then b else b + 2 ^ 32 - 2 ^ 8

unfoldable pub int16 : ℕ → ℕ
int16 w = if ltb w (2 ^ 15) then w else w + 2 ^ 32 - 2 ^ 16

-- The uint16_t and the two readings of a 16-bit immediate.
unfoldable pub index16 : ℕ → ℕ → ℕ
index16 hi lo = bit_or (hi * 2 ^ 8) lo

unfoldable pub sipush_value : ℕ → ℕ → ℕ
unfolding int16
sipush_value hi lo = bit_or (int16 (hi * 2 ^ 8)) (int16 lo)

-- pc += (int16_t)((hi << 8) | lo) - 1, where pc is a size_t.
unfoldable pub branch_offset : ℕ → ℕ → ℕ
unfolding index16
branch_offset hi lo = let w = index16 hi lo in if ltb w (2 ^ 15) then w else w + 2 ^ 64 - 2 ^ 16

-- Two functions of a byte, or of two, that are equal at all of them, by evaluation.
agree : (ℕ → ℕ) → (ℕ → ℕ) → ℕ → Bool
agree f g zero = true
agree f g (suc k) = if f k == g k then agree f g k else false

agree_at : (f g : ℕ → ℕ) (k x : ℕ) → x < k → agree f g k ≡ true → f x ≡ g x
unfolding agree
agree_at f g zero x below e = absurd (omega arith)
agree_at f g (suc k) x below e = ground (arith, agree_at f g k x)

agree_rows : (ℕ → ℕ → ℕ) → (ℕ → ℕ → ℕ) → ℕ → ℕ → Bool
unfolding agree
agree_rows f g w zero = true
agree_rows f g w (suc k) = if agree (f k) (g k) w then agree_rows f g w k else false

lt_suc : (x k : ℕ) → x < suc k → (x ≡ k) ⊎ (x < k)
lt_suc x k h = ground arith

agree_rows_at :
    (f g : ℕ → ℕ → ℕ) (w k x y : ℕ) → x < k → y < w → agree_rows f g w k ≡ true → f x y ≡ g x y
unfolding agree_rows
agree_rows_at f g w zero x y below small e = absurd (omega arith)
agree_rows_at f g w (suc k) x y below small e = elim (Bool-cases (agree (f k) (g k) w)) [
  | inr differ ↦ cc
  | inl same ↦ elim (lt_suc x k below) [
    | inl here ↦ rw here (agree_at (f k) (g k) w y small same)
    | inr other ↦ agree_rows_at f g w k x y other small (rw same at e)
  ]
]

pub index16-bytes : (hi lo : ℕ) → hi < 256 → lo < 256 → index16 hi lo ≡ hi * 256 + lo
unfolding agree_rows index16
index16-bytes hi lo h k = agree_rows_at index16 (λ a b. a * 256 + b) 256 256 hi lo h k refl

-- The value that sipush pushes is the signed 16-bit number of its two bytes, high byte first.
pub sipush_value-int16 :
    (hi lo : ℕ) → hi < 256 → lo < 256 → sipush_value hi lo ≡ int16 (hi * 256 + lo)
unfolding agree_rows sipush_value
sipush_value-int16 hi lo h k =
    agree_rows_at sipush_value (λ a b. int16 (a * 256 + b)) 256 256 hi lo h k refl
