-- ===== src/Word/Laws.antt =====
-- The word operations agree with those of the integers.
use cs_24_coursework.Prelude.{ℕ, ◌+◌, ◌<◌, ◌≡◌, ◌%◌, ap, arith}
use cs_24_coursework.Word.{signed, add_w, mul_w}

pub signed-injective : (h a b : ℕ) → a < h + h → b < h + h → signed h a ≡ signed h b → a ≡ b
signed-injective h a b p q e = ground arith

pub add_w-lt : (h a b : ℕ) → 0 < h → add_w h a b < h + h
unfolding add_w
add_w-lt h a b p = omega arith

pub add_w_comm : (h a b : ℕ) → add_w h a b ≡ add_w h b a
unfolding add_w
add_w_comm h a b = ap (λ s. s % (h + h)) (omega arith)

pub mul_w_comm : (h a b : ℕ) → mul_w h a b ≡ mul_w h b a
unfolding mul_w
mul_w_comm h a b = ap (λ s. s % (h + h)) (omega arith)
