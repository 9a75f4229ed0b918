-- ===== src/Subpython/Values/Tests.antt =====
-- Strings compared and hashed.
use Prim.Native.Nat.{Ordering}
use cs_24_coursework.Prelude.{◌≡◌, refl, [], ◌∷◌}
use cs_24_coursework.Subpython.Values.{string_cmp, strcmp, string_hash, string_hash_loop}

abc_below_abd : string_cmp (b'a' ∷ b'b' ∷ b'c' ∷ []) (b'a' ∷ b'b' ∷ b'd' ∷ []) ≡ Ordering.lt
unfolding strcmp
abc_below_abd = refl

hash_a : string_hash (b'a' ∷ []) ≡ 34902897112120604
unfolding string_hash string_hash_loop
hash_a = refl
