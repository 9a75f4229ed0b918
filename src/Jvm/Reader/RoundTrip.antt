-- ===== src/Jvm/Reader/RoundTrip.antt =====
-- The class file format of the JVM specification, written out as bytes, and what the readers of
-- project01-kweng/read_class.c make of it.
use cs_24_coursework.Prelude.{
  ℕ, ◌+◌, ◌-◌, ◌/◌, ◌%◌, ◌^◌, ◌<◌, ◌≡◌, refl, ap, ◌∙◌, Bool, true, not, ◌&&◌, some, List, [], ◌∷◌,
  ◌++◌, append_assoc, arith, leb, ◌==◌, length, drop, length-append, take_length-append,
}
use cs_24_coursework.Jvm.ClassFile.{
  Text, Constant, utf8, integer, class_ref, field_ref, method_ref, name_and_type,
}
use cs_24_coursework.Jvm.Bytes.{index16, index16-bytes}
use cs_24_coursework.Jvm.Reader.{
  Stream, read_u1, read_u2, read_u4, read_bytes, c_string, read_info, read_utf8, read_pair,
  read_constant, read_constants, get_constant_pool,
}

abbrev pub bytes2 : ℕ → List ℕ
bytes2 n = n / 256 ∷ n % 256 ∷ []

abbrev pub bytes4 : ℕ → List ℕ
bytes4 n = bytes2 (n / 2 ^ 16) ++ bytes2 (n % 2 ^ 16)

-- A string has no 0 byte and fits the 16-bit length; an index or a value fits its field.
abbrev pub has_no_zero : List ℕ → Bool
has_no_zero [] = true
has_no_zero (b ∷ bs) = not (b == 0) && has_no_zero bs

abbrev pub IsConstant : Constant → Type 0
IsConstant (utf8 t) = (has_no_zero t ≡ true) × (length t < 2 ^ 16)
IsConstant (integer v) = v < 2 ^ 32
IsConstant (class_ref i) = i < 2 ^ 16
IsConstant (field_ref a b) = (a < 2 ^ 16) × (b < 2 ^ 16)
IsConstant (method_ref a b) = (a < 2 ^ 16) × (b < 2 ^ 16)
IsConstant (name_and_type a b) = (a < 2 ^ 16) × (b < 2 ^ 16)

abbrev pub IsPool : List Constant → Type 0
IsPool [] = Unit {0}
IsPool (c ∷ cs) = IsConstant c × IsPool cs

abbrev pub encode_constant : Constant → List ℕ
encode_constant (utf8 t) = 1 ∷ (bytes2 (length t) ++ t)
encode_constant (integer v) = 3 ∷ bytes4 v
encode_constant (class_ref i) = 7 ∷ bytes2 i
encode_constant (field_ref a b) = 9 ∷ (bytes2 a ++ bytes2 b)
encode_constant (method_ref a b) = 10 ∷ (bytes2 a ++ bytes2 b)
encode_constant (name_and_type a b) = 12 ∷ (bytes2 a ++ bytes2 b)

abbrev pub encode_constants : List Constant → List ℕ
encode_constants [] = []
encode_constants (c ∷ cs) = encode_constant c ++ encode_constants cs

pub read_u2-bytes2 : (n : ℕ) (s : Stream) → n < 2 ^ 16 → read_u2 (bytes2 n ++ s) ≡ some (n, s)
unfolding read_u2 read_u1
read_u2-bytes2 n s h =
    let e : index16 (n / 256) (n % 256) ≡ n =
      index16-bytes (n / 256) (n % 256) (omega arith) (omega arith) ∙ omega arith in
    ap (λ v. some (v, s)) e

pub read_u4-bytes4 : (n : ℕ) (s : Stream) → n < 2 ^ 32 → read_u4 (bytes4 n ++ s) ≡ some (n, s)
unfolding read_u4
read_u4-bytes4 n s h =
    rw (read_u2-bytes2 (n / 2 ^ 16) (bytes2 (n % 2 ^ 16) ++ s) (omega arith))
      (rw (read_u2-bytes2 (n % 2 ^ 16) s (omega arith)) (ap (λ v. some (v, s)) (omega arith)))

pub drop_length-append : (bs s : List ℕ) → drop (length bs) (bs ++ s) ≡ s
drop_length-append [] s = refl
drop_length-append (b ∷ bs) s = drop_length-append bs s

pub read_bytes-append : (bs s : List ℕ) → read_bytes (length bs) (bs ++ s) ≡ some (bs, s)
unfolding read_bytes
read_bytes-append bs s =
    let e : leb (length bs) (length (bs ++ s)) ≡ true = ground (arith, length-append bs s) in
    rw e (rw (take_length-append bs s) (rw (drop_length-append bs s) refl))

c_string_fixed : (t : Text) → has_no_zero t ≡ true → c_string t ≡ t
unfolding c_string
c_string_fixed [] h = refl
c_string_fixed (b ∷ bs) h = ground (arith, c_string_fixed bs)

read_utf8-encode :
    (t : Text) (s : Stream)
    → has_no_zero t ≡ true
    → length t < 2 ^ 16
    → read_utf8 (bytes2 (length t) ++ (t ++ s)) ≡ some (utf8 t, s)
unfolding read_utf8
read_utf8-encode t s h k =
    rw (read_u2-bytes2 (length t) (t ++ s) k)
      (rw (read_bytes-append t s) (rw (c_string_fixed t h) refl))

read_pair-encode :
    (constructor : ℕ → ℕ → Constant) (a b : ℕ) (s : Stream)
    → a < 2 ^ 16
    → b < 2 ^ 16
    → read_pair constructor (bytes2 a ++ (bytes2 b ++ s)) ≡ some (constructor a b, s)
unfolding read_pair
read_pair-encode constructor a b s h k =
    rw (read_u2-bytes2 a (bytes2 b ++ s) h) (rw (read_u2-bytes2 b s k) refl)

read_constant-encode :
    (c : Constant) (s : Stream)
    → IsConstant c
    → read_constant (encode_constant c ++ s) ≡ some (c, s)
unfolding read_constant read_info read_u1
read_constant-encode (utf8 t) s h = read_utf8-encode t s h.0 h.1
read_constant-encode (integer v) s h = rw (read_u4-bytes4 v s h) refl
read_constant-encode (class_ref i) s h = rw (read_u2-bytes2 i s h) refl
read_constant-encode (field_ref a b) s h = read_pair-encode field_ref a b s h.0 h.1
read_constant-encode (method_ref a b) s h = read_pair-encode method_ref a b s h.0 h.1
read_constant-encode (name_and_type a b) s h = read_pair-encode name_and_type a b s h.0 h.1

read_constants-encode :
    (cs : List Constant) (s : Stream)
    → IsPool cs
    → read_constants (length cs) (encode_constants cs ++ s) ≡ some (cs, s)
unfolding read_constants
read_constants-encode [] s h = refl
read_constants-encode (c ∷ cs) s h = rw (append_assoc (encode_constant c) (encode_constants cs) s) (
    rw (read_constant-encode c (encode_constants cs ++ s) h.0)
      (rw (read_constants-encode cs s h.1) refl))

-- A constant pool of fewer than 2^16 - 1 constants, each of a size that its fields can hold and with
-- strings without a 0 byte, that is written as the class file format says, is read back as it was,
-- and what stands behind it is left unread.
pub get_constant_pool-encode :
    (cs : List Constant) (s : Stream)
    → IsPool cs
    → length cs + 1 < 2 ^ 16
    → get_constant_pool (bytes2 (length cs + 1) ++ (encode_constants cs ++ s)) ≡ some (cs, s)
unfolding get_constant_pool
get_constant_pool-encode cs s h k =
    let count : (length cs + 1 + 2 ^ 16 - 1) % 2 ^ 16 ≡ length cs = omega arith in
    rw (read_u2-bytes2 (length cs + 1) (encode_constants cs ++ s) k)
      (ap (λ n. read_constants n (encode_constants cs ++ s)) count ∙ read_constants-encode cs s h)
