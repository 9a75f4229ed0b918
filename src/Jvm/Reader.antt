-- ===== src/Jvm/Reader.antt =====
-- project01-kweng/read_class.c: the readers of a class file. A stream is the bytes from the file's
-- position on; `none` is a failed assert or exit(1). The operands of | are read from left to right.
pub mod RoundTrip
pub mod Methods
pub mod Class
use Prim.Native.Nat.{bit_and}
use cs_24_coursework.Prelude.{
  ℕ, zero, suc, ◌+◌, ◌-◌, ◌*◌, ◌%◌, ◌^◌, Bool, true, false, not, ◌||◌, ◌&&◌, Option, none, some,
  List, [], ◌∷◌, leb, ◌==◌, if◌then◌else◌, length, take, drop,
}
use cs_24_coursework.Jvm.ClassFile.{
  Text, Constant, utf8, integer, class_ref, field_ref, method_ref, name_and_type, Method, ClassFile,
  str_eq, ◌>>=◌, get_constant, as_utf8,
}
use cs_24_coursework.Jvm.Bytes.{index16}

abbrev pub Stream : Type 0
Stream = List ℕ

-- A reader gives back a value and the stream behind it.
abbrev pub Reader : Type 0 → Type 0
Reader A = Stream → Option (A × Stream)

abbrev pub is_static : ℕ
is_static = 0x0008

unfoldable pub read_u1 : Reader ℕ
read_u1 [] = none
read_u1 (b ∷ s) = some (b, s)

unfoldable pub read_u2 : Reader ℕ
read_u2 s = do (hi, s₁) ← read_u1 s; (lo, s₂) ← read_u1 s₁; some (index16 hi lo, s₂)

-- The bits of (u4) hi << 16 and lo are disjoint, so that | is +.
unfoldable pub read_u4 : Reader ℕ
read_u4 s = do (hi, s₁) ← read_u2 s; (lo, s₂) ← read_u2 s₁; some (hi * 2 ^ 16 + lo, s₂)

-- fread of n bytes and the assert behind it.
unfoldable pub read_bytes : ℕ → Reader (List ℕ)
read_bytes n s = if leb n (length s) then some (take n s, drop n s) else none

-- The C string that starts at the first of the bytes.
unfoldable pub c_string : List ℕ → Text
c_string [] = []
c_string (b ∷ bs) = if b == 0 then [] else b ∷ c_string bs

pub record ClassHeader : Type 0 where
  pub magic : ℕ
  pub minor_version : ℕ
  pub major_version : ℕ

unfoldable pub get_class_header : Reader ClassHeader
get_class_header s = do
  (m, s₁) ← read_u4 s
  (major, s₂) ← read_u2 s₁
  (minor, s₃) ← read_u2 s₂
  some (record { magic = m; minor_version = minor; major_version = major }, s₃)

-- The cases of the switch on the tag.
unfoldable pub read_utf8 : Reader Constant
read_utf8 s = do
  (n, s₁) ← read_u2 s
  (value, s₂) ← read_bytes n s₁
  some (utf8 (c_string value), s₂)

abbrev read_integer : Reader Constant
read_integer s = do (v, s₁) ← read_u4 s; some (integer v, s₁)

abbrev read_class_ref : Reader Constant
read_class_ref s = do (i, s₁) ← read_u2 s; some (class_ref i, s₁)

unfoldable pub read_pair : (ℕ → ℕ → Constant) → Reader Constant
read_pair constructor s = do (a, s₁) ← read_u2 s; (b, s₂) ← read_u2 s₁; some (constructor a b, s₂)

unfoldable pub read_info : ℕ → Reader Constant
read_info tag s =
    if tag == 1
    then read_utf8 s
    else if tag == 3
    then read_integer s
    else if tag == 7
    then read_class_ref s
    else if tag == 10
    then read_pair method_ref s
    else if tag == 9
    then read_pair field_ref s
    else if tag == 12
    then read_pair name_and_type s
    else none

unfoldable pub read_constant : Reader Constant
read_constant s = do (tag, s₁) ← read_u1 s; read_info tag s₁

unfoldable pub read_constants : ℕ → Reader (List Constant)
read_constants zero s = some ([], s)
read_constants (suc n) s = do
  (constant, s₁) ← read_constant s
  (constants, s₂) ← read_constants n s₁
  some (constant ∷ constants, s₂)

-- The count includes the unused constant 0, and is a u2.
unfoldable pub get_constant_pool : Reader (List Constant)
get_constant_pool s = do (count, s₁) ← read_u2 s; read_constants ((count + 2 ^ 16 - 1) % 2 ^ 16) s₁

-- The asserts on the counts; the fields are not used.
unfoldable pub get_class_info : Stream → Option Stream
get_class_info s = do
  (access_flags, s₁) ← read_u2 s
  (this_class, s₂) ← read_u2 s₁
  (super_class, s₃) ← read_u2 s₂
  (interfaces_count, s₄) ← read_u2 s₃
  (fields_count, s₅) ← read_u2 s₄
  if (interfaces_count == 0) && (fields_count == 0) then some s₅ else none

pub record Code : Type 0 where
  pub max_stack : ℕ
  pub max_locals : ℕ
  pub code : List ℕ

unfoldable pub read_code : Reader Code
read_code s = do
  (stack, s₁) ← read_u2 s
  (locals, s₂) ← read_u2 s₁
  (code_length, s₃) ← read_u4 s₂
  (bytes, s₄) ← read_bytes code_length s₃
  some (record { max_stack = stack; max_locals = locals; code = bytes }, s₄)

abbrev pub code_name : Text
code_name = b'C' ∷ b'o' ∷ b'd' ∷ b'e' ∷ []

abbrev pub init_name : Text
init_name = b'<' ∷ b'i' ∷ b'n' ∷ b'i' ∷ b't' ∷ b'>' ∷ []

-- The code that has been found; a second one is a failed assert.
unfoldable pub read_if_code : Text → Stream → Option Code → Option (Option Code)
read_if_code name s found =
    if str_eq name code_name
    then (elim found [ some c ↦ none | none ↦ do (c, s₁) ← read_code s; some (some c) ])
    else some found

abbrev pub get_utf8 : List Constant → ℕ → Option Text
get_utf8 pool index = do constant ← get_constant pool index; as_utf8 constant

-- After an attribute the position is attribute_length bytes behind its start, whatever was read.
unfoldable pub read_attributes : List Constant → ℕ → Option Code → Reader (Option Code)
read_attributes pool zero found s = some (found, s)
read_attributes pool (suc n) found s = do
  (attribute_name_index, s₁) ← read_u2 s
  (attribute_length, s₂) ← read_u4 s₁
  name ← get_utf8 pool attribute_name_index
  now ← read_if_code name s₂ found
  read_attributes pool n now (drop attribute_length s₂)

unfoldable pub read_method_attributes : List Constant → ℕ → Reader Code
read_method_attributes pool attributes_count s = do
  (found, s₁) ← read_attributes pool attributes_count none s
  code ← found
  some (code, s₁)

unfoldable pub is_supported : Text → ℕ → Bool
is_supported name access_flags = str_eq name init_name || not (bit_and access_flags is_static == 0)

unfoldable pub read_method : List Constant → Reader Method
read_method pool s = do
  (access_flags, s₁) ← read_u2 s
  (name_index, s₂) ← read_u2 s₁
  (descriptor_index, s₃) ← read_u2 s₂
  (attributes_count, s₄) ← read_u2 s₃
  name ← get_utf8 pool name_index
  descriptor ← get_utf8 pool descriptor_index
  supported ← (if is_supported name access_flags then some (tt {0}) else none)
  (c, s₅) ← read_method_attributes pool attributes_count s₄
  some (
    record {
      name = name;
      descriptor = descriptor;
      max_stack = c.max_stack;
      max_locals = c.max_locals;
      code = c.code;
    },
    s₅,
  )

unfoldable pub read_methods : List Constant → ℕ → Reader (List Method)
read_methods pool zero s = some ([], s)
read_methods pool (suc n) s = do
  (method, s₁) ← read_method pool s
  (methods, s₂) ← read_methods pool n s₁
  some (method ∷ methods, s₂)

unfoldable pub get_methods : List Constant → Reader (List Method)
get_methods pool s = do (method_count, s₁) ← read_u2 s; read_methods pool method_count s₁

unfoldable pub get_class : Stream → Option ClassFile
get_class s = do
  (header, s₁) ← get_class_header s
  (pool, s₂) ← get_constant_pool s₁
  s₃ ← get_class_info s₂
  (methods, s₄) ← get_methods pool s₃
  some (record { constant_pool = pool; methods = methods })
