-- ===== src/Jvm/ClassFile.antt =====
-- project01-kweng/class_file.h and the functions of read_class.c that look things up in a parsed
-- class. `none` is a failed assert. A string is its bytes, without the final 0.
use cs_24_coursework.Prelude.{
  ℕ, ◌+◌, ◌-◌, ◌%◌, ◌^◌, Bool, true, false, ◌&&◌, Option, none, some, List, [], ◌∷◌, ltb, leb, ◌==◌,
  if◌then◌else◌, length, get_elem?,
}

abbrev pub Text : Type 0
Text = List ℕ

pub data Constant : Type 0 where
  utf8 : Text → Constant
  integer : ℕ → Constant
  class_ref : ℕ → Constant
  field_ref method_ref : (class_index name_and_type_index : ℕ) → Constant
  name_and_type : (name_index descriptor_index : ℕ) → Constant

pub record Method : Type 0 where
  pub name : Text
  pub descriptor : Text
  pub max_stack : ℕ
  pub max_locals : ℕ
  pub code : List ℕ

pub record ClassFile : Type 0 where
  pub constant_pool : List Constant
  pub methods : List Method

-- `strcmp(a, b) == 0`
abbrev pub str_eq : Text → Text → Bool
str_eq [] [] = true
str_eq [] (y ∷ ys) = false
str_eq (x ∷ xs) [] = false
str_eq (x ∷ xs) (y ∷ ys) = (x == y) && str_eq xs ys

infixl 5 ◌>>=◌
abbrev pub ◌>>=◌ {ℓ κ} : {A : Type ℓ} {B : Type κ} → Option A → (A → Option B) → Option B
none >>= f = none
some a >>= f = f a

-- Constants are numbered from 1.
unfoldable pub get_constant : List Constant → ℕ → Option Constant
get_constant pool index =
    if ltb 0 index && leb index (length pool) then get_elem? pool (index - 1) else none

abbrev as_name_and_type : Constant → Option (ℕ × ℕ)
as_name_and_type (name_and_type n d) = some (n, d)
as_name_and_type _ = none

abbrev as_method_ref : Constant → Option ℕ
as_method_ref (method_ref c n) = some n
as_method_ref _ = none

abbrev pub as_utf8 : Constant → Option Text
as_utf8 (utf8 t) = some t
as_utf8 _ = none

unfoldable pub get_method_name_and_type : List Constant → ℕ → Option (ℕ × ℕ)
unfolding get_constant
get_method_name_and_type pool index = do
  method_constant ← get_constant pool index
  name_and_type_index ← as_method_ref method_constant
  name_and_type_constant ← get_constant pool name_and_type_index
  as_name_and_type name_and_type_constant

-- `strlen(method->descriptor) - 3` as a uint16_t.
unfoldable pub get_number_of_parameters : Method → ℕ
get_number_of_parameters m = (length m.descriptor + 2 ^ 16 - 3) % 2 ^ 16

unfoldable pub find_method : Text → Text → List Method → Option Method
find_method name descriptor [] = none
find_method name descriptor (m ∷ ms) =
    if str_eq name m.name && str_eq descriptor m.descriptor
    then some m
    else find_method name descriptor ms

-- The index of a Methodref; the result of find_method may be NULL, the inner `none`.
unfoldable pub find_method_from_index : ℕ → ClassFile → Option (Option Method)
unfolding get_method_name_and_type get_constant find_method
find_method_from_index index c = do
  (n, d) ← get_method_name_and_type c.constant_pool index
  name_constant ← get_constant c.constant_pool n
  name ← as_utf8 name_constant
  descriptor_constant ← get_constant c.constant_pool d
  descriptor ← as_utf8 descriptor_constant
  some (find_method name descriptor c.methods)
