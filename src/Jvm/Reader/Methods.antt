-- ===== src/Jvm/Reader/Methods.antt =====
-- The methods of a class file, written out as bytes, and what get_methods of
-- project01-kweng/read_class.c makes of them.
use cs_24_coursework.Prelude.{
  ℕ, ◌^◌, ◌<◌, ◌≡◌, refl, ap, ◌∙◌, arith, true, some, List, [], ◌∷◌, ◌++◌, append_assoc, map,
  length,
}
use cs_24_coursework.Jvm.ClassFile.{Constant, Method}
use cs_24_coursework.Jvm.Reader.{
  Stream, Code, get_utf8, read_code, read_if_code, read_attributes, read_method_attributes,
  code_name, is_supported, read_method, read_methods, get_methods,
}
use cs_24_coursework.Jvm.Reader.RoundTrip.{
  bytes2, bytes4, read_u2-bytes2, read_u4-bytes4, drop_length-append, read_bytes-append,
}

-- A method_info of the file with its Code attribute: the indices of the strings, the method, and
-- what stands behind the code in the attribute.
pub record MethodInfo : Type 0 where
  pub access_flags : ℕ
  pub name_index : ℕ
  pub descriptor_index : ℕ
  pub code_index : ℕ
  pub method : Method
  pub tables : List ℕ

abbrev pub encode_code : Method → List ℕ
encode_code m = bytes2 m.max_stack ++ (bytes2 m.max_locals ++ (bytes4 (length m.code) ++ m.code))

abbrev pub encode_method : MethodInfo → List ℕ
encode_method i =
    let attribute = encode_code i.method ++ i.tables in
    bytes2 i.access_flags
    ++ (bytes2 i.name_index
        ++ (bytes2 i.descriptor_index
            ++ (bytes2 1 ++ (bytes2 i.code_index ++ (bytes4 (length attribute) ++ attribute)))))

abbrev pub encode_methods : List MethodInfo → List ℕ
encode_methods [] = []
encode_methods (i ∷ is) = encode_method i ++ encode_methods is

-- The fields fit, the indices are those of the strings, and the method is static or <init>.
pub record IsMethod (pool : List Constant) (i : MethodInfo) : Type 0 where
  pub flags : i.access_flags < 2 ^ 16
  pub name_fits : i.name_index < 2 ^ 16
  pub descriptor_fits : i.descriptor_index < 2 ^ 16
  pub code_fits : i.code_index < 2 ^ 16
  pub stack_fits : i.method.max_stack < 2 ^ 16
  pub locals_fit : i.method.max_locals < 2 ^ 16
  pub length_fits : length i.method.code < 2 ^ 32
  pub attribute_fits : length (encode_code i.method ++ i.tables) < 2 ^ 32
  pub name : get_utf8 pool i.name_index ≡ some i.method.name
  pub descriptor : get_utf8 pool i.descriptor_index ≡ some i.method.descriptor
  pub code : get_utf8 pool i.code_index ≡ some code_name
  pub supported : is_supported i.method.name i.access_flags ≡ true

abbrev pub AreMethods : List Constant → List MethodInfo → Type 0
AreMethods pool [] = Unit {0}
AreMethods pool (i ∷ is) = IsMethod pool i × AreMethods pool is

abbrev code_of : Method → Code
code_of m = record { max_stack = m.max_stack; max_locals = m.max_locals; code = m.code }

read_code-encode :
    (m : Method) (s : Stream)
    → m.max_stack < 2 ^ 16
    → m.max_locals < 2 ^ 16
    → length m.code < 2 ^ 32
    → read_code (encode_code m ++ s) ≡ some (code_of m, s)
unfolding read_code
read_code-encode m s a b c = rw (read_u2-bytes2 m.max_stack _ a) (
    rw (read_u2-bytes2 m.max_locals _ b)
      (rw (read_u4-bytes4 (length m.code) (m.code ++ s) c) (rw (read_bytes-append m.code s) refl)))

read_method_attributes-encode :
    (pool : List Constant) (i : MethodInfo) (s : Stream)
    → IsMethod pool i
    → read_method_attributes pool 1 (
        bytes2 i.code_index
        ++ (bytes4 (length (encode_code i.method ++ i.tables))
            ++ ((encode_code i.method ++ i.tables) ++ s)))
      ≡ some (code_of i.method, s)
unfolding read_method_attributes read_attributes read_if_code
read_method_attributes-encode pool i s h =
    let attribute = encode_code i.method ++ i.tables in
    let code =
      ap read_code (append_assoc (encode_code i.method) i.tables s)
      ∙ read_code-encode i.method (i.tables ++ s) h.stack_fits h.locals_fit h.length_fits in
    rw (read_u2-bytes2 i.code_index _ h.code_fits) (
      rw (read_u4-bytes4 (length attribute) (attribute ++ s) h.attribute_fits)
        (rw h.code (rw code (rw (drop_length-append attribute s) refl))))

read_method-encode :
    (pool : List Constant) (i : MethodInfo) (s : Stream)
    → IsMethod pool i
    → read_method pool (encode_method i ++ s) ≡ some (i.method, s)
unfolding read_method
read_method-encode pool i s h = rw (read_u2-bytes2 i.access_flags _ h.flags) (
    rw (read_u2-bytes2 i.name_index _ h.name_fits) (
      rw (read_u2-bytes2 i.descriptor_index _ h.descriptor_fits) (
        rw (read_u2-bytes2 1 _ (omega arith)) (
          rw h.name (
            rw h.descriptor
              (rw h.supported (rw (read_method_attributes-encode pool i s h) refl)))))))

read_methods-encode :
    (pool : List Constant) (is : List MethodInfo) (s : Stream)
    → AreMethods pool is
    → read_methods pool (length is) (encode_methods is ++ s) ≡ some (map (λ i. i.method) is, s)
unfolding read_methods
read_methods-encode pool [] s h = refl
read_methods-encode pool (i ∷ is) s h = rw (append_assoc (encode_method i) (encode_methods is) s) (
    rw (read_method-encode pool i (encode_methods is ++ s) h.0)
      (rw (read_methods-encode pool is s h.1) refl))

-- Methods that are static or <init>, each with one Code attribute and whatever tables stand in it
-- behind the code, written as the class file format says with sizes that its fields can hold: they
-- are read back in order with their names, descriptors and code, and what stands behind them is left
-- unread.
pub get_methods-encode :
    (pool : List Constant) (is : List MethodInfo) (s : Stream)
    → AreMethods pool is
    → length is < 2 ^ 16
    → get_methods pool (bytes2 (length is) ++ (encode_methods is ++ s))
      ≡ some (map (λ i. i.method) is, s)
unfolding get_methods
get_methods-encode pool is s h k =
    rw (read_u2-bytes2 (length is) (encode_methods is ++ s) k) (read_methods-encode pool is s h)
