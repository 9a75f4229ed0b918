-- ===== src/Jvm/FileTests.antt =====
-- A class file whose main prints the constant 7, read and run, and the theorems at this file.
use cs_24_coursework.Prelude.{ℕ, ◌≡◌, refl, none, some, List, [], ◌∷◌, ◌++◌, arith}
use cs_24_coursework.Jvm.ClassFile.{Constant, utf8, integer, Method, get_constant, find_method}
use cs_24_coursework.Jvm.Bytes.{index16}
use cs_24_coursework.Jvm.Execute.{done, execute}
use cs_24_coursework.Jvm.Reader.{
  code_name, read_u1, read_u2, read_u4, read_bytes, c_string, read_utf8, read_pair, read_info,
  read_constant, read_constants, get_constant_pool, get_class_header, get_class_info, read_code,
  read_if_code, read_attributes, read_method_attributes, is_supported, read_method, read_methods,
  get_methods, get_class,
}
use cs_24_coursework.Jvm.Reader.RoundTrip.{
  bytes2, IsPool, encode_constants, get_constant_pool-encode,
}
use cs_24_coursework.Jvm.Reader.Methods.{MethodInfo, IsMethod, encode_methods, get_methods-encode}
use cs_24_coursework.Jvm.Reader.Class.{ClassInfo, encode_class, IsClass, parsed, get_class-encode}
use cs_24_coursework.Jvm.Main.{main_method, main_descriptor, start, main}

-- getstatic, ldc 4, invokevirtual, return
abbrev print_seven : Method
print_seven = record {
  name = main_method;
  descriptor = main_descriptor;
  max_stack = 1;
  max_locals = 1;
  code = 0xb2 ∷ 0 ∷ 0 ∷ 0x12 ∷ 4 ∷ 0xb6 ∷ 0 ∷ 0 ∷ 0xb1 ∷ [];
}

-- The four 0 are the lengths of the exception table and of the attributes.
abbrev print_seven_info : MethodInfo
print_seven_info = record {
  access_flags = 9;
  name_index = 1;
  descriptor_index = 2;
  code_index = 3;
  method = print_seven;
  tables = 0 ∷ 0 ∷ 0 ∷ 0 ∷ [];
}

abbrev constants : List Constant
constants = utf8 main_method ∷ utf8 main_descriptor ∷ utf8 code_name ∷ integer 7 ∷ []

abbrev seven : ClassInfo
seven = record {
  magic = 0xcafebabe;
  major_version = 56;
  minor_version = 0;
  access_flags = 0x21;
  this_class = 0;
  super_class = 0;
  constants = constants;
  methods = print_seven_info ∷ [];
}

abbrev junk : ℕ → ℕ
junk i = 99

constants-IsPool : IsPool constants
constants-IsPool =
    ((refl, omega arith), ((refl, omega arith), ((refl, omega arith), (omega arith, tt))))

print_seven-IsMethod : IsMethod constants print_seven_info
unfolding get_constant is_supported
print_seven-IsMethod = record {
  flags = omega arith;
  name_fits = omega arith;
  descriptor_fits = omega arith;
  code_fits = omega arith;
  stack_fits = omega arith;
  locals_fit = omega arith;
  length_fits = omega arith;
  attribute_fits = omega arith;
  name = refl;
  descriptor = refl;
  code = refl;
  supported = refl;
}

seven-IsClass : IsClass seven
seven-IsClass = record {
  magic_fits = omega arith;
  major_fits = omega arith;
  minor_fits = omega arith;
  flags_fit = omega arith;
  this_fits = omega arith;
  super_fits = omega arith;
  pool = constants-IsPool;
  pool_fits = omega arith;
  methods = (print_seven-IsMethod, tt);
  methods_fit = omega arith;
}

finds_main : find_method main_method main_descriptor (parsed seven).methods ≡ some print_seven
unfolding find_method
finds_main = refl

runs_main :
    execute junk (parsed seven) 4 print_seven (start junk (parsed seven) print_seven) []
    ≡ done (none, 7 ∷ [])
unfolding execute get_constant
runs_main = refl

prints_seven : main junk 4 (encode_class seven []) ≡ done (7 ∷ [])
unfolding main get_class get_class_header get_constant_pool get_class_info get_methods read_methods
    read_method read_method_attributes read_attributes read_if_code read_code is_supported
    read_constants read_constant read_info read_pair read_utf8 c_string read_bytes read_u4 read_u2
    read_u1 index16 get_constant find_method execute
prints_seven = refl

get_constant_pool-encode_example :
    get_constant_pool (bytes2 5 ++ (encode_constants constants ++ 1 ∷ []))
    ≡ some (constants, 1 ∷ [])
get_constant_pool-encode_example =
    get_constant_pool-encode constants (1 ∷ []) constants-IsPool (omega arith)

get_methods-encode_example :
    get_methods constants (bytes2 1 ++ (encode_methods (print_seven_info ∷ []) ++ 1 ∷ []))
    ≡ some (print_seven ∷ [], 1 ∷ [])
get_methods-encode_example =
    get_methods-encode constants (print_seven_info ∷ []) (1 ∷ []) (print_seven-IsMethod, tt)
      (omega arith)

get_class-encode_example : get_class (encode_class seven (0 ∷ 0 ∷ [])) ≡ some (parsed seven)
get_class-encode_example = get_class-encode seven (0 ∷ 0 ∷ []) seven-IsClass

main_prints : main junk 4 (encode_class seven []) ≡ done (7 ∷ [])
unfolding main
main_prints = rw (get_class-encode seven [] seven-IsClass) (rw finds_main (rw runs_main refl))
