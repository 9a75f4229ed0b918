-- ===== src/Jvm/Reader/Class.antt =====
-- A whole class file, written out as bytes, and what get_class of project01-kweng/read_class.c makes
-- of it.
use cs_24_coursework.Prelude.{ℕ, ◌+◌, ◌^◌, ◌<◌, ◌≡◌, refl, arith, some, List, ◌++◌, map, length}
use cs_24_coursework.Jvm.ClassFile.{Constant, ClassFile}
use cs_24_coursework.Jvm.Reader.{Stream, get_class_header, get_class_info, get_class}
use cs_24_coursework.Jvm.Reader.RoundTrip.{
  bytes2, bytes4, IsPool, encode_constants, read_u2-bytes2, read_u4-bytes4,
  get_constant_pool-encode,
}
use cs_24_coursework.Jvm.Reader.Methods.{MethodInfo, encode_methods, AreMethods, get_methods-encode}

-- The versions and the indices of the class and its super class, which the program does not use,
-- the constants and the methods.
pub record ClassInfo : Type 0 where
  pub magic : ℕ
  pub major_version : ℕ
  pub minor_version : ℕ
  pub access_flags : ℕ
  pub this_class : ℕ
  pub super_class : ℕ
  pub constants : List Constant
  pub methods : List MethodInfo

-- No interfaces and no fields; `rest` is the attributes of the class.
abbrev pub encode_class : ClassInfo → Stream → Stream
encode_class c rest =
    let methods = bytes2 (length c.methods) ++ (encode_methods c.methods ++ rest) in
    let info =
      bytes2 c.access_flags
      ++ (bytes2 c.this_class ++ (bytes2 c.super_class ++ (bytes2 0 ++ (bytes2 0 ++ methods)))) in
    let pool = bytes2 (length c.constants + 1) ++ (encode_constants c.constants ++ info) in
    bytes4 c.magic ++ (bytes2 c.minor_version ++ (bytes2 c.major_version ++ pool))

pub record IsClass (c : ClassInfo) : Type 0 where
  pub magic_fits : c.magic < 2 ^ 32
  pub major_fits : c.major_version < 2 ^ 16
  pub minor_fits : c.minor_version < 2 ^ 16
  pub flags_fit : c.access_flags < 2 ^ 16
  pub this_fits : c.this_class < 2 ^ 16
  pub super_fits : c.super_class < 2 ^ 16
  pub pool : IsPool c.constants
  pub pool_fits : length c.constants + 1 < 2 ^ 16
  pub methods : AreMethods c.constants c.methods
  pub methods_fit : length c.methods < 2 ^ 16

abbrev pub parsed : ClassInfo → ClassFile
parsed c = record { constant_pool = c.constants; methods = map (λ i. i.method) c.methods }

get_class_header-encode :
    (a b d : ℕ) (s : Stream)
    → a < 2 ^ 32
    → b < 2 ^ 16
    → d < 2 ^ 16
    → get_class_header (bytes4 a ++ (bytes2 b ++ (bytes2 d ++ s)))
      ≡ some (record { magic = a; major_version = b; minor_version = d }, s)
unfolding get_class_header
get_class_header-encode a b d s ha hb hd =
    rw (read_u4-bytes4 a (bytes2 b ++ (bytes2 d ++ s)) ha)
      (rw (read_u2-bytes2 b (bytes2 d ++ s) hb) (rw (read_u2-bytes2 d s hd) refl))

get_class_info-encode :
    (a b d : ℕ) (s : Stream)
    → a < 2 ^ 16
    → b < 2 ^ 16
    → d < 2 ^ 16
    → get_class_info (bytes2 a ++ (bytes2 b ++ (bytes2 d ++ (bytes2 0 ++ (bytes2 0 ++ s)))))
      ≡ some s
unfolding get_class_info
get_class_info-encode a b d s ha hb hd = rw (read_u2-bytes2 a _ ha) (
    rw (read_u2-bytes2 b _ hb) (
      rw (read_u2-bytes2 d _ hd) (
        rw (read_u2-bytes2 0 (bytes2 0 ++ s) (omega arith))
          (rw (read_u2-bytes2 0 s (omega arith)) refl))))

-- A class file that is written as the class file format says, without interfaces and fields, whose
-- methods are static or <init> and have one Code attribute each, and whose sizes fit the fields of
-- the format: get_class gives back its constants and its methods, in order.
pub get_class-encode :
    (c : ClassInfo) (rest : Stream) → IsClass c → get_class (encode_class c rest) ≡ some (parsed c)
unfolding get_class
get_class-encode c rest h =
    rw
      (get_class_header-encode c.magic c.minor_version c.major_version _ h.magic_fits h.minor_fits
        h.major_fits)
      (rw (get_constant_pool-encode c.constants _ h.pool h.pool_fits) (
        rw
          (get_class_info-encode c.access_flags c.this_class c.super_class _ h.flags_fit h.this_fits
            h.super_fits)
          (rw (get_methods-encode c.constants c.methods rest h.methods h.methods_fit) refl)))
