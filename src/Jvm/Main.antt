-- ===== src/Jvm/Main.antt =====
-- main of project01-kweng/jvm.c, from the bytes of the file to the numbers that are printed.
use cs_24_coursework.Prelude.{ℕ, none, some, List, [], ◌∷◌}
use cs_24_coursework.Jvm.ClassFile.{Text, Method, ClassFile, find_method}
use cs_24_coursework.Jvm.Frame.{Frame}
use cs_24_coursework.Jvm.Execute.{
  Result, done, fault, Outcome, and_then, checked, malloc_locals, execute,
}
use cs_24_coursework.Jvm.Reader.{Stream, get_class}

abbrev pub main_method : Text
main_method = b'm' ∷ b'a' ∷ b'i' ∷ b'n' ∷ []

-- "([Ljava/lang/String;)V"
abbrev pub main_descriptor : Text
main_descriptor =
    b'(' ∷ b'[' ∷ b'L' ∷ b'j' ∷ b'a' ∷ b'v' ∷ b'a' ∷ b'/' ∷ b'l' ∷ b'a' ∷ b'n' ∷ b'g' ∷ b'/' ∷ b'S'
    ∷ b't' ∷ b'r' ∷ b'i' ∷ b'n' ∷ b'g' ∷ b';' ∷ b')' ∷ b'V' ∷ []

module _ (uninitialised : ℕ → ℕ) where
  abbrev pub start : ClassFile → Method → Frame
  start class m = record {
    pc = 0;
    stack = [];
    locals = malloc_locals uninitialised class m.max_locals 0;
  }

  -- main() has to return void.
  abbrev pub returned : Outcome → Result (List ℕ)
  returned (none, out) = done out
  returned (some v, out) = fault

  unfoldable pub main : ℕ → Stream → Result (List ℕ)
  main fuel file = and_then (checked (get_class file)) λ class.
      and_then (checked (find_method main_method main_descriptor class.methods))
        λ m. and_then (execute uninitialised class fuel m (start class m) []) returned
