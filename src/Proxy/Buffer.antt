-- ===== src/Proxy/Buffer.antt =====
-- project07-kweng/src/buffer.c: the growing byte buffer. `memory` is what `data` points at, one
-- entry for each of the `capacity` bytes.
pub mod Append
mod Tests
use cs_24_coursework.Prelude.{
  ℕ, ◌+◌, ◌-◌, ◌*◌, ◌%◌, ◌^◌, List, [], ◌∷◌, ◌++◌, ltb, leb, ◌==◌, if◌then◌else◌, length, take,
  drop,
}

pub record Buffer : Type 0 where
  pub memory : List ℕ
  pub length : ℕ
  pub capacity : ℕ

-- A write of bytes at an offset, memcpy(memory + at, bytes, n).
abbrev pub write_at : List ℕ → ℕ → List ℕ → List ℕ
write_at memory at bytes = take at memory ++ (bytes ++ drop (at + length bytes) memory)

-- `grown memory n` is what realloc returns for n bytes; it keeps the old bytes.
module _ (grown : List ℕ → ℕ → List ℕ) where
  -- capacity * 2 wraps as a size_t.
  unfoldable pub buffer_resize : Buffer → ℕ → Buffer
  buffer_resize buf new_capacity =
      let grown_capacity = buf.capacity * 2 % 2 ^ 64 in
      let target = if ltb new_capacity grown_capacity then grown_capacity else new_capacity in
      if leb new_capacity buf.capacity
      then buf
      else record buf { memory = grown buf.memory target; capacity = target }

  unfoldable pub buffer_create : ℕ → Buffer
  unfolding buffer_resize
  buffer_create initial_capacity =
      let n = if initial_capacity == 0 then 1 else initial_capacity in
      record (buffer_resize (record { memory = []; length = 0; capacity = 0 }) n) { length = 0 }

  unfoldable pub buffer_append_bytes : Buffer → List ℕ → Buffer
  unfolding buffer_resize
  buffer_append_bytes buf bytes =
      let b = buffer_resize buf ((buf.length + length bytes) % 2 ^ 64) in
      record b {
        memory = write_at b.memory b.length bytes;
        length = (b.length + length bytes) % 2 ^ 64;
      }

  unfoldable pub buffer_append_char : Buffer → ℕ → Buffer
  unfolding buffer_append_bytes
  buffer_append_char buf c = buffer_append_bytes buf (c ∷ [])

  -- The string is the memory; the buffer keeps its length.
  unfoldable pub buffer_string : Buffer → Buffer
  unfolding buffer_resize
  buffer_string buf =
      let b = buffer_resize buf ((buf.length + 1) % 2 ^ 64) in
      record b { memory = write_at b.memory b.length (0 ∷ []) }
