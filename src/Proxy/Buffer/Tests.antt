-- ===== src/Proxy/Buffer/Tests.antt =====
-- A buffer run, with a realloc that fills the new bytes with 170, and the theorem at this run.
use cs_24_coursework.Prelude.{
  ℕ, ◌≡◌, refl, ◌∙◌, some, List, [], ◌∷◌, ◌++◌, length, take, replicate, get_elem?, length-append,
  length-take, length-replicate, take-take, take_length-append, arith,
}
use cs_24_coursework.Proxy.Buffer.{
  buffer_create, buffer_append_bytes, buffer_append_char, buffer_string,
}
use cs_24_coursework.Proxy.Buffer.Append.{IsRealloc, Holds, append_each, append_each-string}

abbrev filler : ℕ
filler = 170

abbrev filling : List ℕ → ℕ → List ℕ
filling m n = take n (m ++ replicate n filler)

filling-IsRealloc : IsRealloc filling
filling-IsRealloc = record {
  size = λ m n. omega (
    arith,
    length-take n (m ++ replicate n filler),
    length-append m (replicate n filler),
    length-replicate n filler,
  );
  keeps = λ m n h.
      take-take (length m) n (m ++ replicate n filler) h
      ∙ take_length-append m (replicate n filler);
}

-- From capacity 1, two appends double it to 4 and then take exactly the 7 bytes that are needed.
grows :
    buffer_append_bytes filling
      (buffer_append_char filling
        (buffer_append_bytes filling (buffer_create filling 0) (1 ∷ []))
        2)
      (3 ∷ 4 ∷ 5 ∷ 6 ∷ 7 ∷ [])
    ≡ record { memory = 1 ∷ 2 ∷ 3 ∷ 4 ∷ 5 ∷ 6 ∷ 7 ∷ []; length = 7; capacity = 7 }
unfolding buffer_create buffer_append_bytes buffer_append_char
grows = refl

abbrev chunks : List (List ℕ)
chunks = (71 ∷ 69 ∷ []) ∷ [] ∷ (84 ∷ []) ∷ []

append_each-string_example :
    Holds (append_each filling (buffer_create filling 0) chunks) (71 ∷ 69 ∷ 84 ∷ [])
    × Holds
        (buffer_string filling (append_each filling (buffer_create filling 0) chunks))
        (71 ∷ 69 ∷ 84 ∷ [])
    × (get_elem?
          (buffer_string filling (append_each filling (buffer_create filling 0) chunks)).memory
          3
        ≡ some 0)
append_each-string_example = append_each-string filling filling-IsRealloc 0 chunks (omega arith)
