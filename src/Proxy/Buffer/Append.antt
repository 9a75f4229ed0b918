-- ===== src/Proxy/Buffer/Append.antt =====
-- What the buffer holds after a sequence of appends, whatever the sizes and the initial capacity.
use cs_24_coursework.Prelude.{
  ℕ, ◌+◌, ◌*◌, ◌%◌, ◌^◌, ◌≤◌, ◌<◌, ◌≡◌, refl, sym, ap, ◌∙◌, some, List, [], ◌∷◌, ◌++◌, append_assoc,
  append-nil, length, take, drop, get_elem?, take-take, take_length-append, get_elem?-append,
  get_elem?-take, length-append, length-take, length-drop, ltb, leb, ◌==◌, if◌then◌else◌,
  Bool-cases, inl, inr, arith,
}
use cs_24_coursework.Proxy.Buffer.{
  Buffer, write_at, buffer_resize, buffer_create, buffer_append_bytes, buffer_string,
}

-- realloc returns n bytes, which start with the old ones when these fit.
pub record IsRealloc (grown : List ℕ → ℕ → List ℕ) : Type 0 where
  pub size : (m : List ℕ) (n : ℕ) → length (grown m n) ≡ n
  pub keeps : (m : List ℕ) (n : ℕ) → length m ≤ n → take (length m) (grown m n) ≡ m

-- The buffer stands for the bytes: they are the first `length` ones of its memory.
pub record Holds (buf : Buffer) (bytes : List ℕ) : Type 0 where
  pub counted : buf.length ≡ length bytes
  pub kept : take buf.length buf.memory ≡ bytes
  pub extent : length buf.memory ≡ buf.capacity
  pub room : buf.length ≤ buf.capacity

abbrev pub holds_of :
    {buf : Buffer} {bytes : List ℕ}
    → buf.length ≡ length bytes
    → take buf.length buf.memory ≡ bytes
    → length buf.memory ≡ buf.capacity
    → buf.length ≤ buf.capacity
    → Holds buf bytes
holds_of a b c d = record { counted = a; kept = b; extent = c; room = d }

length-write_at :
    (m : List ℕ) (i : ℕ) (new : List ℕ)
    → i + length new ≤ length m
    → length (write_at m i new) ≡ length m
length-write_at m i new h = omega (
  arith,
  length-append (take i m) (new ++ drop (i + length new) m),
  length-append new (drop (i + length new) m),
  length-take i m,
  length-drop (i + length new) m,
)

take-write_at :
    (m : List ℕ) (i : ℕ) (new : List ℕ)
    → i + length new ≤ length m
    → take (i + length new) (write_at m i new) ≡ take i m ++ new
take-write_at m i new h =
    let size : i + length new ≡ length (take i m ++ new) =
      omega (arith, length-append (take i m) new, length-take i m) in
    ap (take (i + length new)) (sym (append_assoc (take i m) new (drop (i + length new) m)))
    ∙ ap (λ n. take n ((take i m ++ new) ++ drop (i + length new) m)) size
    ∙ take_length-append (take i m ++ new) (drop (i + length new) m)

write_at-Holds :
    (b : Buffer) (bytes new : List ℕ) (n : ℕ)
    → Holds b bytes
    → n ≡ b.length + length new
    → n ≤ b.capacity
    → Holds
        (record { memory = write_at b.memory b.length new; length = n; capacity = b.capacity })
        (bytes ++ new)
write_at-Holds b bytes new n h e fits =
    let inside : b.length + length new ≤ length b.memory = omega (arith, h.extent) in
    holds_of (omega (arith, h.counted, length-append bytes new))
      (ap (λ k. take k (write_at b.memory b.length new)) e
        ∙ take-write_at b.memory b.length new inside
        ∙ ap (λ old. old ++ new) h.kept)
      (length-write_at b.memory b.length new inside ∙ h.extent) fits

abbrev pub concat : List (List ℕ) → List ℕ
concat [] = []
concat (c ∷ cs) = c ++ concat cs

module _ (grown : List ℕ → ℕ → List ℕ) where
  unfoldable pub append_each : Buffer → List (List ℕ) → Buffer
  append_each buf [] = buf
  append_each buf (c ∷ cs) = append_each (buffer_append_bytes grown buf c) cs

module _ (grown : List ℕ → ℕ → List ℕ) (realloc : IsRealloc grown) where
  -- The bytes stay, and there is room for n of them.
  buffer_resize-Holds :
      (buf : Buffer) (bytes : List ℕ) (n : ℕ)
      → Holds buf bytes
      → Holds (buffer_resize grown buf n) bytes
        × (n ≤ (buffer_resize grown buf n).capacity)
        × ((buffer_resize grown buf n).length ≡ buf.length)
  unfolding buffer_resize
  buffer_resize-Holds buf bytes n h =
      let target : ℕ = if ltb n (buf.capacity * 2 % 2 ^ 64) then buf.capacity * 2 % 2 ^ 64 else n in
      let enough : n ≤ target = ground arith in
      elim (Bool-cases (leb n buf.capacity)) [
        | inl fits ↦ rw fits (h, ground arith, refl)
        | inr more ↦
            let larger : buf.capacity ≤ target = ground arith in
            rw more (
              holds_of h.counted
                  (sym (
                      take-take buf.length (length buf.memory) (grown buf.memory target)
                        (omega (arith, h.extent, h.room)))
                    ∙ ap (take buf.length)
                        (realloc.keeps buf.memory target (omega (arith, h.extent)))
                    ∙ h.kept)
                  (realloc.size buf.memory target) (omega (arith, h.room)),
              enough,
              refl,
            )
      ]

  pub buffer_create-Holds : (n : ℕ) → Holds (buffer_create grown n) []
  unfolding buffer_create
  buffer_create-Holds n =
      let empty : Buffer = record { memory = []; length = 0; capacity = 0 } in
      let r =
        buffer_resize-Holds empty [] (if n == 0 then 1 else n)
          (holds_of refl refl refl (omega arith)) in
      holds_of refl refl (r.0.extent) (omega arith)

  pub buffer_append_bytes-Holds :
      (buf : Buffer) (bytes new : List ℕ)
      → Holds buf bytes
      → length bytes + length new < 2 ^ 64
      → Holds (buffer_append_bytes grown buf new) (bytes ++ new)
  unfolding buffer_append_bytes
  buffer_append_bytes-Holds buf bytes new h small =
      let n : ℕ = (buf.length + length new) % 2 ^ 64 in
      let exact : n ≡ length bytes + length new = omega (arith, h.counted) in
      let r = buffer_resize-Holds buf bytes n h in
      write_at-Holds (buffer_resize grown buf n) bytes new _ r.0
        (omega (arith, exact, r.2, h.counted)) (omega (arith, exact, r.1, r.2, h.counted))

  pub buffer_string-Holds :
      (buf : Buffer) (bytes : List ℕ)
      → Holds buf bytes
      → length bytes + 1 < 2 ^ 64
      → Holds (buffer_string grown buf) bytes
        × (get_elem? (buffer_string grown buf).memory (length bytes) ≡ some 0)
  unfolding buffer_string
  buffer_string-Holds buf bytes h small =
      let n : ℕ = (buf.length + 1) % 2 ^ 64 in
      let r = buffer_resize-Holds buf bytes n h in
      let b = buffer_resize grown buf n in
      let w =
        write_at-Holds b bytes (0 ∷ []) (b.length + 1) r.0 refl
          (omega (arith, r.1, r.2, r.0.counted)) in
      (
        holds_of r.0.counted
            (sym (take-take b.length (b.length + 1) _ (omega arith))
              ∙ ap (take b.length) w.kept
              ∙ ap (λ k. take k (bytes ++ 0 ∷ [])) r.0.counted
              ∙ take_length-append bytes (0 ∷ []))
            w.extent r.0.room,
        sym (get_elem?-take (length bytes) (b.length + 1) _ (omega (arith, r.0.counted)))
            ∙ ap (λ m. get_elem? m (length bytes)) w.kept
            ∙ get_elem?-append bytes (0 ∷ []),
      )

  append_each-Holds :
      (buf : Buffer) (bytes : List ℕ) (chunks : List (List ℕ))
      → Holds buf bytes
      → length (bytes ++ concat chunks) < 2 ^ 64
      → Holds (append_each grown buf chunks) (bytes ++ concat chunks)
  unfolding append_each
  append_each-Holds buf bytes [] h small = rw append-nil h
  append_each-Holds buf bytes (c ∷ cs) h small =
      let together = append_assoc bytes c (concat cs) in
      let sizes : length bytes + length c < 2 ^ 64 =
        omega (arith, length-append bytes (c ++ concat cs), length-append c (concat cs)) in
      rw (sym together) (
        append_each-Holds (buffer_append_bytes grown buf c) (bytes ++ c) cs
          (buffer_append_bytes-Holds buf bytes c h sizes) (omega (arith, ap length together)))

  -- A buffer made with any initial capacity, 0 included, to which any chunks are appended, holds the
  -- chunks in their order, and buffer_string keeps them and puts a 0 right behind: if realloc keeps
  -- the bytes of a block that it enlarges, and the bytes and the 0 are fewer than 2^64.
  pub append_each-string :
      (initial : ℕ) (chunks : List (List ℕ))
      → length (concat chunks) + 1 < 2 ^ 64
      → Holds (append_each grown (buffer_create grown initial) chunks) (concat chunks)
        × Holds
            (buffer_string grown (append_each grown (buffer_create grown initial) chunks))
            (concat chunks)
        × (get_elem?
              (buffer_string grown (append_each grown (buffer_create grown initial) chunks)).memory
              (length (concat chunks))
            ≡ some 0)
  append_each-string initial chunks small =
      let filled =
        append_each-Holds (buffer_create grown initial) [] chunks (buffer_create-Holds initial)
          (omega arith) in
      let ended = buffer_string-Holds _ (concat chunks) filled small in (filled, ended.0, ended.1)
