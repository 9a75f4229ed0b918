-- ===== src/Proxy/Request/Headers.antt =====
-- project07-kweng/src/client_thread.c: filter_rest_headers against the list of the header lines.
use cs_24_coursework.Prelude.{
  ℕ, zero, suc, ◌<◌, ◌≡◌, refl, Bool, false, ◌||◌, Option, none, some, List, length, arith, inl,
  inr, Bool-cases,
}
use cs_24_coursework.Prelude.Answer.{Answer, answer, fault, no_fuel}
use cs_24_coursework.Proxy.Request.{
  c_string, read_full_line, same_text, write_string, filter_line, filter_loop, filter_rest_headers,
  Sends, after_write, after_filter, after_read,
}
use cs_24_coursework.Proxy.Request.Lines.{crlf, Shorter, read_full_line-Shorter}
use mathlib.Core.Path.{subst}

-- A result that does not come from the fuel.
abbrev pub Ends : Answer (Option (List ℕ × List ℕ)) → Type 0
Ends (answer o) = Unit
Ends fault = ⊥
Ends no_fuel = ⊥

module _ (written : List ℕ → List ℕ → Option ℕ)
    (loop : Bool → Bool → List ℕ → List ℕ → Answer (Sends written)) (bound : ℕ)
    (loop_ends : (h c : Bool) (sent rest : List ℕ)
      → length rest < bound
      → Ends (loop h c sent rest)) where
  after_write-Ends :
      (rest : List ℕ) (h c : Bool) (o : Option (List ℕ))
      → length rest < bound
      → Ends (after_write written loop h c rest o)
  after_write-Ends rest h c none l = tt
  after_write-Ends rest h c (some sent) l = loop_ends h c sent rest l

  after_filter-Ends :
      (rest : List ℕ) (h c : Bool) (sent : List ℕ) (f : Option (List ℕ) × Bool × Bool)
      → length rest < bound
      → Ends (after_filter written loop h c sent rest f)
  after_filter-Ends rest h c sent (none, i, j) l = loop_ends (h || i) (c || j) sent rest l
  after_filter-Ends rest h c sent (some str, i, j) l =
      after_write-Ends rest (h || i) (c || j) (write_string written sent str) l

  after_read-Ends :
      (host : List ℕ) (h c : Bool) (sent : List ℕ) (o : Option (List ℕ × List ℕ))
      → ((line rest : List ℕ) → o ≡ some (line, rest) → length rest < bound)
      → Ends (after_read written loop host h c sent o)
  after_read-Ends host h c sent none l = tt
  after_read-Ends host h c sent (some (line, rest)) l =
      elim (Bool-cases (same_text (c_string line) crlf)) [
        | inl e ↦ rw e tt
        | inr e ↦
            let short = l line rest refl in
            rw e (after_filter-Ends rest h c sent (filter_line (c_string line)) short)
      ]

module _ (written : List ℕ → List ℕ → Option ℕ) where
  shorter :
      (stream line rest : List ℕ) (o : Option (List ℕ × List ℕ))
      → Shorter stream o
      → o ≡ some (line, rest)
      → length rest < length stream
  shorter stream line rest o h e = subst (Shorter stream) e h

  filter_loop-Ends :
      (fuel : ℕ) (host : List ℕ) (h c : Bool) (sent stream : List ℕ)
      → length stream < fuel
      → Ends (filter_loop written fuel host h c sent stream)
  unfolding filter_loop
  filter_loop-Ends zero host h c sent stream lt = absurd (omega (arith, lt))
  filter_loop-Ends (suc fuel) host h c sent stream lt =
      after_read-Ends written (filter_loop written fuel host) fuel (filter_loop-Ends fuel host) host
        h c sent (read_full_line stream)
        (λ line rest e.
          let s =
            shorter stream line rest (read_full_line stream) (read_full_line-Shorter stream) e in
          omega (arith, s, lt))

  -- filter_rest_headers returns on every stream, whichever writes fail: a round of its loop reads a
  -- line, or the stream ends and it returns false.
  pub filter_rest_headers-Ends :
      (host sent stream : List ℕ) → Ends (filter_rest_headers written host sent stream)
  unfolding filter_rest_headers
  filter_rest_headers-Ends host sent stream =
      filter_loop-Ends (suc (length stream)) host false false sent stream (omega arith)
