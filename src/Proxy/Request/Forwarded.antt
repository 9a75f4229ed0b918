-- ===== src/Proxy/Request/Forwarded.antt =====
-- project07-kweng/src/client_thread.c: what filter_rest_headers sends, of a list of header lines.
use cs_24_coursework.Prelude.{
  ℕ, zero, suc, ◌+◌, ◌≤◌, ◌<◌, ◌≡◌, refl, sym, ap, ◌∙◌, Bool, true, false, ◌||◌, Option, none, some,
  List, [], ◌∷◌, ◌++◌, ◌==◌, if◌then◌else◌, length, length-append, take, arith, inl, inr,
  Bool-cases, append_assoc, append-nil,
}
use cs_24_coursework.Prelude.Answer.{Answer, answer}
use cs_24_coursework.Proxy.Request.{
  codes, read_full_line, starts_with, same_text, write_string, finish_headers, filter_line,
  filter_loop, filter_rest_headers, after_read, after_filter, Sends,
}
use cs_24_coursework.Proxy.Request.Lines.{
  crlf, IsText, read_full_line-line, c_string-line, starts_with-line,
}
use mathlib.Core.Bool.{true≢false, false≢true, or-false, or_assoc}

-- A header line without its end; it is not empty.
abbrev pub IsHeader : List ℕ → Type 0
IsHeader [] = ⊥
IsHeader (c ∷ cs) = IsText (c ∷ cs)

abbrev pub AreHeaders : List (List ℕ) → Type 0
AreHeaders [] = Unit
AreHeaders (t ∷ ts) = IsHeader t × AreHeaders ts

IsHeader-IsText : (t : List ℕ) → IsHeader t → IsText t
IsHeader-IsText [] h = elim h [ ]
IsHeader-IsText (c ∷ cs) h = h

-- The headers on a stream, with the empty line, in front of the rest.
abbrev pub lines : List (List ℕ) → List ℕ → List ℕ
lines [] rest = crlf ++ rest
lines (t ∷ ts) rest = t ++ crlf ++ lines ts rest

abbrev pub is_host : List ℕ → Bool
is_host t = starts_with t (codes "Host:")

abbrev pub is_connection : List ℕ → Bool
is_connection t = starts_with t (codes "Connection:")

-- The line that stands for a header.
abbrev pub replacement : List ℕ → Option (List ℕ)
replacement t =
    if starts_with t (codes "Keep-Alive:")
    then none
    else if is_connection t
    then some (codes "Connection: close" ++ crlf)
    else if starts_with t (codes "Proxy-Connection:")
    then some (codes "Proxy-Connection: close" ++ crlf)
    else some (t ++ crlf)

abbrev pub sent_line : Option (List ℕ) → List ℕ
sent_line none = []
sent_line (some str) = str

abbrev pub forwarded : List (List ℕ) → List ℕ
forwarded [] = []
forwarded (t ∷ ts) = sent_line (replacement t) ++ forwarded ts

abbrev pub any_line : (List ℕ → Bool) → List (List ℕ) → Bool
any_line p [] = false
any_line p (t ∷ ts) = p t || any_line p ts

-- The headers that are missing, and the empty line.
abbrev pub closing : Bool → Bool → List ℕ → List ℕ
closing has_host has_connection host =
    (if has_host then [] else codes "Host: " ++ host ++ crlf)
    ++ (if has_connection then [] else codes "Connection: close" ++ crlf)
    ++ crlf

starts_with-other :
    (p q : ℕ) (ps qs t : List ℕ)
    → (p == q) ≡ false
    → starts_with t (p ∷ ps) ≡ true
    → starts_with t (q ∷ qs) ≡ false
unfolding starts_with
starts_with-other p q ps qs [] d h = refl
starts_with-other p q ps qs (c ∷ t) d h = elim (Bool-cases (c == p)) [
  | inl e ↦ let other : (c == q) ≡ false = ground arith in rw other refl
  | inr e ↦ absurd (false≢true (sym (rw e refl) ∙ h))
]

-- Which strings a line starts with, of those that exclude each other.
tests_lem :
    {A : Type 0} (keep host connection proxy : Bool) (x y z : A)
    → (keep ≡ true → host ≡ false)
    → (keep ≡ true → connection ≡ false)
    → (host ≡ true → connection ≡ false)
    → (host ≡ true → proxy ≡ false)
    → ◌≡◌ {A = Option A × Bool × Bool}
        (if keep
          then (none, false, false)
          else if host
          then (some x, true, false)
          else if connection
          then (some y, false, true)
          else if proxy
          then (some z, false, false)
          else (some x, false, false))
        (
          (if keep then none else if connection then some y else if proxy then some z else some x),
          host,
          connection,
        )
tests_lem true true c p x y z kh kc hc hp = absurd (true≢false (kh refl))
tests_lem true false true p x y z kh kc hc hp = absurd (true≢false (kc refl))
tests_lem true false false p x y z kh kc hc hp = refl
tests_lem false true true p x y z kh kc hc hp = absurd (true≢false (hc refl))
tests_lem false true false true x y z kh kc hc hp = absurd (true≢false (hp refl))
tests_lem false true false false x y z kh kc hc hp = refl
tests_lem false false true p x y z kh kc hc hp = refl
tests_lem false false false true x y z kh kc hc hp = refl
tests_lem false false false false x y z kh kc hc hp = refl

filter_line-replacement :
    (t : List ℕ) → filter_line (t ++ crlf) ≡ (replacement t, is_host t, is_connection t)
unfolding filter_line
filter_line-replacement t = rw (starts_with-line t (codes "Keep-Alive:") refl) (
    rw (starts_with-line t (codes "Host:") refl) (
      rw (starts_with-line t (codes "Connection:") refl) (
        rw (starts_with-line t (codes "Proxy-Connection:") refl) (
          tests_lem (starts_with t (codes "Keep-Alive:")) (is_host t) (is_connection t)
            (starts_with t (codes "Proxy-Connection:")) (t ++ crlf)
            (codes "Connection: close" ++ crlf) (codes "Proxy-Connection: close" ++ crlf)
            (starts_with-other b'K' b'H' (codes "eep-Alive:") (codes "ost:") t refl)
            (starts_with-other b'K' b'C' (codes "eep-Alive:") (codes "onnection:") t refl)
            (starts_with-other b'H' b'C' (codes "ost:") (codes "onnection:") t refl)
            (starts_with-other b'H' b'P' (codes "ost:") (codes "roxy-Connection:") t refl)))))

-- A header is not the empty line.
same_text-header : (t : List ℕ) → IsHeader t → same_text (t ++ crlf) crlf ≡ false
same_text-header [] h = elim h [ ]
same_text-header (c ∷ cs) (r, z, h) = rw r refl

take_all : (xs : List ℕ) → take (length xs) xs ≡ xs
take_all [] = refl
take_all (x ∷ xs) = ap (◌∷◌ x) (take_all xs)

module _ (written : List ℕ → List ℕ → Option ℕ)
    (all : (sent str : List ℕ) → written sent str ≡ some (length str)) where
  write_string-all : (sent str : List ℕ) → write_string written sent str ≡ some (sent ++ str)
  unfolding write_string
  write_string-all sent str = rw (all sent str) (ap (λ t. some (sent ++ t)) (take_all str))

  finish_headers-closing :
      (h c : Bool) (host sent : List ℕ)
      → finish_headers written h c host sent ≡ some (sent ++ closing h c host)
  unfolding finish_headers
  finish_headers-closing true true host sent = write_string-all sent crlf
  finish_headers-closing true false host sent = simp (write_string-all, append_assoc)
  finish_headers-closing false true host sent = simp (write_string-all, append_assoc)
  finish_headers-closing false false host sent = simp (write_string-all, append_assoc)

  after_filter-all :
      (loop : Bool → Bool → List ℕ → List ℕ → Answer (Sends written)) (h c i j : Bool)
      (sent stream : List ℕ) (o : Option (List ℕ))
      → after_filter written loop h c sent stream (o, i, j)
        ≡ loop (h || i) (c || j) (sent ++ sent_line o) stream
  after_filter-all loop h c i j sent stream none =
      ap (λ s. loop (h || i) (c || j) s stream) (sym (append-nil sent))
  after_filter-all loop h c i j sent stream (some str) = rw (write_string-all sent str) refl

  -- A round at a header, and at the empty line.
  after_read-header :
      (loop : Bool → Bool → List ℕ → List ℕ → Answer (Sends written)) (host : List ℕ) (h c : Bool)
      (sent t stream : List ℕ)
      → IsHeader t
      → after_read written loop host h c sent (read_full_line (t ++ crlf ++ stream))
        ≡ loop (h || is_host t) (c || is_connection t) (sent ++ sent_line (replacement t)) stream
  after_read-header loop host h c sent t stream a =
      rw (read_full_line-line t stream (IsHeader-IsText t a)) (
        rw (c_string-line t (IsHeader-IsText t a)) (
          rw (same_text-header t a) (
            rw (filter_line-replacement t) (
              after_filter-all loop h c (is_host t) (is_connection t) sent stream
                (replacement t)))))

  after_read-empty :
      (loop : Bool → Bool → List ℕ → List ℕ → Answer (Sends written)) (host : List ℕ) (h c : Bool)
      (sent stream : List ℕ)
      → after_read written loop host h c sent (read_full_line (crlf ++ stream))
        ≡ answer (some (sent ++ closing h c host, stream))
  after_read-empty loop host h c sent stream =
      rw (read_full_line-line [] stream tt)
        (rw (c_string-line [] tt) (rw (finish_headers-closing h c host sent) refl))

  filter_loop-lines :
      (fuel : ℕ) (ts : List (List ℕ)) (host : List ℕ) (h c : Bool) (sent rest : List ℕ)
      → length ts < fuel
      → AreHeaders ts
      → filter_loop written fuel host h c sent (lines ts rest)
        ≡ answer (
            some (
              sent
                  ++ forwarded ts
                  ++ closing (h || any_line is_host ts) (c || any_line is_connection ts) host,
              rest,
            ))
  unfolding filter_loop
  filter_loop-lines zero ts host h c sent rest l a = absurd (omega (arith, l))
  filter_loop-lines (suc fuel) [] host h c sent rest l a = rw (append-nil sent) (
      rw (or-false h)
        (rw (or-false c) (after_read-empty (filter_loop written fuel host) host h c sent rest)))
  filter_loop-lines (suc fuel) (t ∷ ts) host h c sent rest l (a, as₁) =
      after_read-header (filter_loop written fuel host) host h c sent t (lines ts rest) a
      ∙ filter_loop-lines fuel ts host (h || is_host t) (c || is_connection t)
          (sent ++ sent_line (replacement t)) rest (omega (arith, l)) as₁
      ∙ simp (append_assoc, or_assoc)

  count-lines : (ts : List (List ℕ)) (rest : List ℕ) → length ts ≤ length (lines ts rest)
  count-lines [] rest = omega arith
  count-lines (t ∷ ts) rest =
      let shift : length (lines (t ∷ ts) rest) ≡ length t + length crlf + length (lines ts rest) =
        simp (length-append) in
      let two : length crlf ≡ 2 = refl in omega (arith, shift, two, count-lines ts rest)

  -- filter_rest_headers on a stream of headers, each without CR and NUL inside and not empty, with
  -- every write taking its whole string, consumes them with the empty line and sends: each header but the
  -- Keep-Alive ones, a Connection or Proxy-Connection header with its value replaced by close; then a
  -- Host header with the host if none of them was one, a Connection: close header if none was a
  -- Connection header, and the empty line.
  pub filter_rest_headers-forwarded :
      (ts : List (List ℕ)) (host sent rest : List ℕ)
      → AreHeaders ts
      → filter_rest_headers written host sent (lines ts rest)
        ≡ answer (
            some (
              sent
                  ++ forwarded ts
                  ++ closing (any_line is_host ts) (any_line is_connection ts) host,
              rest,
            ))
  unfolding filter_rest_headers
  filter_rest_headers-forwarded ts host sent rest a =
      filter_loop-lines (suc (length (lines ts rest))) ts host false false sent rest
        (omega (arith, count-lines ts rest)) a
