-- ===== src/Proxy/Request/Lines.antt =====
-- project07-kweng/src/client_thread.c: read_full_line on a stream that starts with a line.
use cs_24_coursework.Prelude.{
  ℕ, ◌<◌, ◌≡◌, refl, sym, ap, ◌∙◌, Bool, true, false, ◌&&◌, Option, none, some, List, [], ◌∷◌, ◌++◌,
  ◌==◌, if◌then◌else◌, length, arith, inl, inr, Bool-cases,
}
use cs_24_coursework.Proxy.Request.{c_string, cons_line, read_loop, read_full_line, starts_with}
use mathlib.Core.Bool.{false≢true}

abbrev pub crlf : List ℕ
crlf = 13 ∷ 10 ∷ []

-- No character of the text ends a line or a string.
abbrev pub IsText : List ℕ → Type 0
IsText [] = Unit
IsText (c ∷ cs) = ((c == 13) ≡ false) × ((c == 0) ≡ false) × IsText cs

read_loop-line :
    (last_c : ℕ) (text stream : List ℕ)
    → (last_c == 13) ≡ false
    → IsText text
    → read_loop last_c (text ++ crlf ++ stream) ≡ some (text ++ crlf, stream)
unfolding read_loop
read_loop-line last_c [] stream h t = rw h refl
read_loop-line last_c (c ∷ text) stream h (r, z, t) =
    rw h (ap (cons_line c) (read_loop-line c text stream r t))

pub read_full_line-line :
    (text stream : List ℕ)
    → IsText text
    → read_full_line (text ++ crlf ++ stream) ≡ some (text ++ crlf, stream)
unfolding read_full_line
read_full_line-line text stream t = read_loop-line 0 text stream refl t

pub c_string-line : (text : List ℕ) → IsText text → c_string (text ++ crlf) ≡ text ++ crlf
unfolding c_string
c_string-line [] t = refl
c_string-line (c ∷ text) (r, z, t) = rw z (ap (λ s. c ∷ s) (c_string-line text t))

-- The line that is read is shorter than the stream.
abbrev pub Shorter : List ℕ → Option (List ℕ × List ℕ) → Type 0
Shorter stream none = Unit
Shorter stream (some (line, rest)) = length rest < length stream

cons_line-Shorter :
    (c : ℕ) (stream : List ℕ) (o : Option (List ℕ × List ℕ))
    → Shorter stream o
    → Shorter (c ∷ stream) (cons_line c o)
cons_line-Shorter c stream none h = tt
cons_line-Shorter c stream (some (line, rest)) h = omega (arith, h)

read_loop-Shorter : (last_c : ℕ) (stream : List ℕ) → Shorter stream (read_loop last_c stream)
unfolding read_loop
read_loop-Shorter last_c [] = tt
read_loop-Shorter last_c (c ∷ cs) = elim (Bool-cases ((last_c == 13) && (c == 10))) [
  | inl e ↦ rw e (omega arith)
  | inr e ↦ rw e (cons_line-Shorter c cs (read_loop c cs) (read_loop-Shorter c cs))
]

pub read_full_line-Shorter : (stream : List ℕ) → Shorter stream (read_full_line stream)
unfolding read_full_line
read_full_line-Shorter stream = read_loop-Shorter 0 stream

-- No character of the prefix is the one that ends a line.
abbrev pub no_return : List ℕ → Bool
no_return [] = true
no_return (p ∷ ps) = let rest = no_return ps in if 13 == p then false else rest

no_return-next :
    (p : ℕ) (ps : List ℕ) → no_return (p ∷ ps) ≡ true → ((13 == p) ≡ false) × (no_return ps ≡ true)
no_return-next p ps h = elim (Bool-cases (13 == p)) [
  | inl e ↦ absurd (false≢true (sym (rw e refl) ∙ h))
  | inr e ↦ (e, sym (rw e refl) ∙ h)
]

pub starts_with-line :
    (text prefix : List ℕ)
    → no_return prefix ≡ true
    → starts_with (text ++ crlf) prefix ≡ starts_with text prefix
unfolding starts_with
starts_with-line text [] h = refl
starts_with-line [] (p ∷ ps) h = let (other, _) = no_return-next p ps h in rw other refl
starts_with-line (c ∷ text) (p ∷ ps) h =
    let (_, next) = no_return-next p ps h in ap (λ b. (c == p) && b) (starts_with-line text ps next)
