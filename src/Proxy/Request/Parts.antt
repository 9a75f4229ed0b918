-- ===== src/Proxy/Request/Parts.antt =====
-- project07-kweng/src/client_thread.c: make_get_header on a request line that is written out.
use cs_24_coursework.Prelude.{
  ℕ, ◌≡◌, refl, sym, ap, ◌∙◌, Bool, true, false, ◌&&◌, Option, none, some, List, [], ◌∷◌, ◌++◌,
  ◌==◌, if◌then◌else◌, inl, inr, Bool-cases, append_assoc,
}
use cs_24_coursework.Proxy.Request.{
  codes, starts_with, split_at, strtok, three_parts, path_of, split_url, make_get_header, accepted,
}
use cs_24_coursework.Proxy.Request.Lines.{crlf, IsText, read_full_line-line, c_string-line}
use mathlib.Core.Bool.{false≢true}

-- The text has no such character.
abbrev pub Lacks : ℕ → List ℕ → Type 0
Lacks sep [] = Unit
Lacks sep (c ∷ cs) = ((c == sep) ≡ false) × Lacks sep cs

split_at-Lacks : (sep : ℕ) (s : List ℕ) → Lacks sep s → split_at sep s ≡ (s, none)
unfolding split_at
split_at-Lacks sep [] h = refl
split_at-Lacks sep (c ∷ cs) (h, hs) = rw (split_at-Lacks sep cs hs) (rw h refl)

split_at-separator :
    (sep : ℕ) (s rest : List ℕ)
    → Lacks sep s
    → (sep == sep) ≡ true
    → split_at sep (s ++ sep ∷ rest) ≡ (s, some rest)
unfolding split_at
split_at-separator sep [] rest h e = rw e refl
split_at-separator sep (c ∷ cs) rest (h, hs) e =
    rw (split_at-separator sep cs rest hs e) (rw h refl)

-- A part of a request line.
abbrev pub IsPart : List ℕ → Type 0
IsPart [] = ⊥
IsPart (c ∷ cs) = Lacks b' ' (c ∷ cs)

strtok-part : (part rest : List ℕ) → IsPart part → strtok (part ++ b' ' ∷ rest) ≡ some (part, rest)
unfolding strtok
strtok-part [] rest h = elim h [ ]
strtok-part (c ∷ cs) rest (h, hs) =
    rw h (rw (split_at-separator b' ' (c ∷ cs) rest (h, hs) refl) refl)

strtok-last : (part : List ℕ) → IsPart part → strtok part ≡ some (part, [])
unfolding strtok
strtok-last [] h = elim h [ ]
strtok-last (c ∷ cs) (h, hs) = rw h (rw (split_at-Lacks b' ' (c ∷ cs) (h, hs)) refl)

strtok_empty : strtok [] ≡ none
unfolding strtok
strtok_empty = refl

three_parts-parts :
    (prefix url version : List ℕ)
    → IsPart prefix
    → IsPart url
    → IsPart version
    → three_parts (prefix ++ b' ' ∷ (url ++ b' ' ∷ version)) ≡ some (prefix, url, version)
unfolding three_parts
three_parts-parts prefix url version p u v =
    rw (strtok-part prefix (url ++ b' ' ∷ version) p)
      (rw (strtok-part url version u) (rw (strtok-last version v) (rw strtok_empty refl)))

Lacks-append : (sep : ℕ) (s t : List ℕ) → Lacks sep s → Lacks sep t → Lacks sep (s ++ t)
Lacks-append sep [] t h k = k
Lacks-append sep (c ∷ cs) t (h, hs) k = (h, Lacks-append sep cs t hs k)

IsText-append : (s t : List ℕ) → IsText s → IsText t → IsText (s ++ t)
IsText-append [] t h k = k
IsText-append (c ∷ cs) t (r, z, hs) k = (r, z, IsText-append cs t hs k)

-- A URL behind http://, with its path behind the '/' if it has one.
abbrev pub address : List ℕ → Option (List ℕ) → List ℕ
address host none = host
address host (some path) = host ++ b'/' ∷ path

abbrev pub request : List ℕ → Option (List ℕ) → List ℕ → List ℕ
request host path version =
    codes "GET http://" ++ (address host path ++ (codes " HTTP/" ++ version))

-- A text without a space.
abbrev pub IsWord : List ℕ → Type 0
IsWord s = IsText s × Lacks b' ' s

split_url-address :
    (host : List ℕ) (path : Option (List ℕ))
    → Lacks b'/' host
    → split_url (address host path) ≡ accepted host (path_of path)
unfolding split_url
split_url-address host none h = rw (split_at-Lacks b'/' host h) refl
split_url-address host (some path) h = rw (split_at-separator b'/' host path h refl) refl

abbrev lacks : ℕ → List ℕ → Bool
lacks sep [] = true
lacks sep (c ∷ cs) = let rest = lacks sep cs in if c == sep then false else rest

lacks_sound : (sep : ℕ) (s : List ℕ) → lacks sep s ≡ true → Lacks sep s
lacks_sound sep [] h = tt
lacks_sound sep (c ∷ cs) h = elim (Bool-cases (c == sep)) [
  | inl e ↦ absurd (false≢true (sym (rw e refl) ∙ h))
  | inr e ↦ (e, lacks_sound sep cs (sym (rw e refl) ∙ h))
]

IsText-Lacks : (s : List ℕ) → Lacks 13 s → Lacks 0 s → IsText s
IsText-Lacks [] r z = tt
IsText-Lacks (c ∷ cs) (r, rs) (z, zs) = (r, z, IsText-Lacks cs rs zs)

-- A text that is known.
lacks-IsText : (s : List ℕ) → (lacks 13 s && lacks 0 s) ≡ true → IsText s
lacks-IsText s h = elim (Bool-cases (lacks 13 s)) [
  | inl e ↦ IsText-Lacks s (lacks_sound 13 s e) (lacks_sound 0 s (sym (rw e refl) ∙ h))
  | inr e ↦ absurd (false≢true (sym (rw e refl) ∙ h))
]

request-IsText :
    (host : List ℕ) (path : Option (List ℕ)) (version : List ℕ)
    → IsText (address host path)
    → IsText version
    → IsText (request host path version)
request-IsText host path version a v =
    IsText-append (codes "GET http://") (address host path ++ (codes " HTTP/" ++ version))
      (lacks-IsText (codes "GET http://") refl)
      (IsText-append (address host path) (codes " HTTP/" ++ version) a
        (IsText-append (codes " HTTP/") version (lacks-IsText (codes " HTTP/") refl) v))

request-append :
    (host : List ℕ) (path : Option (List ℕ)) (version end : List ℕ)
    → request host path version ++ end
      ≡ codes "GET"
        ++ b' '
          ∷ ((codes "http://" ++ address host path) ++ b' ' ∷ (codes "HTTP/" ++ (version ++ end)))
request-append host path version end =
    ap (λ l. codes "GET http://" ++ l)
      (append_assoc (address host path) (codes " HTTP/" ++ version) end)

three_parts-request :
    (host : List ℕ) (path : Option (List ℕ)) (version : List ℕ)
    → Lacks b' ' (address host path)
    → Lacks b' ' version
    → three_parts (request host path version ++ crlf)
      ≡ some (codes "GET", codes "http://" ++ address host path, codes "HTTP/" ++ (version ++ crlf))
three_parts-request host path version a v =
    let url =
      Lacks-append b' ' (codes "http://") (address host path)
        (lacks_sound b' ' (codes "http://") refl) a in
    let end = Lacks-append b' ' version crlf v (lacks_sound b' ' crlf refl) in
    let last =
      Lacks-append b' ' (codes "HTTP/") (version ++ crlf) (lacks_sound b' ' (codes "HTTP/") refl)
        end in
    let parts =
      three_parts-parts (codes "GET") (codes "http://" ++ address host path)
        (codes "HTTP/" ++ (version ++ crlf)) (lacks_sound b' ' (codes "GET") refl) url last in
    ap three_parts (request-append host path version crlf) ∙ parts

-- make_get_header and the line GET http://<host>[/<path>] HTTP/<version>: the host is found with its
-- port, the path starts with '/' and is "/" if the URL has none, and the rest of the stream is left.
-- The words have no space, CR and NUL, and the host no '/'.
pub make_get_header-request :
    (host : List ℕ) (path : Option (List ℕ)) (version rest : List ℕ)
    → Lacks b'/' host
    → IsWord (address host path)
    → IsWord version
    → make_get_header (request host path version ++ crlf ++ rest)
      ≡ (accepted host (path_of path), rest)
unfolding make_get_header starts_with
make_get_header-request host path version rest h (a, a₁) (v, v₁) =
    let line = request-IsText host path version a v in
    rw (read_full_line-line (request host path version) rest line) (
      rw (c_string-line (request host path version) line) (
        rw (three_parts-request host path version a₁ v₁) (rw (split_url-address host path h) refl)))
