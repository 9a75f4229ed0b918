-- ===== src/Proxy/Request.antt =====
-- project07-kweng/src/client_thread.c: reading a request line by line, make_get_header,
-- open_server_connection up to the connection, and filter_rest_headers. A stream is the bytes that
-- are still to come, and ends as a read of nothing does; `written` is how many characters a write
-- takes, of what has been sent and the string, and none when it fails. The verbose messages are left out.
pub mod Lines
pub mod Headers
pub mod Forwarded
pub mod Parts
mod Tests
use Prim.Native.Char.{code}
use Prim.Native.String.{String}
use cs_24_coursework.Prelude.{
  ℕ, zero, suc, ◌+◌, ◌-◌, ◌*◌, ◌%◌, ◌^◌, Bool, true, false, not, ◌&&◌, ◌||◌, Option, none, some,
  List, [], ◌∷◌, ◌++◌, ◌==◌, ltb, leb, if◌then◌else◌, length, drop, take,
}
use cs_24_coursework.Prelude.Answer.{Answer, answer, fault, no_fuel}

abbrev pub codes : String → List ℕ
codes String.[] = []
codes (String.◌∷◌ c s) = code c ∷ codes s

-- The characters in front of the 0 that ends a string.
unfoldable pub c_string : List ℕ → List ℕ
c_string [] = []
c_string (c ∷ cs) = let rest = c_string cs in if c == 0 then [] else c ∷ rest

abbrev pub cons_line : ℕ → Option (List ℕ × List ℕ) → Option (List ℕ × List ℕ)
cons_line c none = none
cons_line c (some (line, stream)) = some (c ∷ line, stream)

-- The loop, with last_c; `none` is NULL.
unfoldable pub read_loop : ℕ → List ℕ → Option (List ℕ × List ℕ)
read_loop last_c [] = none
read_loop last_c (c ∷ cs) =
    let rest = cons_line c (read_loop c cs) in
    if (last_c == 13) && (c == 10) then some (c ∷ [], cs) else rest

unfoldable pub read_full_line : List ℕ → Option (List ℕ × List ℕ)
read_full_line stream = read_loop 0 stream

-- strncmp over the length of the prefix.
unfoldable pub starts_with : List ℕ → List ℕ → Bool
starts_with str [] = true
starts_with [] (p ∷ ps) = false
starts_with (c ∷ cs) (p ∷ ps) = (c == p) && starts_with cs ps

abbrev pub same_text : List ℕ → List ℕ → Bool
same_text [] [] = true
same_text [] (b ∷ bs) = false
same_text (a ∷ as₁) [] = false
same_text (a ∷ as₁) (b ∷ bs) = (a == b) && same_text as₁ bs

-- The text in front of the first separator, and what is behind it; `none` is strchr's NULL.
unfoldable pub split_at : ℕ → List ℕ → List ℕ × Option (List ℕ)
split_at sep [] = ([], none)
split_at sep (c ∷ cs) =
    let (before, behind) = split_at sep cs in
    if c == sep then ([], some cs) else (c ∷ before, behind)

abbrev pub skip_spaces : List ℕ → List ℕ
skip_spaces [] = []
skip_spaces (c ∷ cs) = let rest = skip_spaces cs in if c == b' ' then rest else c ∷ cs

abbrev pub rest_of : Option (List ℕ) → List ℕ
rest_of none = []
rest_of (some cs) = cs

abbrev pub token : List ℕ → Option (List ℕ × List ℕ)
token [] = none
token (c ∷ cs) = let (before, behind) = split_at b' ' (c ∷ cs) in some (before, rest_of behind)

-- strtok_r(_, " ", _): the next part, and saveptr.
unfoldable pub strtok : List ℕ → Option (List ℕ × List ℕ)
strtok s = token (skip_spaces s)

-- The three parts of a request line; there may be no fourth.
abbrev pub no_fourth :
    List ℕ × List ℕ × List ℕ → Option (List ℕ × List ℕ) → Option (List ℕ × List ℕ × List ℕ)
no_fourth parts none = some parts
no_fourth parts (some more) = none

abbrev pub third_part :
    List ℕ → List ℕ → Option (List ℕ × List ℕ) → Option (List ℕ × List ℕ × List ℕ)
third_part prefix url none = none
third_part prefix url (some (version, rest)) = no_fourth (prefix, url, version) (strtok rest)

abbrev pub second_part : List ℕ → Option (List ℕ × List ℕ) → Option (List ℕ × List ℕ × List ℕ)
second_part prefix none = none
second_part prefix (some (url, rest)) = third_part prefix url (strtok rest)

abbrev pub first_part : Option (List ℕ × List ℕ) → Option (List ℕ × List ℕ × List ℕ)
first_part none = none
first_part (some (prefix, rest)) = second_part prefix (strtok rest)

unfoldable pub three_parts : List ℕ → Option (List ℕ × List ℕ × List ℕ)
three_parts line = first_part (strtok line)

-- What make_get_header finds: full_host and path, or the status that it sends.
pub data Header : Type 0 where
  accepted : (full_host path : List ℕ) → Header
  bad_request not_implemented : Header

-- The path starts at the first '/'; it is "/" if there is none.
abbrev pub path_of : Option (List ℕ) → List ℕ
path_of none = b'/' ∷ []
path_of (some cs) = b'/' ∷ cs

unfoldable pub split_url : List ℕ → Header
split_url host = let (full_host, path) = split_at b'/' host in accepted full_host (path_of path)

abbrev pub check_parts : Option (List ℕ × List ℕ × List ℕ) → Header
check_parts none = bad_request
check_parts (some (prefix, url, version)) =
    if not (same_text prefix (codes "GET"))
    then not_implemented
    else if not (starts_with version (codes "HTTP/"))
    then bad_request
    else if not (starts_with url (codes "http://"))
    then bad_request
    else split_url (drop 7 url)

abbrev pub header_of : Option (List ℕ × List ℕ) → Header × List ℕ
header_of none = (bad_request, [])
header_of (some (line, stream)) = (check_parts (three_parts (c_string line)), stream)

unfoldable pub make_get_header : List ℕ → Header × List ℕ
make_get_header stream = header_of (read_full_line stream)

unfoldable pub atoi_digits : ℕ → List ℕ → ℕ
atoi_digits n [] = n
atoi_digits n (c ∷ cs) =
    let rest = atoi_digits (n * 10 + (c - b'0')) cs in if leb b'0' c && leb c b'9' then rest else n

abbrev pub signed_digits : List ℕ → ℕ
signed_digits [] = 0
signed_digits (c ∷ cs) =
    if c == b'+' then atoi_digits 0 cs else if c == b'-' then 0 else atoi_digits 0 (c ∷ cs)

abbrev pub skip_white : List ℕ → List ℕ
skip_white [] = []
skip_white (c ∷ cs) =
    let rest = skip_white cs in if (c == b' ') || (leb 9 c && leb c 13) then rest else c ∷ cs

-- atoi, which is strtol with its result cut off to an int; a negative number is given as 0.
unfoldable pub atoi : List ℕ → ℕ
atoi s =
    let n = signed_digits (skip_white s) in
    let long = if ltb (2 ^ 63 - 1) n then 2 ^ 63 - 1 else n in
    let int = long % 2 ^ 32 in if ltb int (2 ^ 31) then int else 0

-- The host and the port; `none` is an invalid port.
abbrev pub port_of : List ℕ → Option (List ℕ) → Option (List ℕ × ℕ)
port_of host none = some (host, 80)
port_of host (some digits) =
    let port = atoi digits in if (port == 0) || ltb 65535 port then none else some (host, port)

unfoldable pub server_address : List ℕ → Option (List ℕ × ℕ)
server_address full_host = let (host, digits) = split_at b':' full_host in port_of host digits

-- What filter_rest_headers does with a line: the string that it sends, `none` for none at all, and
-- whether it is a Host line and a Connection line.
unfoldable pub filter_line : List ℕ → Option (List ℕ) × Bool × Bool
filter_line line =
    if starts_with line (codes "Keep-Alive:")
    then (none, false, false)
    else if starts_with line (codes "Host:")
    then (some line, true, false)
    else if starts_with line (codes "Connection:")
    then (some (codes "Connection: close" ++ 13 ∷ 10 ∷ []), false, true)
    else if starts_with line (codes "Proxy-Connection:")
    then (some (codes "Proxy-Connection: close" ++ 13 ∷ 10 ∷ []), false, false)
    else (some line, false, false)

-- What has been sent after a write that has taken so many characters.
abbrev pub sent_part : List ℕ → List ℕ → Option ℕ → Option (List ℕ)
sent_part sent str none = none
sent_part sent str (some n) = some (sent ++ take n str)

module _ (written : List ℕ → List ℕ → Option ℕ) where
  -- `none` is a write that fails; a short write is none. The first argument is what has been sent.
  unfoldable pub write_string : List ℕ → List ℕ → Option (List ℕ)
  write_string sent str = sent_part sent str (written sent str)

  abbrev pub then_write : List ℕ → Option (List ℕ) → Option (List ℕ)
  then_write str none = none
  then_write str (some sent) = write_string sent str

  unfoldable pub send_get_header : List ℕ → List ℕ → Option (List ℕ)
  send_get_header sent path =
      then_write (codes " HTTP/1.0" ++ 13 ∷ 10 ∷ [])
        (then_write path (write_string sent (codes "GET ")))

  -- The necessary headers that have not been sent, and the empty line.
  unfoldable pub finish_headers : Bool → Bool → List ℕ → List ℕ → Option (List ℕ)
  finish_headers sent_host sent_connection host sent =
      let named =
        if sent_host
        then some sent
        else then_write (13 ∷ 10 ∷ []) (then_write host (write_string sent (codes "Host: "))) in
      let closed =
        if sent_connection
        then named
        else then_write (codes "Connection: close" ++ 13 ∷ 10 ∷ []) named in
      then_write (13 ∷ 10 ∷ []) closed

  abbrev pub Sends : Type 0
  Sends = Option (List ℕ × List ℕ)

  abbrev pub with_stream : List ℕ → Option (List ℕ) → Sends
  with_stream stream none = none
  with_stream stream (some sent) = some (sent, stream)

  -- `loop` is the rest of the loop: the two flags, what has been sent and the stream.
  abbrev pub after_write :
      (Bool → Bool → List ℕ → List ℕ → Answer Sends)
      → Bool
      → Bool
      → List ℕ
      → Option (List ℕ)
      → Answer Sends
  after_write loop sent_host sent_connection stream none = answer none
  after_write loop sent_host sent_connection stream (some sent) =
      loop sent_host sent_connection sent stream

  abbrev pub after_filter :
      (Bool → Bool → List ℕ → List ℕ → Answer Sends)
      → Bool
      → Bool
      → List ℕ
      → List ℕ
      → Option (List ℕ) × Bool × Bool
      → Answer Sends
  after_filter loop sent_host sent_connection sent stream (none, is_host, is_connection) =
      loop (sent_host || is_host) (sent_connection || is_connection) sent stream
  after_filter loop sent_host sent_connection sent stream (some str, is_host, is_connection) =
      after_write loop (sent_host || is_host) (sent_connection || is_connection) stream
        (write_string sent str)

  abbrev pub after_read :
      (Bool → Bool → List ℕ → List ℕ → Answer Sends)
      → List ℕ
      → Bool
      → Bool
      → List ℕ
      → Option (List ℕ × List ℕ)
      → Answer Sends
  after_read loop host sent_host sent_connection sent none = answer none
  after_read loop host sent_host sent_connection sent (some (line, stream)) =
      if same_text (c_string line) (13 ∷ 10 ∷ [])
      then answer (with_stream stream (finish_headers sent_host sent_connection host sent))
      else after_filter loop sent_host sent_connection sent stream (filter_line (c_string line))

  -- The loop; `none` is its false.
  unfoldable pub filter_loop : ℕ → List ℕ → Bool → Bool → List ℕ → List ℕ → Answer Sends
  filter_loop zero host sent_host sent_connection sent stream = no_fuel
  filter_loop (suc fuel) host sent_host sent_connection sent stream =
      after_read (filter_loop fuel host) host sent_host sent_connection sent (read_full_line stream)

  unfoldable pub filter_rest_headers : List ℕ → List ℕ → List ℕ → Answer Sends
  filter_rest_headers host sent stream =
      filter_loop (suc (length stream)) host false false sent stream
