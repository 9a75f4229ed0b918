-- ===== src/Proxy/Request/Tests.antt =====
-- The requests on concrete streams.
use cs_24_coursework.Prelude.{Option, length, ℕ, ◌≡◌, refl, some, none, List, [], ◌∷◌, ◌++◌}
use cs_24_coursework.Prelude.Answer.{answer}
use cs_24_coursework.Proxy.Request.{
  codes, c_string, read_loop, read_full_line, starts_with, split_at, strtok, three_parts, split_url,
  make_get_header, accepted, bad_request, not_implemented, atoi, atoi_digits, server_address,
  write_string, send_get_header, finish_headers, filter_line, filter_loop, filter_rest_headers,
}
use cs_24_coursework.Proxy.Request.Lines.{crlf}
use cs_24_coursework.Proxy.Request.Headers.{Ends, filter_rest_headers-Ends}
use cs_24_coursework.Proxy.Request.Forwarded.{
  lines, is_host, is_connection, forwarded, any_line, closing, filter_rest_headers-forwarded,
}
use cs_24_coursework.Proxy.Request.Parts.{request, make_get_header-request}

abbrev always : List ℕ → List ℕ → Option ℕ
always sent str = some (length str)

get :
    make_get_header (codes "GET http://ucla.edu:81/a/b HTTP/1.1" ++ crlf ++ codes "x")
    ≡ (accepted (codes "ucla.edu:81") (codes "/a/b"), codes "x")
unfolding make_get_header read_full_line read_loop c_string starts_with split_at strtok three_parts
    split_url
get = refl

bad : make_get_header (codes "GET http://ucla.edu" ++ crlf) ≡ (bad_request, [])
unfolding make_get_header read_full_line read_loop c_string starts_with split_at strtok three_parts
    split_url
bad = refl

post : make_get_header (codes "POST http://ucla.edu/ HTTP/1.1" ++ crlf) ≡ (not_implemented, [])
unfolding make_get_header read_full_line read_loop c_string starts_with split_at strtok three_parts
    split_url
post = refl

port : server_address (codes "ucla.edu:81") ≡ some (codes "ucla.edu", 81)
unfolding server_address split_at atoi atoi_digits
port = refl

no_port : server_address (codes "ucla.edu:0") ≡ none
unfolding server_address split_at atoi atoi_digits
no_port = refl

cut_port : server_address (codes "ucla.edu:4294967376") ≡ some (codes "ucla.edu", 80)
unfolding server_address split_at atoi atoi_digits
cut_port = refl

command : send_get_header always [] (codes "/a") ≡ some (codes "GET /a HTTP/1.0" ++ crlf)
unfolding send_get_header write_string
command = refl

headers :
    filter_rest_headers always (codes "h") [] (
      codes "Accept: x"
      ++ crlf
      ++ codes "Keep-Alive: 3"
      ++ crlf
      ++ codes "Connection: keep"
      ++ crlf
      ++ crlf
      ++ codes "z")
    ≡ answer (
        some (
          codes "Accept: x"
              ++ crlf
              ++ codes "Connection: close"
              ++ crlf
              ++ codes "Host: h"
              ++ crlf
              ++ crlf,
          codes "z",
        ))
unfolding filter_rest_headers filter_loop filter_line finish_headers write_string read_full_line
    read_loop c_string starts_with
headers = refl

abbrev two : List (List ℕ)
two = codes "A" ∷ codes "Host:" ∷ []

make_get_header-request_example :
    make_get_header (request (codes "h:8") (some (codes "a")) (codes "1.1") ++ crlf ++ codes "x")
    ≡ (accepted (codes "h:8") (codes "/a"), codes "x")
make_get_header-request_example =
    make_get_header-request (codes "h:8") (some (codes "a")) (codes "1.1") (codes "x")
      (refl, (refl, (refl, tt)))
      (
        (refl, refl, (refl, refl, (refl, refl, (refl, refl, (refl, refl, tt))))),
        (refl, (refl, (refl, (refl, (refl, tt))))),
      )
      ((refl, refl, (refl, refl, (refl, refl, tt))), (refl, (refl, (refl, tt))))

filter_rest_headers-forwarded_example :
    filter_rest_headers always (codes "h") [] (lines two (codes "z"))
    ≡ answer (
        some (
          []
              ++ forwarded two
              ++ closing (any_line is_host two) (any_line is_connection two) (codes "h"),
          codes "z",
        ))
filter_rest_headers-forwarded_example =
    filter_rest_headers-forwarded always (λ sent str. refl) two (codes "h") [] (codes "z")
      (
        (refl, refl, tt),
        ((refl, refl, (refl, refl, (refl, refl, (refl, refl, (refl, refl, tt))))), tt),
      )

filter_rest_headers-Ends_example : Ends (filter_rest_headers always (codes "h") [] (codes "Accept"))
filter_rest_headers-Ends_example = filter_rest_headers-Ends always (codes "h") [] (codes "Accept")
