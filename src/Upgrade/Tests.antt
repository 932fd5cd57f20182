-- ===== src/Upgrade/Tests.antt =====
-- Runs of the upgrade, some of them the code's own tests.
use lando.Prelude.{◌≡◌, ◌≤◌, refl, some, [], ◌∷◌, ◌++◌, length, take, replicate, ok, err, arith}
use lando.Prelude.Bytes.{Bytes, codes, eq_bytes}
use lando.Upgrade.{
  incomplete, not_switching, letter, chunk_text, base64_encode, build_request, window_position,
  find_headers_end, position, check_status, parse_line, parse_ended, parse_response,
}
use lando.Upgrade.Base64.{encoded, decode, base64_encode-decode}
use lando.Upgrade.Requests.{request_text, writes, build_request_lem}
use lando.Upgrade.Responses.{parse_response-append}

base64_f : encoded (codes "f") ≡ codes "Zg=="
unfolding encoded chunk_text letter
base64_f = refl

base64_fo : encoded (codes "fo") ≡ codes "Zm8="
unfolding encoded chunk_text letter
base64_fo = refl

base64_foobar : encoded (codes "foobar") ≡ codes "Zm9vYmFy"
unfolding encoded chunk_text letter
base64_foobar = refl

abbrev switching : Bytes
switching = codes "HTTP/1.1 101 Switching\r\n\r\n"

accepts_101 : parse_response switching ≡ ok 26
unfolding parse_response parse_ended find_headers_end window_position eq_bytes position parse_line
    check_status
accepts_101 = refl

rejects_400 : parse_response (codes "HTTP/1.1 400 Bad\r\n\r\n") ≡ err not_switching
unfolding parse_response parse_ended find_headers_end window_position eq_bytes position parse_line
    check_status
rejects_400 = refl

waits : parse_response (codes "HTTP/1.1 101 Switching") ≡ err incomplete
unfolding parse_response parse_ended find_headers_end window_position eq_bytes
waits = refl

base64_encode-decode_example :
    ((base64_encode (codes "foo!") (replicate 9 0)).1 ≡ ok 8)
    × (decode (take 8 (base64_encode (codes "foo!") (replicate 9 0)).0) ≡ some (codes "foo!"))
base64_encode-decode_example =
    base64_encode-decode (codes "foo!") (replicate 9 0)
      (omega arith, (omega arith, (omega arith, (omega arith, tt)))) (omega arith)

build_request_lem_example :
    build_request (codes "host") (codes "foobar") (replicate 300 0)
    ≡ writes (request_text (codes "host") (encoded (codes "foobar"))) (replicate 300 0)
build_request_lem_example =
    build_request_lem (codes "host") (codes "foobar") (replicate 300 0) (omega arith)

parse_response-append_run :
    (parse_response (switching ++ 2 ∷ 0 ∷ 48 ∷ []) ≡ parse_response switching)
    × (26 ≤ length switching)
unfolding find_headers_end window_position eq_bytes
parse_response-append_run = parse_response-append switching (2 ∷ 0 ∷ 48 ∷ []) refl
