-- ===== src/Upgrade.antt =====
-- crates/tailscale-core/src/upgrade.rs: the HTTP request that carries the first handshake message, and the
-- response to it.
pub mod Base64
pub mod Requests
pub mod Responses
mod Tests
use lando.Prelude.{
  ℕ, zero, suc, ◌+◌, ◌*◌, ◌/◌, ◌%◌, ◌^◌, Bool, Option, none, some, List, [], ◌∷◌, ◌++◌, length,
  get_or, take, replicate, ltb, ◌==◌, not, if◌then◌else◌, Result, ok, err, ◌>>=◌,
}
use lando.Prelude.Bytes.{Bytes, codes, slice, copy_at, eq_bytes, from_be}

abbrev pub upgrade_path : Bytes
upgrade_path = codes "/ts2021"

abbrev pub upgrade_header_value : Bytes
upgrade_header_value = codes "tailscale-control-protocol"

abbrev pub handshake_header_name : Bytes
handshake_header_name = codes "X-Tailscale-Handshake"

pub data UpgradeError : Type 0 where
  incomplete : UpgradeError
  not_switching : UpgradeError
  malformed : UpgradeError
  short_buffer : UpgradeError

abbrev pub b64 : Bytes
b64 = codes "ABCDEFGHIJKLMNOPQRSTUVWXYZabcdefghijklmnopqrstuvwxyz0123456789+/"

-- `B64[n & 0x3f]`
unfoldable pub letter : ℕ → ℕ
letter n = get_or b64 (n % 64) 0

-- What the loop writes for a chunk of one, two or three bytes.
unfoldable pub chunk_text : Bytes → Bytes
chunk_text chunk =
    let n = from_be (get_or chunk 0 0 ∷ get_or chunk 1 0 ∷ get_or chunk 2 0 ∷ []) in
    letter (n / 2 ^ 18)
    ∷ letter (n / 2 ^ 12)
    ∷ (if ltb 1 (length chunk) then letter (n / 2 ^ 6) else b'=')
    ∷ (if ltb 2 (length chunk) then letter n else b'=')
    ∷ []

-- The loop over the chunks: the input left, and the place in the output.
unfoldable pub encode_loop : Bytes → ℕ → Bytes → Bytes
encode_loop [] o out = out
encode_loop (a ∷ []) o out = copy_at out o (chunk_text (a ∷ []))
encode_loop (a ∷ b ∷ []) o out = copy_at out o (chunk_text (a ∷ b ∷ []))
encode_loop (a ∷ b ∷ c ∷ input) o out =
    encode_loop input (o + 4) (copy_at out o (chunk_text (a ∷ b ∷ c ∷ [])))

-- The output buffer after the call, and the bytes written.
unfoldable pub base64_encode : Bytes → Bytes → Bytes × Result UpgradeError ℕ
base64_encode input out =
    let needed = (length input + 2) / 3 * 4 in
    if ltb (length out) needed
    then (out, err short_buffer)
    else (encode_loop input 0 out, ok needed)

pub record Writer : Type 0 where
  pub buf : Bytes
  pub pos : ℕ

-- `Writer::bytes`, which `Writer::str` calls on the bytes of its text.
unfoldable pub write_bytes : Bytes → Writer → Result UpgradeError Writer
write_bytes b w =
    if ltb (length w.buf) (w.pos + length b)
    then err short_buffer
    else ok (record { buf = copy_at w.buf w.pos b; pos = w.pos + length b })

-- Calls of the writer, one after the other, each with `?`.
unfoldable pub write_each : List Bytes → Writer → Result UpgradeError Writer
write_each [] w = ok w
write_each (p ∷ parts) w = write_bytes p w >>= write_each parts

-- What `build_request` writes, in the order of its calls.
abbrev pub request_parts : Bytes → Bytes → List Bytes
request_parts host text =
    codes "POST "
    ∷ upgrade_path
    ∷ codes " HTTP/1.1\r\nHost: "
    ∷ host
    ∷ codes "\r\nUpgrade: "
    ∷ upgrade_header_value
    ∷ codes "\r\nConnection: upgrade\r\n"
    ∷ handshake_header_name
    ∷ codes ": "
    ∷ text
    ∷ codes "\r\nContent-Length: 0\r\n\r\n"
    ∷ []

-- The writer at the end, whose position is the result. (What an error leaves in the buffer is not part
-- of the model.)
unfoldable pub build_request : Bytes → Bytes → Bytes → Result UpgradeError Writer
build_request host initiation out =
    let (b64_buf, encoded) = base64_encode initiation (replicate 200 0) in
    encoded >>= λ n.
    write_each (request_parts host (take n b64_buf)) (record { buf = out; pos = 0 })

abbrev pub blank_line : Bytes
blank_line = codes "\r\n\r\n"

-- `.map(|i| i + n)`
abbrev pub shifted : ℕ → Option ℕ → Option ℕ
shifted n none = none
shifted n (some i) = some (i + n)

-- `buf.windows(4).position(|w| w == b"\r\n\r\n")`
unfoldable pub window_position : Bytes → Option ℕ
window_position [] = none
window_position (b ∷ buf) =
    let rest = window_position buf in
    if eq_bytes (take 4 (b ∷ buf)) blank_line then some 0 else shifted 1 rest

unfoldable pub find_headers_end : Bytes → Option ℕ
find_headers_end buf = shifted 4 (window_position buf)

-- `buf.iter().position(|&b| b == byte)`
unfoldable pub position : ℕ → Bytes → Option ℕ
position byte [] = none
position byte (b ∷ buf) =
    let rest = position byte buf in if b == byte then some 0 else shifted 1 rest

-- The status line, in which the code is looked for behind the first space.
unfoldable pub check_status : Bytes → ℕ → Option ℕ → Result UpgradeError ℕ
check_status status end none = err malformed
check_status status end (some space) =
    let code_start = space + 1 in
    if ltb (length status) (code_start + 3)
    then err malformed
    else if eq_bytes (slice status code_start 3) (codes "101")
    then ok end
    else err not_switching

unfoldable pub parse_line : Bytes → ℕ → Option ℕ → Result UpgradeError ℕ
parse_line buf end none = err malformed
parse_line buf end (some line_end) =
    let status = take line_end buf in check_status status end (position b' ' status)

unfoldable pub parse_ended : Bytes → Option ℕ → Result UpgradeError ℕ
parse_ended buf none = err incomplete
parse_ended buf (some end) = parse_line buf end (position b'\r' buf)

unfoldable pub parse_response : Bytes → Result UpgradeError ℕ
parse_response buf = parse_ended buf (find_headers_end buf)
