-- ===== src/Masso/Request.antt =====
-- internal/masso/request.go: the client's requests, encoded and decoded.
pub mod RoundTrip
pub mod UploadStart
pub mod Codec
use mink_lasso.Base.{
  ℕ, zero, suc, ◌+◌, ◌%◌, [], ◌∷◌, ◌++◌, ◌==◌, ltb, if◌then◌else◌, length, get_or, take, drop,
  replicate,
}
use mathlib.Core.List.{reverse}
use mink_lasso.Masso.Errors.{
  unknown_type, bad_length, malformed, chunk_too_large, Result, ok, err, ◌>>=◌, ◌>>◌,
}
use mink_lasso.Masso.Words.{Bytes, put_u16, put_u32, get_u16, get_u32}
use mink_lasso.Masso.Frame.{frame, parse}
use mink_lasso.Masso.FileName.{backslash, is_empty, validate_file_name, validate_upload_dir}

-- internal/masso/masso.go: the type byte, shared by a request and its reply.
abbrev pub type_status : ℕ
type_status = 0x01

abbrev pub type_discovery : ℕ
type_discovery = 0x02

abbrev pub type_config : ℕ
type_config = 0x03

abbrev pub type_tool : ℕ
type_tool = 0x08

abbrev pub type_upload_start : ℕ
type_upload_start = 0x0a

abbrev pub type_upload_chunk : ℕ
type_upload_chunk = 0x0b

abbrev pub type_upload_abort : ℕ
type_upload_abort = 0x0c

abbrev pub max_chunk_data : ℕ
max_chunk_data = 1422

pub data Request : Type 0 where
  discovery_request : (reply_port : ℕ) → Request
  config_request : (hour minute second day month year : ℕ) → Request
  keepalive_request : (hour minute second day month : ℕ) → Request
  tool_query_request : (index : ℕ) → Request
  upload_start_request : (size : ℕ) (path name : Bytes) → Request
  upload_chunk_request : (index : ℕ) (chunk : Bytes) → Request
  upload_abort_request : Request

-- The fields of a time.Time that the requests carry.
pub record WallClock : Type 0 where
  pub year : ℕ
  pub month : ℕ
  pub day : ℕ
  pub hour : ℕ
  pub minute : ℕ
  pub second : ℕ

unfoldable pub discovery : ℕ → Bytes
discovery reply_port = frame type_discovery (put_u16 reply_port ++ replicate 3 0)

-- `byte(n & 0xFF)`.
abbrev pub clock_byte : ℕ → ℕ
clock_byte n = n % 256

abbrev pub config_payload : WallClock → Bytes
config_payload t =
    clock_byte t.hour
    ∷ clock_byte t.minute
    ∷ clock_byte t.second
    ∷ clock_byte t.day
    ∷ clock_byte t.month
    ∷ clock_byte (t.year % 100)
    ∷ 0
    ∷ 0
    ∷ 0
    ∷ []

unfoldable pub config : WallClock → Bytes
config t = frame type_config (config_payload t)

abbrev pub keepalive_payload : WallClock → Bytes
keepalive_payload t =
    clock_byte t.hour
    ∷ clock_byte t.minute
    ∷ clock_byte t.second
    ∷ clock_byte t.day
    ∷ clock_byte t.month
    ∷ []

unfoldable pub keepalive : WallClock → Bytes
keepalive t = frame type_status (keepalive_payload t)

unfoldable pub tool_query : ℕ → Bytes
tool_query index = frame type_tool (index ∷ 0 ∷ 0 ∷ 0 ∷ 0 ∷ [])

abbrev pub root_upload_path : Bytes
root_upload_path = backslash ∷ []

abbrev pub upload_start_reserved : ℕ
upload_start_reserved = 3

-- The path field: a backslash for the drive root.
abbrev pub path_field : Bytes → Bytes
path_field dir = if is_empty dir then root_upload_path else dir

unfoldable pub upload_start_payload : ℕ → Bytes → Bytes → Bytes
upload_start_payload size path name =
    put_u32 size
    ++ 0 ∷ 0 ∷ (length path % 256) ∷ path
    ++ (0 ∷ (name ++ (0 ∷ replicate upload_start_reserved 0)))

unfoldable pub upload_start : ℕ → Bytes → Bytes → Result Bytes
upload_start size dir name = do
  validate_file_name name
  validate_upload_dir dir
  ok (frame type_upload_start (upload_start_payload size (path_field dir) name))

-- strings.Trim with one byte for a cutset.
abbrev pub trim_left : Bytes → ℕ → Bytes
trim_left [] b = []
trim_left (x ∷ xs) b = if x == b then trim_left xs b else x ∷ xs

unfoldable pub trim : Bytes → ℕ → Bytes
trim s b = reverse (trim_left (reverse (trim_left s b)) b)

unfoldable pub join_upload_path : Bytes → Bytes → Bytes
unfolding trim
join_upload_path path name =
    let dir = trim path backslash in if is_empty dir then name else dir ++ backslash ∷ name

unfoldable pub upload_abort : Bytes
upload_abort = frame type_upload_abort (replicate 5 0)

abbrev pub upload_chunk_payload : ℕ → Bytes → Bytes
upload_chunk_payload index chunk = put_u32 index ++ (put_u32 (length chunk) ++ chunk)

unfoldable pub upload_chunk : ℕ → Bytes → Result Bytes
upload_chunk index chunk =
    if ltb max_chunk_data (length chunk)
    then err chunk_too_large
    else ok (frame type_upload_chunk (upload_chunk_payload index chunk))

unfoldable pub decode_discovery_request : Bytes → Result Request
decode_discovery_request (a ∷ b ∷ rest) = ok (discovery_request (get_u16 (a ∷ b ∷ [])))
decode_discovery_request _ = err bad_length

unfoldable pub decode_config_request : Bytes → Result Request
decode_config_request (h ∷ m ∷ s ∷ d ∷ mo ∷ y ∷ rest) = ok (config_request h m s d mo y)
decode_config_request _ = err bad_length

unfoldable pub decode_keepalive_request : Bytes → Result Request
decode_keepalive_request (h ∷ m ∷ s ∷ d ∷ mo ∷ rest) = ok (keepalive_request h m s d mo)
decode_keepalive_request _ = err bad_length

unfoldable pub decode_tool_query_request : Bytes → Result Request
decode_tool_query_request (index ∷ rest) = ok (tool_query_request index)
decode_tool_query_request _ = err bad_length

-- The bytes before the first NUL, or all of them.
abbrev pub c_string : Bytes → Bytes
c_string [] = []
c_string (b ∷ bs) = if b == 0 then [] else b ∷ c_string bs

abbrev pub min_header : ℕ
min_header = 7

unfoldable pub decode_upload_start_request : Bytes → Result Request
decode_upload_start_request body =
    let path_len = get_or body 6 0 in
    let name_start = min_header + path_len + 1 in
    let name = c_string (drop name_start body) in
    if ltb (length body) min_header
    then err bad_length
    else if ltb (length body) name_start
    then err malformed
    else do
      validate_file_name name
      ok (upload_start_request (get_u32 body) (take path_len (drop min_header body)) name)

abbrev pub chunk_header : ℕ
chunk_header = 8

unfoldable pub decode_upload_chunk_request : Bytes → Result Request
decode_upload_chunk_request body =
    let size = get_u32 (drop 4 body) in
    if ltb (length body) chunk_header
    then err bad_length
    else if ltb max_chunk_data size
    then err chunk_too_large
    else if ltb (length body) (chunk_header + size)
    then err malformed
    else ok (upload_chunk_request (get_u32 body) (take size (drop chunk_header body)))

-- The `switch` of `DecodeRequest`.
unfoldable pub decode_request_body : ℕ → Bytes → Result Request
decode_request_body typ body =
    if typ == type_discovery
    then decode_discovery_request body
    else if typ == type_config
    then decode_config_request body
    else if typ == type_status
    then decode_keepalive_request body
    else if typ == type_tool
    then decode_tool_query_request body
    else if typ == type_upload_start
    then decode_upload_start_request body
    else if typ == type_upload_chunk
    then decode_upload_chunk_request body
    else if typ == type_upload_abort
    then ok upload_abort_request
    else err unknown_type

unfoldable pub decode_request : Bytes → Result Request
decode_request pkt = do (typ, body) ← parse pkt; decode_request_body typ body
