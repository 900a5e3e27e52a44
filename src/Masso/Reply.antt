-- ===== src/Masso/Reply.antt =====
-- internal/masso/reply.go: the controller's replies, encoded and decoded.
pub mod RoundTrip
pub mod Codec
use mink_lasso.Base.{
  ℕ, zero, suc, ◌+◌, ◌-◌, ◌%◌, ◌<◌, min, Bool, true, false, [], ◌∷◌, ◌++◌, ◌==◌, leb, if◌then◌else◌,
  length, get_or, take, drop, replicate, ◌&&◌, ◌||◌,
}
use mink_lasso.Masso.Errors.{
  unknown_type, bad_length, no_usb, transfer, transfer_open, usb_write, canceled, Result, ok, err,
  ◌>>=◌,
}
use mink_lasso.Masso.Words.{Bytes, put_u16, put_u32, get_u16, get_u32}
use mink_lasso.Masso.Frame.{magic₀, magic₁, crc16_xmodem, parse}
use mink_lasso.Masso.Request.{
  type_status, type_discovery, type_config, type_tool, type_upload_start, type_upload_chunk,
  c_string,
}

abbrev pub identity_len : ℕ
identity_len = 46

abbrev pub config_reply_len : ℕ
config_reply_len = 10

abbrev pub status_len : ℕ
status_len = 270

abbrev pub tool_record_len : ℕ
tool_record_len = 38

abbrev pub start_ack_len : ℕ
start_ack_len = 10

abbrev pub chunk_ack_len : ℕ
chunk_ack_len = 10

abbrev pub version_start : ℕ
version_start = 13

abbrev pub version_end : ℕ
version_end = 42

abbrev pub status_file_start : ℕ
status_file_start = 17

abbrev pub max_status_file : ℕ
max_status_file = 33

pub record Identity : Type 0 where
  pub serial : ℕ
  pub version : Bytes

pub record Status : Type 0 where
  pub progress : ℕ
  pub state : ℕ
  pub running : Bool
  pub jobs : ℕ
  pub prompt : ℕ
  pub waiting_for_operator : Bool
  pub line : ℕ
  pub file : Bytes

pub record ToolRecord : Type 0 where
  pub index : ℕ
  pub name : Bytes

pub record ChunkAck : Type 0 where
  pub result : ℕ
  pub accepted : ℕ

pub data Reply : Type 0 where
  identity : Identity → Reply
  config_reply : (serial : ℕ) → Reply
  status : Status → Reply
  tool_record : ToolRecord → Reply
  start_ack : (result : ℕ) → Reply
  chunk_ack : ChunkAck → Reply

-- The checksum in front of all that follows it.
abbrev pub seal : Bytes → Bytes
seal body = put_u16 (crc16_xmodem body) ++ body

-- `copy` into a field of `n` zero bytes.
abbrev pub field : ℕ → Bytes → Bytes
field n s = take n s ++ replicate (n - length s) 0

-- `putCString` into `suc n` zero bytes: the last one stays NUL.
abbrev pub put_c_string : ℕ → Bytes → Bytes
put_c_string n s = field n s ++ (0 ∷ [])

abbrev pub identity_body : Identity → Bytes
identity_body r =
    magic₀ ∷ magic₁ ∷ type_discovery ∷ put_u32 r.serial
    ++ (0 ∷ 0 ∷ 0 ∷ 0x40 ∷ (field (version_end - version_start) r.version ++ replicate 4 0))

unfoldable pub identity_encode : Identity → Bytes
identity_encode r = seal (identity_body r)

-- strings.ToLower on ASCII letters, and strings.Contains.
abbrev pub to_lower : Bytes → Bytes
to_lower [] = []
to_lower (b ∷ bs) = (if leb b'A' b && leb b b'Z' then b + 32 else b) ∷ to_lower bs

abbrev pub starts_with : Bytes → Bytes → Bool
starts_with s [] = true
starts_with [] (p ∷ ps) = false
starts_with (b ∷ bs) (p ∷ ps) = b == p && starts_with bs ps

abbrev pub contains_text : Bytes → Bytes → Bool
contains_text [] part = starts_with [] part
contains_text (b ∷ bs) part = starts_with (b ∷ bs) part || contains_text bs part

unfoldable pub max_tools : Identity → ℕ
max_tools r =
    if leb r.serial 5000
    then 32
    else if contains_text (to_lower r.version) (b'l' ∷ b'a' ∷ b't' ∷ b'h' ∷ b'e' ∷ [])
    then 100
    else 118

abbrev pub config_reply_body : ℕ → Bytes
config_reply_body serial = magic₀ ∷ magic₁ ∷ type_config ∷ put_u16 serial ++ (0 ∷ 0 ∷ 0x0a ∷ [])

unfoldable pub config_reply_encode : ℕ → Bytes
config_reply_encode serial = seal (config_reply_body serial)

abbrev pub run_state_running : ℕ
run_state_running = 0x02

abbrev pub prompt_waiting : ℕ
prompt_waiting = 0x00

abbrev pub status_body : Status → Bytes
status_body r =
    magic₀ ∷ magic₁ ∷ type_status ∷ r.progress ∷ r.state ∷ 0xff ∷ put_u32 r.jobs
    ++ (r.prompt ∷ (put_u32 r.line ++ (field max_status_file r.file ++ replicate 220 0)))

unfoldable pub status_encode : Status → Bytes
status_encode r = seal (status_body r)

abbrev pub tool_record_body : ToolRecord → Bytes
tool_record_body r = magic₀ ∷ magic₁ ∷ type_tool ∷ r.index ∷ put_c_string 31 r.name

unfoldable pub tool_record_encode : ToolRecord → Bytes
tool_record_encode r = seal (tool_record_body r)

abbrev pub start_ok : ℕ
start_ok = 0x00

abbrev pub start_no_usb : ℕ
start_no_usb = 0xe9

abbrev pub start_already_started : ℕ
start_already_started = 0xf7

abbrev pub start_ack_body : ℕ → Bytes
start_ack_body result = magic₀ ∷ magic₁ ∷ type_upload_start ∷ result ∷ replicate 4 0

unfoldable pub start_ack_encode : ℕ → Bytes
start_ack_encode result = seal (start_ack_body result)

unfoldable pub start_ack_err : ℕ → Result (Unit {0})
start_ack_err result =
    if result == start_ok
    then ok tt
    else if result == start_no_usb
    then err no_usb
    else if result == start_already_started
    then err transfer_open
    else err transfer

abbrev pub chunk_ok : ℕ
chunk_ok = 0x00

abbrev pub chunk_usb_write_error : ℕ
chunk_usb_write_error = 0x01

abbrev pub chunk_canceled : ℕ
chunk_canceled = 0x02

abbrev pub chunk_ack_body : ChunkAck → Bytes
chunk_ack_body a = magic₀ ∷ magic₁ ∷ type_upload_chunk ∷ a.result ∷ put_u32 a.accepted

unfoldable pub chunk_ack_encode : ChunkAck → Bytes
chunk_ack_encode a = seal (chunk_ack_body a)

unfoldable pub chunk_ack_err : ℕ → Result (Unit {0})
chunk_ack_err result =
    if result == chunk_ok
    then ok tt
    else if result == chunk_usb_write_error
    then err usb_write
    else if result == chunk_canceled
    then err canceled
    else err transfer

-- A fixed field `pkt[lo:hi]`. Each index below is less than the length that its guard requires.
abbrev pub slice : Bytes → ℕ → ℕ → Bytes
slice pkt lo hi = take (hi - lo) (drop lo pkt)

unfoldable pub decode_identity : Bytes → Result Reply
decode_identity pkt =
    if length pkt == identity_len
    then ok (
        identity (record {
          serial = get_u32 (slice pkt 5 9);
          version = c_string (slice pkt version_start version_end);
        }))
    else err bad_length

unfoldable pub decode_status : Bytes → Reply
decode_status pkt = status (record {
  progress = get_or pkt 5 0;
  state = get_or pkt 6 0;
  running = get_or pkt 6 0 == run_state_running;
  jobs = get_u32 (slice pkt 8 12);
  prompt = get_or pkt 12 0;
  waiting_for_operator = get_or pkt 12 0 == prompt_waiting;
  line = get_u32 (slice pkt 13 17);
  file = c_string (slice pkt status_file_start (status_file_start + max_status_file));
})

unfoldable pub decode_tool_record : Bytes → Reply
decode_tool_record pkt =
    tool_record (record { index = get_or pkt 5 0; name = c_string (drop 6 pkt) })

abbrev pub with_length : ℕ → Bytes → Reply → Result Reply
with_length n pkt r = if length pkt == n then ok r else err bad_length

-- The `switch` of `decodeReplyBody`.
unfoldable pub decode_reply_body : ℕ → Bytes → Result Reply
decode_reply_body typ pkt =
    if typ == type_discovery
    then decode_identity pkt
    else if typ == type_config
    then with_length config_reply_len pkt (config_reply (get_u16 (slice pkt 5 7)))
    else if typ == type_status
    then with_length status_len pkt (decode_status pkt)
    else if typ == type_tool
    then with_length tool_record_len pkt (decode_tool_record pkt)
    else if typ == type_upload_start
    then with_length start_ack_len pkt (start_ack (get_or pkt 5 0))
    else if typ == type_upload_chunk
    then with_length chunk_ack_len pkt
        (chunk_ack (record { result = get_or pkt 5 0; accepted = get_u32 (slice pkt 6 10) }))
    else err unknown_type

unfoldable pub decode_reply : Bytes → Result Reply
decode_reply pkt = do (typ, body) ← parse pkt; decode_reply_body typ pkt
