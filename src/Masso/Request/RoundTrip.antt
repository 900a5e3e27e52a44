-- ===== src/Masso/Request/RoundTrip.antt =====
-- Decoding an encoded request of internal/masso/request.go gives it back: all but upload-start.
use mink_lasso.Base.{
  ℕ, ap, ◌%◌, ◌^◌, ◌≤◌, ◌<◌, ◌≡◌, refl, [], ◌∷◌, ◌++◌, length, arith, replicate, All-append,
  take-append, length-append, le→ltb,
}
use mink_lasso.Masso.Errors.{ok, ◌>>=◌}
use mink_lasso.Masso.Words.{
  Bytes, IsByte, AreBytes, put_u16, put_u32, get_u16-put_u16, get_u32-put_u32, AreBytes-put_u32,
}
use mink_lasso.Masso.Frame.{frame}
use mink_lasso.Masso.Frame.RoundTrip.{padding, parse-frame}
use mink_lasso.Masso.Request.{
  type_discovery, type_config, type_status, type_tool, type_upload_chunk, type_upload_abort,
  max_chunk_data, discovery_request, config_request, keepalive_request, tool_query_request,
  upload_chunk_request, upload_abort_request, WallClock, config_payload, keepalive_payload,
  upload_chunk_payload, discovery, config, keepalive, tool_query, upload_abort, upload_chunk,
  decode_discovery_request, decode_config_request, decode_keepalive_request,
  decode_tool_query_request, decode_upload_chunk_request, decode_request_body, decode_request,
}

-- Decoding sees through the frame.
pub decode_request-frame :
    (typ : ℕ) (payload : Bytes)
    → typ < 256
    → AreBytes payload
    → decode_request (frame typ payload) ≡ decode_request_body typ (payload ++ padding payload)
unfolding decode_request
decode_request-frame typ payload h k = rw (parse-frame typ payload h k)

-- The ranges that package time gives.
pub record IsWallClock (t : WallClock) : Type 0 where
  pub month : t.month ≤ 12
  pub day : t.day ≤ 31
  pub hour : t.hour < 24
  pub minute : t.minute < 60
  pub second : t.second < 60

-- The controller reads the port that a discovery request advertises.
pub decode_request-discovery :
    (port : ℕ) → port < 2 ^ 16 → decode_request (discovery port) ≡ ok (discovery_request port)
unfolding discovery decode_request_body decode_discovery_request
decode_request-discovery port h =
    rw
      (decode_request-frame type_discovery (put_u16 port ++ replicate 3 0) (omega arith)
        (omega arith))
      (ap (λ n. ok (discovery_request n)) (get_u16-put_u16 port h))

-- The controller reads the wall clock that a config request carries, for a valid date and time, and
-- the year's last two digits.
pub decode_request-config :
    (t : WallClock)
    → IsWallClock t
    → decode_request (config t)
      ≡ ok (config_request t.hour t.minute t.second t.day t.month (t.year % 100))
unfolding config decode_request_body decode_config_request
decode_request-config t h =
    rw (decode_request-frame type_config (config_payload t) (omega arith) (omega arith))
      (ground (arith, h.hour, h.minute, h.second, h.day, h.month))

-- It reads the wall clock that a keepalive carries, without the year.
pub decode_request-keepalive :
    (t : WallClock)
    → IsWallClock t
    → decode_request (keepalive t) ≡ ok (keepalive_request t.hour t.minute t.second t.day t.month)
unfolding keepalive decode_request_body decode_keepalive_request
decode_request-keepalive t h =
    rw (decode_request-frame type_status (keepalive_payload t) (omega arith) (omega arith))
      (ground (arith, h.hour, h.minute, h.second, h.day, h.month))

-- It reads the index of a tool query.
pub decode_request-tool_query :
    (index : ℕ) → index < 256 → decode_request (tool_query index) ≡ ok (tool_query_request index)
unfolding tool_query decode_request_body decode_tool_query_request
decode_request-tool_query index h =
    rw (decode_request-frame type_tool (index ∷ 0 ∷ 0 ∷ 0 ∷ 0 ∷ []) (omega arith) (omega arith))
      refl

-- It recognises an upload-abort notification.
pub decode_request-upload_abort : decode_request upload_abort ≡ ok upload_abort_request
unfolding upload_abort decode_request_body
decode_request-upload_abort =
    rw (decode_request-frame type_upload_abort (replicate 5 0) (omega arith) (omega arith)) refl

chunk_payload-AreBytes :
    (index : ℕ) (chunk : Bytes) → AreBytes chunk → AreBytes (upload_chunk_payload index chunk)
chunk_payload-AreBytes index chunk h =
    All-append IsByte (put_u32 index) (put_u32 (length chunk) ++ chunk) (AreBytes-put_u32 index)
      (All-append IsByte (put_u32 (length chunk)) chunk (AreBytes-put_u32 (length chunk)) h)

decode_payload :
    (index : ℕ) (chunk pad : Bytes)
    → index < 2 ^ 32
    → length chunk ≤ max_chunk_data
    → decode_upload_chunk_request (upload_chunk_payload index chunk ++ pad)
      ≡ ok (upload_chunk_request index chunk)
unfolding decode_upload_chunk_request
decode_payload index chunk pad h fits =
    rw (get_u32-put_u32 (length chunk) (omega arith), get_u32-put_u32 index h)
      (ground (arith, length-append chunk pad, take-append chunk pad))

-- A chunk of at most 1,422 bytes is encoded, and the controller reads its index and its bytes,
-- without the padding.
pub decode_request-upload_chunk :
    (index : ℕ) (chunk : Bytes)
    → index < 2 ^ 32
    → AreBytes chunk
    → length chunk ≤ max_chunk_data
    → (upload_chunk index chunk >>= decode_request) ≡ ok (upload_chunk_request index chunk)
unfolding upload_chunk decode_request_body decode_upload_chunk_request
decode_request-upload_chunk index chunk h k fits = rw (le→ltb max_chunk_data (length chunk) fits) (
    rw
      (decode_request-frame type_upload_chunk (upload_chunk_payload index chunk) (omega arith)
        (chunk_payload-AreBytes index chunk k))
      (decode_payload index chunk _ h fits))
