-- ===== src/Masso/Request/Codec.antt =====
-- All requests of internal/masso/request.go: what the controller reads of what the client encodes.
use mink_lasso.Base.{ℕ, ◌^◌, ◌%◌, ◌≤◌, ◌<◌, ◌≡◌, length}
use mink_lasso.Masso.Errors.{Result, ok, ◌>>=◌}
use mink_lasso.Masso.Words.{Bytes, AreBytes}
use mink_lasso.Masso.FileName.Laws.{IsFileName}
use mink_lasso.Masso.Request.{
  Request, discovery_request, config_request, keepalive_request, tool_query_request,
  upload_start_request, upload_chunk_request, upload_abort_request, WallClock, discovery, config,
  keepalive, tool_query, path_field, upload_start, upload_chunk, upload_abort, max_chunk_data,
  decode_request,
}
use mink_lasso.Masso.Request.RoundTrip.{
  IsWallClock, decode_request-discovery, decode_request-config, decode_request-keepalive,
  decode_request-tool_query, decode_request-upload_chunk, decode_request-upload_abort,
}
use mink_lasso.Masso.Request.UploadStart.{IsFolder, decode_request-upload_start}

-- The calls of the encoders.
pub data Encoding : Type 0 where
  discovers : (port : ℕ) → Encoding
  configures : WallClock → Encoding
  keeps_alive : WallClock → Encoding
  queries_tool : (index : ℕ) → Encoding
  starts : (size : ℕ) (dir name : Bytes) → Encoding
  sends_chunk : (index : ℕ) (chunk : Bytes) → Encoding
  aborts : Encoding

abbrev pub encode : Encoding → Result Bytes
encode (discovers port) = ok (discovery port)
encode (configures t) = ok (config t)
encode (keeps_alive t) = ok (keepalive t)
encode (queries_tool index) = ok (tool_query index)
encode (starts size dir name) = upload_start size dir name
encode (sends_chunk index chunk) = upload_chunk index chunk
encode aborts = ok upload_abort

-- What the encoders are called with: numbers that fit, times that package time gives, a file name and a
-- folder that are valid, and a chunk of at most 1,422 bytes.
abbrev pub IsEncoding : Encoding → Type 0
IsEncoding (discovers port) = port < 2 ^ 16
IsEncoding (configures t) = IsWallClock t
IsEncoding (keeps_alive t) = IsWallClock t
IsEncoding (queries_tool index) = index < 256
IsEncoding (starts size dir name) = (size < 2 ^ 32) × IsFolder dir × IsFileName name
IsEncoding (sends_chunk index chunk) =
    (index < 2 ^ 32) × AreBytes chunk × (length chunk ≤ max_chunk_data)
IsEncoding aborts = Unit

-- The request that is meant. A keepalive carries no year, a config its last two digits.
abbrev pub meant : Encoding → Request
meant (discovers port) = discovery_request port
meant (configures t) = config_request t.hour t.minute t.second t.day t.month (t.year % 100)
meant (keeps_alive t) = keepalive_request t.hour t.minute t.second t.day t.month
meant (queries_tool index) = tool_query_request index
meant (starts size dir name) = upload_start_request size (path_field dir) name
meant (sends_chunk index chunk) = upload_chunk_request index chunk
meant aborts = upload_abort_request

-- Whatever request the client encodes from valid arguments, the encoder succeeds and the controller decodes
-- the request that was meant, without its padding.
pub decode_request-encode :
    (c : Encoding) → IsEncoding c → (encode c >>= decode_request) ≡ ok (meant c)
decode_request-encode (discovers port) h = decode_request-discovery port h
decode_request-encode (configures t) h = decode_request-config t h
decode_request-encode (keeps_alive t) h = decode_request-keepalive t h
decode_request-encode (queries_tool index) h = decode_request-tool_query index h
decode_request-encode (starts size dir name) h =
    decode_request-upload_start size dir name h.0 h.1 h.2
decode_request-encode (sends_chunk index chunk) h =
    decode_request-upload_chunk index chunk h.0 h.1 h.2
decode_request-encode aborts h = decode_request-upload_abort
