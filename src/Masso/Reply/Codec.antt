-- ===== src/Masso/Reply/Codec.antt =====
-- All replies of internal/masso/reply.go: what the client reads of what the controller encodes.
use mink_lasso.Base.{◌^◌, ◌<◌, ◌≡◌, take}
use mink_lasso.Masso.Errors.{ok}
use mink_lasso.Masso.Words.{Bytes, AreBytes}
use mink_lasso.Masso.Request.{c_string}
use mink_lasso.Masso.Reply.{
  Reply, identity, config_reply, status, tool_record, start_ack, chunk_ack, identity_encode,
  config_reply_encode, status_encode, tool_record_encode, start_ack_encode, chunk_ack_encode,
  decode_reply,
}
use mink_lasso.Masso.Reply.RoundTrip.{
  IsStatus, reported, decode_reply-identity, decode_reply-config_reply, decode_reply-status,
  decode_reply-tool_record, decode_reply-start_ack, decode_reply-chunk_ack,
}

-- The encoder of each reply.
abbrev pub encode : Reply → Bytes
encode (identity r) = identity_encode r
encode (config_reply serial) = config_reply_encode serial
encode (status s) = status_encode s
encode (tool_record r) = tool_record_encode r
encode (start_ack result) = start_ack_encode result
encode (chunk_ack a) = chunk_ack_encode a

-- Numbers that fit their fields, and texts of bytes.
abbrev pub IsReply : Reply → Type 0
IsReply (identity r) = (r.serial < 2 ^ 32) × AreBytes r.version
IsReply (config_reply serial) = serial < 2 ^ 16
IsReply (status s) = IsStatus s
IsReply (tool_record r) = (r.index < 256) × AreBytes r.name
IsReply (start_ack result) = result < 256
IsReply (chunk_ack a) = (a.result < 256) × (a.accepted < 2 ^ 32)

-- The reply as it is read: texts end at their first NUL and at the length of their field, and the flags
-- of a status follow its raw bytes.
abbrev pub as_read : Reply → Reply
as_read (identity r) =
    identity (record { serial = r.serial; version = c_string (take 29 r.version) })
as_read (config_reply serial) = config_reply serial
as_read (status s) = status (reported s)
as_read (tool_record r) = tool_record (record { index = r.index; name = c_string (take 31 r.name) })
as_read (start_ack result) = start_ack result
as_read (chunk_ack a) = chunk_ack a

-- Whatever reply the controller encodes, the client decodes it: every number and flag, and every text up
-- to its first NUL and the length of its field.
pub decode_reply-encode : (r : Reply) → IsReply r → decode_reply (encode r) ≡ ok (as_read r)
decode_reply-encode (identity r) h = decode_reply-identity r h.0 h.1
decode_reply-encode (config_reply serial) h = decode_reply-config_reply serial h
decode_reply-encode (status s) h = decode_reply-status s h
decode_reply-encode (tool_record r) h = decode_reply-tool_record r h.0 h.1
decode_reply-encode (start_ack result) h = decode_reply-start_ack result h
decode_reply-encode (chunk_ack a) h = decode_reply-chunk_ack a h.0 h.1
