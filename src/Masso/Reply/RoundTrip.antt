-- ===== src/Masso/Reply/RoundTrip.antt =====
-- Decoding an encoded reply of internal/masso/reply.go gives it back, its texts cut to their fields.
use mink_lasso.Base.{
  ℕ, zero, suc, ◌-◌, ◌^◌, ◌<◌, ◌≡◌, refl, sym, ap, ◌∙◌, [], ◌∷◌, ◌++◌, ◌==◌, ==_iff, length, arith,
  replicate, All-append, All-take, All-replicate, take, drop, take-append, length-append,
  length-replicate, length-take,
}
use mink_lasso.Masso.Errors.{ok}
use mink_lasso.Masso.Words.{
  Bytes, IsByte, AreBytes, put_u32, get_u16-put_u16, get_u32-put_u32, AreBytes-put_u32,
}
use mink_lasso.Masso.Frame.{magic₀, magic₁, crc16_xmodem, parse}
use mink_lasso.Masso.Frame.Crc.{crc16_xmodem-lt}
use mink_lasso.Masso.Request.{
  c_string, type_discovery, type_config, type_status, type_tool, type_upload_start,
  type_upload_chunk,
}
use mink_lasso.Masso.Reply.{
  Identity, Status, ToolRecord, ChunkAck, identity, config_reply, status, tool_record, start_ack,
  chunk_ack, seal, field, put_c_string, identity_body, identity_encode, config_reply_body,
  config_reply_encode, status_body, status_encode, tool_record_body, tool_record_encode,
  start_ack_body, start_ack_encode, chunk_ack_body, chunk_ack_encode, decode_identity,
  decode_status, decode_tool_record, decode_reply_body, decode_reply, max_status_file,
  run_state_running, prompt_waiting,
}

-- Decoding a sealed datagram goes by its type.
decode_reply-seal :
    (typ : ℕ) (rest : Bytes)
    → AreBytes (magic₀ ∷ magic₁ ∷ typ ∷ rest)
    → decode_reply (seal (magic₀ ∷ magic₁ ∷ typ ∷ rest))
      ≡ decode_reply_body typ (seal (magic₀ ∷ magic₁ ∷ typ ∷ rest))
unfolding decode_reply parse
decode_reply-seal typ rest h =
    rw
      ((==_iff _ _).1
        (get_u16-put_u16 (crc16_xmodem (magic₀ ∷ magic₁ ∷ typ ∷ rest)) (crc16_xmodem-lt _ h)))
      refl

length-field : (n : ℕ) (s : Bytes) → length (field n s) ≡ n
length-field n s = omega (
  arith,
  length-append (take n s) (replicate (n - length s) 0),
  length-take n s,
  length-replicate {A = ℕ} (n - length s) 0,
)

field-AreBytes : (n : ℕ) (s : Bytes) → AreBytes s → AreBytes (field n s)
field-AreBytes n s h =
    All-append IsByte (take n s) _ (All-take IsByte n s h) (All-replicate IsByte _ 0 (omega arith))

c_string-zeros : (s : Bytes) (n : ℕ) → c_string (s ++ replicate n 0) ≡ c_string s
c_string-zeros [] zero = refl
c_string-zeros [] (suc n) = refl
c_string-zeros (b ∷ bs) n = ground (arith, c_string-zeros bs n)

-- What is left of a text that was put into a field of `n` bytes.
c_string-field : (n : ℕ) (s : Bytes) → c_string (field n s) ≡ c_string (take n s)
c_string-field n s = c_string-zeros (take n s) (n - length s)

take-field : (n : ℕ) (s rest : Bytes) → take n (field n s ++ rest) ≡ field n s
take-field n s rest =
    ap (λ m. take m (field n s ++ rest)) (sym (length-field n s)) ∙ take-append (field n s) rest

identity-AreBytes : (r : Identity) → AreBytes r.version → AreBytes (identity_body r)
identity-AreBytes r k =
    let version = field-AreBytes 29 r.version k in
    let rest = All-append IsByte (field 29 r.version) (replicate 4 0) version (omega arith) in
    (
      omega arith,
      (
        omega arith,
        (
          omega arith,
          All-append IsByte (put_u32 r.serial)
              (0 ∷ 0 ∷ 0 ∷ 0x40 ∷ (field 29 r.version ++ replicate 4 0)) (AreBytes-put_u32 r.serial)
              (omega arith, (omega arith, (omega arith, (omega arith, rest)))),
        ),
      ),
    )

length-identity : (r : Identity) → length (seal (identity_body r)) ≡ 46
length-identity r =
    omega (arith, length-append (field 29 r.version) (replicate 4 0), length-field 29 r.version)

-- The client reads the serial number and the version up to 29 bytes or its first NUL.
pub decode_reply-identity :
    (r : Identity)
    → r.serial < 2 ^ 32
    → AreBytes r.version
    → decode_reply (identity_encode r)
      ≡ ok (identity (record { serial = r.serial; version = c_string (take 29 r.version) }))
unfolding identity_encode decode_reply_body decode_identity
decode_reply-identity r h k =
    rw (decode_reply-seal type_discovery (drop 3 (identity_body r)) (identity-AreBytes r k)) (
      rw ((==_iff _ _).1 (length-identity r)) (
        rw
          (
            get_u32-put_u32 r.serial h,
            take-field 29 r.version (replicate 4 0),
            c_string-field 29 r.version,
          )
          refl))

-- The client reads 16 bits of the serial number from a config reply.
pub decode_reply-config_reply :
    (serial : ℕ)
    → serial < 2 ^ 16
    → decode_reply (config_reply_encode serial) ≡ ok (config_reply serial)
unfolding config_reply_encode decode_reply_body
decode_reply-config_reply serial h =
    rw (decode_reply-seal type_config (drop 3 (config_reply_body serial)) (omega arith))
      (ap (λ n. ok (config_reply n)) (get_u16-put_u16 serial h))

-- The client reads the result of a start ACK, whichever byte it is.
pub decode_reply-start_ack :
    (result : ℕ) → result < 256 → decode_reply (start_ack_encode result) ≡ ok (start_ack result)
unfolding start_ack_encode decode_reply_body
decode_reply-start_ack result h =
    rw (decode_reply-seal type_upload_start (drop 3 (start_ack_body result)) (omega arith)) refl

-- The client reads both fields of a chunk ACK, any byte and any 32-bit count.
pub decode_reply-chunk_ack :
    (a : ChunkAck)
    → a.result < 256
    → a.accepted < 2 ^ 32
    → decode_reply (chunk_ack_encode a) ≡ ok (chunk_ack a)
unfolding chunk_ack_encode decode_reply_body
decode_reply-chunk_ack a h k =
    rw (decode_reply-seal type_upload_chunk (drop 3 (chunk_ack_body a)) (omega arith))
      (ground (arith, get_u32-put_u32 a.accepted k))

tool_record-AreBytes :
    (r : ToolRecord) → r.index < 256 → AreBytes r.name → AreBytes (tool_record_body r)
tool_record-AreBytes r h k = (
  omega arith,
  (
    omega arith,
    (
      omega arith,
      (h, All-append IsByte (field 31 r.name) (0 ∷ []) (field-AreBytes 31 r.name k) (omega arith)),
    ),
  ),
)

c_string-nul : (s : Bytes) → c_string (s ++ (0 ∷ [])) ≡ c_string s
c_string-nul [] = refl
c_string-nul (b ∷ bs) = ground (arith, c_string-nul bs)

c_string-put_c_string : (n : ℕ) (s : Bytes) → c_string (put_c_string n s) ≡ c_string (take n s)
c_string-put_c_string n s = c_string-nul (field n s) ∙ c_string-field n s

-- The client reads a tool's index, and its name up to 31 bytes or its first NUL.
pub decode_reply-tool_record :
    (r : ToolRecord)
    → r.index < 256
    → AreBytes r.name
    → decode_reply (tool_record_encode r)
      ≡ ok (tool_record (record { index = r.index; name = c_string (take 31 r.name) }))
unfolding tool_record_encode decode_reply_body decode_tool_record
decode_reply-tool_record r h k =
    rw (decode_reply-seal type_tool (drop 3 (tool_record_body r)) (tool_record-AreBytes r h k)) (
      ground (
        arith,
        length-append (field 31 r.name) (0 ∷ []),
        length-field 31 r.name,
        c_string-put_c_string 31 r.name,
      ))

-- What a status reply says of a status: the flags go by the raw bytes, the name by its field.
abbrev pub reported : Status → Status
reported r = record r {
  running = r.state == run_state_running;
  waiting_for_operator = r.prompt == prompt_waiting;
  file = c_string (take max_status_file r.file);
}

pub record IsStatus (r : Status) : Type 0 where
  pub progress : r.progress < 256
  pub state : r.state < 256
  pub jobs : r.jobs < 2 ^ 32
  pub prompt : r.prompt < 256
  pub line : r.line < 2 ^ 32
  pub file : AreBytes r.file

status_tail-AreBytes :
    (r : Status)
    → IsStatus r
    → AreBytes (put_u32 r.line ++ (field max_status_file r.file ++ replicate 220 0))
status_tail-AreBytes r h =
    All-append IsByte (put_u32 r.line) (field max_status_file r.file ++ replicate 220 0)
      (AreBytes-put_u32 r.line)
      (All-append IsByte (field max_status_file r.file) (replicate 220 0)
        (field-AreBytes max_status_file r.file h.file) (All-replicate IsByte 220 0 (omega arith)))

status-AreBytes : (r : Status) → IsStatus r → AreBytes (status_body r)
status-AreBytes r h = (
  omega arith,
  (
    omega arith,
    (
      omega arith,
      (
        h.progress,
        (
          h.state,
          (
            omega arith,
            All-append IsByte (put_u32 r.jobs)
                (r.prompt ∷ (put_u32 r.line ++ (field max_status_file r.file ++ replicate 220 0)))
                (AreBytes-put_u32 r.jobs) (h.prompt, status_tail-AreBytes r h),
          ),
        ),
      ),
    ),
  ),
)

length-status : (r : Status) → length (seal (status_body r)) ≡ 270
length-status r = omega (
  arith,
  length-append (field max_status_file r.file) (replicate 220 0),
  length-replicate {A = ℕ} 220 0,
  length-field max_status_file r.file,
)

-- The client reads every field of a status, the running and waiting flags by the raw bytes, and the name
-- of the current file up to 33 bytes.
pub decode_reply-status :
    (r : Status) → IsStatus r → decode_reply (status_encode r) ≡ ok (status (reported r))
unfolding status_encode decode_reply_body decode_status
decode_reply-status r h =
    rw (decode_reply-seal type_status (drop 3 (status_body r)) (status-AreBytes r h)) (
      rw ((==_iff _ _).1 (length-status r)) (
        rw
          (
            get_u32-put_u32 r.jobs h.jobs,
            get_u32-put_u32 r.line h.line,
            take-field max_status_file r.file (replicate 220 0),
            c_string-field max_status_file r.file,
          )
          refl))
