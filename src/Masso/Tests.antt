-- ===== src/Masso/Tests.antt =====
-- Runs of the codec at concrete data, and its theorems at inputs that meet their hypotheses.
use mink_lasso.Base.{◌≡◌, ◌↔◌, ◌⊎◌, inr, refl, [], ◌∷◌, ◌++◌, get_or, ap, true, false, arith}
use mink_lasso.Masso.Errors.{Error, ok, err, ◌>>=◌}
use mink_lasso.Masso.Words.{Bytes}
use mink_lasso.Masso.Frame.{crc_bit, crc_bits, crc_byte, crc_from, crc16_xmodem, frame, parse}
use mink_lasso.Masso.Frame.RoundTrip.{padding, parse-frame, parse-change}
use mink_lasso.Masso.FileName.{validate_file_name, validate_upload_dir}
use mink_lasso.Masso.FileName.Laws.{IsComponent, IsFileName, validate_file_name_iff}
use mink_lasso.Masso.FileName.Folders.{IsUploadDir, validate_upload_dir_iff}
use mink_lasso.Masso.Request.{upload_start_request, path_field, upload_start, decode_request}
use mink_lasso.Masso.Reply.{Status, status, status_encode, decode_reply}
use mink_lasso.Masso.Request.Codec.{starts, decode_request-encode}
use mink_lasso.Masso.Reply.Codec.{decode_reply-encode}
use mink_lasso.Masso.Reply.RoundTrip.{IsStatus}
use mink_lasso.Base.Decimal.{decimal}
use mink_lasso.Masso.Serial.{lower_prefix, serial_string, parse_serial, parse_serial-serial_string}

-- "a.nc"
abbrev name : Bytes
name = b'a' ∷ b'.' ∷ b'n' ∷ b'c' ∷ []

-- "JOBS\S"
abbrev folder : Bytes
folder = b'J' ∷ b'O' ∷ b'B' ∷ b'S' ∷ 0x5c ∷ b'S' ∷ []

parse-frame_example : parse (frame 0x02 name) ≡ ok (0x02, name ++ padding name)
parse-frame_example = parse-frame 0x02 name (omega arith) (omega arith)

-- The datagram of an upload-abort notification, its last byte apart.
abbrev abort_head : Bytes
abort_head = 0x96 ∷ 0xc3 ∷ 0x03 ∷ 0x00 ∷ 0x0c ∷ 0x00 ∷ 0x00 ∷ 0x00 ∷ 0x00 ∷ []

abort_accepted : parse (abort_head ++ 0 ∷ []) ≡ ok (0x0c, 0 ∷ 0 ∷ 0 ∷ 0 ∷ 0 ∷ [])
unfolding parse crc16_xmodem crc_from crc_byte crc_bits crc_bit
abort_accepted = refl

parse-change_example : (e : Error) × (parse (abort_head ++ 1 ∷ []) ≡ err e)
parse-change_example =
    parse-change abort_head [] 0 1 (omega arith) (omega arith) (omega arith) (omega arith)
      (omega arith) abort_accepted

name-IsComponent : IsComponent name
name-IsComponent = record { chars = omega arith; not_dot = λ e. cc; not_dots = λ e. cc }

name-IsFileName : IsFileName name
name-IsFileName = record {
  component = name-IsComponent;
  some_byte = omega arith;
  fits = omega arith;
}

folder-IsUploadDir : IsUploadDir folder
folder-IsUploadDir = record {
  components = (b'J' ∷ b'O' ∷ b'B' ∷ b'S' ∷ []) ∷ (b'S' ∷ []) ∷ [];
  joined = refl;
  some_component = λ e. cc;
  valid = (
    ((λ e. cc), record { chars = omega arith; not_dot = λ e. cc; not_dots = λ e. cc }),
    (
      (
        (λ e. cc),
        record {
          chars = omega arith;
          not_dot = λ e. omega (arith, ap (λ (s : Bytes). get_or s 0 0) e);
          not_dots = λ e. cc;
        },
      ),
      tt,
    ),
  );
  fits = omega arith;
}

validate_file_name_iff_example : (validate_file_name name ≡ ok tt) ↔ IsFileName name
validate_file_name_iff_example = validate_file_name_iff name

validate_upload_dir_iff_example :
    (validate_upload_dir folder ≡ ok tt) ↔ ((folder ≡ []) ⊎ IsUploadDir folder)
validate_upload_dir_iff_example = validate_upload_dir_iff folder

decode_request-encode_example :
    (upload_start 5000 folder name >>= decode_request)
    ≡ ok (upload_start_request 5000 (path_field folder) name)
decode_request-encode_example =
    decode_request-encode (starts 5000 folder name)
      (omega arith, inr folder-IsUploadDir, name-IsFileName)

abbrev milling : Status
milling = record {
  progress = 42;
  state = 2;
  running = true;
  jobs = 7;
  prompt = 1;
  waiting_for_operator = false;
  line = 1000;
  file = name;
}

milling-IsStatus : IsStatus milling
milling-IsStatus = omega arith

decode_reply-encode_example : decode_reply (status_encode milling) ≡ ok (status milling)
decode_reply-encode_example = decode_reply-encode (status milling) milling-IsStatus

parse_serial-serial_string_example :
    (parse_serial (serial_string 12345) ≡ ok 12345)
    × (parse_serial (lower_prefix ++ decimal 12346 12345) ≡ ok 12345)
    × (parse_serial (decimal 12346 12345) ≡ ok 12345)
parse_serial-serial_string_example = parse_serial-serial_string 12345 (omega arith)
