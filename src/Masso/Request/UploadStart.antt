-- ===== src/Masso/Request/UploadStart.antt =====
-- The controller reads back what an upload-start request of internal/masso/request.go names.
use mink_lasso.Base.{
  ℕ, suc, ◌+◌, ◌%◌, ◌^◌, ◌≤◌, ◌<◌, ◌≡◌, ◌≢◌, ◌⊎◌, inl, inr, refl, [], ◌∷◌, ◌++◌, length, arith,
  replicate, All, All-append, take-append, length-append, append_assoc, drop, List,
}
use mink_lasso.Masso.Errors.{ok, ◌>>=◌}
use mink_lasso.Masso.Words.{Bytes, IsByte, AreBytes, put_u32, get_u32-put_u32, AreBytes-put_u32}
use mink_lasso.Masso.FileName.{max_upload_dir}
use mink_lasso.Masso.FileName.Laws.{IsNameChar, IsComponent, IsFileName, validate_file_name_iff}
use mink_lasso.Masso.FileName.Folders.{join, IsUploadDir, validate_upload_dir_iff}
use mink_lasso.Masso.Request.{
  type_upload_start, upload_start_request, path_field, upload_start_payload, upload_start, c_string,
  decode_upload_start_request, decode_request_body, decode_request,
}
use mink_lasso.Masso.Request.RoundTrip.{decode_request-frame}

chars-AreBytes : (s : Bytes) → All IsNameChar s → AreBytes s
chars-AreBytes [] h = tt
chars-AreBytes (b ∷ bs) h = (omega (arith, h.0.high), chars-AreBytes bs h.1)

join-AreBytes : (cs : List Bytes) → All (λ c. (c ≢ []) × IsComponent c) cs → AreBytes (join cs)
join-AreBytes [] h = tt
join-AreBytes (c ∷ []) h = chars-AreBytes c h.0.1.chars
join-AreBytes (c ∷ d ∷ cs) h =
    All-append IsByte c _ (chars-AreBytes c h.0.1.chars) (omega arith, join-AreBytes (d ∷ cs) h.1)

-- A name behind which a NUL stands.
c_string-append : (s rest : Bytes) → All IsNameChar s → c_string (s ++ (0 ∷ rest)) ≡ s
c_string-append [] rest h = refl
c_string-append (b ∷ bs) rest h = ground (arith, c_string-append bs rest h.1, h.0.low)

-- What `UploadStart` accepts for a folder.
abbrev pub IsFolder : Bytes → Type 0
IsFolder dir = (dir ≡ []) ⊎ IsUploadDir dir

path_field-AreBytes : (dir : Bytes) → IsFolder dir → AreBytes (path_field dir)
path_field-AreBytes [] h = omega arith
path_field-AreBytes (b ∷ bs) (inl e) = absurd (cc)
path_field-AreBytes (b ∷ bs) (inr d) = rw d.joined at (join-AreBytes d.components d.valid)

path_field-le : (dir : Bytes) → IsFolder dir → length (path_field dir) ≤ max_upload_dir
path_field-le [] h = omega arith
path_field-le (b ∷ bs) (inl e) = absurd (cc)
path_field-le (b ∷ bs) (inr d) = d.fits

payload-AreBytes :
    (size : ℕ) (path name : Bytes)
    → AreBytes path
    → AreBytes name
    → AreBytes (upload_start_payload size path name)
unfolding upload_start_payload
payload-AreBytes size path name h k =
    All-append IsByte (put_u32 size)
      (0 ∷ 0 ∷ (length path % 256) ∷ path ++ (0 ∷ (name ++ (0 ∷ replicate 3 0))))
      (AreBytes-put_u32 size)
      (
        omega arith,
        (
          omega arith,
          (
            omega arith,
            All-append IsByte path (0 ∷ (name ++ (0 ∷ replicate 3 0))) h
                (omega arith, All-append IsByte name (0 ∷ replicate 3 0) k (omega arith)),
          ),
        ),
      )

drop_past : (s rest : Bytes) (b : ℕ) → drop (suc (length s)) (s ++ (b ∷ rest)) ≡ rest
drop_past [] rest b = refl
drop_past (x ∷ s) rest b = drop_past s rest b

-- The text fields with the padding behind them, bracketed to the right.
fields_shape :
    (path name zs pad : Bytes)
    → (path ++ (0 ∷ (name ++ (0 ∷ zs)))) ++ pad ≡ path ++ (0 ∷ (name ++ (0 ∷ (zs ++ pad))))
fields_shape path name zs pad = simp append_assoc

header_past : (n : ℕ) → 7 + n + 1 ≡ suc (suc (suc (suc (suc (suc (suc (suc n)))))))
header_past n = omega arith

decode_payload :
    (size : ℕ) (path name pad : Bytes)
    → size < 2 ^ 32
    → length path ≤ max_upload_dir
    → IsFileName name
    → decode_upload_start_request (upload_start_payload size path name ++ pad)
      ≡ ok (upload_start_request size path name)
unfolding decode_upload_start_request upload_start_payload
decode_payload size path name pad h k valid =
    let small : length path % 256 ≡ length path = omega arith in
    let tail : Bytes = name ++ (0 ∷ (replicate 3 0 ++ pad)) in
    rw (small, fields_shape path name (replicate 3 0) pad, header_past (length path))
      (ground (
        arith,
        get_u32-put_u32 size h,
        length-append path (0 ∷ tail),
        take-append path (0 ∷ tail),
        drop_past path tail 0,
        c_string-append name (replicate 3 0 ++ pad) valid.component.chars,
        (validate_file_name_iff name).1 valid,
      ))

-- For a valid name and folder the request is encoded, and the controller reads the size, the path
-- field (a backslash for the drive root) and the name.
pub decode_request-upload_start :
    (size : ℕ) (dir name : Bytes)
    → size < 2 ^ 32
    → IsFolder dir
    → IsFileName name
    → (upload_start size dir name >>= decode_request)
      ≡ ok (upload_start_request size (path_field dir) name)
unfolding upload_start decode_request_body
decode_request-upload_start size dir name h folder valid =
    rw ((validate_file_name_iff name).1 valid, (validate_upload_dir_iff dir).1 folder)
      (rw
        (decode_request-frame type_upload_start (upload_start_payload size (path_field dir) name)
          (omega arith)
          (payload-AreBytes size (path_field dir) name (path_field-AreBytes dir folder)
            (chars-AreBytes name valid.component.chars)))
        (decode_payload size (path_field dir) name _ h (path_field-le dir folder) valid))
