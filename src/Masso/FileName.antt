-- ===== src/Masso/FileName.antt =====
-- internal/masso/filename.go: names and folders that the controller takes. A Go string is the list
-- of its bytes.
pub mod Laws
pub mod Folders
use mink_lasso.Base.{
  ℕ, zero, suc, ◌≡◌, refl, Bool, true, false, List, [], ◌∷◌, ◌==◌, ltb, if◌then◌else◌, length, ◌||◌,
  ◌&&◌,
}
use mink_lasso.Masso.Errors.{Error, bad_file_name, bad_upload_dir, Result, ok, err, ◌>>=◌, ◌>>◌}
use mink_lasso.Masso.Words.{Bytes}

abbrev pub max_file_name : ℕ
max_file_name = 33

abbrev pub max_upload_dir : ℕ
max_upload_dir = 255

abbrev pub backslash : ℕ
backslash = 0x5c

-- `strings.IndexByte(s, b) >= 0`.
abbrev pub contains : Bytes → ℕ → Bool
contains [] b = false
contains (x ∷ xs) b = x == b || contains xs b

-- The bytes of `\/:*?"<>|`.
abbrev pub forbidden_chars : Bytes
forbidden_chars = 0x5c ∷ 0x2f ∷ 0x3a ∷ 0x2a ∷ 0x3f ∷ 0x22 ∷ 0x3c ∷ 0x3e ∷ 0x7c ∷ []

-- The loop of `validateComponent` over the bytes.
unfoldable pub validate_bytes : Error → Bytes → Result (Unit {0})
validate_bytes sentinel [] = ok tt
validate_bytes sentinel (b ∷ bs) =
    let rest = validate_bytes sentinel bs in
    if ltb b 0x20 || ltb 0x7e b
    then err sentinel
    else if contains forbidden_chars b
    then err sentinel
    else rest

-- The test `s == "." || s == ".."`.
abbrev pub is_reserved : Bytes → Bool
is_reserved (a ∷ []) = a == b'.'
is_reserved (a ∷ b ∷ []) = a == b'.' && b == b'.'
is_reserved _ = false

unfoldable pub validate_component : Bytes → Error → Result (Unit {0})
validate_component s sentinel = if is_reserved s then err sentinel else validate_bytes sentinel s

unfoldable pub validate_file_name : Bytes → Result (Unit {0})
validate_file_name name =
    if ltb (length name) 1 || ltb max_file_name (length name)
    then err bad_file_name
    else validate_component name bad_file_name

-- A byte in front of the first component.
abbrev pub cons_head : ℕ → List Bytes → List Bytes
cons_head b [] = (b ∷ []) ∷ []
cons_head b (c ∷ cs) = (b ∷ c) ∷ cs

-- strings.SplitSeq: the components between separators, one of them for an empty text.
unfoldable pub split : Bytes → ℕ → List Bytes
split [] sep = [] ∷ []
split (b ∷ bs) sep = let rest = split bs sep in if b == sep then [] ∷ rest else cons_head b rest

abbrev pub is_empty : Bytes → Bool
is_empty [] = true
is_empty (_ ∷ _) = false

-- The loop of `ValidateUploadDir` over the components.
unfoldable pub validate_components : List Bytes → Result (Unit {0})
validate_components [] = ok tt
validate_components (c ∷ cs) =
    let rest = validate_components cs in
    if is_empty c then err bad_upload_dir else (do validate_component c bad_upload_dir; rest)

unfoldable pub validate_upload_dir : Bytes → Result (Unit {0})
validate_upload_dir dir =
    if is_empty dir
    then ok tt
    else if ltb max_upload_dir (length dir)
    then err bad_upload_dir
    else validate_components (split dir backslash)

-- `a\b` passes, `a\..` and `a\` do not.
validate_upload_dir_runs :
    (validate_upload_dir (b'a' ∷ backslash ∷ b'b' ∷ []) ≡ ok tt)
    × (validate_upload_dir (b'a' ∷ backslash ∷ b'.' ∷ b'.' ∷ []) ≡ err bad_upload_dir)
    × (validate_upload_dir (b'a' ∷ backslash ∷ []) ≡ err bad_upload_dir)
unfolding validate_upload_dir validate_components validate_component validate_bytes split
validate_upload_dir_runs = (refl, refl, refl)
