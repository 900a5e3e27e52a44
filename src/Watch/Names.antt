-- ===== src/Watch/Names.antt =====
-- The names that internal/watch/watch.go passes over. Names are bytes, and letters outside ASCII have no
-- lower case here.
use mink_lasso.Base.{Bool, true, false, not, ◌&&◌, ◌||◌, List, [], ◌∷◌, ◌==◌, if◌then◌else◌}
use mink_lasso.Base.Maps.{bytes_eq, member}
use mink_lasso.Masso.Words.{Bytes}
use mink_lasso.Masso.Reply.{to_lower, starts_with}
use mink_lasso.Masso.FileName.{is_empty}

-- strings.EqualFold.
abbrev pub equal_fold : Bytes → Bytes → Bool
equal_fold s t = bytes_eq (to_lower s) (to_lower t)

-- strings.HasSuffix, the suffix last.
unfoldable pub has_suffix : Bytes → Bytes → Bool
has_suffix [] t = is_empty t
has_suffix (c ∷ s) t = if bytes_eq (c ∷ s) t then true else has_suffix s t

abbrev pub contains_dot : Bytes → Bool
contains_dot [] = false
contains_dot (c ∷ s) = if c == b'.' then true else contains_dot s

-- filepath.Ext of a base name: the last dot and what follows it.
unfoldable pub ext : Bytes → Bytes
ext [] = []
ext (c ∷ s) = if c == b'.' && not (contains_dot s) then c ∷ s else ext s

-- "~$"
abbrev pub lock_prefix : Bytes
lock_prefix = b'~' ∷ b'$' ∷ []

unfoldable pub skipped_name : Bytes → Bool
skipped_name name = starts_with name (b'.' ∷ []) || starts_with name lock_prefix

-- `SentDir`.
abbrev pub sent_dir : Bytes
sent_dir = b's' ∷ b'e' ∷ b'n' ∷ b't' ∷ []

unfoldable pub walked_dir : Bytes → Bytes → Bool
walked_dir rel_dir name =
    if skipped_name name then false else not (is_empty rel_dir) || not (equal_fold name sent_dir)

-- ".tmp"
abbrev pub tmp_suffix : Bytes
tmp_suffix = b'.' ∷ b't' ∷ b'm' ∷ b'p' ∷ []

-- `exts` is the set of extensions in lower case.
unfoldable pub is_candidate_name : List Bytes → Bytes → Bool
is_candidate_name exts name =
    if skipped_name name
    then false
    else if has_suffix (to_lower name) tmp_suffix
    then false
    else member (ext (to_lower name)) exts

unfoldable pub is_unc : Bytes → Bool
is_unc dir = starts_with dir (0x5c ∷ 0x5c ∷ [])
