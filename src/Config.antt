-- ===== src/Config.antt =====
-- internal/config/config.go: the settings. Durations are in nanoseconds, not negative, as the JSON codec has
-- them; a listening port below 0 would be refused like 0. strings.ToLower is that of ASCII.
use mink_lasso.Base.{
  ℕ, ◌≡◌, refl, sym, ap, ◌∙◌, Bool, true, false, not, ◌&&◌, ◌||◌, Option, none, some, List, [], ◌∷◌,
  map, ltb, ◌==◌, if◌then◌else◌, arith,
}
use mink_lasso.Base.Maps.{bytes_eq, member}
use mink_lasso.Masso.Words.{Bytes}
use mink_lasso.Masso.Errors.{Result, ok, err}
use mink_lasso.Masso.FileName.{is_empty}
use mink_lasso.Masso.Reply.{to_lower, starts_with}
use mink_lasso.Masso.Serial.{parse_serial}

pub data ConfigError : Type 0 where
  listen_port non_positive_duration log_level extension bad_config_serial : ConfigError

pub record Config : Type 0 where
  pub serial : Bytes
  pub address : Bytes
  pub last_address : Bytes
  pub watch_dir : Bytes
  pub listen_port : ℕ
  pub scan_interval : ℕ
  pub settle_delay : ℕ
  pub pause_grace : ℕ
  pub extensions : List Bytes
  pub upload_while_machining : Bool
  pub minimize_to_tray : Bool
  pub start_minimized : Bool
  pub log_level : Bytes

abbrev pub listen_port_min : ℕ
listen_port_min = 11000

abbrev pub listen_port_max : ℕ
listen_port_max = 11051

-- "debug", "info", "warn", "error"
abbrev pub log_levels : List Bytes
log_levels =
    (b'd' ∷ b'e' ∷ b'b' ∷ b'u' ∷ b'g' ∷ [])
    ∷ (b'i' ∷ b'n' ∷ b'f' ∷ b'o' ∷ [])
    ∷ (b'w' ∷ b'a' ∷ b'r' ∷ b'n' ∷ [])
    ∷ (b'e' ∷ b'r' ∷ b'r' ∷ b'o' ∷ b'r' ∷ [])
    ∷ []

-- The extensions of masso.go, and the default settings.
abbrev pub default_extensions : List Bytes
default_extensions =
    (b'.' ∷ b'n' ∷ b'c' ∷ [])
    ∷ (b'.' ∷ b't' ∷ b'x' ∷ b't' ∷ [])
    ∷ (b'.' ∷ b'c' ∷ b'n' ∷ b'c' ∷ [])
    ∷ (b'.' ∷ b't' ∷ b'a' ∷ b'p' ∷ [])
    ∷ (b'.' ∷ b'e' ∷ b'i' ∷ b'a' ∷ [])
    ∷ (b'.' ∷ b'h' ∷ b't' ∷ b'g' ∷ [])
    ∷ (b'.' ∷ b'w' ∷ b'i' ∷ b'z' ∷ [])
    ∷ (b'.' ∷ b'g' ∷ b'c' ∷ b'o' ∷ b'd' ∷ b'e' ∷ [])
    ∷ (b'.' ∷ b'n' ∷ b'g' ∷ b'c' ∷ [])
    ∷ []

abbrev pub default_config : Config
default_config = record {
  serial = [];
  address = [];
  last_address = [];
  watch_dir = [];
  listen_port = listen_port_min;
  scan_interval = 2_000_000_000;
  settle_delay = 3_000_000_000;
  pause_grace = 120_000_000_000;
  extensions = default_extensions;
  upload_while_machining = false;
  minimize_to_tray = true;
  start_minimized = false;
  log_level = b'i' ∷ b'n' ∷ b'f' ∷ b'o' ∷ [];
}

abbrev pub normalize : Config → Config
normalize c = record c { extensions = map to_lower c.extensions }

abbrev pub all_dotted : List Bytes → Bool
all_dotted [] = true
all_dotted (ext ∷ exts) = starts_with ext (b'.' ∷ []) && all_dotted exts

abbrev pub parses : Result ℕ → Bool
parses (ok n) = true
parses (err e) = false

abbrev pub is_serial_ok : Bytes → Bool
is_serial_ok s = is_empty s || parses (parse_serial s)

unfoldable pub validate : Config → Option ConfigError
validate c =
    if ltb c.listen_port listen_port_min || ltb listen_port_max c.listen_port
    then some listen_port
    else if c.scan_interval == 0 || c.settle_delay == 0 || c.pause_grace == 0
    then some non_positive_duration
    else if not (member c.log_level log_levels)
    then some log_level
    else if not (all_dotted c.extensions)
    then some extension
    else if is_serial_ok c.serial
    then none
    else some bad_config_serial

-- What reading and parsing the file gives, on top of the defaults.
pub data Reading : Type 0 where
  missing unreadable unparsable : Reading
  parsed : Config → Reading

pub data Loaded : Type 0 where
  loaded : Config → Loaded
  not_loaded : Loaded

abbrev pub checked : Option ConfigError → Config → Loaded
checked none c = loaded c
checked (some e) c = not_loaded

-- `Load`; `saves` is whether Save succeeds.
unfoldable pub load : Bool → Reading → Loaded
unfolding validate
load saves missing = if saves then loaded default_config else not_loaded
load saves unreadable = not_loaded
load saves unparsable = not_loaded
load saves (parsed c) = checked (validate (normalize c)) (normalize c)

-- Lower case keeps the dots.
dotted-to_lower : (exts : List Bytes) → all_dotted (map to_lower exts) ≡ all_dotted exts
dotted-to_lower [] = refl
dotted-to_lower ([] ∷ exts) = refl
dotted-to_lower ((c ∷ ext) ∷ exts) = let rest = dotted-to_lower exts in ground arith

-- Normalising settings does not change whether they are valid, nor with which error they are refused.
pub validate-normalize : (c : Config) → validate (normalize c) ≡ validate c
unfolding validate
validate-normalize c = rw (dotted-to_lower c.extensions) refl

refused : {c : Config} → not_loaded ≡ loaded c → ⊥
refused e = cc

abbrev config_or : Config → Loaded → Config
config_or c (loaded c') = c'
config_or c not_loaded = c

default_valid : validate default_config ≡ none
unfolding validate member bytes_eq
default_valid = refl

missing-valid :
    (saves : Bool) (c : Config)
    → (if saves then loaded default_config else not_loaded) ≡ loaded c
    → validate c ≡ none
missing-valid true c e =
    let same = ap (λ (l : Loaded). config_or c l) e in
    ap (λ (d : Config). validate d) (sym same) ∙ default_valid
missing-valid false c e = elim (refused e) [ ]

checked-valid :
    (o : Option ConfigError) (c c' : Config)
    → validate c' ≡ o
    → checked o c' ≡ loaded c
    → validate c ≡ none
checked-valid none c c' h e =
    let same = ap (λ (l : Loaded). config_or c l) e in
    ap (λ (d : Config). validate d) (sym same) ∙ h
checked-valid (some r) c c' h e = elim (refused e) [ ]

-- What Load returns is valid, whatever the file holds.
pub load-validate :
    (saves : Bool) (r : Reading) (c : Config) → load saves r ≡ loaded c → validate c ≡ none
unfolding load
load-validate saves missing c e = missing-valid saves c e
load-validate saves unreadable c e = elim (refused e) [ ]
load-validate saves unparsable c e = elim (refused e) [ ]
load-validate saves (parsed c') c e =
    checked-valid (validate (normalize c')) c (normalize c') refl e
