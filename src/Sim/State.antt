-- ===== src/Sim/State.antt =====
-- internal/masso/sim/sim.go: the state of the simulated controller, its settings and its reports.
use mink_lasso.Base.{ℕ, Bool, true, false, List, [], Option, none, some, ltb, if◌then◌else◌}
use mink_lasso.Base.Maps.{lookup}
use mink_lasso.Masso.Words.{Bytes}
use mink_lasso.Masso.Reply.{Status, chunk_ok, start_ok}

-- A net.Addr: the IP address that its text form holds, if it holds one, and the port.
pub record Addr : Type 0 where
  pub ip : Option ℕ
  pub port : ℕ

-- The fields of a Controller that its handlers read or write. A nil callback is one that never
-- answers true, and `none` is a negative threshold of SetSilentAfterChunk.
pub record Controller : Type 0 where
  pub serial : ℕ
  pub version : Bytes
  pub tools : List Bytes
  pub status : Status
  pub reply_target : Option Addr
  pub discoveries : ℕ
  pub keepalives : ℕ
  pub uploading : Bool
  pub upload_name : Bytes
  pub upload_size : ℕ
  pub upload_data : Bytes
  pub accepted_count : ℕ
  pub seen_chunk : List ℕ
  pub chunk_requests : ℕ
  pub start_requests : ℕ
  pub aborts : ℕ
  pub canceled : Bool
  pub current : Bytes
  pub stuck : List Bytes
  pub files : List (Bytes × Bytes)
  pub start_result : ℕ
  pub chunk_result : ℕ
  pub drop_start_acks : ℕ
  pub drop_chunk : ℕ → Bool
  pub drop_ack : ℕ → Bool
  pub duplicate_replies : Bool
  pub silent_after_chunk : Option ℕ
  pub silenced_by_chunk : Bool
  pub silent : Bool

-- A fresh controller reads as idle and ready: its prompt byte is `defaultPrompt`.
abbrev pub default_status : Status
default_status = record {
  progress = 0;
  state = 0;
  running = false;
  jobs = 0;
  prompt = 1;
  waiting_for_operator = false;
  line = 0;
  file = [];
}

-- What `New` makes of its options, the socket aside.
unfoldable pub new : ℕ → Bytes → List Bytes → Controller
new serial version tools = record {
  serial = serial;
  version = version;
  tools = tools;
  status = default_status;
  reply_target = none;
  discoveries = 0;
  keepalives = 0;
  uploading = false;
  upload_name = [];
  upload_size = 0;
  upload_data = [];
  accepted_count = 0;
  seen_chunk = [];
  chunk_requests = 0;
  start_requests = 0;
  aborts = 0;
  canceled = false;
  current = [];
  stuck = [];
  files = [];
  start_result = start_ok;
  chunk_result = chunk_ok;
  drop_start_acks = 0;
  drop_chunk = λ _. false;
  drop_ack = λ _. false;
  duplicate_replies = false;
  silent_after_chunk = none;
  silenced_by_chunk = false;
  silent = false;
}

-- Whether the accepted count has passed a threshold.
abbrev pub passed : Option ℕ → ℕ → Bool
passed none accepted = false
passed (some n) accepted = ltb n accepted

unfoldable pub update_silenced_by_chunk : Controller → Controller
update_silenced_by_chunk c = record c {
  silenced_by_chunk =
      if passed c.silent_after_chunk c.accepted_count then true else c.silenced_by_chunk;
}

unfoldable pub should_stay_silent : Controller → Bool
should_stay_silent c = if c.silent then true else c.silenced_by_chunk

unfoldable pub reset_upload : Controller → Controller
reset_upload c = record c {
  uploading = false;
  upload_data = [];
  accepted_count = 0;
  seen_chunk = [];
}

unfoldable pub begin_upload : Bytes → ℕ → Controller → Controller
unfolding reset_upload
begin_upload name size c = record (reset_upload c) {
  canceled = false;
  current = name;
  uploading = true;
  upload_name = name;
  upload_size = size;
  upload_data = [];
}

unfoldable pub set_status : Status → Controller → Controller
set_status s c = record c { status = s }

unfoldable pub set_start_result : ℕ → Controller → Controller
set_start_result result c = record c { start_result = result }

unfoldable pub set_chunk_result : ℕ → Controller → Controller
set_chunk_result result c = record c { chunk_result = result }

unfoldable pub set_drop_start_acks : ℕ → Controller → Controller
set_drop_start_acks n c = record c { drop_start_acks = n }

unfoldable pub set_drop_chunk : (ℕ → Bool) → Controller → Controller
set_drop_chunk f c = record c { drop_chunk = f }

unfoldable pub set_drop_ack : (ℕ → Bool) → Controller → Controller
set_drop_ack f c = record c { drop_ack = f }

unfoldable pub set_duplicate_replies : Bool → Controller → Controller
set_duplicate_replies enabled c = record c { duplicate_replies = enabled }

unfoldable pub set_silent_after_chunk : Option ℕ → Controller → Controller
unfolding update_silenced_by_chunk
set_silent_after_chunk n c =
    update_silenced_by_chunk (record c { silent_after_chunk = n; silenced_by_chunk = false })

unfoldable pub set_silent : Bool → Controller → Controller
set_silent b c = record c { silent = b }

unfoldable pub restart : Controller → Controller
unfolding reset_upload
restart c = record (reset_upload c) { canceled = false; current = []; stuck = [] }

unfoldable pub file : Controller → Bytes → Option Bytes
unfolding lookup
file c name = lookup name c.files
