-- ===== src/Engine/Archive/Tests.antt =====
-- A sent file whose name is taken in the sent folder.
use mink_lasso.Base.{ℕ, ◌≡◌, ◌≢◌, refl, true, false, List, [], ◌∷◌, ◌++◌, none, some, arith}
use mink_lasso.Base.Maps.{lookup, insert, delete, bytes_eq}
use mink_lasso.Base.Decimal.{decimal}
use mink_lasso.Masso.Words.{Bytes}
use mink_lasso.Engine.Queue.{new_item}
use mink_lasso.Engine.Archive.{
  Stored, World, Platform, Source, Retry, archive_path, archive_sent, unique_backup_name, filed,
  stat, rename, renamed, move_file, back_up, move_into_sent, file_if_same, archive_from, candidate,
  path_ext,
}
use mink_lasso.Engine.Archive.Moves.{Moves}
use mink_lasso.Engine.Archive.Outcome.{Filed, archive_sent-Moves}
use mink_lasso.Engine.Archive.Backup.{unique_backup_name-ends}

abbrev flat : List Bytes → Bytes
flat [] = []
flat (s ∷ ss) = s ++ b'/' ∷ flat ss

abbrev platform : Platform
platform = record {
  fails = λ i. false;
  join = flat;
  separator = b'/';
  stamp = b'9' ∷ [];
  move_retries = 2;
}

abbrev source : Source
source = record { root = []; dir = []; base = b'a' ∷ []; path = b'a' ∷ []; size = 3; mod_time = 7 }

abbrev sent_file : Stored
sent_file = record { size = 3; mod_time = 7; content = [] }

abbrev older : Stored
older = record { size = 2; mod_time = 1; content = [] }

abbrev world : World
world = record {
  disk = (b'a' ∷ [], sent_file) ∷ (archive_path platform source, older) ∷ [];
  calls = 0;
}

abbrev tries : ℕ → Retry
tries i = record { waited = true; item = new_item (b'a' ∷ []) }

in_place : lookup (b'a' ∷ []) world.disk ≡ some sent_file
unfolding lookup bytes_eq
in_place = refl

elsewhere : source.path ≢ archive_path platform source
elsewhere e = cc

-- The file that was there is kept under another name.
gets_filed : (archive_sent platform 5 source tries world).0 ≡ filed
unfolding archive_sent archive_from file_if_same move_into_sent back_up move_file rename renamed
    stat unique_backup_name candidate path_ext decimal lookup bytes_eq insert delete
gets_filed = refl

archive_sent-Moves_example :
    Moves world.disk (archive_sent platform 5 source tries world).1.disk
    × Filed sent_file source
        (archive_path platform source)
        (archive_sent platform 5 source tries world).0
        (archive_sent platform 5 source tries world).1.disk
archive_sent-Moves_example =
    archive_sent-Moves platform 5 source tries world sent_file in_place elsewhere

unique_backup_name-ends_example :
    (b : Bytes) × ((unique_backup_name platform 3 (b'a' ∷ []) 0 world).0 ≡ some b)
    × (lookup b world.disk ≡ none)
unique_backup_name-ends_example =
    unique_backup_name-ends platform 3 (b'a' ∷ []) world (λ i. refl) (omega arith)
