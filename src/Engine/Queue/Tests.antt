-- ===== src/Engine/Queue/Tests.antt =====
-- A file that is sent by hand while the watcher reports it.
use mink_lasso.Base.{◌≡◌, true, [], ◌∷◌}
use mink_lasso.Engine.Queue.{File, Queue, new_item, place, item_locked, send_file, ready}
use mink_lasso.Engine.Queue.Manual.{ready-send_file}

abbrev part : File
part = record { path = b'x' ∷ []; size = 100; mod_time = 7 }

abbrev empty : Queue
empty = record { rows = []; heap = λ a. new_item []; fresh = 0 }

ready-send_file_example :
    let a = (item_locked [] [] (b'x' ∷ []) empty).1 in
    let sent = (send_file [] [] (b'x' ∷ []) part 5 empty).0 in
    let seen = ready [] [] (b'x' ∷ []) part 6 sent in
    (seen.1 ≡ [])
    × (seen.0.heap a ≡ place [] [] (b'x' ∷ []) (sent.heap a))
    × ((seen.0.heap a).manual ≡ true)
ready-send_file_example = ready-send_file [] [] (b'x' ∷ []) part 5 6 empty
