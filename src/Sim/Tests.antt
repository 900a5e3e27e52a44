-- ===== src/Sim/Tests.antt =====
-- A transfer that a start for another file displaces.
use mink_lasso.Base.{◌≡◌, refl, true, [], ◌∷◌, some}
use mink_lasso.Base.Maps.{bytes_eq, member}
use mink_lasso.Masso.Words.{Bytes}
use mink_lasso.Masso.Reply.{start_ok, start_already_started}
use mink_lasso.Masso.Frame.{parse}
use mink_lasso.Masso.Request.{decode_request}
use mink_lasso.Sim.State.{Addr, Controller, new, begin_upload, reset_upload}
use mink_lasso.Sim.Handlers.{start_upload, handle_packet}
use mink_lasso.Sim.Stuck.{receive_all, displaced-refused}

abbrev first : Bytes
first = b'a' ∷ []

abbrev second : Bytes
second = b'b' ∷ []

abbrev src : Addr
src = record { ip = some 1; port = 65535 }

abbrev busy : Controller
busy = begin_upload first 9 (new 12345 [] [])

open_transfer : busy.uploading ≡ true
unfolding begin_upload
open_transfer = refl

displaced : (start_upload busy second 9).1 ≡ start_ok
unfolding start_upload begin_upload reset_upload new member bytes_eq
displaced = refl

abbrev after : Controller
after = receive_all (start_upload busy second 9).0 (([], src) ∷ [])

unforced : after.start_result ≡ start_ok
unfolding receive_all handle_packet decode_request parse start_upload begin_upload reset_upload new
    member bytes_eq
unforced = refl

displaced-refused_example : start_upload after busy.upload_name 9 ≡ (after, start_already_started)
displaced-refused_example =
    displaced-refused busy second 9 9 (([], src) ∷ []) open_transfer displaced unforced
