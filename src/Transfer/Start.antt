-- ===== src/Transfer/Start.antt =====
-- A start request that the controller of internal/masso/sim accepts makes room for the file.
use mink_lasso.Base.{
  ◌<◌, ◌≡◌, refl, true, false, not, ◌&&◌, ◌||◌, ◌∷◌, arith, Bool-cases, inl, inr, length, ◌==◌,
}
use mink_lasso.Base.Maps.{bytes_eq, member}
use mink_lasso.Masso.Words.{Bytes}
use mink_lasso.Masso.Reply.{start_ok, start_already_started}
use mink_lasso.Sim.State.{Controller, begin_upload}
use mink_lasso.Sim.Handlers.{start_upload}
use mink_lasso.Transfer.Server.{Receiving}

begin_upload-Receiving :
    (content name : Bytes) (c : Controller)
    → 0 < length content
    → c.chunk_result < 256
    → Receiving content name (begin_upload name (length content) c)
unfolding begin_upload
begin_upload-Receiving content name c more byte = record {
  not_canceled = refl;
  result_byte = byte;
  named = refl;
  sized = refl;
  count = omega arith;
  partial = λ up. (omega arith, refl);
  complete = λ down. cc;
}

-- A start request that the controller accepts makes room for the file.
pub start_upload-Receiving :
    (content name : Bytes) (c : Controller)
    → 0 < length content
    → c.chunk_result < 256
    → (start_upload c name (length content)).1 ≡ start_ok
    → Receiving content name (start_upload c name (length content)).0
unfolding start_upload
start_upload-Receiving content name c more byte e =
    elim (Bool-cases (c.start_result == start_already_started)) [
      | inl already ↦ absurd (ground (arith, e))
      | inr not_yet ↦ elim (Bool-cases (not (c.start_result == start_ok))) [
        | inl refused ↦ absurd (ground (arith, e))
        | inr allowed ↦
            elim (Bool-cases
              (member name c.stuck || (c.uploading && bytes_eq name c.upload_name))) [
                | inl active ↦ absurd (ground (arith, e))
                | inr idle ↦ elim (Bool-cases c.uploading) [
                  | inl displaced ↦
                      rw (not_yet, allowed, idle, displaced, start_upload)
                        (begin_upload-Receiving content name
                          (record c { uploading = true; stuck = c.upload_name ∷ c.stuck }) more
                          byte)
                  | inr free ↦
                      rw (not_yet, allowed, idle, free, start_upload)
                        (begin_upload-Receiving content name (record c { uploading = false }) more
                          byte)
                ]
              ]
      ]
    ]
