-- ===== src/Client/Aborting.antt =====
-- When `Upload` of internal/masso/upload.go sends the abort notification.
use mink_lasso.Base.{ℕ, ◌≡◌, ◌≢◌, Option, some, ◌++◌, replicate}
use mink_lasso.Masso.Errors.{Error, Result, ok, err}
use mink_lasso.Masso.Words.{Bytes}
use mink_lasso.Masso.Request.{upload_start, upload_abort}
use mink_lasso.Client.State.{Client}
use mink_lasso.Client.Uploading.{pos, UploadCall, Uploaded, refuse, Opened}

-- How an upload of a file ends, by what it has sent: nothing; start requests only; start requests and
-- chunks; or these and three abort notifications.
pub data Ends (u : UploadCall) : Uploaded → Type 0 where
  refused : (e : Error) → Ends u (refuse e)
  unopened :
      (size n : ℕ) (pkt : Bytes) (o : Option (Result (Unit {0})))
      → u.size ≡ pos size
      → upload_start size u.dir u.name ≡ ok pkt
      → o ≢ some (ok tt)
      → Ends u (record { returned = o; packets = replicate n pkt })
  empty :
      (n : ℕ) (pkt : Bytes)
      → u.size ≡ pos 0
      → upload_start 0 u.dir u.name ≡ ok pkt
      → Opened u
      → Ends u (record { returned = some (ok tt); packets = replicate n pkt })
  sent :
      (size n : ℕ) (pkt : Bytes)
      → u.size ≡ pos size
      → upload_start size u.dir u.name ≡ ok pkt
      → Opened u
      → u.chunks ≡ ok tt
      → Ends u (record { returned = some (ok tt); packets = replicate n pkt ++ u.chunk_packets })
  aborted :
      (size n : ℕ) (pkt : Bytes) (e : Error)
      → u.size ≡ pos size
      → upload_start size u.dir u.name ≡ ok pkt
      → Opened u
      → u.chunks ≡ err e
      → Ends u (record {
        returned = some (err e);
        packets = (replicate n pkt ++ u.chunk_packets) ++ replicate 3 upload_abort;
      })
