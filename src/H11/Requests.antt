-- ===== src/H11/Requests.antt =====
-- protocol/h11.py: the request of a new stream, for any property that its texts have no part in.
use hypercorn.Prelude.{Option, String}
use hypercorn.Prelude.Bytes.{Bytes}
use hypercorn.Exec.{◌>>=◌, lift, or_raise, unicode_error}
use hypercorn.Exec.Leads.{Keeps, then-Keeps, or_raise-Keeps}
use hypercorn.Streams.{Streams}
use hypercorn.H11.Package.{H11, Request}
use hypercorn.H11.Upgrade.{upper_method}
use hypercorn.H11.Protocol.{H11Protocol, Run}
use hypercorn.H11.Reading.{give_decoded, give_request}

module _ {C T : Type 0} (h : H11 C) (streams : Streams T) (decode : Bytes → Option String)
    (P : H11Protocol C T → Type 0) (r : Request)
    (given : (version method : String)
      → Keeps P (give_decoded h streams decode r version method)) where
  pub give_request-Keeps : Keeps P (give_request h streams decode r)
  give_request-Keeps =
      let decoded : String → Bytes → Run C T = λ version method_bytes.
        or_raise unicode_error (decode method_bytes) >>= give_decoded h streams decode r version in
      then-Keeps P (or_raise unicode_error (decode r.http_version))
        (λ version. lift (upper_method r.method) >>= decoded version)
        (or_raise-Keeps P unicode_error (decode r.http_version))
        (λ version.
          then-Keeps P (lift (upper_method r.method)) (decoded version) (λ t l. l)
            (λ method_bytes.
              then-Keeps P (or_raise unicode_error (decode method_bytes))
                (give_decoded h streams decode r version)
                (or_raise-Keeps P unicode_error (decode method_bytes)) (given version)))
