-- ===== src/Core.antt =====
-- The errors that the crates share, crates/hc-core/src/error.rs.
use horizon_cast.Base.{◌≡◌, refl, ◌⊎◌, inl, inr, ◌++◌}
use horizon_cast.Base.Text.{Text, text}

-- `Error`; the source of `Other` is given as its text.
pub data Error : Type 0 where
  capture_error encode_error sink_error discovery_error permission_denied device_unreachable
        protocol_error unsupported other_error :
      Text → Error

-- The messages of the errors.
unfoldable pub display : Error → Text
display (capture_error e) = text "capture error: " ++ e
display (encode_error e) = text "encode error: " ++ e
display (sink_error e) = text "sink error: " ++ e
display (discovery_error e) = text "discovery error: " ++ e
display (permission_denied e) = text "permission denied: " ++ e
display (device_unreachable e) = text "device unreachable: " ++ e
display (protocol_error e) = text "protocol error: " ++ e
display (unsupported e) = text "not supported: " ++ e
display (other_error e) = e

pub data Result (A : Type 0) : Type 0 where
  ok : A → Result A
  err : Error → Result A

pub Result-cases :
    {A : Type 0} (r : Result A) → ((a : A) × (r ≡ ok a)) ⊎ ((e : Error) × (r ≡ err e))
Result-cases (ok a) = inl (a, refl)
Result-cases (err e) = inr (e, refl)
