-- ===== src/Devid/Enroll/Sound.antt =====
-- The certificates of internal/devid over any sequence of requests to its two handlers.
use vtpm_mds.Prelude.{ℕ, Option, arith, Text}
use vtpm_mds.Dict
use vtpm_mds.Dict.{IsKeyed}
use vtpm_mds.Devid.Sessions.{new_session_store}
use vtpm_mds.Devid.Files.{Dir}
use vtpm_mds.Devid.Verify.{SigningRequest, Tpm}
use vtpm_mds.Devid.Enroll.{Caller, Enroller, EnrollState, World}
use vtpm_mds.Devid.Enroll.Http.{StartRequest, FinishRequest, handle_start, handle_finish}
use vtpm_mds.Devid.Enroll.History.{IsSound, handle_start-IsSound, handle_finish-IsSound}

module _ {Cert Key : Type 0} (tpm : Tpm Cert Key) (e : Enroller) where
  -- The states after any requests, in any order, whatever the clock and the file system answer.
  pub data EnrollReach : EnrollState Cert Key → Type 0 where
    initial :
        (ttl : ℕ) (dir : Dir)
        → EnrollReach
            (record { store = new_session_store (SigningRequest Cert Key) ttl; pin_dir = dir })
    starting :
        {s : EnrollState Cert Key} (w : World) (caller : Option Caller) (header : Text)
        (body : Option StartRequest)
        → EnrollReach s
        → EnrollReach (handle_start tpm e s w caller header body).0
    finishing :
        {s : EnrollState Cert Key} (w : World) (caller : Option Caller) (header : Text)
        (body : Option FinishRequest)
        → EnrollReach s
        → EnrollReach (handle_finish tpm e s w caller header body).0

  pub EnrollReach-IsSound : (s : EnrollState Cert Key) → EnrollReach s → IsSound tpm e s.store
  unfolding Dict.get
  EnrollReach-IsSound _ (initial ttl dir) = (tt, λ id sess found. absurd (ground (arith, found)))
  EnrollReach-IsSound _ (starting {s = s} w caller header body r) =
      handle_start-IsSound tpm e s w caller header body (EnrollReach-IsSound s r)
  EnrollReach-IsSound _ (finishing {s = s} w caller header body r) =
      handle_finish-IsSound tpm e s w caller header body (EnrollReach-IsSound s r)
