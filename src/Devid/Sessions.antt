-- ===== src/Devid/Sessions.antt =====
-- The enrolment sessions, internal/devid/session.go. The identifier is the text of 16 random bytes,
-- an argument here, `none` where the random source fails. A signing request is of any type `R`.
pub mod Once
use vtpm_mds.Prelude.{
  ℕ, ◌+◌, ◌*◌, ◌^◌, Bool, true, false, not, Option, none, some, List, [], ltb, ◌==◌, if◌then◌else◌,
  Text,
}
use vtpm_mds.Dict
use vtpm_mds.Dict.{Dict, keep_values}

pub record Session (R : Type 0) : Type 0 where
  pub id : Text
  pub nonce : List ℕ
  pub request : R
  pub vmid : Text
  pub ek_fingerprint : Text
  pub created : ℕ

pub record SessionStore (R : Type 0) : Type 0 where
  pub sessions : Dict (Session R)
  pub ttl : ℕ

-- NewSessionStore: a lifetime of 0 stands for five minutes.
abbrev pub new_session_store : (R : Type 0) → ℕ → SessionStore R
new_session_store R ttl = record { sessions = []; ttl = if ttl == 0 then 5 * 60 * 10 ^ 9 else ttl }

module _ {R : Type 0} where
  -- now.Sub(sess.Created) <= ttl
  unfoldable pub is_live : ℕ → ℕ → Session R → Bool
  is_live ttl now sess = not (ltb (sess.created + ttl) now)

  -- purgeLocked
  unfoldable pub purge : SessionStore R → ℕ → SessionStore R
  unfolding keep_values
  purge s now = record s { sessions = keep_values (is_live s.ttl now) s.sessions }

  abbrev pub new_session : Text → List ℕ → R → Text → Text → ℕ → Session R
  new_session id nonce sr vmid fp now = record {
    id = id;
    nonce = nonce;
    request = sr;
    vmid = vmid;
    ek_fingerprint = fp;
    created = now;
  }

  -- Put
  unfoldable pub put_session :
      SessionStore R → Option Text → List ℕ → R → Text → Text → ℕ → SessionStore R × Option Text
  put_session s none nonce sr vmid fp now = (s, none)
  put_session s (some id) nonce sr vmid fp now =
      let purged = purge s now in
      (
        record purged {
          sessions = Dict.put id (new_session id nonce sr vmid fp now) purged.sessions;
        },
        some id,
      )

  -- Take
  unfoldable pub take_session : SessionStore R → Text → ℕ → SessionStore R × Option (Session R)
  take_session s id now =
      let purged = purge s now in
      elim (Dict.get id purged.sessions) [
        | none ↦ (purged, none)
        | some sess ↦ (record purged { sessions = Dict.remove id purged.sessions }, some sess)
      ]
