-- ===== src/Devid/Sessions/Once.antt =====
-- What an identifier stands for after Put and Take of internal/devid/session.go.
use vtpm_mds.Prelude.{
  ℕ, ◌+◌, ◌≤◌, ◌≡◌, refl, sym, ap, Option, none, some, List, leb, if◌then◌else◌, Text, arith, same,
  same_iff, Bool-cases, Option-cases, inl, inr, ◌⊎◌, ◌∙◌,
}
use vtpm_mds.Dict
use vtpm_mds.Dict.{
  IsKeyed, keep_values, get-keep_values, keep_values-IsKeyed, put-IsKeyed, remove-IsKeyed, get-put,
  get-remove, passes,
}
use vtpm_mds.Devid.Sessions.{
  Session, SessionStore, is_live, purge, new_session, put_session, take_session,
}

module _ {R : Type 0} where
  -- The session that an identifier stands for at a time.
  abbrev pub live : SessionStore R → ℕ → Text → Option (Session R)
  live s now id = passes (is_live s.ttl now) (Dict.get id s.sessions)

  -- What is live later is live now.
  live_earlier :
      (s : SessionStore R) (now later : ℕ) (id : Text)
      → now ≤ later
      → live s now id ≡ none
      → live s later id ≡ none
  unfolding is_live
  live_earlier s now later id le e = elim (Option-cases (Dict.get id s.sessions)) [
    | inl absent ↦ rw absent
    | inr (sess, found) ↦ rw found (ground (arith, le, found, e))
  ]

  pub purge-live :
      (s : SessionStore R) (now : ℕ) (id : Text)
      → IsKeyed s.sessions
      → Dict.get id (purge s now).sessions ≡ live s now id
  unfolding purge
  purge-live s now id h = get-keep_values (is_live s.ttl now) id s.sessions h

  pub purge-IsKeyed :
      (s : SessionStore R) (now : ℕ) → IsKeyed s.sessions → IsKeyed (purge s now).sessions
  unfolding purge
  purge-IsKeyed s now h = keep_values-IsKeyed (is_live s.ttl now) s.sessions h

  -- Purging changes nothing that is seen from then on.
  live-purge :
      (s : SessionStore R) (now later : ℕ) (id : Text)
      → IsKeyed s.sessions
      → now ≤ later
      → passes (is_live s.ttl later) (Dict.get id (purge s now).sessions) ≡ live s later id
  live-purge s now later id h le = rw (purge-live s now id h) (elim (Option-cases (live s now id)) [
    | inl e ↦ rw (e, live_earlier s now later id le e)
    | inr (sess, e) ↦ rw e (twice sess e)
  ])
    where
      twice :
          (sess : Session R)
          → live s now id ≡ some sess
          → passes (is_live s.ttl later) (some sess) ≡ live s later id
      twice sess e = elim (Option-cases (Dict.get id s.sessions)) [
        | inl absent ↦ cc (ap (passes (is_live s.ttl now)) absent, e)
        | inr (other, found) ↦ rw found (ground (arith, found, e))
      ]

  ttl-purge : (s : SessionStore R) (now : ℕ) → (purge s now).ttl ≡ s.ttl
  unfolding purge
  ttl-purge s now = refl

  live_after_purge :
      (s : SessionStore R) (now later : ℕ) (id : Text)
      → IsKeyed s.sessions
      → now ≤ later
      → live (purge s now) later id ≡ live s later id
  live_after_purge s now later id h le = rw (ttl-purge s now) (live-purge s now later id h le)

  -- Where every identifier stands once, Take answers the session that is live under the identifier,
  -- and at any later time that identifier stands for no session and every other one for what it
  -- stood for.
  pub take_session_once :
      (s : SessionStore R) (id j : Text) (now later : ℕ)
      → IsKeyed s.sessions
      → now ≤ later
      → ((take_session s id now).1 ≡ live s now id)
        × (live (take_session s id now).0 later j ≡ (if same id j then none else live s later j))
  unfolding take_session
  take_session_once s id j now later h le =
      elim (Option-cases (Dict.get id (purge s now).sessions)) [
        | inl absent ↦
            let gone : live s now id ≡ none = sym (purge-live s now id h) ∙ absent in
            rw (absent, take_session)
              (
                sym gone,
                live_after_purge s now later j h le ∙ unknown (live_earlier s now later id le gone),
              )
        | inr (sess, found) ↦
            rw (found, take_session, ttl-purge s now, get-remove id j (purge s now).sessions)
              (
                sym (sym (purge-live s now id h) ∙ found),
                elim (Bool-cases (same id j)) [
                  | inl own ↦ rw own
                  | inr other ↦ rw other (live-purge s now later j h le)
                ],
              )
      ]
    where
      unknown :
          live s later id ≡ none → live s later j ≡ (if same id j then none else live s later j)
      unknown e = ground (arith, same_iff id j, ap (live s later) {x = id} {y = j})

  -- Where every identifier stands once, at any time from a Put on its identifier stands for the new
  -- session until the lifetime has passed and for none after it, and every other identifier for
  -- what it stood for.
  pub put_session_live :
      (s : SessionStore R) (id j : Text) (nonce : List ℕ) (sr : R) (vmid fp : Text) (now later : ℕ)
      → IsKeyed s.sessions
      → now ≤ later
      → live (put_session s (some id) nonce sr vmid fp now).0 later j ≡ (
          if same id j
          then if leb later (now + s.ttl) then some (new_session id nonce sr vmid fp now) else none
          else live s later j)
  unfolding put_session is_live
  put_session_live s id j nonce sr vmid fp now later h le =
      rw
        (get-put id j (new_session id nonce sr vmid fp now) (purge s now).sessions, ttl-purge s now)
        (elim (Bool-cases (same id j)) [
          | inl own ↦ rw own (fresh_live later)
          | inr other ↦ rw other (live-purge s now later j h le)
        ])
    where
      fresh_live :
          (later : ℕ)
          → passes (is_live s.ttl later) (some (new_session id nonce sr vmid fp now))
            ≡ (if leb later (now + s.ttl) then some (new_session id nonce sr vmid fp now) else none)
      fresh_live later = ground arith

  -- Both keep one session for each identifier.
  pub put_session-IsKeyed :
      (s : SessionStore R) (id : Option Text) (nonce : List ℕ) (sr : R) (vmid fp : Text) (now : ℕ)
      → IsKeyed s.sessions
      → IsKeyed (put_session s id nonce sr vmid fp now).0.sessions
  unfolding put_session
  put_session-IsKeyed s none nonce sr vmid fp now h = h
  put_session-IsKeyed s (some id) nonce sr vmid fp now h =
      put-IsKeyed id (new_session id nonce sr vmid fp now) (purge s now).sessions
        (purge-IsKeyed s now h)

  pub take_session-IsKeyed :
      (s : SessionStore R) (id : Text) (now : ℕ)
      → IsKeyed s.sessions
      → IsKeyed (take_session s id now).0.sessions
  unfolding take_session
  take_session-IsKeyed s id now h = elim (Option-cases (Dict.get id (purge s now).sessions)) [
    | inl absent ↦ rw (absent, take_session) (purge-IsKeyed s now h)
    | inr (sess, found) ↦
        rw (found, take_session) (remove-IsKeyed id (purge s now).sessions (purge-IsKeyed s now h))
  ]

  -- What they leave was there.
  kept_by_purge :
      (s : SessionStore R) (now : ℕ) (id : Text) (sess : Session R)
      → IsKeyed s.sessions
      → Dict.get id (purge s now).sessions ≡ some sess
      → Dict.get id s.sessions ≡ some sess
  kept_by_purge s now id sess h e = elim (Option-cases (Dict.get id s.sessions)) [
    | inl absent ↦ absurd (ground (arith, sym (purge-live s now id h) ∙ e, absent))
    | inr (other, found) ↦ ground (arith, sym (purge-live s now id h) ∙ e, found)
  ]

  pub kept_by_take :
      (s : SessionStore R) (now : ℕ) (id j : Text) (sess : Session R)
      → IsKeyed s.sessions
      → Dict.get j (take_session s id now).0.sessions ≡ some sess
      → Dict.get j s.sessions ≡ some sess
  unfolding take_session
  kept_by_take s now id j sess h e = elim (Option-cases (Dict.get id (purge s now).sessions)) [
    | inl absent ↦ kept_by_purge s now j sess h (rw (absent, take_session) at e)
    | inr (other, found) ↦
        kept_by_purge s now j sess h
          (ground (arith, get-remove id j (purge s now).sessions, rw (found, take_session) at e))
  ]

  pub kept_by_put :
      (s : SessionStore R) (id j : Text) (nonce : List ℕ) (sr : R) (vmid fp : Text) (now : ℕ)
      (sess : Session R)
      → IsKeyed s.sessions
      → Dict.get j (put_session s (some id) nonce sr vmid fp now).0.sessions ≡ some sess
      → (sess ≡ new_session id nonce sr vmid fp now) ⊎ (Dict.get j s.sessions ≡ some sess)
  unfolding put_session
  kept_by_put s id j nonce sr vmid fp now sess h e = elim (Bool-cases (same id j)) [
    | inl own ↦ inl (
        ground (
          arith,
          own,
          e,
          get-put id j (new_session id nonce sr vmid fp now) (purge s now).sessions,
        ))
    | inr other ↦ inr (
        kept_by_purge s now j sess h (
          ground (
            arith,
            other,
            e,
            get-put id j (new_session id nonce sr vmid fp now) (purge s now).sessions,
          )))
  ]

  pub live_is_there :
      (s : SessionStore R) (now : ℕ) (id : Text) (sess : Session R)
      → live s now id ≡ some sess
      → Dict.get id s.sessions ≡ some sess
  live_is_there s now id sess e = elim (Option-cases (Dict.get id s.sessions)) [
    | inl absent ↦ absurd (ground (arith, e, absent))
    | inr (other, found) ↦ ground (arith, e, found)
  ]
