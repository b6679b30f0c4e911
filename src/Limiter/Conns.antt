-- ===== src/Limiter/Conns.antt =====
-- Connection counting of internal/server/limit.go.
use vtpm_mds.Prelude.{
  ℕ, ◌+◌, ◌-◌, ◌≡◌, refl, ap, ◌∙◌, arith, ltb, leb, if◌then◌else◌, Text, same, same_iff, Bool-cases,
  inl, inr,
}
use vtpm_mds.Dict
use vtpm_mds.Dict.{IsKeyed, put-IsKeyed, get-put}
use vtpm_mds.Limiter.{
  PeerBudget, GuestLimiter, ConnState, state_new, state_active, state_idle, state_hijacked,
  state_closed, budget, track_conn_state, conn_closed, trip, limit_kind_conn, max_conns_per_peer,
  has_conn,
}
use vtpm_mds.Limiter.Window.{Kind, times, trip-times, request, token, enroll}

-- The count that one event stores for its peer, and the set of connections beyond the cap after it.
unfoldable pub track_conns : GuestLimiter → ℕ → ℕ → ConnState → ℕ
track_conns l c n state_new = if leb max_conns_per_peer n then n else n + 1
track_conns l c n state_active = n
track_conns l c n state_idle = n
track_conns l c n state_hijacked = if has_conn c l.over_cap then n else n - 1
track_conns l c n state_closed = if has_conn c l.over_cap then n else n - 1

-- The budget that an event stores.
abbrev recount : ℕ → PeerBudget → PeerBudget
recount n b = record b { conns = n }

times-recount : (k : Kind) (n : ℕ) (b : PeerBudget) → times k (recount n b) ≡ times k b
times-recount request n b = refl
times-recount token n b = refl
times-recount enroll n b = refl

-- What an event stores: one budget, with the times of the old one and the new count.
Stores : GuestLimiter → Text → ℕ → GuestLimiter → Type 0
Stores l p n after =
    (b : PeerBudget) × (after.peers ≡ Dict.put p b l.peers)
    × ((k : Kind) → times k b ≡ times k (budget l p))
    × (b.conns ≡ n)

module _ (l : GuestLimiter) (c : ℕ) (p : Text) where
  conn_closed-Stores :
      Stores l p
        (if has_conn c l.over_cap then (budget l p).conns else (budget l p).conns - 1)
        (conn_closed l c p)
  unfolding conn_closed Stores
  conn_closed-Stores = elim (Bool-cases (has_conn c l.over_cap)) [
    | inl beyond ↦ (budget l p, rw beyond, (λ k. refl), rw beyond)
    | inr counted ↦ elim (Bool-cases (ltb 0 (budget l p).conns)) [
      | inl some_left ↦ (
        recount ((budget l p).conns - 1) (budget l p),
        rw (counted, some_left),
        (λ k. times-recount k _ (budget l p)),
        rw counted,
      )
      | inr nothing_left ↦ (
        budget l p,
        rw (counted, nothing_left),
        (λ k. refl),
        rw counted (ground (arith, nothing_left)),
      )
    ]
  ]

  track-Stores :
      (clock : ℕ) (state : ConnState)
      → Stores l p (track_conns l c (budget l p).conns state) (track_conn_state l c p state clock).0
  unfolding track_conn_state track_conns Stores
  track-Stores clock state_new = elim (Bool-cases (leb max_conns_per_peer (budget l p).conns)) [
    | inl full ↦ (
      trip (budget l p) limit_kind_conn clock,
      rw full,
      (λ k. (trip-times k (budget l p) limit_kind_conn clock).0),
      rw full (trip-times request (budget l p) limit_kind_conn clock).1,
    )
    | inr room ↦ (
      recount ((budget l p).conns + 1) (budget l p),
      rw room,
      (λ k. times-recount k _ (budget l p)),
      rw room,
    )
  ]
  track-Stores clock state_active = (budget l p, refl, (λ k. refl), refl)
  track-Stores clock state_idle = (budget l p, refl, (λ k. refl), refl)
  track-Stores clock state_hijacked = conn_closed-Stores
  track-Stores clock state_closed = conn_closed-Stores

module _ (l : GuestLimiter) (c : ℕ) (p : Text) (state : ConnState) (clock : ℕ) where
  pub track-IsKeyed : IsKeyed l.peers → IsKeyed (track_conn_state l c p state clock).0.peers
  unfolding Stores
  track-IsKeyed h =
      let (b, stored, _, _) = track-Stores l c p clock state in
      rw stored (put-IsKeyed p b l.peers h)

  pub times-track :
      (k : Kind) (q : Text)
      → times k (budget (track_conn_state l c p state clock).0 q) ≡ times k (budget l q)
  unfolding Stores
  times-track k q =
      let (b, stored, kept, _) = track-Stores l c p clock state in
      rw (stored, get-put p q b l.peers)
        (elim (Bool-cases (same p q)) [
          | inl own ↦
              rw own (kept k ∙ ap (λ (r : Text). times k (budget l r)) ((same_iff p q).0 own))
          | inr other ↦ rw other
        ])

  -- An event recounts its own peer only.
  pub conns-track :
      (q : Text)
      → (budget (track_conn_state l c p state clock).0 q).conns
        ≡ (if same p q then track_conns l c (budget l p).conns state else (budget l q).conns)
  unfolding Stores
  conns-track q =
      let (b, stored, _, count) = track-Stores l c p clock state in
      rw (stored, get-put p q b l.peers)
        (elim (Bool-cases (same p q)) [ inl own ↦ rw own count | inr other ↦ rw other ])
