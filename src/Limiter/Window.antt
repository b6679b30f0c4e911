-- ===== src/Limiter/Window.antt =====
-- The three rate budgets of internal/server/limit.go, seen through their kind: what one call, one
-- scrub and one connection event do to the recorded times.
use vtpm_mds.Prelude.{
  ℕ, ◌≡◌, refl, ap, ◌∙◌, Bool, true, false, ◌&&◌, List, [], ◌∷◌, ◌++◌, length, arith, ltb, leb,
  if◌then◌else◌, Text, same, same_iff, Bool-cases, inl, inr,
}
use vtpm_mds.Dict.{get-put, IsKeyed, put-IsKeyed}
use vtpm_mds.Limiter.{
  PeerBudget, GuestLimiter, max_token_puts_per_peer, max_requests_per_peer, max_enroll_per_peer,
  budget, with_budget, prune, trip, allow_request, allow_token, allow_enroll, limit_kind_request,
  limit_kind_token, limit_kind_enroll,
}

pub data Kind : Type 0 where
  request token enroll : Kind

-- The times that a budget keeps, the call that spends one, and how many the window admits.
abbrev pub times : Kind → PeerBudget → List ℕ
times request b = b.requests
times token b = b.tokens
times enroll b = b.enrolls

abbrev pub allow : Kind → GuestLimiter → Text → ℕ → ℕ → GuestLimiter × Bool
allow request = allow_request
allow token = allow_token
allow enroll = allow_enroll

abbrev pub cap : Kind → ℕ
cap request = max_requests_per_peer
cap token = max_token_puts_per_peer
cap enroll = max_enroll_per_peer

abbrev pub same_kind : Kind → Kind → Bool
same_kind request request = true
same_kind token token = true
same_kind enroll enroll = true
same_kind _ _ = false

pub budget-with_budget :
    (l : GuestLimiter) (p q : Text) (b : PeerBudget)
    → budget (with_budget l p b) q ≡ (if same p q then b else budget l q)
budget-with_budget l p q b = ground (arith, get-put p q b l.peers)

-- Logging a refusal changes no budget.
pub trip-times :
    (k : Kind) (b : PeerBudget) (kind : Text) (clock : ℕ)
    → (times k (trip b kind clock) ≡ times k b) × ((trip b kind clock).conns ≡ b.conns)
unfolding trip
trip-times request b kind clock = ground arith
trip-times token b kind clock = ground arith
trip-times enroll b kind clock = ground arith

-- A call is allowed exactly if its budget holds fewer than `cap` times of the window.
pub allow_iff :
    (k : Kind) (l : GuestLimiter) (p : Text) (now clock : ℕ)
    → (allow k l p now clock).1 ≡ ltb (length (prune (times k (budget l p)) now)) (cap k)
unfolding allow_request allow_token allow_enroll
allow_iff request l p now clock = ground arith
allow_iff token l p now clock = ground arith
allow_iff enroll l p now clock = ground arith

abbrev set_times : Kind → List ℕ → PeerBudget → PeerBudget
set_times request ts b = record b { requests = ts }
set_times token ts b = record b { tokens = ts }
set_times enroll ts b = record b { enrolls = ts }

abbrev kind_text : Kind → Text
kind_text request = limit_kind_request
kind_text token = limit_kind_token
kind_text enroll = limit_kind_enroll

-- The budget that a call stores.
spend : Kind → PeerBudget → ℕ → ℕ → PeerBudget
spend k b now clock =
    if leb (cap k) (length (prune (times k b) now))
    then trip (set_times k (prune (times k b) now) b) (kind_text k) clock
    else set_times k (prune (times k b) now ++ now ∷ []) b

allow_stores :
    (k : Kind) (l : GuestLimiter) (p : Text) (now clock : ℕ)
    → (allow k l p now clock).0 ≡ with_budget l p (spend k (budget l p) now clock)
unfolding allow_request allow_token allow_enroll spend
allow_stores request l p now clock = ground arith
allow_stores token l p now clock = ground arith
allow_stores enroll l p now clock = ground arith

-- What a call leaves of a list of times: those of the window, and behind them its own if allowed.
abbrev pub spent : Kind → List ℕ → ℕ → List ℕ
spent k ts now =
    if ltb (length (prune ts now)) (cap k) then prune ts now ++ now ∷ [] else prune ts now

times-spend :
    (k j : Kind) (b : PeerBudget) (now clock : ℕ)
    → times j (spend k b now clock) ≡ (if same_kind k j then spent k (times k b) now else times j b)
unfolding spend
times-spend k j b now clock = elim (Bool-cases (leb (cap k) (length (prune (times k b) now)))) [
  | inl full ↦ rw full (
      (trip-times j (set_times k (prune (times k b) now) b) (kind_text k) clock).0
      ∙ kept k j (ground (arith, full)))
  | inr room ↦ rw room (added k j (ground (arith, room)))
]
  where
    kept :
        (k j : Kind)
        → ltb (length (prune (times k b) now)) (cap k) ≡ false
        → times j (set_times k (prune (times k b) now) b)
          ≡ (if same_kind k j then spent k (times k b) now else times j b)
    kept request request e = ground (arith, e)
    kept token token e = ground (arith, e)
    kept enroll enroll e = ground (arith, e)
    kept request token e = refl
    kept request enroll e = refl
    kept token request e = refl
    kept token enroll e = refl
    kept enroll request e = refl
    kept enroll token e = refl

    added :
        (k j : Kind)
        → ltb (length (prune (times k b) now)) (cap k) ≡ true
        → times j (set_times k (prune (times k b) now ++ now ∷ []) b)
          ≡ (if same_kind k j then spent k (times k b) now else times j b)
    added request request e = ground (arith, e)
    added token token e = ground (arith, e)
    added enroll enroll e = ground (arith, e)
    added request token e = refl
    added request enroll e = refl
    added token request e = refl
    added token enroll e = refl
    added enroll request e = refl
    added enroll token e = refl

-- A call touches the times of its own kind and peer.
pub times-allow :
    (k j : Kind) (l : GuestLimiter) (p q : Text) (now clock : ℕ)
    → times j (budget (allow k l p now clock).0 q) ≡ (
        if same_kind k j && same p q
        then spent k (times k (budget l p)) now
        else times j (budget l q))
times-allow k j l p q now clock =
    rw (allow_stores k l p now clock, budget-with_budget l p q (spend k (budget l p) now clock))
      (ground (
        arith,
        times-spend k j (budget l p) now clock,
        same_iff p q,
        ap (λ r. times j (budget l r)) {x = p} {y = q},
      ))

spend_conns : (k : Kind) (b : PeerBudget) (now clock : ℕ) → (spend k b now clock).conns ≡ b.conns
unfolding spend trip
spend_conns request b now clock = ground arith
spend_conns token b now clock = ground arith
spend_conns enroll b now clock = ground arith

-- It never touches the connection counts, nor the set of connections beyond the cap.
pub conns-allow :
    (k : Kind) (l : GuestLimiter) (p q : Text) (now clock : ℕ)
    → ((budget (allow k l p now clock).0 q).conns ≡ (budget l q).conns)
      × ((allow k l p now clock).0.over_cap ≡ l.over_cap)
conns-allow k l p q now clock =
    rw (allow_stores k l p now clock, budget-with_budget l p q (spend k (budget l p) now clock))
      (
        ground (
          arith,
          spend_conns k (budget l p) now clock,
          same_iff p q,
          ap (λ r. (budget l r).conns) {x = p} {y = q},
        ),
        refl,
      )

pub allow-IsKeyed :
    (k : Kind) (l : GuestLimiter) (p : Text) (now clock : ℕ)
    → IsKeyed l.peers
    → IsKeyed (allow k l p now clock).0.peers
allow-IsKeyed k l p now clock h =
    rw (allow_stores k l p now clock) (put-IsKeyed p (spend k (budget l p) now clock) l.peers h)
