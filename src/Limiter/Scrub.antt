-- ===== src/Limiter/Scrub.antt =====
-- scrubIdlePeers of internal/server/limit.go: the entries that go and those that stay.
use vtpm_mds.Prelude.{
  ℕ, ◌≡◌, refl, false, Option, none, some, List, [], ◌∷◌, length, arith, ltb, value_or, Text,
  same_iff, Option-cases, inl, inr,
}
use vtpm_mds.Dict
use vtpm_mds.Dict.{Dict, IsKeyed}
use vtpm_mds.Limiter.{
  PeerBudget, GuestLimiter, new_budget, budget, prune, scrub_budget, scrub_peers, scrub_idle_peers,
}
use vtpm_mds.Limiter.Window.{Kind, request, token, enroll, times}

abbrev scrubbed : ℕ → Option PeerBudget → Option PeerBudget
scrubbed now none = none
scrubbed now (some b) = scrub_budget b now

get-scrub :
    (q : Text) (peers : Dict PeerBudget) (now : ℕ)
    → IsKeyed peers
    → Dict.get q (scrub_peers peers now) ≡ scrubbed now (Dict.get q peers)
unfolding Dict.get scrub_peers
get-scrub q [] now h = refl
get-scrub q ((k, b) ∷ peers) now h = elim (Option-cases (scrub_budget b now)) [
  | inr (c, e) ↦ rw e (ground (arith, get-scrub q peers now h.1, e))
  | inl e ↦ rw e (ground (arith, get-scrub q peers now h.1, e, h.0, same_iff k q))
]

no_times : (ts : List ℕ) → ltb 0 (length ts) ≡ false → ts ≡ []
no_times [] h = refl
no_times (t ∷ ts) h = ground (arith, h)

-- What the scrub keeps of a budget, or what a new one has in its place.
scrub_budget-times :
    (k : Kind) (b : PeerBudget) (now : ℕ)
    → (times k (value_or new_budget (scrub_budget b now)) ≡ prune (times k b) now)
      × ((value_or new_budget (scrub_budget b now)).conns ≡ b.conns)
unfolding scrub_budget
scrub_budget-times request b now = ground (arith, no_times (prune b.requests now))
scrub_budget-times token b now = ground (arith, no_times (prune b.tokens now))
scrub_budget-times enroll b now = ground (arith, no_times (prune b.enrolls now))

-- For every peer and kind the scrub leaves exactly the times of the window, and the connections.
pub times-scrub :
    (k : Kind) (l : GuestLimiter) (q : Text) (now : ℕ)
    → IsKeyed l.peers
    → (times k (budget (scrub_idle_peers l now) q) ≡ prune (times k (budget l q)) now)
      × ((budget (scrub_idle_peers l now) q).conns ≡ (budget l q).conns)
unfolding scrub_idle_peers prune
times-scrub k l q now h = rw (get-scrub q l.peers now h) (elim (Option-cases (Dict.get q l.peers)) [
  | inl e ↦ rw e (nothing k)
  | inr (b, e) ↦ rw e (scrub_budget-times k b now)
])
  where
    nothing :
        (k : Kind)
        → (times k new_budget ≡ prune (times k new_budget) now)
          × (new_budget.conns ≡ new_budget.conns)
    nothing request = (refl, refl)
    nothing token = (refl, refl)
    nothing enroll = (refl, refl)

scrub_peers-IsKeyed :
    (peers : Dict PeerBudget) (now : ℕ) → IsKeyed peers → IsKeyed (scrub_peers peers now)
unfolding scrub_peers
scrub_peers-IsKeyed [] now h = tt
scrub_peers-IsKeyed ((k, b) ∷ peers) now h = elim (Option-cases (scrub_budget b now)) [
  | inl e ↦ rw e (scrub_peers-IsKeyed peers now h.1)
  | inr (c, e) ↦ rw e (rw (get-scrub k peers now h.1, h.0) refl, scrub_peers-IsKeyed peers now h.1)
]

pub scrub-IsKeyed :
    (l : GuestLimiter) (now : ℕ) → IsKeyed l.peers → IsKeyed (scrub_idle_peers l now).peers
unfolding scrub_idle_peers
scrub-IsKeyed l now h = scrub_peers-IsKeyed l.peers now h
