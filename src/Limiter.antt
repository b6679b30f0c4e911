-- ===== src/Limiter.antt =====
-- The guest throttle, internal/server/limit.go. Times are nanoseconds, a connection is a number, and
-- the peer of a connection or a request is given as the text of its IP address, `none` where the
-- address does not parse. `clock` is the reading of time.Now inside trip. Proofs in the modules below.
pub mod Window
pub mod Scrub
pub mod Admission
pub mod Conns
pub mod Open
pub mod Middleware
use vtpm_mds.Prelude.{
  ℕ, ◌+◌, ◌-◌, ◌*◌, ◌^◌, Bool, true, false, not, ◌&&◌, ◌||◌, Option, none, some, List, [], ◌∷◌,
  ◌++◌, length, keep, any, ltb, leb, ◌==◌, if◌then◌else◌, value_or, Text, codes, same, has_prefix,
}
use vtpm_mds.Dict
use vtpm_mds.Dict.{Dict}

abbrev pub limit_window : ℕ
limit_window = 60 * 10 ^ 9

abbrev pub max_token_puts_per_peer : ℕ
max_token_puts_per_peer = 30

abbrev pub max_requests_per_peer : ℕ
max_requests_per_peer = 120

abbrev pub max_conns_per_peer : ℕ
max_conns_per_peer = 16

abbrev pub max_enroll_per_peer : ℕ
max_enroll_per_peer = 6

-- The limit kinds are texts, the keys of `logged`.
abbrev pub limit_kind_request : Text
limit_kind_request = codes "request"

abbrev pub limit_kind_token : Text
limit_kind_token = codes "token"

abbrev pub limit_kind_enroll : Text
limit_kind_enroll = codes "enroll"

abbrev pub limit_kind_conn : Text
limit_kind_conn = codes "conn"

pub record PeerBudget : Type 0 where
  pub requests : List ℕ
  pub tokens : List ℕ
  pub enrolls : List ℕ
  pub conns : ℕ
  pub logged : Dict ℕ

-- `over_cap` is the set of the connections that were closed on arrival.
pub record GuestLimiter : Type 0 where
  pub peers : Dict PeerBudget
  pub over_cap : List ℕ

abbrev pub new_guest_limiter : GuestLimiter
new_guest_limiter = record { peers = []; over_cap = [] }

abbrev pub new_budget : PeerBudget
new_budget = record { requests = []; tokens = []; enrolls = []; conns = 0; logged = [] }

-- peer: a missing entry counts as an empty one, and every caller stores the entry.
abbrev pub budget : GuestLimiter → Text → PeerBudget
budget l key = value_or new_budget (Dict.get key l.peers)

abbrev pub with_budget : GuestLimiter → Text → PeerBudget → GuestLimiter
with_budget l key b = record l { peers = Dict.put key b l.peers }

abbrev pub peer_key : Option Text → Text
peer_key none = codes "unknown"
peer_key (some ip) = ip

-- t.After(now.Add(-limitWindow))
unfoldable pub in_window : ℕ → ℕ → Bool
in_window now t = ltb now (t + limit_window)

unfoldable pub prune : List ℕ → ℕ → List ℕ
prune times now = keep (in_window now) times

-- The entry is logged unless the last one of its kind is younger than the window.
unfoldable pub trip : PeerBudget → Text → ℕ → PeerBudget
trip b kind clock = elim (Dict.get kind b.logged) [
  | none ↦ record b { logged = Dict.put kind clock b.logged }
  | some last ↦
      if ltb clock (last + limit_window)
      then b
      else record b { logged = Dict.put kind clock b.logged }
]

unfoldable pub allow_request : GuestLimiter → Text → ℕ → ℕ → GuestLimiter × Bool
allow_request l peer now clock =
    let b = budget l peer in
    let times = prune b.requests now in
    if leb max_requests_per_peer (length times)
    then (with_budget l peer (trip (record b { requests = times }) limit_kind_request clock), false)
    else (with_budget l peer (record b { requests = times ++ now ∷ [] }), true)

unfoldable pub allow_token : GuestLimiter → Text → ℕ → ℕ → GuestLimiter × Bool
allow_token l peer now clock =
    let b = budget l peer in
    let times = prune b.tokens now in
    if leb max_token_puts_per_peer (length times)
    then (with_budget l peer (trip (record b { tokens = times }) limit_kind_token clock), false)
    else (with_budget l peer (record b { tokens = times ++ now ∷ [] }), true)

unfoldable pub allow_enroll : GuestLimiter → Text → ℕ → ℕ → GuestLimiter × Bool
allow_enroll l peer now clock =
    let b = budget l peer in
    let times = prune b.enrolls now in
    if leb max_enroll_per_peer (length times)
    then (with_budget l peer (trip (record b { enrolls = times }) limit_kind_enroll clock), false)
    else (with_budget l peer (record b { enrolls = times ++ now ∷ [] }), true)

-- scrubIdlePeers, one peer: what is kept of its budget, or `none` where the entry is deleted.
abbrev pruned_budget : PeerBudget → ℕ → PeerBudget
pruned_budget b now = record b {
  requests = prune b.requests now;
  tokens = prune b.tokens now;
  enrolls = prune b.enrolls now;
}

fresh_log : Dict ℕ → ℕ → Bool
unfolding in_window
fresh_log logged now = any (λ e. in_window now e.1) logged

unfoldable pub scrub_budget : PeerBudget → ℕ → Option PeerBudget
unfolding fresh_log prune
scrub_budget b now =
    let p = pruned_budget b now in
    if ltb 0 p.conns
    then some p
    else if ltb 0 (length p.requests) || ltb 0 (length p.tokens) || ltb 0 (length p.enrolls)
    then some p
    else if fresh_log p.logged now
    then some p
    else none

abbrev pub keep_entry : Text → Option PeerBudget → Dict PeerBudget → Dict PeerBudget
keep_entry key none rest = rest
keep_entry key (some b) rest = (key, b) ∷ rest

pub scrub_peers : Dict PeerBudget → ℕ → Dict PeerBudget
scrub_peers [] now = []
scrub_peers ((key, b) ∷ peers) now = keep_entry key (scrub_budget b now) (scrub_peers peers now)

unfoldable pub scrub_idle_peers : GuestLimiter → ℕ → GuestLimiter
unfolding scrub_peers
scrub_idle_peers l now = record l { peers = scrub_peers l.peers now }

-- http.ConnState
pub data ConnState : Type 0 where
  state_new state_active state_idle state_hijacked state_closed : ConnState

abbrev pub has_conn : ℕ → List ℕ → Bool
has_conn c = any (λ d. d == c)

abbrev pub without_conn : ℕ → List ℕ → List ℕ
without_conn c = keep (λ d. not (d == c))

unfoldable pub conn_closed : GuestLimiter → ℕ → Text → GuestLimiter
conn_closed l c peer =
    let b = budget l peer in
    if has_conn c l.over_cap
    then record l { peers = Dict.put peer b l.peers; over_cap = without_conn c l.over_cap }
    else with_budget l peer (if ltb 0 b.conns then record b { conns = b.conns - 1 } else b)

-- trackConnState, with whether the connection is closed because it is beyond the cap.
unfoldable pub track_conn_state : GuestLimiter → ℕ → Text → ConnState → ℕ → GuestLimiter × Bool
unfolding conn_closed
track_conn_state l c peer state_new clock =
    let b = budget l peer in
    if leb max_conns_per_peer b.conns
    then (
      record l {
        peers = Dict.put peer (trip b limit_kind_conn clock) l.peers;
        over_cap = c ∷ l.over_cap;
      },
      true,
    )
    else (with_budget l peer (record b { conns = b.conns + 1 }), false)
track_conn_state l c peer state_active clock = (with_budget l peer (budget l peer), false)
track_conn_state l c peer state_idle clock = (with_budget l peer (budget l peer), false)
track_conn_state l c peer state_hijacked clock = (conn_closed l c peer, false)
track_conn_state l c peer state_closed clock = (conn_closed l c peer, false)

unfoldable pub is_enroll_path : Text → Bool
is_enroll_path path = has_prefix (codes "/latest/devid/enroll/") path

-- The tests that guestLimitMiddleware makes after the request budget, in order.
token_stage : GuestLimiter → Text → Text → Text → ℕ → ℕ → GuestLimiter × Bool
token_stage l method path peer now clock =
    if same method (codes "PUT") && same path (codes "/latest/api/token")
    then allow_token l peer now clock
    else (l, true)

enroll_stage : GuestLimiter → Text → Text → Text → ℕ → ℕ → GuestLimiter × Bool
unfolding is_enroll_path
enroll_stage l method path peer now clock =
    if same method (codes "POST") && is_enroll_path path
    then allow_enroll l peer now clock
    else (l, true)

-- `a`, and then `f` on the state that it leaves, if it allowed.
abbrev pub and_then :
    GuestLimiter × Bool → (GuestLimiter → GuestLimiter × Bool) → GuestLimiter × Bool
and_then (l, false) f = (l, false)
and_then (l, true) f = f l

-- guestLimitMiddleware: true where the next handler runs, false for 429.
unfoldable pub guest_limit : GuestLimiter → Text → Text → Text → ℕ → ℕ → GuestLimiter × Bool
unfolding token_stage enroll_stage
guest_limit l method path peer now clock =
    if same method (codes "GET") && same path (codes "/health")
    then (l, true)
    else and_then (allow_request l peer now clock) (λ l1.
      and_then (token_stage l1 method path peer now clock)
        (λ l2. enroll_stage l2 method path peer now clock))
