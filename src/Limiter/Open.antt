-- ===== src/Limiter/Open.antt =====
-- Concurrent connections under internal/server/limit.go, when net/http reports each connection once
-- as new and at most once as closed or hijacked, under one peer.
use vtpm_mds.Prelude.{
  ℕ, suc, ◌-◌, ◌≤◌, ◌≡◌, ◌≢◌, refl, ap, ◌∙◌, Bool, true, false, not, List, [], ◌∷◌, keep, arith,
  leb, ◌==◌, if◌then◌else◌, Text, same, same_iff, same_refl, Bool-cases, inl, inr, All, All-at,
  All-keep, In,
}
use vtpm_mds.Dict
use vtpm_mds.Dict.{IsKeyed}
use vtpm_mds.Limiter.{
  GuestLimiter, state_new, state_active, state_idle, state_hijacked, state_closed,
  new_guest_limiter, budget, scrub_idle_peers, track_conn_state, conn_closed, max_conns_per_peer,
  has_conn, without_conn,
}
use vtpm_mds.Limiter.Window.{Kind, allow, conns-allow, allow-IsKeyed}
use vtpm_mds.Limiter.Scrub.{times-scrub, scrub-IsKeyed}
use vtpm_mds.Limiter.Conns.{track_conns, track-IsKeyed, conns-track}
use vtpm_mds.Limiter.Window

-- The limiter, and the open connections that were let in, with their peers.
pub record Run : Type 0 where
  pub limiter : GuestLimiter
  pub open_conns : List (ℕ × Text)

abbrev pub start : Run
start = record { limiter = new_guest_limiter; open_conns = [] }

abbrev pub count : Text → List (ℕ × Text) → ℕ
count q [] = 0
count q ((c, p) ∷ cs) = if same p q then suc (count q cs) else count q cs

abbrev pub IsUnknown : ℕ → List (ℕ × Text) → Type 0
IsUnknown c = All (λ e. e.0 ≢ c)

abbrev pub without : ℕ → List (ℕ × Text) → List (ℕ × Text)
without c = keep (λ e. not (e.0 == c))

abbrev pub let_in : Bool → ℕ → Text → List (ℕ × Text) → List (ℕ × Text)
let_in true c p cs = cs
let_in false c p cs = (c, p) ∷ cs

pub data Step (s : Run) : Run → Type 0 where
  arrive :
      (c : ℕ) (p : Text) (clock : ℕ)
      → IsUnknown c s.open_conns
      → has_conn c s.limiter.over_cap ≡ false
      → Step s (record {
        limiter = (track_conn_state s.limiter c p state_new clock).0;
        open_conns = let_in (track_conn_state s.limiter c p state_new clock).1 c p s.open_conns;
      })
  leave :
      (c : ℕ) (p : Text) (clock : ℕ)
      → In (c, p) s.open_conns
      → Step s (record {
        limiter = (track_conn_state s.limiter c p state_closed clock).0;
        open_conns = without c s.open_conns;
      })
  hijack :
      (c : ℕ) (p : Text) (clock : ℕ)
      → In (c, p) s.open_conns
      → Step s (record {
        limiter = (track_conn_state s.limiter c p state_hijacked clock).0;
        open_conns = without c s.open_conns;
      })
  -- The server has closed a connection beyond the cap.
  refused :
      (c : ℕ) (p : Text) (clock : ℕ)
      → has_conn c s.limiter.over_cap ≡ true
      → Step s (record s { limiter = (track_conn_state s.limiter c p state_closed clock).0 })
  active :
      (c : ℕ) (p : Text) (clock : ℕ)
      → Step s (record s { limiter = (track_conn_state s.limiter c p state_active clock).0 })
  idle :
      (c : ℕ) (p : Text) (clock : ℕ)
      → Step s (record s { limiter = (track_conn_state s.limiter c p state_idle clock).0 })
  call :
      (k : Kind) (p : Text) (now clock : ℕ)
      → Step s (record s { limiter = (allow k s.limiter p now clock).0 })
  scrub : (now : ℕ) → Step s (record s { limiter = scrub_idle_peers s.limiter now })

pub data Reach : Run → Type 0 where
  here : Reach start
  next : {s t : Run} → Reach s → Step s t → Reach t

abbrev IsDistinct : List (ℕ × Text) → Type 0
IsDistinct [] = Unit
IsDistinct (e ∷ cs) = IsUnknown e.0 cs × IsDistinct cs

pub record Counts (s : Run) : Type 0 where
  pub keyed : IsKeyed s.limiter.peers
  pub exact : (q : Text) → (budget s.limiter q).conns ≡ count q s.open_conns
  pub capped : (q : Text) → count q s.open_conns ≤ max_conns_per_peer
  pub distinct : IsDistinct s.open_conns
  pub apart : All (λ e. has_conn e.0 s.limiter.over_cap ≡ false) s.open_conns

without_unknown : (c : ℕ) (cs : List (ℕ × Text)) → IsUnknown c cs → without c cs ≡ cs
without_unknown c [] u = refl
without_unknown c (e ∷ cs) u = ground (arith, without_unknown c cs u.1, u.0)

count-without :
    (c : ℕ) (p q : Text) (cs : List (ℕ × Text))
    → IsDistinct cs
    → In (c, p) cs
    → count q cs ≡ (if same p q then suc (count q (without c cs)) else count q (without c cs))
count-without c p q [] d m = absurd m
count-without c p q ((c', p') ∷ cs) d (inl e) =
    let ids : c ≡ c' = ap (λ x. x.0) e in
    let peers : p ≡ p' = ap (λ x. x.1) e in ground (arith, ids, peers, without_unknown c' cs d.0)
count-without c p q ((c', p') ∷ cs) d (inr m) =
    ground (arith, count-without c p q cs d.1 m, All-at (λ e. e.0 ≢ c') cs d.0 (c, p) m)

without-IsDistinct : (c : ℕ) (cs : List (ℕ × Text)) → IsDistinct cs → IsDistinct (without c cs)
without-IsDistinct c [] d = tt
without-IsDistinct c (e ∷ cs) d = elim (Bool-cases (e.0 == c)) [
  | inl own ↦ rw own (without-IsDistinct c cs d.1)
  | inr other ↦
      rw other (All-keep (λ x. x.0 ≢ e.0) (λ x. not (x.0 == c)) cs d.0, without-IsDistinct c cs d.1)
]

abbrev Apart : List ℕ → List (ℕ × Text) → Type 0
Apart over = All (λ e. has_conn e.0 over ≡ false)

-- A connection beyond the cap that no open one shares its number with.
Apart-cons :
    (c : ℕ) (over : List ℕ) (cs : List (ℕ × Text))
    → IsUnknown c cs
    → Apart over cs
    → Apart (c ∷ over) cs
Apart-cons c over [] u h = tt
Apart-cons c over (e ∷ cs) u h = (ground (arith, u.0, h.0), Apart-cons c over cs u.1 h.1)

has_conn-without :
    (c d : ℕ) (over : List ℕ) → has_conn d over ≡ false → has_conn d (without_conn c over) ≡ false
has_conn-without c d [] h = refl
has_conn-without c d (x ∷ over) h = ground (arith, has_conn-without c d over)

Apart-without :
    (c : ℕ) (over : List ℕ) (cs : List (ℕ × Text)) → Apart over cs → Apart (without_conn c over) cs
Apart-without c over [] h = tt
Apart-without c over (e ∷ cs) h = (has_conn-without c e.0 over h.0, Apart-without c over cs h.1)

over_cap-arrive :
    (l : GuestLimiter) (c : ℕ) (p : Text) (clock : ℕ)
    → (track_conn_state l c p state_new clock).0.over_cap
      ≡ (if leb max_conns_per_peer (budget l p).conns then c ∷ l.over_cap else l.over_cap)
unfolding track_conn_state
over_cap-arrive l c p clock = ground arith

over_cap-closed :
    (l : GuestLimiter) (c : ℕ) (p : Text)
    → (conn_closed l c p).over_cap
      ≡ (if has_conn c l.over_cap then without_conn c l.over_cap else l.over_cap)
unfolding conn_closed
over_cap-closed l c p = ground arith

module _ (s : Run) (a : Counts s) where
  -- An arrival is refused exactly when the peer has as many connections open as the cap.
  arrival_lem :
      (c : ℕ) (p : Text) (clock : ℕ)
      → (track_conn_state s.limiter c p state_new clock).1
        ≡ leb max_conns_per_peer (count p s.open_conns)
  unfolding track_conn_state
  arrival_lem c p clock = rw (← a.exact p) (ground arith)

  module _ (c : ℕ) (p : Text) (clock : ℕ) (unknown : IsUnknown c s.open_conns)
      (fresh : has_conn c s.limiter.over_cap ≡ false) where
    arrived : Run
    arrived = record {
      limiter = (track_conn_state s.limiter c p state_new clock).0;
      open_conns = let_in (track_conn_state s.limiter c p state_new clock).1 c p s.open_conns;
    }

    -- Whether it is let in or not, an arrival keeps the counts exact.
    arrive-exact : (q : Text) → (budget arrived.limiter q).conns ≡ count q arrived.open_conns
    unfolding arrived track_conns
    arrive-exact q =
        rw (conns-track s.limiter c p state_new clock q, arrival_lem c p clock)
          (ground (
            arith,
            a.exact p,
            a.exact q,
            same_iff p q,
            ap (λ r. count r s.open_conns) {x = p} {y = q},
          ))

    arrive-capped : (q : Text) → count q arrived.open_conns ≤ max_conns_per_peer
    unfolding arrived
    arrive-capped q =
        rw (arrival_lem c p clock)
          (ground (arith, a.capped q, same_iff p q, ap (λ r. count r s.open_conns) {x = p} {y = q}))

    arrive-Counts : Counts arrived
    unfolding arrived
    arrive-Counts = record {
      keyed = track-IsKeyed s.limiter c p state_new clock a.keyed;
      exact = arrive-exact;
      capped = arrive-capped;
      distinct =
          rw (arrival_lem c p clock)
            (elim (Bool-cases (leb max_conns_per_peer (count p s.open_conns))) [
              | inl full ↦ rw full a.distinct
              | inr room ↦ rw room (unknown, a.distinct)
            ]);
      apart =
          rw (arrival_lem c p clock, over_cap-arrive s.limiter c p clock, a.exact p)
            (elim (Bool-cases (leb max_conns_per_peer (count p s.open_conns))) [
              | inl full ↦ rw full (Apart-cons c s.limiter.over_cap s.open_conns unknown a.apart)
              | inr room ↦ rw room (fresh, a.apart)
            ]);
    }

  closed_conns :
      (c : ℕ) (p q : Text)
      → (budget (conn_closed s.limiter c p) q).conns ≡ (
          if same p q
          then if has_conn c s.limiter.over_cap
            then (budget s.limiter p).conns
            else (budget s.limiter p).conns - 1
          else (budget s.limiter q).conns)
  unfolding track_conn_state track_conns
  closed_conns c p q = conns-track s.limiter c p state_closed 0 q

  closed-IsKeyed : (c : ℕ) (p : Text) → IsKeyed (conn_closed s.limiter c p).peers
  unfolding track_conn_state
  closed-IsKeyed c p = track-IsKeyed s.limiter c p state_closed 0 a.keyed

  leave-Counts :
      (c : ℕ) (p : Text)
      → In (c, p) s.open_conns
      → Counts (record { limiter = conn_closed s.limiter c p; open_conns = without c s.open_conns })
  leave-Counts c p m =
      let counted : has_conn c s.limiter.over_cap ≡ false =
        All-at (λ e. has_conn e.0 s.limiter.over_cap ≡ false) s.open_conns a.apart (c, p) m in
      record {
        keyed = closed-IsKeyed c p;
        exact = λ q.
            rw (closed_conns c p q, counted)
              (ground (
                arith,
                a.exact p,
                a.exact q,
                count-without c p q s.open_conns a.distinct m,
                count-without c p p s.open_conns a.distinct m,
                same_refl p,
                same_iff p q,
                ap (λ r. count r (without c s.open_conns)) {x = p} {y = q},
              ));
        capped = λ q. ground (arith, a.capped q, count-without c p q s.open_conns a.distinct m);
        distinct = without-IsDistinct c s.open_conns a.distinct;
        apart =
            rw (over_cap-closed s.limiter c p, counted)
              (All-keep (λ e. has_conn e.0 s.limiter.over_cap ≡ false) _ s.open_conns a.apart);
      }

  refused-Counts :
      (c : ℕ) (p : Text)
      → has_conn c s.limiter.over_cap ≡ true
      → Counts (record s { limiter = conn_closed s.limiter c p })
  refused-Counts c p over = record {
    keyed = closed-IsKeyed c p;
    exact = λ q.
        rw (closed_conns c p q, over)
          (ground (
            arith,
            a.exact p,
            a.exact q,
            same_iff p q,
            ap (λ r. count r s.open_conns) {x = p} {y = q},
          ));
    capped = a.capped;
    distinct = a.distinct;
    apart =
        rw (over_cap-closed s.limiter c p, over)
          (Apart-without c s.limiter.over_cap s.open_conns a.apart);
  }

  -- What changes neither a count nor the set beyond the cap.
  unchanged-Counts :
      (l : GuestLimiter)
      → IsKeyed l.peers
      → ((q : Text) → (budget l q).conns ≡ (budget s.limiter q).conns)
      → l.over_cap ≡ s.limiter.over_cap
      → Counts (record s { limiter = l })
  unchanged-Counts l keyed conns over = record {
    keyed = keyed;
    exact = λ q. conns q ∙ a.exact q;
    capped = a.capped;
    distinct = a.distinct;
    apart = rw over a.apart;
  }

  -- An event that leaves its peer's count alone.
  same_count :
      (p q : Text)
      → (if same p q then (budget s.limiter p).conns else (budget s.limiter q).conns)
        ≡ (budget s.limiter q).conns
  same_count p q =
      ground
        (arith, a.exact p, a.exact q, same_iff p q, ap (λ r. count r s.open_conns) {x = p} {y = q})

  Step-Counts : {t : Run} → Step s t → Counts t
  unfolding track_conn_state track_conns scrub_idle_peers arrived
  Step-Counts (arrive c p clock unknown fresh) = arrive-Counts c p clock unknown fresh
  Step-Counts (leave c p clock m) = leave-Counts c p m
  Step-Counts (hijack c p clock m) = leave-Counts c p m
  Step-Counts (refused c p clock over) = refused-Counts c p over
  Step-Counts (active c p clock) =
      unchanged-Counts _ (track-IsKeyed s.limiter c p state_active clock a.keyed)
        (λ q. conns-track s.limiter c p state_active clock q ∙ same_count p q) refl
  Step-Counts (idle c p clock) =
      unchanged-Counts _ (track-IsKeyed s.limiter c p state_idle clock a.keyed)
        (λ q. conns-track s.limiter c p state_idle clock q ∙ same_count p q) refl
  Step-Counts (call k p now clock) =
      unchanged-Counts _ (allow-IsKeyed k s.limiter p now clock a.keyed)
        (λ q. (conns-allow k s.limiter p q now clock).0) (conns-allow k s.limiter p p now clock).1
  Step-Counts (scrub now) =
      unchanged-Counts _ (scrub-IsKeyed s.limiter now a.keyed)
        (λ q. (times-scrub Window.request s.limiter q now a.keyed).1) refl

start-Counts : Counts start
unfolding Dict.get
start-Counts = record {
  keyed = tt;
  exact = λ q. refl;
  capped = λ q. omega arith;
  distinct = tt;
  apart = tt;
}

Reach-Counts : {s : Run} → Reach s → Counts s
Reach-Counts here = start-Counts
Reach-Counts (next {s = s} r st) = Step-Counts s (Reach-Counts r) st

-- Where each connection is reported once as new and at most once as closed or hijacked, under one
-- peer, after any sequence of connection events, calls and scrubs each peer's count is the number
-- of its connections that were let in and are open, that number is at most the cap, and a new
-- connection is closed at once exactly when its peer has the cap of them open.
pub connections_counted :
    (s : Run) (c : ℕ) (p : Text) (clock : ℕ)
    → Reach s
    → ((budget s.limiter p).conns ≡ count p s.open_conns)
      × (count p s.open_conns ≤ max_conns_per_peer)
      × ((track_conn_state s.limiter c p state_new clock).1
          ≡ leb max_conns_per_peer (count p s.open_conns))
connections_counted s c p clock r =
    let a = Reach-Counts r in (a.exact p, a.capped p, arrival_lem s a c p clock)
