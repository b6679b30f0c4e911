-- ===== src/Limiter/Admission.antt =====
-- The guest throttle of internal/server/limit.go against an ideal sliding window: any sequence of
-- calls, scrubs and connection events, at times that do not fall.
use vtpm_mds.Prelude.{
  ℕ, ◌≤◌, ◌≡◌, refl, Bool, true, ◌&&◌, List, [], ◌∷◌, ◌++◌, length, arith, ltb, if◌then◌else◌, Text,
  same, same_iff, Bool-cases, inl, inr, keep-append, length-append, &&_elim, length-keep-le, tests,
}
use vtpm_mds.Dict
use vtpm_mds.Dict.{IsKeyed, put-IsKeyed, get-put}
use vtpm_mds.Limiter.{
  GuestLimiter, ConnState, new_guest_limiter, new_budget, budget, in_window, prune,
  scrub_idle_peers, track_conn_state,
}
use vtpm_mds.Limiter.Window.{
  Kind, request, token, enroll, times, allow, cap, same_kind, spent, allow_iff, times-allow,
  allow-IsKeyed,
}
use vtpm_mds.Limiter.Scrub.{times-scrub, scrub-IsKeyed}
use vtpm_mds.Limiter.Conns.{times-track, track-IsKeyed}

-- The limiter, the times at which each peer was admitted so far, oldest first, and the last time.
pub record Run : Type 0 where
  pub limiter : GuestLimiter
  pub admitted : Kind → Text → List ℕ
  pub at : ℕ

abbrev pub start : Run
start = record { limiter = new_guest_limiter; admitted = λ k p. []; at = 0 }

-- The admissions after a call that was or was not allowed.
abbrev pub admit : (Kind → Text → List ℕ) → Kind → Text → ℕ → Bool → Kind → Text → List ℕ
admit h k p now yes_or_no j q =
    if yes_or_no && (same_kind k j && same p q) then h j q ++ now ∷ [] else h j q

pub data Step (s : Run) : Run → Type 0 where
  call :
      (k : Kind) (p : Text) (now clock : ℕ)
      → s.at ≤ now
      → Step s (record {
        limiter = (allow k s.limiter p now clock).0;
        admitted = admit s.admitted k p now (allow k s.limiter p now clock).1;
        at = now;
      })
  scrub :
      (now : ℕ)
      → s.at ≤ now
      → Step s (record s { limiter = scrub_idle_peers s.limiter now; at = now })
  conn :
      (c : ℕ) (p : Text) (state : ConnState) (clock : ℕ)
      → Step s (record s { limiter = (track_conn_state s.limiter c p state clock).0 })

pub data Reach : Run → Type 0 where
  here : Reach start
  next : {s t : Run} → Reach s → Step s t → Reach t

in_window_mono : (t now later : ℕ) → now ≤ later → in_window later t ≡ true → in_window now t ≡ true
unfolding in_window
in_window_mono t now later h e = ground (arith, e)

-- Pruning early and then late is pruning late.
prune-prune :
    (ts : List ℕ) (now later : ℕ) → now ≤ later → prune (prune ts now) later ≡ prune ts later
unfolding prune
prune-prune [] now later h = refl
prune-prune (t ∷ ts) now later h =
    ground (arith, prune-prune ts now later h, in_window_mono t now later h)

length-prune-le : (ts : List ℕ) (now : ℕ) → length (prune ts now) ≤ length ts
unfolding prune
length-prune-le ts now = length-keep-le (in_window now) ts

prune-append : (ts us : List ℕ) (now : ℕ) → prune (ts ++ us) now ≡ prune ts now ++ prune us now
unfolding prune
prune-append ts us now = keep-append (in_window now) ts us

-- From the last time on, the budgets and the history agree inside the window, and no window holds
-- more admissions than its cap.
pub record Agrees (s : Run) : Type 0 where
  pub keyed : IsKeyed s.limiter.peers
  pub windows :
      (k : Kind) (p : Text) (now : ℕ)
      → s.at ≤ now
      → prune (times k (budget s.limiter p)) now ≡ prune (s.admitted k p) now
  pub capped :
      (k : Kind) (p : Text) (now : ℕ) → s.at ≤ now → length (prune (s.admitted k p) now) ≤ cap k

-- The ideal window: a new admission, if fewer than `cap` stand in it.
abbrev pub ideal : Kind → List ℕ → ℕ → List ℕ
ideal k hs now = if ltb (length (prune hs now)) (cap k) then hs ++ now ∷ [] else hs

prune_single : (now later : ℕ) → length (prune (now ∷ []) later) ≤ 1
unfolding prune
prune_single now later = ground arith

ideal_window :
    (k : Kind) (ts hs : List ℕ) (now later : ℕ)
    → now ≤ later
    → prune ts now ≡ prune hs now
    → prune ts later ≡ prune hs later
    → prune (spent k ts now) later ≡ prune (ideal k hs now) later
ideal_window k ts hs now later le e e' =
    rw e (elim (Bool-cases (ltb (length (prune hs now)) (cap k))) [
      | inl room ↦ rw (
        room,
        prune-append (prune hs now) (now ∷ []) later,
        prune-append hs (now ∷ []) later,
        prune-prune hs now later le,
      )
      | inr full ↦ rw (full, prune-prune hs now later le)
    ])

ideal_capped :
    (k : Kind) (hs : List ℕ) (now later : ℕ)
    → now ≤ later
    → length (prune hs now) ≤ cap k
    → length (prune (ideal k hs now) later) ≤ cap k
ideal_capped k hs now later le h =
    let fewer : length (prune hs later) ≤ length (prune hs now) =
      rw (← prune-prune hs now later le) (length-prune-le (prune hs now) later) in
    elim (Bool-cases (ltb (length (prune hs now)) (cap k))) [
      | inl room ↦
          rw
            (
              room,
              prune-append hs (now ∷ []) later,
              length-append (prune hs later) (prune (now ∷ []) later),
            )
            (omega (tests, fewer, prune_single now later, room))
      | inr full ↦ rw full (omega (arith, fewer, h))
    ]

same_kind_eq : (k j : Kind) → same_kind k j ≡ true → k ≡ j
same_kind_eq k j h = ground (arith, h)

start-Agrees : Agrees start
unfolding prune Dict.get
start-Agrees = record {
  keyed = tt;
  windows = λ k p now h. no_times k now;
  capped = λ k p now h. omega arith;
}
  where
    no_times : (k : Kind) (now : ℕ) → prune (times k new_budget) now ≡ []
    no_times request now = refl
    no_times token now = refl
    no_times enroll now = refl

module _ (s : Run) (a : Agrees s) where
  -- An ideal window decides every call.
  decided :
      (k : Kind) (p : Text) (now clock : ℕ)
      → s.at ≤ now
      → (allow k s.limiter p now clock).1 ≡ ltb (length (prune (s.admitted k p) now)) (cap k)
  decided k p now clock h = rw (allow_iff k s.limiter p now clock, a.windows k p now h)

  module _ (k : Kind) (p : Text) (now clock : ℕ) (h : s.at ≤ now) where
    -- What the call adds to the history is what an ideal window adds.
    admitted_lem :
        (j : Kind) (q : Text)
        → admit s.admitted k p now (allow k s.limiter p now clock).1 j q
          ≡ (if same_kind k j && same p q then ideal k (s.admitted k p) now else s.admitted j q)
    admitted_lem j q = rw (decided k p now clock h) (elim (Bool-cases (same_kind k j && same p q)) [
      | inr other ↦ rw other (ground arith)
      | inl own ↦
          let (kinds, peers) = &&_elim (same_kind k j) (same p q) own in
          rw own (ground (arith, same_kind_eq k j kinds, (same_iff p q).0 peers))
    ])

    call-Agrees : Agrees (record {
      limiter = (allow k s.limiter p now clock).0;
      admitted = admit s.admitted k p now (allow k s.limiter p now clock).1;
      at = now;
    })
    call-Agrees = record {
      keyed = allow-IsKeyed k s.limiter p now clock a.keyed;
      windows = λ j q later le.
          rw (times-allow k j s.limiter p q now clock, admitted_lem j q)
            (elim (Bool-cases (same_kind k j && same p q)) [
              | inl own ↦ rw own (
                  ideal_window k _ _ now later le (a.windows k p now h)
                    (a.windows k p later (omega (arith, h, le))))
              | inr other ↦ rw other (a.windows j q later (omega (arith, h, le)))
            ]);
      capped = λ j q later le.
          rw (admitted_lem j q) (elim (Bool-cases (same_kind k j && same p q)) [
            | inl own ↦
                rw (own, ← same_kind_eq k j (&&_elim (same_kind k j) (same p q) own).0)
                  (ideal_capped k _ now later le (a.capped k p now h))
            | inr other ↦ rw other (a.capped j q later (omega (arith, h, le)))
          ]);
    }

  scrub-Agrees :
      (now : ℕ)
      → s.at ≤ now
      → Agrees (record s { limiter = scrub_idle_peers s.limiter now; at = now })
  scrub-Agrees now h = record {
    keyed = scrub-IsKeyed s.limiter now a.keyed;
    windows = λ k p later le.
        rw
          (
            (times-scrub k s.limiter p now a.keyed).0,
            prune-prune (times k (budget s.limiter p)) now later le,
          )
          (a.windows k p later (omega (arith, h, le)));
    capped = λ k p later le. a.capped k p later (omega (arith, h, le));
  }

  conn-Agrees :
      (c : ℕ) (p : Text) (state : ConnState) (clock : ℕ)
      → Agrees (record s { limiter = (track_conn_state s.limiter c p state clock).0 })
  conn-Agrees c p state clock = record {
    keyed = track-IsKeyed s.limiter c p state clock a.keyed;
    windows = λ k q now h. rw (times-track s.limiter c p state clock k q) (a.windows k q now h);
    capped = a.capped;
  }

Reach-Agrees : {s : Run} → Reach s → Agrees s
Reach-Agrees here = start-Agrees
Reach-Agrees (next {s = s} r (call k p now clock h)) =
    call-Agrees s (Reach-Agrees r) k p now clock h
Reach-Agrees (next {s = s} r (scrub now h)) = scrub-Agrees s (Reach-Agrees r) now h
Reach-Agrees (next {s = s} r (conn c p state clock)) =
    conn-Agrees s (Reach-Agrees r) c p state clock

-- After any sequence of calls, scrubs and connection events at times that do not fall, a call of a
-- kind by a peer is allowed exactly when fewer calls of that kind by that peer than the kind's cap
-- were admitted within the window before it, and no window of the peer holds more admissions than
-- the cap.
pub sliding_window :
    (s : Run) (k : Kind) (p : Text) (now clock : ℕ)
    → Reach s
    → s.at ≤ now
    → ((allow k s.limiter p now clock).1 ≡ ltb (length (prune (s.admitted k p) now)) (cap k))
      × (length (prune (s.admitted k p) now) ≤ cap k)
sliding_window s k p now clock r h =
    (decided s (Reach-Agrees r) k p now clock h, (Reach-Agrees r).capped k p now h)
