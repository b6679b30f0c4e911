-- ===== src/Limiter/Middleware.antt =====
-- guestLimitMiddleware of internal/server/limit.go: which requests reach the next handler.
use vtpm_mds.Prelude.{
  ℕ, ◌≡◌, ◌≢◌, refl, Bool, true, false, ◌&&◌, ◌||◌, length, arith, ltb, if◌then◌else◌, Text, codes,
  same, Bool-cases, inl, inr, same_ne,
}
use vtpm_mds.Limiter.{
  GuestLimiter, budget, prune, guest_limit, token_stage, enroll_stage, is_enroll_path, and_then,
}
use vtpm_mds.Limiter.Window.{
  Kind, request, token, enroll, times, allow, cap, same_kind, allow_iff, times-allow,
}

-- Whether a budget has room at a time.
abbrev pub has_room : Kind → GuestLimiter → Text → ℕ → Bool
has_room k l p now = ltb (length (prune (times k (budget l p)) now)) (cap k)

abbrev pub is_health : Text → Text → Bool
is_health method path = same method (codes "GET") && same path (codes "/health")

abbrev pub is_token_put : Text → Text → Bool
is_token_put method path = same method (codes "PUT") && same path (codes "/latest/api/token")

abbrev pub is_enroll_post : Text → Text → Bool
is_enroll_post method path = same method (codes "POST") && is_enroll_path path

-- A call leaves the room of the other kinds as it was.
room_elsewhere :
    (k j : Kind) (l : GuestLimiter) (p : Text) (now clock : ℕ)
    → same_kind k j ≡ false
    → has_room j (allow k l p now clock).0 p now ≡ has_room j l p now
room_elsewhere k j l p now clock h = rw (times-allow k j l p p now clock, h)

&&_regroup : (a b c : Bool) → (a && (b && c)) ≡ ((a && b) && c)
&&_regroup true b c = refl
&&_regroup false b c = refl

and_then-allowed :
    (r : GuestLimiter × Bool) (f : GuestLimiter → GuestLimiter × Bool)
    → (and_then r f).1 ≡ (r.1 && (f r.0).1)
and_then-allowed (l, true) f = refl
and_then-allowed (l, false) f = refl

-- What both parts leave alone, the chain leaves alone.
and_then_cases {ℓ} :
    (P : GuestLimiter → Type ℓ) (r : GuestLimiter × Bool) (f : GuestLimiter → GuestLimiter × Bool)
    → P r.0
    → ((l : GuestLimiter) → P l → P (f l).0)
    → P (and_then r f).0
and_then_cases P (l, true) f h step = step l h
and_then_cases P (l, false) f h step = h

module _ (method path p : Text) (now clock : ℕ) where
  token_stage_room :
      (l : GuestLimiter)
      → (token_stage l method path p now clock).1
        ≡ (if is_token_put method path then has_room token l p now else true)
  unfolding token_stage
  token_stage_room l = elim (Bool-cases (is_token_put method path)) [
    | inl e ↦ rw e (allow_iff token l p now clock)
    | inr e ↦ rw e
  ]

  enroll_stage_room :
      (l : GuestLimiter)
      → (enroll_stage l method path p now clock).1
        ≡ (if is_enroll_post method path then has_room enroll l p now else true)
  unfolding enroll_stage
  enroll_stage_room l = elim (Bool-cases (is_enroll_post method path)) [
    | inl e ↦ rw e (allow_iff enroll l p now clock)
    | inr e ↦ rw e
  ]

  enroll_after_token :
      (l : GuestLimiter)
      → has_room enroll (token_stage l method path p now clock).0 p now ≡ has_room enroll l p now
  unfolding token_stage
  enroll_after_token l = elim (Bool-cases (is_token_put method path)) [
    | inl e ↦ rw e (room_elsewhere token enroll l p now clock refl)
    | inr e ↦ rw e
  ]

  -- A request reaches the next handler exactly if it is the health check, or if there is room in
  -- the peer's request budget, and in its token budget where it asks for a token, and in its
  -- enrolment budget where it enrols.
  pub guest_limit_iff :
      (l : GuestLimiter)
      → (guest_limit l method path p now clock).1 ≡ (
          is_health method path
          || (has_room request l p now
              && (if is_token_put method path then has_room token l p now else true)
              && (if is_enroll_post method path then has_room enroll l p now else true)))
  unfolding guest_limit
  guest_limit_iff l = elim (Bool-cases (is_health method path)) [
    | inl e ↦ rw e
    | inr e ↦
        rw
          (
            e,
            and_then-allowed (allow request l p now clock) (λ l1.
                and_then (token_stage l1 method path p now clock)
                  (λ l2. enroll_stage l2 method path p now clock)),
            and_then-allowed (token_stage (allow request l p now clock).0 method path p now clock)
                (λ l2. enroll_stage l2 method path p now clock),
            allow_iff request l p now clock,
            token_stage_room (allow request l p now clock).0,
            enroll_stage_room
                (token_stage (allow request l p now clock).0 method path p now clock).0,
            enroll_after_token (allow request l p now clock).0,
            room_elsewhere request token l p now clock refl,
            room_elsewhere request enroll l p now clock refl,
          )
          (&&_regroup (has_room request l p now)
            (if is_token_put method path then has_room token l p now else true)
            (if is_enroll_post method path then has_room enroll l p now else true))
  ]

  -- A request of one peer leaves the times of every kind in the budget of any other peer as they
  -- were.
  pub guest_limit_isolated :
      (l : GuestLimiter) (k : Kind) (q : Text)
      → p ≢ q
      → times k (budget (guest_limit l method path p now clock).0 q) ≡ times k (budget l q)
  unfolding guest_limit
  guest_limit_isolated l k q ne = elim (Bool-cases (is_health method path)) [
    | inl e ↦ rw e
    | inr e ↦ rw e (
        and_then_cases Kept (allow request l p now clock) _ (allow_keeps request l refl) (λ l1 h1.
          and_then_cases Kept (token_stage l1 method path p now clock) _ (token_keeps l1 h1)
            enroll_keeps))
  ]
    where
      Kept : GuestLimiter → Type 0
      Kept m = times k (budget m q) ≡ times k (budget l q)

      allow_keeps : (j : Kind) (m : GuestLimiter) → Kept m → Kept (allow j m p now clock).0
      allow_keeps j m h = rw (times-allow j k m p q now clock, same_ne p q ne) (ground (arith, h))

      token_keeps : (m : GuestLimiter) → Kept m → Kept (token_stage m method path p now clock).0
      token_keeps m h = elim (Bool-cases (is_token_put method path)) [
        | inl e ↦ rw (e, token_stage) (allow_keeps token m h)
        | inr e ↦ rw (e, token_stage) h
      ]

      enroll_keeps : (m : GuestLimiter) → Kept m → Kept (enroll_stage m method path p now clock).0
      enroll_keeps m h = elim (Bool-cases (is_enroll_post method path)) [
        | inl e ↦ rw (e, enroll_stage) (allow_keeps enroll m h)
        | inr e ↦ rw (e, enroll_stage) h
      ]
