-- ===== src/Tokens/History.antt =====
-- Every history of the token store of imds/token.go: mints, sweeps and counts in any order.
use vtpm_mds.Prelude.{
  ℕ, ◌≤◌, refl, false, Option, arith, ltb, Text, Bool-cases, inl, inr, length-keep-le, not,
}
use vtpm_mds.Dict
use vtpm_mds.Dict.{get-empty, total}
use vtpm_mds.Tokens.{
  TokenStore, Caps, new_token_store, peer_tokens, prune_peer_expired, generate_token_at,
  discard_expired, cleanup_tick, live_token_count, live_token_count_for_peer, expired,
}
use vtpm_mds.Tokens.Invariant.{IsValid, with_brake-IsValid}
use vtpm_mds.Tokens.Mint.{prune-IsValid, peer_tokens-prune, prune_live-le}
use vtpm_mds.Tokens.Generate.{
  HasQuota, IsFresh, generate_token_at-IsValid, generate_token_at-HasQuota,
}
use vtpm_mds.Tokens.Sweep.{discard_expired-IsValid, discard_expired-HasQuota}

-- One call under the lock.
pub data Step (caps : Caps) (ts : TokenStore) : TokenStore → Type 0 where
  mint :
      (peer : Text) (now : ℕ) (random : Option Text)
      → IsFresh ts random
      → Step caps ts (generate_token_at caps ts peer now random).0
  tick : (now : ℕ) → Step caps ts (cleanup_tick caps ts now)
  count : (now : ℕ) → Step caps ts (live_token_count ts now).0
  count_peer : (peer : Text) (now : ℕ) → Step caps ts (live_token_count_for_peer ts peer now).0

pub data Reach (caps : Caps) (start : TokenStore) : TokenStore → Type 0 where
  here : Reach caps start start
  next : {ts ts' : TokenStore} → Reach caps start ts → Step caps ts ts' → Reach caps start ts'

-- Consistent, and within its quotas.
abbrev pub IsSound : Caps → TokenStore → Type 0
IsSound caps ts = IsValid ts × HasQuota caps ts

tick-IsSound :
    (caps : Caps) (ts : TokenStore) (now : ℕ)
    → IsSound caps ts
    → IsSound caps (cleanup_tick caps ts now)
unfolding cleanup_tick
tick-IsSound caps ts now (v, q) =
    let valid = discard_expired-IsValid now ts v in
    let quota = discard_expired-HasQuota now ts caps v q in
    elim (Bool-cases (ltb (discard_expired ts now).live_count caps.emergency)) [
      | inl below ↦ rw below (
        with_brake-IsValid false (discard_expired ts now) valid,
        record { per_peer = quota.per_peer; capped = quota.capped },
      )
      | inr full ↦ rw full (valid, quota)
    ]

prune-HasQuota :
    (caps : Caps) (ts : TokenStore) (p : Text) (now : ℕ)
    → HasQuota caps ts
    → HasQuota caps (prune_peer_expired ts p now)
prune-HasQuota caps ts p now h = record {
  per_peer = λ q. rw (peer_tokens-prune ts p now q) (
      ground (
        arith,
        h.per_peer p,
        h.per_peer q,
        length-keep-le {0} (λ t. not (expired now t)) (peer_tokens ts p),
      ));
  capped = omega (arith, prune_live-le ts p now, h.capped);
}

Step-IsSound :
    (caps : Caps)
    → 1 ≤ caps.per_peer
    → {ts ts' : TokenStore} → Step caps ts ts'
    → IsSound caps ts
    → IsSound caps ts'
unfolding live_token_count live_token_count_for_peer
Step-IsSound caps pos {ts} (mint peer now random fresh) (v, q) = (
  generate_token_at-IsValid caps ts peer now random v fresh,
  generate_token_at-HasQuota caps ts peer now random pos q,
)
Step-IsSound caps pos {ts} (tick now) s = tick-IsSound caps ts now s
Step-IsSound caps pos {ts} (count now) (v, q) =
    (discard_expired-IsValid now ts v, discard_expired-HasQuota now ts caps v q)
Step-IsSound caps pos {ts} (count_peer peer now) (v, q) =
    (prune-IsValid ts peer now v, prune-HasQuota caps ts peer now q)

empty-IsSound : (caps : Caps) (ttl : ℕ) → IsSound caps (new_token_store ttl)
unfolding Dict.get
empty-IsSound caps ttl = (
  record {
    keyed = tt;
    counted = refl;
    distinct = λ p. tt;
    listed = λ p. tt;
    indexed = λ v t e. cc;
  },
  record { per_peer = λ q. omega arith; capped = omega arith },
)

-- Where the cap for each peer is at least 1, after any sequence of mints with new random values,
-- cleanup ticks and counts from an empty store, the token map, the lists of the peers and the live
-- count agree, no peer holds more tokens than its cap, and the live count is at most the emergency
-- cap.
pub Reach-IsSound :
    (caps : Caps) (ttl : ℕ) {ts : TokenStore}
    → 1 ≤ caps.per_peer
    → Reach caps (new_token_store ttl) ts
    → IsSound caps ts
Reach-IsSound caps ttl pos here = empty-IsSound caps ttl
Reach-IsSound caps ttl pos (next r s) = Step-IsSound caps pos s (Reach-IsSound caps ttl pos r)
