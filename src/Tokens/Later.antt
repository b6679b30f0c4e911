-- ===== src/Tokens/Later.antt =====
-- A token of imds/token.go after the mints of other peers and the sweeps that follow its own mint.
use vtpm_mds.Prelude.{
  ℕ, ◌+◌, ◌≡◌, ◌≢◌, ◌≤◌, ◌<◌, ◌⊎◌, ◌∙◌, refl, sym, ap, inl, inr, false, Option, none, some, arith,
  leb, ltb, Bool-cases, Text, same_refl, same_ne,
}
use vtpm_mds.Dict
use vtpm_mds.Dict.{get-put}
use vtpm_mds.Tokens.{
  Token, TokenStore, Caps, minted, peer_name, new_token, generate_token_at, discard_expired,
  cleanup_tick, live_token_count, validate_token, expired,
}
use vtpm_mds.Tokens.Invariant.{IsValid, with_brake-IsValid}
use vtpm_mds.Tokens.Mint.{with_room}
use vtpm_mds.Tokens.Insert.{with_room_absent}
use vtpm_mds.Tokens.Generate.{
  IsFresh, insert_cases, generate_token_at-IsValid, generate_token_at_keeps_others,
}
use vtpm_mds.Tokens.Sweep.{discard_expired-IsValid, discard_expired_exact}

-- A minted token is in the store.
pub minted_there :
    (caps : Caps) (ts : TokenStore) (peer : Text) (now : ℕ) (value : Text) (tok : Token)
    → (generate_token_at caps ts peer now (some value)).1 ≡ minted tok
    → Dict.get value (generate_token_at caps ts peer now (some value)).0.tokens
      ≡ some (new_token ts peer now value)
unfolding generate_token_at
minted_there caps ts peer now value tok =
    let fresh = new_token ts peer now value in
    insert_cases caps ts fresh now (λ r. r.1 ≡ minted tok → Dict.get value r.0.tokens ≡ some fresh)
      (λ _ h. cc)
      (λ _ h.
        get-put value value fresh (with_room caps ts fresh.peer now).tokens
        ∙ rw (same_refl value) refl)

-- A mint with another value brings no token with this one.
stays_absent :
    (caps : Caps) (ts : TokenStore) (peer : Text) (now : ℕ) (random : Option Text) (v : Text)
    → random ≢ some v
    → Dict.get v ts.tokens ≡ none
    → Dict.get v (generate_token_at caps ts peer now random).0.tokens ≡ none
unfolding generate_token_at
stays_absent caps ts peer now none v ne e = e
stays_absent caps ts peer now (some value) v ne e =
    let tok = new_token ts peer now value in
    let room = with_room_absent caps ts tok.peer now v e in
    insert_cases caps ts tok now (λ r. Dict.get v r.0.tokens ≡ none) (λ _. room)
      (λ _.
        get-put value v tok (with_room caps ts tok.peer now).tokens
        ∙ rw (same_ne value v (λ q. ne (ap some q))) room)

module _ (caps : Caps) (peer value : Text) (later : ℕ) where
  -- The stores that the calls of others lead to: mints for other peers with new random values, and
  -- sweeps up to a time.
  pub data Others (ts : TokenStore) : TokenStore → Type 0 where
    at_once : Others ts ts
    minting :
        {before : TokenStore}
        → Others ts before
        → (q : Text) (now : ℕ) (random : Option Text) → peer_name peer ≢ peer_name q
        → IsFresh before random
        → random ≢ some value
        → Others ts (generate_token_at caps before q now random).0
    sweeping :
        {before : TokenStore}
        → Others ts before
        → (now : ℕ) → now ≤ later
        → Others ts (cleanup_tick caps before now)
    counting :
        {before : TokenStore}
        → Others ts before
        → (now : ℕ) → now ≤ later
        → Others ts (live_token_count before now).0

  -- The token is there, or it has expired.
  abbrev Stands : Token → TokenStore → Type 0
  Stands tok ts =
      (Dict.get value ts.tokens ≡ some tok)
      ⊎ ((Dict.get value ts.tokens ≡ none) × (tok.expires_at < later))

  discard-Stands :
      (tok : Token) (ts : TokenStore) (now : ℕ)
      → now ≤ later
      → IsValid ts
      → Stands tok ts
      → Stands tok (discard_expired ts now)
  unfolding expired
  discard-Stands tok ts now le v (inl e) = elim (Bool-cases (expired now tok)) [
    | inl q ↦ inr (discard_expired_exact ts now v value ∙ rw (e, q) refl, ground (arith, q))
    | inr q ↦ inl (discard_expired_exact ts now v value ∙ rw (e, q) refl)
  ]
  discard-Stands tok ts now le v (inr (e, past)) =
      inr (discard_expired_exact ts now v value ∙ rw e refl, past)

  mint-Stands :
      (tok : Token) (ts : TokenStore) (q : Text) (now : ℕ) (random : Option Text)
      → tok.peer ≢ peer_name q
      → IsFresh ts random
      → random ≢ some value
      → IsValid ts
      → Stands tok ts
      → Stands tok (generate_token_at caps ts q now random).0
  mint-Stands tok ts q now random other fresh ne v (inl e) =
      inl (generate_token_at_keeps_others caps ts q now random value tok v fresh other e)
  mint-Stands tok ts q now random other fresh ne v (inr (e, past)) =
      inr (stays_absent caps ts q now random value ne e, past)

  tick_tokens :
      (ts : TokenStore) (now : ℕ)
      → (cleanup_tick caps ts now).tokens ≡ (discard_expired ts now).tokens
  unfolding cleanup_tick
  tick_tokens ts now = elim (Bool-cases (ltb (discard_expired ts now).live_count caps.emergency)) [
    | inl q ↦ rw q refl
    | inr q ↦ rw q refl
  ]

  tick-IsValid : (ts : TokenStore) (now : ℕ) → IsValid ts → IsValid (cleanup_tick caps ts now)
  unfolding cleanup_tick
  tick-IsValid ts now v =
      elim (Bool-cases (ltb (discard_expired ts now).live_count caps.emergency)) [
        | inl q ↦
            rw q
              (with_brake-IsValid false (discard_expired ts now) (discard_expired-IsValid now ts v))
        | inr q ↦ rw q (discard_expired-IsValid now ts v)
      ]

  Others-Stands :
      (tok : Token) {ts after : TokenStore}
      → tok.peer ≡ peer_name peer
      → Others ts after
      → IsValid ts
      → Stands tok ts
      → IsValid after × Stands tok after
  unfolding live_token_count
  Others-Stands tok own at_once v h = (v, h)
  Others-Stands tok own (minting {before} o q now random other fresh ne) v h =
      let (valid, stands) = Others-Stands tok own o v h in
      (
        generate_token_at-IsValid caps before q now random valid fresh,
        mint-Stands tok before q now random (λ e. other (sym own ∙ e)) fresh ne valid stands,
      )
  Others-Stands tok own (sweeping {before} o now le) v h =
      let (valid, stands) = Others-Stands tok own o v h in
      (
        tick-IsValid before now valid,
        rw (tick_tokens before now) (discard-Stands tok before now le valid stands),
      )
  Others-Stands tok own (counting {before} o now le) v h =
      let (valid, stands) = Others-Stands tok own o v h in
      (discard_expired-IsValid now before valid, discard-Stands tok before now le valid stands)

  Stands-validates :
      (tok : Token) (ts : TokenStore)
      → Stands tok ts
      → validate_token ts later value ≡ leb later tok.expires_at
  unfolding validate_token expired
  Stands-validates tok ts (inl e) = rw (e, validate_token) (ground arith)
  Stands-validates tok ts (inr (e, past)) = rw (e, validate_token) (ground (arith, past))

  -- A minted token is valid up to its lifetime, whatever others do.
  pub Others-validate :
      (ts after : TokenStore) (now : ℕ) (tok : Token)
      → IsValid ts
      → IsFresh ts (some value)
      → (generate_token_at caps ts peer now (some value)).1 ≡ minted tok
      → Others (generate_token_at caps ts peer now (some value)).0 after
      → validate_token after later value ≡ leb later (now + ts.token_ttl)
  Others-validate ts after now tok v fresh h o =
      Stands-validates (new_token ts peer now value) after
        (Others-Stands (new_token ts peer now value) refl o
          (generate_token_at-IsValid caps ts peer now (some value) v fresh)
          (inl (minted_there caps ts peer now value tok h))).1
