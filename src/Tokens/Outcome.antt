-- ===== src/Tokens/Outcome.antt =====
-- What GenerateToken of imds/token.go answers, and what the caller's tokens are after it.
use vtpm_mds.Prelude.{
  ℕ, ◌+◌, ◌-◌, ◌≤◌, ◌≡◌, refl, sym, ap, subst, ◌↔◌, true, some, List, [], ◌∷◌, ◌++◌, length, arith,
  leb, Text, same_refl,
}
use vtpm_mds.Dict.{get-put}
use vtpm_mds.Tokens.{
  Token, TokenStore, Caps, minted, store_emergency, expired, peer_tokens, prune_peer_expired,
  evict_oldest_of_peer, new_token, peer_name, generate_token_at, validate_token,
}
use vtpm_mds.Tokens.Split.{keep-Split, take-Split}
use vtpm_mds.Tokens.Invariant.{IsValid, dropped_live}
use vtpm_mds.Tokens.Mint.{
  alive, newest, prune_cases, prune-IsValid, peer_tokens-prune, evict-dropped, with_room,
  peer_tokens-with_room,
}
use vtpm_mds.Tokens.Insert.{added, peer_tokens-added}
use vtpm_mds.Tokens.Generate.{insert_cases}

peer_tokens-prune_self :
    (ts : TokenStore) (p : Text) (now : ℕ)
    → peer_tokens (prune_peer_expired ts p now) p ≡ alive now (peer_tokens ts p)
peer_tokens-prune_self ts p now = rw (peer_tokens-prune ts p now p, same_refl p)

prune_live :
    (ts : TokenStore) (p : Text) (now : ℕ)
    → IsValid ts
    → (prune_peer_expired ts p now).live_count + length (peer_tokens ts p)
      ≡ ts.live_count + length (alive now (peer_tokens ts p))
prune_live ts p now v =
    prune_cases ts p now
      (λ s.
        s.live_count + length (peer_tokens ts p)
        ≡ ts.live_count + length (alive now (peer_tokens ts p)))
      (λ e. rw e) (dropped_live ts p _ _ v (keep-Split (expired now) (peer_tokens ts p)))

evict_live :
    (ts : TokenStore) (p : Text) (room : ℕ)
    → IsValid ts
    → (evict_oldest_of_peer ts p room).live_count + length (peer_tokens ts p)
      ≡ ts.live_count + length (newest room (peer_tokens ts p))
evict_live ts p room v =
    rw (evict-dropped ts p room) (dropped_live ts p _ _ v (take-Split _ (peer_tokens ts p)))

module _ (caps : Caps) (ts : TokenStore) (peer : Text) (now : ℕ) (value : Text) where
  -- If a mint answers a token, it is the token of the caller, of the time and of the random value,
  -- and the caller's list is then the newest of its unexpired tokens that leave room for one more,
  -- in their order, and the new token behind them.
  pub generate_token_at_list :
      (tok : Token)
      → (generate_token_at caps ts peer now (some value)).1 ≡ minted tok
      → (tok ≡ new_token ts peer now value)
        × (peer_tokens (generate_token_at caps ts peer now (some value)).0 (peer_name peer)
            ≡ newest (caps.per_peer - 1) (alive now (peer_tokens ts (peer_name peer))) ++ tok ∷ [])
  unfolding generate_token_at
  generate_token_at_list tok =
      let fresh = new_token ts peer now value in
      insert_cases caps ts fresh now
        (λ r.
          r.1 ≡ minted tok
          → (tok ≡ fresh)
            × (peer_tokens r.0 (peer_name peer)
                ≡ newest (caps.per_peer - 1) (alive now (peer_tokens ts (peer_name peer)))
                  ++ tok ∷ []))
        (λ _ h. cc)
        (λ _ h.
          let is_fresh : fresh ≡ tok = cc in
          (
            sym is_fresh,
            subst
                (λ t.
                  peer_tokens (added (with_room caps ts (peer_name peer) now) fresh)
                    (peer_name peer)
                  ≡ newest (caps.per_peer - 1) (alive now (peer_tokens ts (peer_name peer)))
                    ++ t ∷ [])
                is_fresh
                (rw (
                  peer_tokens-added (with_room caps ts (peer_name peer) now) fresh (peer_name peer),
                  same_refl (peer_name peer),
                  peer_tokens-with_room caps ts (peer_name peer) (peer_name peer) now,
                  same_refl (peer_name peer),
                )),
          ))

  -- If a mint answers a token, its value is valid afterwards at exactly the times up to the time of
  -- the mint plus the lifetime.
  pub generate_token_at_validates :
      (tok : Token) (later : ℕ)
      → (generate_token_at caps ts peer now (some value)).1 ≡ minted tok
      → validate_token (generate_token_at caps ts peer now (some value)).0 later value
        ≡ leb later (now + ts.token_ttl)
  unfolding generate_token_at validate_token expired
  generate_token_at_validates tok later =
      let fresh = new_token ts peer now value in
      insert_cases caps ts fresh now
        (λ r. r.1 ≡ minted tok → validate_token r.0 later value ≡ leb later (now + ts.token_ttl))
        (λ _ h. cc)
        (λ _ h.
          rw
            (
              get-put value value fresh (with_room caps ts (peer_name peer) now).tokens,
              same_refl value,
              validate_token,
            )
            (ground arith))

  -- Once its expired and then its oldest tokens have gone, the count has fallen by exactly those.
  with_room_live :
      IsValid ts
      → (with_room caps ts (peer_name peer) now).live_count
          + length (peer_tokens ts (peer_name peer))
        ≡ ts.live_count
          + length (newest (caps.per_peer - 1) (alive now (peer_tokens ts (peer_name peer))))
  with_room_live v =
      let own = peer_tokens-prune_self ts (peer_name peer) now in
      omega (
        arith,
        prune_live ts (peer_name peer) now v,
        evict_live (prune_peer_expired ts (peer_name peer) now) (peer_name peer) (caps.per_peer - 1)
            (prune-IsValid ts (peer_name peer) now v),
        ap length own,
        ap (λ (l : List Token). length (newest (caps.per_peer - 1) l)) own,
      )

  -- In a consistent store a mint with a random value is refused exactly when the live count, less
  -- what the caller's list loses to expiry and to its cap, is at least the emergency cap, and the
  -- brake is on afterwards exactly when it was refused.
  pub generate_token_at_refuses :
      IsValid ts
      → ((generate_token_at caps ts peer now (some value)).1 ≡ store_emergency ↔ (
          caps.emergency + length (peer_tokens ts (peer_name peer))
          ≤ ts.live_count
            + length (newest (caps.per_peer - 1) (alive now (peer_tokens ts (peer_name peer))))))
        × ((generate_token_at caps ts peer now (some value)).0.emergency_brake ≡ true
            ↔ (generate_token_at caps ts peer now (some value)).1 ≡ store_emergency)
  unfolding generate_token_at
  generate_token_at_refuses v =
      insert_cases caps ts (new_token ts peer now value) now
        (λ r.
          (r.1 ≡ store_emergency ↔ (
            caps.emergency + length (peer_tokens ts (peer_name peer))
            ≤ ts.live_count
              + length (newest (caps.per_peer - 1) (alive now (peer_tokens ts (peer_name peer))))))
          × (r.0.emergency_brake ≡ true ↔ r.1 ≡ store_emergency))
        (λ full.
          (((λ _. omega (arith, with_room_live v, full)), (λ _. refl)), ((λ _. refl), (λ _. refl))))
        (λ below. (
          ((λ e. cc), (λ most. absurd (omega (arith, with_room_live v, below, most)))),
          ((λ e. cc), (λ e. cc)),
        ))
