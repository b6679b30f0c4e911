-- ===== src/Tokens/Mint.antt =====
-- The steps before a token is added (generateTokenAt of imds/token.go): the expired tokens of the
-- caller, then its oldest ones.
use vtpm_mds.Prelude.{
  ℕ, ◌-◌, ◌≤◌, ◌≡◌, refl, ap, not, List, [], ◌∷◌, length, keep, take, drop, arith, if◌then◌else◌,
  Text, same, same_iff, same_refl,
}
use vtpm_mds.Tokens.{
  Token, TokenStore, Caps, expired, settle, peer_tokens, prune_list, prune_peer_expired,
  evict_oldest_of_peer,
}
use vtpm_mds.Tokens.Split.{prune_loop_lem, evict_loop_lem, keep-Split, take-Split}
use vtpm_mds.Tokens.Invariant.{IsValid, dropped, peer_tokens-dropped, dropped-IsValid}

abbrev pub alive : ℕ → List Token → List Token
alive now = keep (λ t. not (expired now t))

-- What a peer still holds once its expired tokens and then its oldest ones have gone.
abbrev pub newest : ℕ → List Token → List Token
newest room list = drop (length list - room) list

module _ (ts : TokenStore) (p : Text) (now : ℕ) where
  prune_list_cases {ℓ} :
      (P : TokenStore → Type ℓ) (l : List Token)
      → (l ≡ [] → P ts)
      → P (dropped ts p (keep (expired now) l) (alive now l))
      → P (prune_list ts p now l)
  unfolding prune_list
  prune_list_cases P [] empty rest = empty refl
  prune_list_cases P (t ∷ l) empty rest =
      rw (prune_loop_lem now (t ∷ l) ts.tokens ts.live_count) rest

  -- To prove a property of the pruned store: it is the store itself, with no token of the peer, or
  -- the store without the peer's expired tokens.
  pub prune_cases {ℓ} :
      (P : TokenStore → Type ℓ)
      → (peer_tokens ts p ≡ [] → P ts)
      → P (dropped ts p (keep (expired now) (peer_tokens ts p)) (alive now (peer_tokens ts p)))
      → P (prune_peer_expired ts p now)
  unfolding prune_peer_expired
  prune_cases P = prune_list_cases P (peer_tokens ts p)

  pub prune-IsValid : IsValid ts → IsValid (prune_peer_expired ts p now)
  prune-IsValid v =
      prune_cases IsValid (λ _. v)
        (dropped-IsValid ts p _ _ v (keep-Split (expired now) (peer_tokens ts p)))

  pub peer_tokens-prune :
      (q : Text)
      → peer_tokens (prune_peer_expired ts p now) q
        ≡ (if same p q then alive now (peer_tokens ts p) else peer_tokens ts q)
  peer_tokens-prune q =
      prune_cases
        (λ s.
          peer_tokens s q ≡ (if same p q then alive now (peer_tokens ts p) else peer_tokens ts q))
        (λ e. ground (arith, e, same_iff p q)) (peer_tokens-dropped ts p q _ _)

pub prune_live-le :
    (ts : TokenStore) (p : Text) (now : ℕ)
    → (prune_peer_expired ts p now).live_count ≤ ts.live_count
unfolding settle
prune_live-le ts p now =
    prune_cases ts p now (λ s. s.live_count ≤ ts.live_count) (λ _. omega arith) (omega arith)

pub evict-dropped :
    (ts : TokenStore) (p : Text) (room : ℕ)
    → evict_oldest_of_peer ts p room
      ≡ dropped ts p
          (take (length (peer_tokens ts p) - room) (peer_tokens ts p))
          (newest room (peer_tokens ts p))
unfolding evict_oldest_of_peer
evict-dropped ts p room =
    ap (settle ts p) (evict_loop_lem room (peer_tokens ts p) ts.tokens ts.live_count)

evict-IsValid :
    (ts : TokenStore) (p : Text) (room : ℕ) → IsValid ts → IsValid (evict_oldest_of_peer ts p room)
evict-IsValid ts p room v =
    rw (evict-dropped ts p room) (dropped-IsValid ts p _ _ v (take-Split _ (peer_tokens ts p)))

-- The store that has room for one more token of the peer.
abbrev pub with_room : Caps → TokenStore → Text → ℕ → TokenStore
with_room caps ts p now = evict_oldest_of_peer (prune_peer_expired ts p now) p (caps.per_peer - 1)

pub with_room-IsValid :
    (caps : Caps) (ts : TokenStore) (p : Text) (now : ℕ)
    → IsValid ts
    → IsValid (with_room caps ts p now)
with_room-IsValid caps ts p now v = evict-IsValid _ p _ (prune-IsValid ts p now v)

pub peer_tokens-with_room :
    (caps : Caps) (ts : TokenStore) (p q : Text) (now : ℕ)
    → peer_tokens (with_room caps ts p now) q ≡ (
        if same p q
        then newest (caps.per_peer - 1) (alive now (peer_tokens ts p))
        else peer_tokens ts q)
peer_tokens-with_room caps ts p q now =
    rw
      (
        evict-dropped (prune_peer_expired ts p now) p (caps.per_peer - 1),
        peer_tokens-dropped (prune_peer_expired ts p now) p q _ _,
        peer_tokens-prune ts p now p,
        peer_tokens-prune ts p now q,
        same_refl p,
      )
      (ground arith)
