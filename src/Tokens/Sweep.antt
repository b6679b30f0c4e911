-- ===== src/Tokens/Sweep.antt =====
-- The sweep over all peers (discardExpiredLocked and cleanupExpired of imds/token.go).
use vtpm_mds.Prelude.{
  ℕ, ◌≤◌, ◌≡◌, sym, ap, ◌∙◌, subst, ◌⊎◌, inl, inr, true, false, not, Option, none, some, List, [],
  ◌∷◌, arith, if◌then◌else◌, Text, same, same_iff, In, In-keep, In-of_keep, All-at, keep-keep,
  Bool-cases, Option-cases, length-keep-le,
}
use vtpm_mds.Dict
use vtpm_mds.Dict.{In-keys}
use vtpm_mds.Tokens.{
  Token, TokenStore, Caps, expired, peer_tokens, prune_peer_expired, discard_peers, discard_expired,
  validate_token,
}
use vtpm_mds.Tokens.Invariant.{IsValid, Owned}
use vtpm_mds.Tokens.Mint.{alive, prune-IsValid, peer_tokens-prune, prune_live-le}
use vtpm_mds.Tokens.Generate.{HasQuota}

module _ (now : ℕ) where
  discard_peers-IsValid :
      (ts : TokenStore) (ps : List Text) → IsValid ts → IsValid (discard_peers ts now ps)
  unfolding discard_peers
  discard_peers-IsValid ts [] v = v
  discard_peers-IsValid ts (p ∷ ps) v =
      discard_peers-IsValid (prune_peer_expired ts p now) ps (prune-IsValid ts p now v)

  discard_peers_live :
      (cap : ℕ) (ts : TokenStore) (ps : List Text)
      → ts.live_count ≤ cap
      → (discard_peers ts now ps).live_count ≤ cap
  unfolding discard_peers
  discard_peers_live cap ts [] h = h
  discard_peers_live cap ts (p ∷ ps) h =
      discard_peers_live cap (prune_peer_expired ts p now) ps
        (omega (arith, prune_live-le ts p now, h))

  alive_idem : (l : List Token) → alive now (alive now l) ≡ alive now l
  alive_idem l = keep-keep (λ t. not (expired now t)) l

  pruned_list :
      (ts : TokenStore) (p q : Text)
      → alive now (peer_tokens (prune_peer_expired ts p now) q) ≡ alive now (peer_tokens ts q)
  pruned_list ts p q = elim (Bool-cases (same p q)) [
    | inl own ↦
        let here : p ≡ q = (same_iff p q).0 own in
        rw (peer_tokens-prune ts p now q, own)
          (alive_idem (peer_tokens ts p) ∙ ap (λ (r : Text). alive now (peer_tokens ts r)) here)
    | inr other ↦ rw (peer_tokens-prune ts p now q, other)
  ]

  -- A peer that the walk has passed, or that had nothing expired, keeps its unexpired tokens.
  walked :
      (ts : TokenStore) (ps : List Text) (q : Text)
      → (In q ps ⊎ (peer_tokens ts q ≡ alive now (peer_tokens ts q)))
      → peer_tokens (discard_peers ts now ps) q ≡ alive now (peer_tokens ts q)
  unfolding discard_peers
  walked ts [] q (inl m) = absurd m
  walked ts [] q (inr e) = e
  walked ts (p ∷ ps) q h = walked (prune_peer_expired ts p now) ps q (next h) ∙ pruned_list ts p q
    where
      settled :
          same p q ≡ true
          → peer_tokens (prune_peer_expired ts p now) q
            ≡ alive now (peer_tokens (prune_peer_expired ts p now) q)
      settled own = rw (peer_tokens-prune ts p now q, own) (sym (alive_idem (peer_tokens ts p)))

      next :
          (In q (p ∷ ps) ⊎ (peer_tokens ts q ≡ alive now (peer_tokens ts q)))
          → In q ps
            ⊎ (peer_tokens (prune_peer_expired ts p now) q
                ≡ alive now (peer_tokens (prune_peer_expired ts p now) q))
      next (inl (inl e)) = inr (settled ((same_iff p q).1 (sym e)))
      next (inl (inr m)) = inl m
      next (inr e) = inr (elim (Bool-cases (same p q)) [
        | inl own ↦ settled own
        | inr other ↦ rw (peer_tokens-prune ts p now q, other) e
      ])

  module _ (ts : TokenStore) where
    pub discard_expired-IsValid : IsValid ts → IsValid (discard_expired ts now)
    unfolding discard_expired
    discard_expired-IsValid v = discard_peers-IsValid ts (Dict.keys ts.by_peer) v

    peer_tokens-discard :
        (q : Text) → peer_tokens (discard_expired ts now) q ≡ alive now (peer_tokens ts q)
    unfolding discard_expired
    peer_tokens-discard q =
        walked ts (Dict.keys ts.by_peer) q (elim (Option-cases (Dict.get q ts.by_peer)) [
          | inl e ↦ inr (rw e)
          | inr (l, e) ↦ inl (In-keys q l ts.by_peer e)
        ])

    discard_expired_live :
        (cap : ℕ) → ts.live_count ≤ cap → (discard_expired ts now).live_count ≤ cap
    unfolding discard_expired
    discard_expired_live cap h = discard_peers_live cap ts (Dict.keys ts.by_peer) h

    pub discard_expired-HasQuota :
        (caps : Caps) → IsValid ts → HasQuota caps ts → HasQuota caps (discard_expired ts now)
    discard_expired-HasQuota caps v h = record {
      per_peer = λ q. rw (peer_tokens-discard q) (
          omega
            (arith, length-keep-le (λ t. not (expired now t)) (peer_tokens ts q), h.per_peer q));
      capped = discard_expired_live caps.emergency h.capped;
    }

abbrev pub unless_expired : ℕ → Option Token → Option Token
unless_expired now none = none
unless_expired now (some t) = if expired now t then none else some t

module _ (ts : TokenStore) (now : ℕ) (v : IsValid ts) where
  swept_from :
      (value : Text) (t : Token)
      → Dict.get value (discard_expired ts now).tokens ≡ some t
      → (Dict.get value ts.tokens ≡ some t) × (expired now t ≡ false)
  swept_from value t e =
      let after = discard_expired-IsValid now ts v in
      let (own_name, member) = after.indexed value t e in
      let (old, fine) =
        In-of_keep (λ u. not (expired now u)) t _
          (rw (peer_tokens-discard now ts t.peer) at member) in
      (
        subst (λ w. Dict.get w ts.tokens ≡ some t) own_name
            (All-at (Owned ts.tokens t.peer) _ (v.listed t.peer) t old).1,
        ground (arith, fine),
      )

  stays_in :
      (value : Text) (t : Token)
      → Dict.get value ts.tokens ≡ some t
      → expired now t ≡ false
      → Dict.get value (discard_expired ts now).tokens ≡ some t
  stays_in value t e fine =
      let after = discard_expired-IsValid now ts v in
      let (own_name, member) = v.indexed value t e in
      let still = In-keep (λ u. not (expired now u)) t _ member (rw fine) in
      subst (λ w. Dict.get w (discard_expired ts now).tokens ≡ some t) own_name
        (All-at (Owned (discard_expired ts now).tokens t.peer) _ (after.listed t.peer) t
          (rw (peer_tokens-discard now ts t.peer) still)).1

  -- In a consistent store the sweep takes each expired token out of the map and nothing else.
  pub discard_expired_exact :
      (value : Text)
      → Dict.get value (discard_expired ts now).tokens
        ≡ unless_expired now (Dict.get value ts.tokens)
  discard_expired_exact value =
      elim (Option-cases (Dict.get value (discard_expired ts now).tokens)) [
        | inr (t, e) ↦ let (old, fine) = swept_from value t e in rw (e, old, fine)
        | inl gone ↦ elim (Option-cases (Dict.get value ts.tokens)) [
          | inl e ↦ rw (gone, e)
          | inr (t, e) ↦ elim (Bool-cases (expired now t)) [
            | inl old ↦ rw (gone, e, old)
            | inr fine ↦ cc (gone, stays_in value t e fine)
          ]
        ]
      ]

  -- In a consistent store the sweep changes the answer to no validation from its time on.
  pub validate_token-discard :
      (later : ℕ) (value : Text)
      → now ≤ later
      → validate_token (discard_expired ts now) later value ≡ validate_token ts later value
  unfolding validate_token expired
  validate_token-discard later value h =
      rw (discard_expired_exact value, validate_token) (ground arith)
