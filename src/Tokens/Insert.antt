-- ===== src/Tokens/Insert.antt =====
-- What generateTokenAt of imds/token.go leaves in the store, for the caller and for the other peers.
use vtpm_mds.Prelude.{
  ℕ, ◌+◌, ◌-◌, ◌≡◌, refl, sym, ap, subst, inl, inr, ◌≢◌, false, none, some, List, [], ◌∷◌, ◌++◌,
  length, arith, if◌then◌else◌, Bool-cases, All, In, Text, same, same_iff, same_refl, length-append,
  All-append,
}
use vtpm_mds.Dict
use vtpm_mds.Dict.{Dict, get-put, put-IsKeyed, total, size_of, total-put}
use vtpm_mds.Tokens.{Token, TokenStore, Caps, expired, settle, peer_tokens, prune_peer_expired}
use vtpm_mds.Tokens.Split.{Split, get-forget, named, Distinct, keep-Split, take-Split, Split-All}
use vtpm_mds.Tokens.Invariant.{Owned, IsValid, size_of-length, dropped, named_owner}
use vtpm_mds.Tokens.Mint.{prune_cases, prune-IsValid, evict-dropped, with_room}

module _ (ts : TokenStore) (p : Text) (gone left : List Token) where
  -- What is absent stays absent.
  dropped_absent :
      (v : Text) → Dict.get v ts.tokens ≡ none → Dict.get v (dropped ts p gone left).tokens ≡ none
  unfolding settle
  dropped_absent v e = ground (arith, get-forget gone ts.tokens v)

  -- A token of another peer stays.
  dropped_other :
      (v : Text) (t : Token)
      → IsValid ts
      → Split (peer_tokens ts p) gone left
      → t.peer ≢ p
      → Dict.get v ts.tokens ≡ some t
      → Dict.get v (dropped ts p gone left).tokens ≡ some t
  unfolding settle
  dropped_other v t valid s ne e = elim (Bool-cases (named v gone)) [
    | inl bad ↦ absurd (
        ne (
          named_owner ts.tokens p v gone t (Split-All (Owned ts.tokens p) s (valid.listed p)).0 e
            bad))
    | inr fine ↦ ground (arith, get-forget gone ts.tokens v, fine)
  ]

module _ (caps : Caps) (ts : TokenStore) (p : Text) (now : ℕ) where
  pub with_room_absent :
      (v : Text) → Dict.get v ts.tokens ≡ none → Dict.get v (with_room caps ts p now).tokens ≡ none
  with_room_absent v e = rw (evict-dropped (prune_peer_expired ts p now) p (caps.per_peer - 1)) (
      dropped_absent (prune_peer_expired ts p now) p _ _ v (
        prune_cases ts p now (λ s. Dict.get v s.tokens ≡ none) (λ _. e)
          (dropped_absent ts p _ _ v e)))

  pub with_room_other :
      (v : Text) (t : Token)
      → IsValid ts
      → t.peer ≢ p
      → Dict.get v ts.tokens ≡ some t
      → Dict.get v (with_room caps ts p now).tokens ≡ some t
  with_room_other v t valid ne e =
      rw (evict-dropped (prune_peer_expired ts p now) p (caps.per_peer - 1)) (
        dropped_other (prune_peer_expired ts p now) p _ _ v t (prune-IsValid ts p now valid)
          (take-Split _ (peer_tokens (prune_peer_expired ts p now) p)) ne
          (prune_cases ts p now (λ s. Dict.get v s.tokens ≡ some t) (λ _. e)
            (dropped_other ts p _ _ v t valid (keep-Split (expired now) (peer_tokens ts p)) ne e)))

-- The store with one more token, at the end of its peer's list.
abbrev pub added : TokenStore → Token → TokenStore
added room tok = record room {
  emergency_brake = false;
  tokens = Dict.put tok.token tok room.tokens;
  by_peer = Dict.put tok.peer (peer_tokens room tok.peer ++ tok ∷ []) room.by_peer;
  live_count = room.live_count + 1;
}

pub peer_tokens-added :
    (room : TokenStore) (tok : Token) (q : Text)
    → peer_tokens (added room tok) q
      ≡ (if same tok.peer q then peer_tokens room tok.peer ++ tok ∷ [] else peer_tokens room q)
peer_tokens-added room tok q =
    ground (arith, get-put tok.peer q (peer_tokens room tok.peer ++ tok ∷ []) room.by_peer)

-- A value that the map does not have is not the value of a listed token.
unused :
    (tokens : Dict Token) (q value : Text) (l : List Token)
    → Dict.get value tokens ≡ none
    → All (Owned tokens q) l
    → All (λ u. u.token ≢ value) l
unused tokens q value [] e h = tt
unused tokens q value (t ∷ l) e h = (
  λ same_value. cc (h.0.1, e, ap (λ (w : Text). Dict.get w tokens) same_value),
  unused tokens q value l e h.1,
)

Distinct-snoc :
    (l : List Token) (t : Token)
    → Distinct l
    → All (λ u. u.token ≢ t.token) l
    → Distinct (l ++ t ∷ [])
Distinct-snoc [] t d h = (tt, tt)
Distinct-snoc (u ∷ l) t d h = (
  All-append (λ w. w.token ≢ u.token) l (t ∷ []) d.0 ((λ e. h.0 (sym e)), tt),
  Distinct-snoc l t d.1 h.1,
)

still-Owned :
    (tokens : Dict Token) (q : Text) (tok : Token) (l : List Token)
    → All (λ u. u.token ≢ tok.token) l
    → All (Owned tokens q) l
    → All (Owned (Dict.put tok.token tok tokens) q) l
still-Owned tokens q tok [] ne h = tt
still-Owned tokens q tok (t ∷ l) ne h = (
  (
    h.0.0,
    ground (arith, get-put tok.token t.token tok tokens, same_iff tok.token t.token, h.0, ne.0),
  ),
  still-Owned tokens q tok l ne.1 h.1,
)

In-append-left : {A : Type 0} (a : A) (xs ys : List A) → In a xs → In a (xs ++ ys)
In-append-left a [] ys m = absurd m
In-append-left a (x ∷ xs) ys (inl e) = inl e
In-append-left a (x ∷ xs) ys (inr m) = inr (In-append-left a xs ys m)

In-snoc : {A : Type 0} (a : A) (xs : List A) → In a (xs ++ a ∷ [])
In-snoc a [] = inl refl
In-snoc a (x ∷ xs) = inr (In-snoc a xs)

module _ (room : TokenStore) (tok : Token) (v : IsValid room)
    (fresh : Dict.get tok.token room.tokens ≡ none) where
  added-listed :
      (q : Text)
      → Distinct (peer_tokens (added room tok) q)
        × All (Owned (Dict.put tok.token tok room.tokens) q) (peer_tokens (added room tok) q)
  added-listed q = elim (Bool-cases (same tok.peer q)) [
    | inl own ↦
        let ne = unused room.tokens tok.peer tok.token _ fresh (v.listed tok.peer) in
        rw (peer_tokens-added room tok q, own)
          (
            Distinct-snoc _ tok (v.distinct tok.peer) ne,
            subst
                (λ r.
                  All (Owned (Dict.put tok.token tok room.tokens) r)
                    (peer_tokens room tok.peer ++ tok ∷ []))
                ((same_iff tok.peer q).0 own)
                (All-append (Owned (Dict.put tok.token tok room.tokens) tok.peer)
                  (peer_tokens room tok.peer) (tok ∷ [])
                  (still-Owned room.tokens tok.peer tok _ ne (v.listed tok.peer))
                  (
                    (
                      refl,
                      ground
                          (arith, get-put tok.token tok.token tok room.tokens, same_refl tok.token),
                    ),
                    tt,
                  )),
          )
    | inr other ↦
        rw (peer_tokens-added room tok q, other)
          (
            v.distinct q,
            still-Owned room.tokens q tok _ (unused room.tokens q tok.token _ fresh (v.listed q))
                (v.listed q),
          )
  ]

  added-indexed :
      (w : Text) (t : Token)
      → Dict.get w (Dict.put tok.token tok room.tokens) ≡ some t
      → (t.token ≡ w) × In t (peer_tokens (added room tok) t.peer)
  added-indexed w t e = elim (Bool-cases (same tok.token w)) [
    | inl new ↦
        let is_tok : tok ≡ t = ground (arith, get-put tok.token w tok room.tokens, new, e) in
        subst (λ u. (u.token ≡ w) × In u (peer_tokens (added room tok) u.peer)) is_tok
          (
            (same_iff tok.token w).0 new,
            rw (peer_tokens-added room tok tok.peer, same_refl tok.peer) (In-snoc tok _),
          )
    | inr old ↦
        let found : Dict.get w room.tokens ≡ some t =
          ground (arith, get-put tok.token w tok room.tokens, old, e) in
        let (own_name, member) = v.indexed w t found in
        (own_name, rw (peer_tokens-added room tok t.peer) (place member))
  ]
    where
      place :
          In t (peer_tokens room t.peer)
          → In t (
              if same tok.peer t.peer
              then peer_tokens room tok.peer ++ tok ∷ []
              else peer_tokens room t.peer)
      place member = elim (Bool-cases (same tok.peer t.peer)) [
        | inl own ↦ rw own (
            In-append-left t _ (tok ∷ []) (
              subst (λ r. In t (peer_tokens room r)) (sym ((same_iff tok.peer t.peer).0 own))
                member))
        | inr other ↦ rw other member
      ]

  pub added-IsValid : IsValid (added room tok)
  added-IsValid = record {
    keyed = put-IsKeyed tok.peer _ room.by_peer v.keyed;
    counted = omega (
      arith,
      total-put length tok.peer (peer_tokens room tok.peer ++ tok ∷ []) room.by_peer,
      size_of-length (Dict.get tok.peer room.by_peer),
      length-append (peer_tokens room tok.peer) (tok ∷ []),
      v.counted,
    );
    distinct = λ q. (added-listed q).0;
    listed = λ q. (added-listed q).1;
    indexed = added-indexed;
  }
