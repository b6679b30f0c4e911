-- ===== src/Tokens/Generate.antt =====
-- One call of GenerateToken of imds/token.go.
use vtpm_mds.Prelude.{
  ℕ, ◌-◌, ◌≤◌, ◌<◌, ◌≡◌, refl, sym, subst, inl, inr, ◌≢◌, true, Option, none, some, List, [], ◌∷◌,
  length, arith, if◌then◌else◌, leb, Bool-cases, Text, same_iff, same_refl, length-append,
  length-drop,
}
use vtpm_mds.Dict
use vtpm_mds.Dict.{get-put, total}
use vtpm_mds.Tokens.{
  Token, TokenStore, Caps, Minted, minted, store_emergency, settle, peer_tokens, prune_peer_expired,
  insert_token, new_token, peer_name, generate_token_at,
}
use vtpm_mds.Tokens.Invariant.{IsValid, with_brake-IsValid}
use vtpm_mds.Tokens.Mint.{
  alive, newest, evict-dropped, with_room, with_room-IsValid, peer_tokens-with_room, prune_live-le,
}
use vtpm_mds.Tokens.Insert.{
  with_room_other, with_room_absent, added, peer_tokens-added, added-IsValid,
}

-- No peer holds more than its share, and the store no more than the emergency cap.
pub record HasQuota (caps : Caps) (ts : TokenStore) : Type 0 where
  pub per_peer : (q : Text) → length (peer_tokens ts q) ≤ caps.per_peer
  pub capped : ts.live_count ≤ caps.emergency

abbrev pub braked : TokenStore → TokenStore
braked room = record room { emergency_brake = true }

insert_token_lem :
    (caps : Caps) (ts : TokenStore) (tok : Token) (now : ℕ)
    → insert_token caps ts tok now ≡ (
        if leb caps.emergency (with_room caps ts tok.peer now).live_count
        then (braked (with_room caps ts tok.peer now), store_emergency)
        else (added (with_room caps ts tok.peer now) tok, minted tok))
unfolding insert_token
insert_token_lem caps ts tok now = refl

-- Refused at the cap, or minted below it.
pub insert_cases {ℓ} :
    (caps : Caps) (ts : TokenStore) (tok : Token) (now : ℕ) (P : TokenStore × Minted → Type ℓ)
    → (caps.emergency ≤ (with_room caps ts tok.peer now).live_count
        → P (braked (with_room caps ts tok.peer now), store_emergency))
    → ((with_room caps ts tok.peer now).live_count < caps.emergency
        → P (added (with_room caps ts tok.peer now) tok, minted tok))
    → P (insert_token caps ts tok now)
insert_cases caps ts tok now P refused accepted =
    subst P (sym (insert_token_lem caps ts tok now))
      (elim (Bool-cases (leb caps.emergency (with_room caps ts tok.peer now).live_count)) [
        | inl e ↦ rw e (refused (ground (arith, e)))
        | inr e ↦ rw e (accepted (ground (arith, e)))
      ])

abbrev pub IsFresh : TokenStore → Option Text → Type 0
IsFresh ts none = Unit
IsFresh ts (some value) = Dict.get value ts.tokens ≡ none

-- A mint keeps a consistent store consistent whatever the outcome, if the random value is new.
pub generate_token_at-IsValid :
    (caps : Caps) (ts : TokenStore) (peer : Text) (now : ℕ) (random : Option Text)
    → IsValid ts
    → IsFresh ts random
    → IsValid (generate_token_at caps ts peer now random).0
unfolding generate_token_at
generate_token_at-IsValid caps ts peer now none v fresh = v
generate_token_at-IsValid caps ts peer now (some value) v fresh =
    let tok = new_token ts peer now value in
    let room = with_room caps ts tok.peer now in
    insert_cases caps ts tok now (λ r. IsValid r.0)
      (λ _. with_brake-IsValid true room (with_room-IsValid caps ts tok.peer now v))
      (λ _.
        added-IsValid room tok (with_room-IsValid caps ts tok.peer now v)
          (with_room_absent caps ts tok.peer now value fresh))

-- In a consistent store and for a new random value, a token of another peer that the map holds is
-- still there after a mint, whatever its outcome.
pub generate_token_at_keeps_others :
    (caps : Caps) (ts : TokenStore) (peer : Text) (now : ℕ) (random : Option Text) (v : Text)
    (t : Token)
    → IsValid ts
    → IsFresh ts random
    → t.peer ≢ peer_name peer
    → Dict.get v ts.tokens ≡ some t
    → Dict.get v (generate_token_at caps ts peer now random).0.tokens ≡ some t
unfolding generate_token_at
generate_token_at_keeps_others caps ts peer now none v t valid fresh ne e = e
generate_token_at_keeps_others caps ts peer now (some value) v t valid fresh ne e =
    let tok = new_token ts peer now value in
    let stays = with_room_other caps ts tok.peer now v t valid ne e in
    insert_cases caps ts tok now (λ r. Dict.get v r.0.tokens ≡ some t) (λ _. stays)
      (λ _. ground (
        arith,
        get-put value v tok (with_room caps ts tok.peer now).tokens,
        same_iff value v,
        stays,
        e,
        fresh,
      ))

with_room_live-le :
    (caps : Caps) (ts : TokenStore) (p : Text) (now : ℕ)
    → (with_room caps ts p now).live_count ≤ ts.live_count
unfolding settle
with_room_live-le caps ts p now =
    rw (evict-dropped (prune_peer_expired ts p now) p (caps.per_peer - 1))
      (omega (arith, prune_live-le ts p now))

length-newest : (room : ℕ) (l : List Token) → length (newest room l) ≤ room
length-newest room l = omega (arith, length-drop {0} (length l - room) l)

with_room-HasQuota :
    (caps : Caps) (ts : TokenStore) (p : Text) (now : ℕ)
    → HasQuota caps ts
    → HasQuota caps (with_room caps ts p now)
with_room-HasQuota caps ts p now h = record {
  per_peer = λ q. rw (peer_tokens-with_room caps ts p q now) (
      ground
        (arith, length-newest (caps.per_peer - 1) (alive now (peer_tokens ts p)), h.per_peer q));
  capped = omega (arith, with_room_live-le caps ts p now, h.capped);
}

-- Minting keeps every peer within its share and the store within the emergency cap.
pub generate_token_at-HasQuota :
    (caps : Caps) (ts : TokenStore) (peer : Text) (now : ℕ) (random : Option Text)
    → 1 ≤ caps.per_peer
    → HasQuota caps ts
    → HasQuota caps (generate_token_at caps ts peer now random).0
unfolding generate_token_at
generate_token_at-HasQuota caps ts peer now none pos h = h
generate_token_at-HasQuota caps ts peer now (some value) pos h =
    let tok = new_token ts peer now value in
    let room = with_room caps ts tok.peer now in
    let q = with_room-HasQuota caps ts tok.peer now h in
    insert_cases caps ts tok now (λ r. HasQuota caps r.0)
      (λ _. record { per_peer = q.per_peer; capped = q.capped })
      (λ below. record { per_peer = λ p. within p; capped = omega (arith, below) })
  where
    tok : Token
    tok = new_token ts peer now value

    room : TokenStore
    room = with_room caps ts tok.peer now

    within : (p : Text) → length (peer_tokens (added room tok) p) ≤ caps.per_peer
    within p = rw (peer_tokens-added room tok p) (
        ground (
          arith,
          length-append {0} (peer_tokens room tok.peer) (tok ∷ []),
          peer_tokens-with_room caps ts tok.peer tok.peer now,
          same_refl tok.peer,
          length-newest (caps.per_peer - 1) (alive now (peer_tokens ts tok.peer)),
          (with_room-HasQuota caps ts tok.peer now h).per_peer p,
        ))
