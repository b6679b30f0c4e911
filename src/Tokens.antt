-- ===== src/Tokens.antt =====
-- The IMDSv2 token store, imds/token.go. A time is a number of nanoseconds, and the random token
-- value is an argument: `none` where the random source fails. The proofs are in the modules below.
pub mod Split
pub mod Invariant
pub mod Mint
pub mod Insert
pub mod Generate
pub mod Outcome
pub mod Sweep
pub mod Later
pub mod History
use vtpm_mds.Prelude.{
  ℕ, suc, ◌+◌, ◌-◌, Bool, true, false, not, Option, none, some, List, [], ◌∷◌, ◌++◌, length, keep,
  ltb, leb, if◌then◌else◌, value_or, Text, codes, same,
}
use vtpm_mds.Dict
use vtpm_mds.Dict.{Dict}

pub record Token : Type 0 where
  pub token : Text
  pub expires_at : ℕ
  pub created_at : ℕ
  pub peer : Text

-- `by_peer` lists each peer's live tokens, the oldest first.
pub record TokenStore : Type 0 where
  pub tokens : Dict Token
  pub by_peer : Dict (List Token)
  pub live_count : ℕ
  pub emergency_brake : Bool
  pub token_ttl : ℕ

-- MaxLiveTokensPerPeer and GlobalTokenEmergencyCap.
pub record Caps : Type 0 where
  pub per_peer : ℕ
  pub emergency : ℕ

abbrev pub default_caps : Caps
default_caps = record { per_peer = 32; emergency = 65536 }

-- NewTokenStore
abbrev pub new_token_store : ℕ → TokenStore
new_token_store ttl = record {
  tokens = [];
  by_peer = [];
  live_count = 0;
  emergency_brake = false;
  token_ttl = ttl;
}

-- The variables of the two loops: the token map, the live count, and what is left of the list.
pub record Loop : Type 0 where
  pub map : Dict Token
  pub live : ℕ
  pub list : List Token

-- now.After(tok.ExpiresAt)
unfoldable pub expired : ℕ → Token → Bool
expired now tok = ltb tok.expires_at now

abbrev push_if : Bool → Token → Loop → Loop
push_if true tok s = s
push_if false tok s = record s { list = tok ∷ s.list }

-- The loop of prunePeerExpiredLocked.
pub prune_loop : ℕ → List Token → Dict Token → ℕ → Loop
prune_loop now [] tokens live = record { map = tokens; live = live; list = [] }
prune_loop now (tok ∷ rest) tokens live = push_if (expired now tok) tok (
    prune_loop now rest (if expired now tok then Dict.remove tok.token tokens else tokens)
      (if expired now tok then live - 1 else live))

-- The loop of evictOldestOfPeerLocked.
pub evict_loop : ℕ → List Token → Dict Token → ℕ → Loop
evict_loop room [] tokens live = record { map = tokens; live = live; list = [] }
evict_loop room (oldest ∷ rest) tokens live =
    if ltb room (length (oldest ∷ rest))
    then evict_loop room rest (Dict.remove oldest.token tokens) (live - 1)
    else record { map = tokens; live = live; list = oldest ∷ rest }

-- What both do with the list that is left: an empty one leaves no entry.
pub store_list : Text → List Token → Dict (List Token) → Dict (List Token)
store_list peer [] by_peer = Dict.remove peer by_peer
store_list peer (t ∷ list) by_peer = Dict.put peer (t ∷ list) by_peer

unfoldable pub settle : TokenStore → Text → Loop → TokenStore
unfolding store_list
settle ts peer s = record ts {
  tokens = s.map;
  live_count = s.live;
  by_peer = store_list peer s.list ts.by_peer;
}

abbrev pub peer_tokens : TokenStore → Text → List Token
peer_tokens ts peer = value_or [] (Dict.get peer ts.by_peer)

-- prunePeerExpiredLocked
pub prune_list : TokenStore → Text → ℕ → List Token → TokenStore
prune_list ts peer now [] = ts
prune_list ts peer now (t ∷ list) =
    settle ts peer (prune_loop now (t ∷ list) ts.tokens ts.live_count)

unfoldable pub prune_peer_expired : TokenStore → Text → ℕ → TokenStore
unfolding prune_list prune_loop
prune_peer_expired ts peer now = prune_list ts peer now (peer_tokens ts peer)

-- evictOldestOfPeerLocked. The clamp of a negative `keep` is in `caps.per_peer - 1` below, which stops
-- at 0.
unfoldable pub evict_oldest_of_peer : TokenStore → Text → ℕ → TokenStore
unfolding evict_loop
evict_oldest_of_peer ts peer room =
    settle ts peer (evict_loop room (peer_tokens ts peer) ts.tokens ts.live_count)

pub data Minted : Type 0 where
  minted : Token → Minted
  random_failed : Minted
  store_emergency : Minted

-- The body of generateTokenAt under the lock.
unfoldable pub insert_token : Caps → TokenStore → Token → ℕ → TokenStore × Minted
insert_token caps ts tok now =
    let pruned = prune_peer_expired ts tok.peer now in
    let room = evict_oldest_of_peer pruned tok.peer (caps.per_peer - 1) in
    if leb caps.emergency room.live_count
    then (record room { emergency_brake = true }, store_emergency)
    else (
      record room {
        emergency_brake = false;
        tokens = Dict.put tok.token tok room.tokens;
        by_peer = Dict.put tok.peer (peer_tokens room tok.peer ++ tok ∷ []) room.by_peer;
        live_count = room.live_count + 1;
      },
      minted tok,
    )

abbrev pub peer_name : Text → Text
peer_name [] = codes "unknown"
peer_name (c ∷ s) = c ∷ s

abbrev pub new_token : TokenStore → Text → ℕ → Text → Token
new_token ts peer now value = record {
  token = value;
  expires_at = now + ts.token_ttl;
  created_at = now;
  peer = peer_name peer;
}

-- generateTokenAt
unfoldable pub generate_token_at : Caps → TokenStore → Text → ℕ → Option Text → TokenStore × Minted
generate_token_at caps ts peer now none = (ts, random_failed)
generate_token_at caps ts peer now (some value) =
    insert_token caps ts (new_token ts peer now value) now

-- discardExpiredLocked: the peers are those of the map when the walk begins.
discard_peers : TokenStore → ℕ → List Text → TokenStore
discard_peers ts now [] = ts
discard_peers ts now (peer ∷ peers) = discard_peers (prune_peer_expired ts peer now) now peers

unfoldable pub discard_expired : TokenStore → ℕ → TokenStore
unfolding discard_peers
discard_expired ts now = discard_peers ts now (Dict.keys ts.by_peer)

-- ValidateToken at the time `now`
unfoldable pub validate_token : TokenStore → ℕ → Text → Bool
validate_token ts now value = elim (Dict.get value ts.tokens) [
  | none ↦ false
  | some tok ↦ not (expired now tok)
]

-- One tick of cleanupExpired
unfoldable pub cleanup_tick : Caps → TokenStore → ℕ → TokenStore
cleanup_tick caps ts now =
    let swept = discard_expired ts now in
    if ltb swept.live_count caps.emergency then record swept { emergency_brake = false } else swept

-- LiveTokenCount and LiveTokenCountForPeer, with the store that they leave
unfoldable pub live_token_count : TokenStore → ℕ → TokenStore × ℕ
live_token_count ts now = let swept = discard_expired ts now in (swept, swept.live_count)

unfoldable pub live_token_count_for_peer : TokenStore → Text → ℕ → TokenStore × ℕ
live_token_count_for_peer ts peer now =
    let pruned = prune_peer_expired ts peer now in (pruned, length (peer_tokens pruned peer))
