-- ===== src/Tests/Store.antt =====
-- Two guests and the token store of imds/token.go.
use vtpm_mds.Prelude.{
  ◌+◌, ◌≡◌, ◌≤◌, ◌↔◌, ◌-◌, refl, true, some, [], ◌∷◌, ◌++◌, length, arith, leb, Text, codes, same,
}
use vtpm_mds.Dict
use vtpm_mds.Tokens.{
  Token, TokenStore, Caps, new_token_store, new_token, peer_name, peer_tokens, minted,
  store_emergency, generate_token_at, insert_token, prune_peer_expired, evict_oldest_of_peer,
  settle, discard_expired, validate_token,
}
use vtpm_mds.Tokens.Invariant.{IsValid}
use vtpm_mds.Tokens.Generate.{IsFresh}
use vtpm_mds.Tokens.Mint.{alive, newest}
use vtpm_mds.Tokens.Outcome.{
  generate_token_at_list, generate_token_at_validates, generate_token_at_refuses,
}
use vtpm_mds.Tokens.Sweep.{unless_expired, discard_expired_exact}
use vtpm_mds.Tokens.History.{Reach, here, next, mint, IsSound, Reach-IsSound}

abbrev pub caps : Caps
caps = record { per_peer = 2; emergency = 3 }

abbrev red : Text
red = codes "10.0.0.5"

abbrev blue : Text
blue = codes "10.0.0.6"

abbrev pub store0 : TokenStore
store0 = new_token_store 60

abbrev pub store1 : TokenStore
store1 = (generate_token_at caps store0 red 100 (some (codes "aa"))).0

abbrev store2 : TokenStore
store2 = (generate_token_at caps store1 blue 110 (some (codes "bb"))).0

abbrev red_token : Token
red_token = record {
  token = codes "aa";
  expires_at = 160;
  created_at = 100;
  peer = codes "10.0.0.5";
}

fresh1 : IsFresh store0 (some (codes "aa"))
unfolding Dict.get
fresh1 = refl

fresh2 : IsFresh store1 (some (codes "bb"))
unfolding generate_token_at insert_token prune_peer_expired evict_oldest_of_peer settle Dict.get
    Dict.put Dict.remove same
fresh2 = refl

fresh3 : IsFresh store2 (some (codes "cc"))
unfolding generate_token_at insert_token prune_peer_expired evict_oldest_of_peer settle Dict.get
    Dict.put Dict.remove same
fresh3 = refl

reach2 : Reach caps store0 store2
reach2 =
    next (next here (mint red 100 (some (codes "aa")) fresh1))
      (mint blue 110 (some (codes "bb")) fresh2)

Reach-IsSound_example : IsSound caps store2
Reach-IsSound_example = Reach-IsSound caps 60 (omega arith) reach2

valid2 : IsValid store2
valid2 = (Reach-IsSound caps 60 {ts = store2} (omega arith) reach2).0

holds_red : Dict.get (codes "aa") store2.tokens ≡ some red_token
unfolding generate_token_at insert_token prune_peer_expired evict_oldest_of_peer settle Dict.get
    Dict.put Dict.remove same
holds_red = refl

mints :
    (generate_token_at caps store1 blue 110 (some (codes "bb"))).1
    ≡ minted (new_token store1 blue 110 (codes "bb"))
unfolding generate_token_at insert_token prune_peer_expired evict_oldest_of_peer settle Dict.get
    Dict.put Dict.remove same
mints = refl

generate_token_at_list_example :
    (new_token store1 blue 110 (codes "bb") ≡ new_token store1 blue 110 (codes "bb"))
    × (peer_tokens (generate_token_at caps store1 blue 110 (some (codes "bb"))).0 (peer_name blue)
        ≡ newest (caps.per_peer - 1) (alive 110 (peer_tokens store1 (peer_name blue)))
          ++ new_token store1 blue 110 (codes "bb") ∷ [])
generate_token_at_list_example =
    generate_token_at_list caps store1 blue 110 (codes "bb")
      (new_token store1 blue 110 (codes "bb")) mints

generate_token_at_validates_example :
    validate_token (generate_token_at caps store1 blue 110 (some (codes "bb"))).0 170 (codes "bb")
    ≡ leb 170 (110 + store1.token_ttl)
generate_token_at_validates_example =
    generate_token_at_validates caps store1 blue 110 (codes "bb")
      (new_token store1 blue 110 (codes "bb")) 170 mints

generate_token_at_refuses_example :
    ((generate_token_at caps store2 red 120 (some (codes "cc"))).1 ≡ store_emergency ↔ (
      caps.emergency + length (peer_tokens store2 (peer_name red))
      ≤ store2.live_count
        + length (newest (caps.per_peer - 1) (alive 120 (peer_tokens store2 (peer_name red))))))
    × ((generate_token_at caps store2 red 120 (some (codes "cc"))).0.emergency_brake ≡ true
        ↔ (generate_token_at caps store2 red 120 (some (codes "cc"))).1 ≡ store_emergency)
generate_token_at_refuses_example =
    generate_token_at_refuses caps store2 red 120 (codes "cc") valid2

discard_expired_exact_example :
    Dict.get (codes "aa") (discard_expired store2 165).tokens
    ≡ unless_expired 165 (Dict.get (codes "aa") store2.tokens)
discard_expired_exact_example = discard_expired_exact store2 165 valid2 (codes "aa")
