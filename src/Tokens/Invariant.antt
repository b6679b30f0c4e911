-- ===== src/Tokens/Invariant.antt =====
-- When the map, the lists and the count of the token store of imds/token.go agree.
use vtpm_mds.Prelude.{
  ◌+◌, ◌≡◌, refl, sym, ap, ◌∙◌, subst, inl, inr, ◌≢◌, Bool, true, false, Option, none, some, List,
  [], ◌∷◌, length, arith, if◌then◌else◌, Bool-cases, value_or, All, In, Text, same, same_iff,
  same_refl,
}
use vtpm_mds.Dict
use vtpm_mds.Dict.{
  Dict, IsKeyed, get-put, get-remove, put-IsKeyed, remove-IsKeyed, total, size_of, total-put,
  total-remove,
}
use vtpm_mds.Tokens.{Token, TokenStore, store_list, settle, peer_tokens}
use vtpm_mds.Tokens.Split.{
  Split, forget, get-forget, named, loop_result, Distinct, Split-length, Split-All, Split-In,
  Split-Distinct,
}

-- A token stands in the list of its own peer and is what the map has under its value.
abbrev pub Owned : Dict Token → Text → Token → Type 0
Owned tokens p t = (t.peer ≡ p) × (Dict.get t.token tokens ≡ some t)

pub record IsValid (ts : TokenStore) : Type 0 where
  pub keyed : IsKeyed ts.by_peer
  pub counted : ts.live_count ≡ total length ts.by_peer
  pub distinct : (p : Text) → Distinct (peer_tokens ts p)
  pub listed : (p : Text) → All (Owned ts.tokens p) (peer_tokens ts p)
  pub indexed :
      (v : Text) (t : Token)
      → Dict.get v ts.tokens ≡ some t
      → (t.token ≡ v) × In t (peer_tokens ts t.peer)

-- The brake is no part of it.
pub with_brake-IsValid :
    (on : Bool) (ts : TokenStore) → IsValid ts → IsValid (record ts { emergency_brake = on })
with_brake-IsValid on ts v = record {
  keyed = v.keyed;
  counted = v.counted;
  distinct = v.distinct;
  listed = v.listed;
  indexed = v.indexed;
}

pub size_of-length : (o : Option (List Token)) → size_of length o ≡ length (value_or [] o)
size_of-length none = refl
size_of-length (some l) = refl

pub peer_tokens-store_list :
    (p q : Text) (left : List Token) (d : Dict (List Token))
    → value_or [] (Dict.get q (store_list p left d))
      ≡ (if same p q then left else value_or [] (Dict.get q d))
unfolding store_list
peer_tokens-store_list p q [] d = ground (arith, get-remove p q d)
peer_tokens-store_list p q (t ∷ left) d = ground (arith, get-put p q (t ∷ left) d)

store_list-IsKeyed :
    (p : Text) (left : List Token) (d : Dict (List Token))
    → IsKeyed d
    → IsKeyed (store_list p left d)
unfolding store_list
store_list-IsKeyed p [] d h = remove-IsKeyed p d h
store_list-IsKeyed p (t ∷ left) d h = put-IsKeyed p (t ∷ left) d h

total-store_list :
    (p : Text) (left : List Token) (d : Dict (List Token))
    → IsKeyed d
    → total length (store_list p left d) + length (value_or [] (Dict.get p d))
      ≡ total length d + length left
unfolding store_list
total-store_list p [] d h = omega (arith, total-remove length p d h, size_of-length (Dict.get p d))
total-store_list p (t ∷ left) d h =
    omega (arith, total-put length p (t ∷ left) d, size_of-length (Dict.get p d))

-- The owner of a value that is named in a peer's tokens is that peer.
pub named_owner :
    (tokens : Dict Token) (p v : Text) (gone : List Token) (t : Token)
    → All (Owned tokens p) gone
    → Dict.get v tokens ≡ some t
    → named v gone ≡ true
    → t.peer ≡ p
named_owner tokens p v [] t h e n = cc
named_owner tokens p v (g ∷ gone) t h e n = elim (Bool-cases (same g.token v)) [
  | inl hit ↦
      let agree : g.token ≡ v = (same_iff g.token v).0 hit in
      let entry : Dict.get v tokens ≡ some g =
        subst (λ w. Dict.get w tokens ≡ some g) agree h.0.1 in
      ground (arith, h.0.0, entry)
  | inr miss ↦ named_owner tokens p v gone t h.1 e (ground (arith, miss))
]

pub named_self : (t : Token) (gone : List Token) → In t gone → named t.token gone ≡ true
named_self t [] m = absurd m
named_self t (g ∷ gone) (inl e) = ground (arith, same_refl t.token, ap (λ (u : Token). u.token) e)
named_self t (g ∷ gone) (inr m) = ground (arith, named_self t gone m)

kept-Owned :
    (tokens : Dict Token) (p : Text) (gone left : List Token)
    → All (Owned tokens p) left
    → All (λ t. named t.token gone ≡ false) left
    → All (Owned (forget gone tokens) p) left
kept-Owned tokens p gone [] h a = tt
kept-Owned tokens p gone (t ∷ left) h a = (
  (h.0.0, ground (arith, get-forget gone tokens t.token, h.0, a.0)),
  kept-Owned tokens p gone left h.1 a.1,
)

-- The tokens of another peer are not named among those that go.
pub other_unnamed :
    (tokens : Dict Token) (p q : Text) (gone left : List Token)
    → p ≢ q
    → All (Owned tokens p) gone
    → All (Owned tokens q) left
    → All (λ t. named t.token gone ≡ false) left
other_unnamed tokens p q gone [] ne g h = tt
other_unnamed tokens p q gone (t ∷ left) ne g h = (
  elim (Bool-cases (named t.token gone)) [
    | inl bad ↦ absurd (ne (sym (named_owner tokens p t.token gone t g h.0.1 bad) ∙ h.0.0))
    | inr fine ↦ fine
  ],
  other_unnamed tokens p q gone left ne g h.1,
)

-- What a loop over a peer's list leaves in the store.
abbrev pub dropped : TokenStore → Text → List Token → List Token → TokenStore
dropped ts p gone left = settle ts p (loop_result gone left ts.tokens ts.live_count)

pub peer_tokens-dropped :
    (ts : TokenStore) (p q : Text) (gone left : List Token)
    → peer_tokens (dropped ts p gone left) q ≡ (if same p q then left else peer_tokens ts q)
unfolding settle
peer_tokens-dropped ts p q gone left = peer_tokens-store_list p q left ts.by_peer

module _ (ts : TokenStore) (p : Text) (gone left : List Token) (v : IsValid ts)
    (s : Split (peer_tokens ts p) gone left) where
  dropped-listed :
      (q : Text)
      → Distinct (peer_tokens (dropped ts p gone left) q)
        × All (Owned (forget gone ts.tokens) q) (peer_tokens (dropped ts p gone left) q)
  dropped-listed q = elim (Bool-cases (same p q)) [
    | inl own ↦
        let here : p ≡ q = (same_iff p q).0 own in
        let parts = Split-Distinct s (v.distinct p) in
        rw (peer_tokens-dropped ts p q gone left, own)
          (
            parts.0,
            subst (λ r. All (Owned (forget gone ts.tokens) r) left) here
                (kept-Owned ts.tokens p gone left (Split-All (Owned ts.tokens p) s (v.listed p)).1
                  parts.1),
          )
    | inr other ↦
        rw (peer_tokens-dropped ts p q gone left, other)
          (
            v.distinct q,
            kept-Owned ts.tokens q gone (peer_tokens ts q) (v.listed q) (
                other_unnamed ts.tokens p q gone (peer_tokens ts q)
                  (λ e. ground (arith, same_iff p q))
                  (Split-All (Owned ts.tokens p) s (v.listed p)).0 (v.listed q)),
          )
  ]

  dropped-indexed :
      (w : Text) (t : Token)
      → Dict.get w (forget gone ts.tokens) ≡ some t
      → (t.token ≡ w) × In t (peer_tokens (dropped ts p gone left) t.peer)
  dropped-indexed w t e =
      let fresh : named w gone ≡ false = ground (arith, get-forget gone ts.tokens w) in
      let found : Dict.get w ts.tokens ≡ some t = ground (arith, get-forget gone ts.tokens w) in
      let (own_name, member) = v.indexed w t found in
      (own_name, rw (peer_tokens-dropped ts p t.peer gone left) (place own_name fresh member))
    where
      place :
          t.token ≡ w
          → named w gone ≡ false
          → In t (peer_tokens ts t.peer)
          → In t (if same p t.peer then left else peer_tokens ts t.peer)
      place own_name fresh member = elim (Bool-cases (same p t.peer)) [
        | inr other ↦ rw other member
        | inl own ↦
            rw own
              (elim (Split-In s t
                (subst (λ r. In t (peer_tokens ts r)) (sym ((same_iff p t.peer).0 own)) member)) [
                  | inl g ↦
                      cc (named_self t gone g, ap (λ (x : Text). named x gone) own_name, fresh)
                  | inr l ↦ l
                ])
      ]

  -- Taking tokens out of one peer's list keeps the store consistent.
  pub dropped-IsValid : IsValid (dropped ts p gone left)
  unfolding settle
  dropped-IsValid = record {
    keyed = store_list-IsKeyed p left ts.by_peer v.keyed;
    counted = omega (arith, total-store_list p left ts.by_peer v.keyed, v.counted, Split-length s);
    distinct = λ q. (dropped-listed q).0;
    listed = λ q. (dropped-listed q).1;
    indexed = dropped-indexed;
  }

  -- The count falls by what left the peer's list.
  pub dropped_live :
      (dropped ts p gone left).live_count + length (peer_tokens ts p) ≡ ts.live_count + length left
  unfolding settle
  dropped_live =
      omega (arith, total-store_list p left ts.by_peer v.keyed, v.counted, dropped-IsValid.counted)
