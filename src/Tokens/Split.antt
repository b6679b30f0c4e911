-- ===== src/Tokens/Split.antt =====
-- The two loops of imds/token.go take tokens out of a peer's list and out of the token map. `Split`
-- says which went and which stayed, and `forget` what the map is after it.
use vtpm_mds.Prelude.{
  ℕ, zero, suc, ◌+◌, ◌-◌, ◌≡◌, refl, ◌⊎◌, inl, inr, ◌≢◌, Bool, false, not, none, List, [], ◌∷◌,
  length, keep, any, take, drop, arith, ltb, if◌then◌else◌, Bool-cases, All, In, Text, same,
  same_iff, same_ne,
}
use vtpm_mds.Dict
use vtpm_mds.Dict.{Dict, get-remove}
use vtpm_mds.Tokens.{Token, Loop, expired, prune_loop, evict_loop}

-- The list is divided into what is gone and what is left, both in order.
pub data Split {ℓ} {A : Type ℓ} : List A → List A → List A → Type ℓ where
  done : Split [] [] []
  go : {x : A} {xs gone left : List A} → Split xs gone left → Split (x ∷ xs) (x ∷ gone) left
  stay : {x : A} {xs gone left : List A} → Split xs gone left → Split (x ∷ xs) gone (x ∷ left)

pub forget : List Token → Dict Token → Dict Token
forget [] tokens = tokens
forget (t ∷ ts) tokens = forget ts (Dict.remove t.token tokens)

abbrev pub named : Text → List Token → Bool
named value = any (λ t. same t.token value)

pub get-forget :
    (gone : List Token) (tokens : Dict Token) (value : Text)
    → Dict.get value (forget gone tokens)
      ≡ (if named value gone then none else Dict.get value tokens)
unfolding forget
get-forget [] tokens value = refl
get-forget (t ∷ gone) tokens value =
    ground
      (arith, get-forget gone (Dict.remove t.token tokens) value, get-remove t.token value tokens)

-- What a loop leaves, if it took `gone` out.
abbrev pub loop_result : List Token → List Token → Dict Token → ℕ → Loop
loop_result gone left tokens live = record {
  map = forget gone tokens;
  live = live - length gone;
  list = left;
}

-- The pruning loop takes out the expired tokens and keeps the others.
pub prune_loop_lem :
    (now : ℕ) (list : List Token) (tokens : Dict Token) (live : ℕ)
    → prune_loop now list tokens live
      ≡ loop_result (keep (expired now) list) (keep (λ t. not (expired now t)) list) tokens live
unfolding prune_loop forget
prune_loop_lem now [] tokens live = ground arith
prune_loop_lem now (t ∷ list) tokens live = ground (
  arith,
  prune_loop_lem now list (Dict.remove t.token tokens) (live - 1),
  prune_loop_lem now list tokens live,
)

-- The evicting loop takes tokens from the front of the list, and keeps as many as there is room for.
pub evict_loop_lem :
    (room : ℕ) (list : List Token) (tokens : Dict Token) (live : ℕ)
    → evict_loop room list tokens live
      ≡ loop_result (take (length list - room) list) (drop (length list - room) list) tokens live
unfolding evict_loop forget
evict_loop_lem room [] tokens live = ground arith
evict_loop_lem room (t ∷ list) tokens live = elim (Bool-cases (ltb room (length (t ∷ list)))) [
  | inl more ↦
      let size : suc (length list) - room ≡ suc (length list - room) = ground arith in
      rw (size, more)
        (ground (arith, evict_loop_lem room list (Dict.remove t.token tokens) (live - 1)))
  | inr fits ↦
      let size : suc (length list) - room ≡ 0 = ground arith in rw (size, fits) (ground arith)
]

module _ {ℓ} {A : Type ℓ} where
  pub keep-Split : (p : A → Bool) (xs : List A) → Split xs (keep p xs) (keep (λ x. not (p x)) xs)
  keep-Split p [] = done
  keep-Split p (x ∷ xs) = elim (Bool-cases (p x)) [
    | inl e ↦ rw e (go (keep-Split p xs))
    | inr e ↦ rw e (stay (keep-Split p xs))
  ]

  all_stay : (xs : List A) → Split xs [] xs
  all_stay [] = done
  all_stay (x ∷ xs) = stay (all_stay xs)

  pub take-Split : (n : ℕ) (xs : List A) → Split xs (take n xs) (drop n xs)
  take-Split zero xs = all_stay xs
  take-Split (suc n) [] = done
  take-Split (suc n) (x ∷ xs) = go (take-Split n xs)

  pub Split-length :
      {xs gone left : List A} → Split xs gone left → length xs ≡ length gone + length left
  Split-length done = omega arith
  Split-length (go s) = omega (arith, Split-length s)
  Split-length (stay s) = omega (arith, Split-length s)

module _ {ℓ κ} {A : Type ℓ} (P : A → Type κ) where
  pub Split-All : {xs gone left : List A} → Split xs gone left → All P xs → All P gone × All P left
  Split-All done h = (tt, tt)
  Split-All (go s) h = let (g, l) = Split-All s h.1 in ((h.0, g), l)
  Split-All (stay s) h = let (g, l) = Split-All s h.1 in (g, (h.0, l))

pub Split-In :
    {A : Type 0} {xs gone left : List A}
    → Split xs gone left
    → (a : A) → In a xs
    → In a gone ⊎ In a left
Split-In done a m = inl m
Split-In (go s) a (inl e) = inl (inl e)
Split-In (go s) a (inr m) = elim (Split-In s a m) [ inl g ↦ inl (inr g) | inr l ↦ inr l ]
Split-In (stay s) a (inl e) = inr (inl e)
Split-In (stay s) a (inr m) = elim (Split-In s a m) [ inl g ↦ inl g | inr l ↦ inr (inr l) ]

-- The values of a list of tokens are pairwise distinct.
abbrev pub Distinct : List Token → Type 0
Distinct [] = Unit
Distinct (t ∷ ts) = All (λ u. u.token ≢ t.token) ts × Distinct ts

not_named :
    (value : Text) (ts : List Token) → All (λ u. u.token ≢ value) ts → named value ts ≡ false
not_named value [] h = refl
not_named value (t ∷ ts) h = rw (same_ne t.token value h.0, not_named value ts h.1)

other_names :
    (x : Token) (gone left : List Token)
    → All (λ u. u.token ≢ x.token) left
    → All (λ t. named t.token gone ≡ false) left
    → All (λ t. named t.token (x ∷ gone) ≡ false) left
other_names x gone [] h a = tt
other_names x gone (t ∷ left) h a =
    (ground (arith, same_iff x.token t.token, h.0, a.0), other_names x gone left h.1 a.1)

-- Nothing that stays carries the value of something that goes.
pub Split-Distinct :
    {xs gone left : List Token}
    → Split xs gone left
    → Distinct xs
    → Distinct left × All (λ t. named t.token gone ≡ false) left
Split-Distinct done h = (tt, tt)
Split-Distinct {left = left} (go {x = x} {gone = gone} s) h =
    let (d, a) = Split-Distinct s h.1 in
    (d, other_names x gone left (Split-All (λ u. u.token ≢ x.token) s h.0).1 a)
Split-Distinct (stay {x = x} s) h =
    let (d, a) = Split-Distinct s h.1 in
    let parts = Split-All (λ u. u.token ≢ x.token) s h.0 in
    ((parts.1, d), (not_named x.token _ parts.0, a))
