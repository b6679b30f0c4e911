-- ===== src/Metadata/Opening.antt =====
-- A session token and the requests that carry it.
use vtpm_mds.Prelude.{
  ℕ, ◌+◌, ◌≡◌, ◌≢◌, ◌≤◌, refl, Bool, true, some, arith, Text, same_ne, [], leb, le→leb, ◌∙◌,
}
use vtpm_mds.Tokens.{
  TokenStore, Caps, Token, Minted, minted, random_failed, store_emergency, generate_token_at,
  validate_token,
}
use vtpm_mds.Tokens.Invariant.{IsValid}
use vtpm_mds.Tokens.Generate.{IsFresh}
use vtpm_mds.Tokens.Outcome.{generate_token_at_list}
use vtpm_mds.Tokens.Later.{Others, Others-validate}
use vtpm_mds.Metadata.{Net, Request, Site, plain, validates, peer_ip, token_required}
use vtpm_mds.Metadata.Routes.{Route, placement, serve, handle_create_token, create_answer, peer_of}
use vtpm_mds.Metadata.Access.{serve_needs_token}

minted_of : (m : Minted) → (create_answer m).status ≡ 200 → (tok : Token) × (m ≡ minted tok)
minted_of (minted tok) h = (tok, refl)
minted_of store_emergency h = absurd (omega arith)
minted_of random_failed h = absurd (omega arith)

module _ {IP : Type 0} (net : Net IP) (caps : Caps) (site : Site) (r : Request) (value : Text)
    (later : ℕ) where
  abbrev peer : Text
  peer = peer_of net (peer_ip net r.remote_addr)

  -- The site with a store, at a later time.
  abbrev pub after : TokenStore → Site
  after store = record site { store = store; now = later }

  created_validates :
      (store : TokenStore)
      → IsValid site.store
      → IsFresh site.store (some value)
      → (handle_create_token net caps site r (some value)).1.status ≡ 200
      → Others caps peer value later (handle_create_token net caps site r (some value)).0 store
      → ((handle_create_token net caps site r (some value)).1 ≡ plain 200 value)
        × (validate_token store later value ≡ leb later (site.now + site.store.token_ttl))
  unfolding handle_create_token
  created_validates store valid fresh h others =
      let (tok, e) = minted_of (generate_token_at caps site.store peer site.now (some value)).1 h in
      (
        rw (e, (generate_token_at_list caps site.store peer site.now value tok e).0),
        Others-validate caps peer value later site.store store site.now tok valid fresh e others,
      )

  -- In a consistent store and for a new random value that is not empty, if the token route answers
  -- 200, its body is that value, and after any mints for other peers with other new values, and
  -- sweeps up to the time of a request, a request that carries it to a route of the metadata tree
  -- other than the redirect is not answered by 401 up to the time of the mint plus the lifetime,
  -- and by the 401 that asks for a token from then on.
  pub token_opens :
      (store : TokenStore) (require : Bool) (route : Route) (q : Request)
      → IsValid site.store
      → IsFresh site.store (some value)
      → (handle_create_token net caps site r (some value)).1.status ≡ 200
      → Others caps peer value later (handle_create_token net caps site r (some value)).0 store
      → value ≢ []
      → q.token ≡ value
      → route ≢ placement
      → ((handle_create_token net caps site r (some value)).1 ≡ plain 200 value)
        × (later ≤ site.now + site.store.token_ttl
            → (serve net true require (after store) q (some route)).status ≢ 401)
        × (site.now + site.store.token_ttl + 1 ≤ later
            → serve net true require (after store) q (some route) ≡ token_required)
  unfolding validates
  token_opens store require route q v fresh h others nonempty e k =
      let (answer, valid) = created_validates store v fresh h others in
      let needs = serve_needs_token net (after store) q require route k in
      let reads : validates (after store) q ≡ leb later (site.now + site.store.token_ttl) =
        rw e (rw (same_ne value [] nonempty) valid) in
      (
        answer,
        (λ before. needs.1 (reads ∙ le→leb _ _ before)),
        (λ past. needs.0 (ground (arith, reads))),
      )
