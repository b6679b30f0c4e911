-- ===== src/Metadata/Access.antt =====
-- What a request without a valid session token is answered.
use vtpm_mds.Prelude.{◌≡◌, ◌≢◌, refl, Bool, true, false, some, arith}
use vtpm_mds.Metadata.{Net, Request, Site, validates, require_vm_identity, token_required}
use vtpm_mds.Metadata.Routes.{Route, placement, handler, serve}

module _ {IP : Type 0} (net : Net IP) (site : Site) (r : Request) where
  handler_shut :
      (route : Route)
      → route ≢ placement
      → validates site r ≡ false
      → handler net site r route ≡ token_required
  unfolding handler
  handler_shut placement h e = absurd (h refl)
  handler_shut _ h e = rw e

  handler_open : (route : Route) → validates site r ≡ true → (handler net site r route).status ≢ 401
  unfolding handler
  handler_open placement e = ground arith
  handler_open _ e = ground arith

  -- With the metadata tree enabled, each of its routes but the redirect of placement answers the
  -- 401 that asks for a token to a request without a valid one, and never 401 to a request with
  -- one.
  pub serve_needs_token :
      (require : Bool) (route : Route)
      → route ≢ placement
      → (validates site r ≡ false → serve net true require site r (some route) ≡ token_required)
        × (validates site r ≡ true → (serve net true require site r (some route)).status ≢ 401)
  unfolding serve require_vm_identity validates
  serve_needs_token require route h =
      ((λ e. ground (arith, handler_shut route h e)), (λ e. ground (arith, handler_open route e)))
