-- ===== src/Metadata/Routes.antt =====
-- The handlers of imds/handlers.go, tags.go and placement.go, and their registration in New of
-- internal/server/server.go. `Route` has one constructor for each pattern of the metadata tree; which
-- pattern a request matches is the work of http.ServeMux.
use vtpm_mds.Prelude.{
  Bool, false, ◌||◌, if◌then◌else◌, Option, none, some, List, [], ◌∷◌, ◌++◌, Text, codes, same, cut,
  sort_texts,
}
use vtpm_mds.Dict
use vtpm_mds.Dict.{Dict}
use vtpm_mds.Tokens.{
  TokenStore, Caps, Minted, minted, random_failed, store_emergency, generate_token_at,
}
use vtpm_mds.Metadata.{
  Net, Request, Response, Document, text, json, Site, plain, http_error, not_found, write_no_tag,
  write_instance_id_unavailable, lines, guarded, require_vm_identity, get_hostname,
  get_availability_zone, get_region, get_domain, instance_tags, peer_ip, local_ipv4, public_ipv4,
  instance_id, index_paths,
}

pub data Route : Type 0 where
  instance_id_route local_hostname public_ipv4_route local_ipv4_route availability_zone region :
      Route
  placement_keys placement placement_key domain tags tag_keys tag index document : Route

-- The pattern that each handler is registered under.
unfoldable pub pattern_of : Route → Text
pattern_of instance_id_route = codes "GET /latest/meta-data/instance-id"
pattern_of local_hostname = codes "GET /latest/meta-data/local-hostname"
pattern_of public_ipv4_route = codes "GET /latest/meta-data/public-ipv4"
pattern_of local_ipv4_route = codes "GET /latest/meta-data/local-ipv4"
pattern_of availability_zone = codes "GET /latest/meta-data/placement/availability-zone"
pattern_of region = codes "GET /latest/meta-data/placement/region"
pattern_of placement_keys = codes "GET /latest/meta-data/placement/{$}"
pattern_of placement = codes "GET /latest/meta-data/placement"
pattern_of placement_key = codes "GET /latest/meta-data/placement/{key}"
pattern_of domain = codes "GET /latest/meta-data/services/domain"
pattern_of tags = codes "GET /latest/meta-data/tags/{$}"
pattern_of tag_keys = codes "GET /latest/meta-data/tags/instance"
pattern_of tag = codes "GET /latest/meta-data/tags/instance/{key}"
pattern_of index = codes "GET /latest/meta-data/"
pattern_of document = codes "GET /latest/dynamic/instance-identity/document"

-- IdentityBearingPaths
abbrev pub identity_bearing_paths : List Text
identity_bearing_paths =
    codes "/latest/meta-data/instance-id" ∷ codes "/latest/dynamic/instance-identity/document" ∷ []

path_in : Text → List Text → Bool
path_in path [] = false
path_in path (p ∷ paths) = same p path || path_in path paths

-- RequiresVMIdentity
unfoldable pub requires_vm_identity : Text → Bool
unfolding path_in
requires_vm_identity path = path_in path identity_bearing_paths

-- The path of a pattern: what follows the first space, if there is one.
abbrev pub path_of : Text → Text
path_of pattern = let (before, after, found) = cut 32 pattern in if found then after else pattern

abbrev pub served_or_no_tag : Option Text → Response
served_or_no_tag none = write_no_tag
served_or_no_tag (some value) = plain 200 value

-- The entry of a map that may be nil.
abbrev lookup_tag : Text → Option (Dict Text) → Option Text
lookup_tag key none = none
lookup_tag key (some entries) = Dict.get key entries

abbrev sorted_keys : Dict Text → Text
sorted_keys entries = lines (sort_texts (Dict.keys entries))

abbrev ip_or_no_tag : Text → Response
ip_or_no_tag ip = if same ip [] then write_no_tag else plain 200 ip

-- HandleTags and HandleInstanceTagKeys, once the token is valid
unfoldable pub tags_answer : Option (Dict Text) → Response
tags_answer none = write_no_tag
tags_answer (some entries) = plain 200 (lines (codes "instance" ∷ []))

unfoldable pub tag_keys_answer : Option (Dict Text) → Response
tag_keys_answer none = write_no_tag
tag_keys_answer (some entries) = plain 200 (sorted_keys entries)

-- HandlePlacementRedirect: the answer of http.Redirect to a GET
abbrev pub placement_redirect : Response
placement_redirect = record {
  status = 301;
  headers =
      (codes "Location", codes "/latest/meta-data/placement/")
      ∷ (codes "Content-Type", codes "text/html; charset=utf-8")
      ∷ [];
  body =
      text (codes "<a href=\"/latest/meta-data/placement/\">Moved Permanently</a>.\n" ++ (10 ∷ []));
}

-- The answer to a mint.
abbrev pub create_answer : Minted → Response
create_answer (minted tok) = plain 200 tok.token
create_answer store_emergency = record {
  status = 429;
  headers = (codes "Content-Type", codes "text/plain") ∷ (codes "Retry-After", codes "60") ∷ [];
  body = text (codes "Too many requests\n");
}
create_answer random_failed = http_error [] 500 (codes "Internal server error")

module _ {IP : Type 0} (net : Net IP) where
  abbrev pub identity_document : Site → Request → Document
  identity_document site r = record {
    instance_id = instance_id net r;
    image_id = codes "proxmox-unknown";
    instance_type = codes "vm";
    region = get_region site;
    availability_zone = get_availability_zone site;
    private_ip = local_ipv4 net r;
    version = codes "2017-09-30";
    account_id = codes "012345678901";
  }

  abbrev json_answer : Document → Response
  json_answer doc = record {
    status = 200;
    headers = (codes "Content-Type", codes "application/json") ∷ [];
    body = json doc;
  }

  -- The answer where an instance ID can be derived.
  abbrev with_id : Request → Response → Response
  with_id r answer = if same (instance_id net r) [] then write_instance_id_unavailable else answer

  -- HandleInstanceID, HandleHostname, HandlePublicIPv4, HandleLocalIPv4, HandleAvailabilityZone,
  -- HandleRegion, HandlePlacementKeys, HandlePlacementRedirect, HandlePlacementKey, HandleDomain,
  -- HandleTags, HandleInstanceTagKeys, HandleInstanceTag, HandleMetaDataIndex and
  -- HandleInstanceIdentityDocument, in the order of the routes
  unfoldable pub handler : Site → Request → Route → Response
  unfolding tags_answer tag_keys_answer
  handler site r instance_id_route = guarded site r (with_id r (plain 200 (instance_id net r)))
  handler site r local_hostname = guarded site r (plain 200 (get_hostname r))
  handler site r public_ipv4_route = guarded site r (ip_or_no_tag (public_ipv4 net r))
  handler site r local_ipv4_route = guarded site r (ip_or_no_tag (local_ipv4 net r))
  handler site r availability_zone = guarded site r (plain 200 (get_availability_zone site))
  handler site r region = guarded site r (plain 200 (get_region site))
  handler site r placement_keys = guarded site r (plain 200 (sorted_keys site.topology))
  handler site r placement = placement_redirect
  handler site r placement_key = guarded site r (served_or_no_tag (Dict.get r.key site.topology))
  handler site r domain = guarded site r (plain 200 get_domain)
  handler site r tags = guarded site r (tags_answer (instance_tags r))
  handler site r tag_keys = guarded site r (tag_keys_answer (instance_tags r))
  handler site r tag = guarded site r (served_or_no_tag (lookup_tag r.key (instance_tags r)))
  handler site r index = guarded site r (plain 200 (lines (index_paths net r)))
  handler site r document = guarded site r (with_id r (json_answer (identity_document site r)))

  -- `handle` of New: a handler whose path is an identity-bearing one is wrapped.
  unfoldable pub registered : Bool → Site → Request → Route → Response
  registered require site r route =
      if requires_vm_identity (path_of (pattern_of route))
      then require_vm_identity require site.store site.now r (handler site r route)
      else handler site r route

  -- The mux: `none` is a request that only the catch-all matches. Where enable_ec2_compat is off, it
  -- has no other of these routes.
  unfoldable pub serve : Bool → Bool → Site → Request → Option Route → Response
  unfolding registered
  serve ec2_compat require site r none = not_found
  serve ec2_compat require site r (some route) =
      if ec2_compat then registered require site r route else not_found

  abbrev pub peer_of : Option IP → Text
  peer_of none = codes "unknown"
  peer_of (some ip) = net.ip_string ip

  -- HandleCreateToken, with the store that it leaves
  unfoldable pub handle_create_token : Caps → Site → Request → Option Text → TokenStore × Response
  unfolding peer_ip
  handle_create_token caps site r random =
      let (store, result) =
        generate_token_at caps site.store (peer_of (peer_ip net r.remote_addr)) site.now random in
      (store, create_answer result)
