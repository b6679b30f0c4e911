-- ===== src/Metadata.antt =====
-- The metadata handlers of imds/handlers.go, tags.go and placement.go, and the predicates on the bound
-- record of internal/inventory/inventory.go. A handler takes the request and what it reads, and gives
-- the response. Package net is the record Net. Metadata/Routes has the registration of the handlers.
pub mod Routes
pub mod Access
pub mod Identity
pub mod Listing
pub mod Opening
use vtpm_mds.Prelude.{
  ℕ, ◌+◌, Bool, true, false, not, ◌&&◌, ◌==◌, ltb, if◌then◌else◌, Option, none, some, List, [], ◌∷◌,
  ◌++◌, map, length, value_or, Text, codes, same, trim_space, split_on, sort_texts,
}
use vtpm_mds.Dict
use vtpm_mds.Dict.{Dict}
use vtpm_mds.Inventory.{VmConfig}
use vtpm_mds.Tokens.{
  TokenStore, Caps, Minted, minted, random_failed, store_emergency, generate_token_at,
  validate_token,
}

-- The host of net.SplitHostPort, net.ParseIP, IP.To4 and IP.String.
pub record Net (IP : Type 0) : Type 0 where
  pub split_host_port : Text → Option Text
  pub parse_ip : Text → Option IP
  pub to4 : IP → Option IP
  pub ip_string : IP → Text

-- What the handlers read of a request: the header X-Aws-Ec2-Metadata-Token, the addresses, the record
-- in its context, and the part of the path that a pattern names.
pub record Request : Type 0 where
  pub token : Text
  pub remote_addr : Text
  pub host : Text
  pub vm : Option VmConfig
  pub key : Text

pub record Document : Type 0 where
  pub instance_id : Text
  pub image_id : Text
  pub instance_type : Text
  pub region : Text
  pub availability_zone : Text
  pub private_ip : Text
  pub version : Text
  pub account_id : Text

pub data Body : Type 0 where
  text : Text → Body
  json : Document → Body

pub record Response : Type 0 where
  pub status : ℕ
  pub headers : Dict Text
  pub body : Body

-- The token store, the topology of the host, and the time.
pub record Site : Type 0 where
  pub store : TokenStore
  pub topology : Dict Text
  pub now : ℕ

-- IsBound
unfoldable pub is_bound : Option VmConfig → Bool
is_bound none = false
is_bound (some vm) = not (same vm.vmid [])

-- BoundVMFromRequest
unfoldable pub bound_vm : Request → Option VmConfig
bound_vm r = if is_bound r.vm then r.vm else none

abbrev content_type : Text → Text × Text
content_type value = (codes "Content-Type", value)

-- A text/plain response.
abbrev pub plain : ℕ → Text → Response
plain status body = record {
  status = status;
  headers = content_type (codes "text/plain") ∷ [];
  body = text body;
}

-- http.Error
abbrev pub http_error : Dict Text → ℕ → Text → Response
http_error headers status message = record {
  status = status;
  headers =
      headers
      ++ content_type (codes "text/plain; charset=utf-8")
        ∷ (codes "X-Content-Type-Options", codes "nosniff")
        ∷ [];
  body = text (message ++ 10 ∷ []);
}

-- http.NotFound
abbrev pub not_found : Response
not_found = http_error [] 404 (codes "404 page not found")

-- The answer of every handler to a request without a valid token.
abbrev pub token_required : Response
token_required =
    http_error ((codes "X-Aws-Ec2-Metadata-Token", codes "required") ∷ []) 401
      (codes "IMDSv2 token required")

-- writeNoTag, and the answer of local-ipv4 and public-ipv4 without an address
abbrev pub write_no_tag : Response
write_no_tag = plain 404 []

-- WriteInstanceIDUnavailable
abbrev pub write_instance_id_unavailable : Response
write_instance_id_unavailable = plain 422 []

-- One line for each text, as fmt.Fprintln writes them.
unfoldable pub lines : List Text → Text
lines [] = []
lines (t ∷ ts) = t ++ (10 ∷ lines ts)

-- storeValidatesToken, where the store is not nil
unfoldable pub store_validates_token : TokenStore → ℕ → Request → Bool
store_validates_token s now r = if same r.token [] then false else validate_token s now r.token

-- validateToken: SetStore hands over the store of the server before it registers a handler.
unfoldable pub validates : Site → Request → Bool
unfolding store_validates_token
validates site r = store_validates_token site.store site.now r

-- The first statement of every handler.
abbrev pub guarded : Site → Request → Response → Response
guarded site r answer = if validates site r then answer else token_required

-- RequireVMIdentity around a handler that answers `next`
unfoldable pub require_vm_identity : Bool → TokenStore → ℕ → Request → Response → Response
require_vm_identity require s now r next =
    if not require
    then next
    else if not (store_validates_token s now r)
    then next
    else if not (is_bound r.vm)
    then not_found
    else next

abbrev head_or : Text → List Text → Text
head_or d [] = d
head_or d (t ∷ ts) = t

-- getHostname
unfoldable pub get_hostname : Request → Text
get_hostname r =
    if same r.host [] then codes "localhost.localdomain" else head_or [] (split_on b':' r.host)

-- getAvailabilityZone, getRegion, getDomain
abbrev pub get_availability_zone : Site → Text
get_availability_zone site = value_or [] (Dict.get (codes "availability-zone") site.topology)

abbrev pub get_region : Site → Text
get_region site = value_or [] (Dict.get (codes "region") site.topology)

abbrev pub get_domain : Text
get_domain = codes "localdomain"

abbrev some_tags : Dict Text → Option (Dict Text)
some_tags [] = none
some_tags (t ∷ tags) = some (t ∷ tags)

-- InstanceTags, `none` for nil
unfoldable pub instance_tags : Request → Option (Dict Text)
instance_tags r = elim (r.vm) [ none ↦ none | some vm ↦ some_tags vm.tags ]

-- strings.ReplaceAll(ip, ".", "-")
abbrev dashed : Text → Text
dashed = map (λ c. if c == b'.' then b'-' else c)

module _ {IP : Type 0} (net : Net IP) where
  -- PeerIP
  unfoldable pub peer_ip : Text → Option IP
  peer_ip remote_addr = net.parse_ip (value_or remote_addr (net.split_host_port remote_addr))

  -- The text of an address that has four bytes, and no text for another.
  unfoldable pub v4_string : Option IP → Text
  v4_string none = []
  v4_string (some ip) = elim (net.to4 ip) [ none ↦ [] | some v4 ↦ net.ip_string v4 ]

  -- LocalIPv4
  unfoldable pub local_ipv4 : Request → Text
  unfolding peer_ip v4_string
  local_ipv4 r = v4_string (peer_ip r.remote_addr)

  -- The address that a record declares.
  unfoldable pub declared_ipv4 : Text → Text
  unfolding v4_string
  declared_ipv4 declared = if same declared [] then [] else v4_string (net.parse_ip declared)

  -- PublicIPv4
  unfoldable pub public_ipv4 : Request → Text
  unfolding declared_ipv4
  public_ipv4 r = elim (r.vm) [
    | none ↦ []
    | some vm ↦
        declared_ipv4 (trim_space (value_or [] (Dict.get (codes "public-ipv4") vm.raw_config)))
  ]

  synthetic_id : Text → Text
  synthetic_id ip = if same ip [] then [] else codes "i-" ++ dashed ip

  -- InstanceID
  unfoldable pub instance_id : Request → Text
  unfolding local_ipv4 synthetic_id
  instance_id r = elim (bound_vm r) [
    | some vm ↦ codes "i-" ++ vm.vmid
    | none ↦ synthetic_id (local_ipv4 r)
  ]

  -- The lines of HandleMetaDataIndex.
  unfoldable pub index_paths : Request → List Text
  index_paths r =
      (codes "instance-id" ∷ codes "local-hostname" ∷ codes "local-ipv4" ∷ [])
      ++ (if same (public_ipv4 r) [] then [] else codes "public-ipv4" ∷ [])
      ++ (codes "placement/" ∷ codes "services/" ∷ [])
      ++ elim (instance_tags r) [ none ↦ [] | some tags ↦ codes "tags/" ∷ [] ]
