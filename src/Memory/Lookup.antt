-- ===== src/Memory/Lookup.antt =====
-- `impl Store for MemoryStore` in crates/camelmailer-core/src/store.rs: the lookups of a session.
pub mod Best
use camelmailer.Base.{
  ℕ, zero, suc, ◌+◌, ◌&&◌, ◌||◌, not, Bool, true, false, Option, none, some, List, [], ◌∷◌, ltb,
  leb, ◌==◌, if◌then◌else◌, is_empty, is_some, all, any, filter, unwrap_or, map, map_option, ◌>>=◌,
  ℤ, pos, ◌+ℤ◌, wrap_i64, map_get, map_insert, values, find, first?,
}
use camelmailer.Text.{
  Text, codes, trim, before_first, after_last, split_once, text_eq, eq_ignore_ascii_case,
}
use camelmailer.Model.{
  EntityId, Organization, Server, Route, CredentialType, Credential, ResolvedRoute,
  OrganizationPolicy, DomainOwner, of_organization, of_server, Domain, SenderAddress,
}
use camelmailer.Quota.{UsageMonth}
use camelmailer.Memory.{MemoryStore, id_eq, day_key_eq, month_key_eq}

-- `position` of the first and the last character, and the text between two places.
unfoldable pub first_place : ℕ → Text → Option ℕ
first_place c [] = none
first_place c (x ∷ s) = if x == c then some 0 else map_option suc (first_place c s)

unfoldable pub last_place : ℕ → Text → Option ℕ
last_place c [] = none
last_place c (x ∷ s) = elim (last_place c s) [
  | some n ↦ some (suc n)
  | none ↦ if x == c then some 0 else none
]

unfoldable pub between : ℕ → ℕ → Text → Text
between start end [] = []
between start zero (x ∷ s) = []
between zero (suc end) (x ∷ s) = x ∷ between zero end s
between (suc start) (suc end) (x ∷ s) = between start end s

unfoldable pub inside : Text → Option ℕ → Option ℕ → Text
inside value (some start) (some end) =
    if ltb start end then trim (between (suc start) end value) else trim value
inside value _ _ = trim value

-- The places of `<` and `>` count characters, where the source counts bytes: both order alike.
unfoldable pub strip_name_from_address : Text → Text
unfolding inside between first_place last_place trim
strip_name_from_address value = inside value (first_place b'<' value) (last_place b'>' value)

unfoldable pub is_credential_type : CredentialType → CredentialType → Bool
is_credential_type CredentialType.smtp CredentialType.smtp = true
is_credential_type CredentialType.api CredentialType.api = true
is_credential_type CredentialType.smtp_ip CredentialType.smtp_ip = true
is_credential_type _ _ = false

-- The address library: networks, their prefixes, the network of one address, and the IPv4 address that
-- an IPv6 address maps.
pub record Networks (Ip Net : Type 0) : Type 0 where
  pub parse_net : Text → Option Net
  pub parse_ip : Text → Option Ip
  pub from_ip : Ip → Net
  pub prefix_len : Net → ℕ
  pub contains : Net → Ip → Bool
  pub is_v4 : Net → Bool
  pub to_ipv4_mapped : Ip → Option Ip

module _ {Ip Net : Type 0} (nets : Networks Ip Net) where
  unfoldable pub network_of : Credential → Option Net
  network_of c = elim (nets.parse_net c.key) [
    | some net ↦ some net
    | none ↦ map_option nets.from_ip (nets.parse_ip c.key)
  ]

  unfoldable pub candidate : Credential → List (Net × Credential) → List (Net × Credential)
  unfolding network_of is_credential_type
  candidate c rest =
      if is_credential_type c.credential_type CredentialType.smtp_ip
      then (elim (network_of c) [ none ↦ rest | some net ↦ (net, c) ∷ rest ])
      else rest

  unfoldable pub candidates : List Credential → List (Net × Credential)
  unfolding candidate
  candidates [] = []
  candidates (c ∷ cs) = candidate c (candidates cs)

  -- A stable sort, the longest prefix first.
  unfoldable pub insert_candidate :
      Net × Credential → List (Net × Credential) → List (Net × Credential)
  insert_candidate x [] = x ∷ []
  insert_candidate x (y ∷ ys) =
      let rest = insert_candidate x ys in
      if leb (nets.prefix_len y.0) (nets.prefix_len x.0) then x ∷ y ∷ ys else y ∷ rest

  unfoldable pub sort_candidates : List (Net × Credential) → List (Net × Credential)
  unfolding insert_candidate
  sort_candidates [] = []
  sort_candidates (x ∷ xs) = insert_candidate x (sort_candidates xs)

  unfoldable pub matches_ip : Ip → Net × Credential → Bool
  matches_ip ip x =
      nets.contains x.0 ip
      || (nets.is_v4 x.0 && elim (nets.to_ipv4_mapped ip) [
        | none ↦ false
        | some mapped ↦ nets.contains x.0 mapped
      ])

  unfoldable pub match_ip_credential : List Credential → Ip → Option Credential
  unfolding candidates sort_candidates matches_ip
  match_ip_credential credentials ip =
      map_option (λ (x : Net × Credential). x.1)
        (find (matches_ip ip) (sort_candidates (candidates credentials)))

unfoldable pub resolve_route : MemoryStore → Route → Option ResolvedRoute
unfolding map_get id_eq
resolve_route db route = do
  server ← map_get id_eq route.server_id db.servers
  let domain_name =
      unwrap_or [] (
        map_option (λ (d : Domain). d.name) (route.domain_id >>= λ id. map_get id_eq id db.domains))
  some (record { route = route; server = server; domain_name = domain_name })

unfoldable pub find_smtp_credential_by_key : MemoryStore → Text → Option Credential
unfolding is_credential_type text_eq
find_smtp_credential_by_key db key =
    find (λ c. is_credential_type c.credential_type CredentialType.smtp && text_eq c.key key)
      (values db.credentials)

unfoldable pub find_server_by_token : MemoryStore → Text → Option Server
unfolding text_eq
find_server_by_token db token = find (λ s. text_eq s.token token) (values db.servers)

unfoldable pub find_route_by_token : MemoryStore → Text → Option ResolvedRoute
unfolding text_eq resolve_route
find_route_by_token db token =
    find (λ r. text_eq r.token token) (values db.routes) >>= resolve_route db

unfoldable pub is_route_of : MemoryStore → Text → Text → Route → Bool
unfolding text_eq map_get id_eq
is_route_of db name domain r =
    text_eq r.name name && (elim (r.domain_id >>= λ id. map_get id_eq id db.domains) [
      | none ↦ false
      | some d ↦ text_eq d.name domain
    ])

unfoldable pub find_route_by_name_and_domain : MemoryStore → Text → Text → Option ResolvedRoute
unfolding is_route_of resolve_route
find_route_by_name_and_domain db name domain =
    find (is_route_of db name domain) (values db.routes) >>= resolve_route db

-- `sort_by_key(|c| c.id)`
insert_by_id : Credential → List Credential → List Credential
insert_by_id c [] = c ∷ []
insert_by_id c (d ∷ ds) =
    let rest = insert_by_id c ds in if leb c.id d.id then c ∷ d ∷ ds else d ∷ rest

sort_by_id : List Credential → List Credential
sort_by_id [] = []
sort_by_id (c ∷ cs) = insert_by_id c (sort_by_id cs)

unfoldable pub smtp_credentials_for_server : MemoryStore → EntityId → List Credential
unfolding sort_by_id insert_by_id is_credential_type
smtp_credentials_for_server db server_id = sort_by_id (
    filter
      (λ c. c.server_id == server_id && is_credential_type c.credential_type CredentialType.smtp)
      (values db.credentials))

unfoldable pub find_server_by_permalinks : MemoryStore → Text → Text → Option Server
unfolding text_eq
find_server_by_permalinks db org_permalink server_permalink = do
  organization ← find (λ o. text_eq o.permalink org_permalink) (values db.organizations)
  find (λ s. s.organization_id == organization.id && text_eq s.permalink server_permalink)
      (values db.servers)

-- Whether a domain belongs to the server or to its organization.
unfoldable pub is_owned_by : Server → DomainOwner → Bool
is_owned_by server (of_server id) = id == server.id
is_owned_by server (of_organization id) = id == server.organization_id

unfoldable pub is_domain_for : Server → Text → Domain → Bool
unfolding text_eq is_owned_by
is_domain_for server domain_name d =
    d.verified && text_eq d.name domain_name && is_owned_by server d.owner

-- The domain of an address, whose part before the first `@` is not empty.
unfoldable pub address_domain : Text → Option Text
unfolding strip_name_from_address split_once
address_domain address = do
  parts ← split_once b'@' (strip_name_from_address address)
  if is_empty parts.0 then none else some parts.1

unfoldable pub domain_for_address : MemoryStore → Server → Text → Option EntityId
unfolding address_domain is_domain_for
domain_for_address db server address = do
  domain_name ← address_domain address
  map_option (λ (d : Domain). d.id) (find (is_domain_for server domain_name) (values db.domains))

-- The domain of the first value, if all of them have one.
unfoldable pub first_of_all : List (Option EntityId) → Option EntityId
first_of_all [] = none
first_of_all (d ∷ ds) = if all is_some (d ∷ ds) then d else none

unfoldable pub find_authenticated_domain : MemoryStore → EntityId → List Text → Option EntityId
unfolding first_of_all domain_for_address map_get id_eq
find_authenticated_domain db server_id header_values = do
  server ← map_get id_eq server_id db.servers
  first_of_all (map (domain_for_address db server) header_values)

unfoldable pub is_confirmed_address : MemoryStore → EntityId → Text → Bool
unfolding strip_name_from_address eq_ignore_ascii_case
is_confirmed_address db server_id value =
    any
      (λ a.
        a.server_id == server_id
        && a.verified
        && eq_ignore_ascii_case a.email_address (strip_name_from_address value))
      (values db.sender_addresses)

unfoldable pub find_confirmed_sender_address : MemoryStore → EntityId → List Text → Bool
unfolding is_confirmed_address
find_confirmed_sender_address db server_id header_values =
    not (is_empty header_values) && all (is_confirmed_address db server_id) header_values

no_policy_set : OrganizationPolicy
no_policy_set = record { monthly_send_limit = none; suspended = false; suspension_reason = none }

unfoldable pub send_policy_for_organization : MemoryStore → EntityId → OrganizationPolicy
unfolding map_get id_eq no_policy_set
send_policy_for_organization db organization_id =
    unwrap_or no_policy_set (map_get id_eq organization_id db.organization_policies)

unfoldable pub organization_month_usage : UsageMonth → MemoryStore → EntityId → ℤ
unfolding map_get month_key_eq
organization_month_usage current db organization_id =
    unwrap_or (pos 0)
      (map_get month_key_eq (organization_id, current) db.organization_send_counters)

-- A sum of `i64`, which wraps in a release build.
sum_in_window : EntityId → ℕ → List ((EntityId × ℕ) × ℤ) → ℤ
sum_in_window server_id today [] = pos 0
sum_in_window server_id today (((server, day), sent) ∷ r) =
    let rest = sum_in_window server_id today r in
    if server == server_id && (leb today (day + 29) && leb day today)
    then wrap_i64 (sent +ℤ rest)
    else rest

-- A day is its number; the window is today and the 29 days before.
unfoldable pub send_usage : ℕ → MemoryStore → EntityId → ℤ
unfolding sum_in_window wrap_i64 ◌+ℤ◌
send_usage today db server_id = sum_in_window server_id today db.send_counters

unfoldable pub return_path_route_for_server : MemoryStore → EntityId → Option ResolvedRoute
unfolding resolve_route text_eq codes
return_path_route_for_server db server_id =
    find (λ r. r.server_id == server_id && text_eq r.name (codes "__returnpath__"))
      (values db.routes)
    >>= resolve_route db

used_at : ℕ → EntityId → List (EntityId × Credential) → List (EntityId × Credential)
unfolding map_get map_insert id_eq
used_at now id credentials = elim (map_get id_eq id credentials) [
  | none ↦ credentials
  | some c ↦ map_insert id_eq id (record c { last_used_at = some now }) credentials
]

unfoldable pub record_credential_use : ℕ → MemoryStore → EntityId → MemoryStore
unfolding used_at map_get map_insert id_eq
record_credential_use now db credential_id = record db {
  credential_uses =
      map_insert id_eq credential_id
        (suc (unwrap_or 0 (map_get id_eq credential_id db.credential_uses))) db.credential_uses;
  credentials = used_at now credential_id db.credentials;
}
