-- ===== src/Memory/Owned.antt =====
-- Which addresses a server may send under (`find_authenticated_domain` and
-- `find_confirmed_sender_address` of crates/camelmailer-core/src/store.rs).
use camelmailer.Base.{
  ◌≡◌, refl, sym, ap, ◌∙◌, inl, inr, Bool, true, false, ◌&&◌, Option, none, some, List, [], ◌∷◌,
  ◌==◌, is_empty, is_some, all, any, All, Any, map, map_option, unwrap_or, ◌>>=◌, map_get, values,
  find, arith, Bool-cases,
}
use camelmailer.Text.{Text, eq_ignore_ascii_case}
use camelmailer.Text.Laws.{text_eq→eq}
use camelmailer.Model.{
  EntityId, Server, DomainOwner, of_organization, of_server, Domain, SenderAddress,
}
use camelmailer.Memory.{MemoryStore, id_eq}
use camelmailer.Smtp.Types.{Headers}
use camelmailer.Smtp.Body.{header_get}
use camelmailer.Memory.Reading.{
  IsReadFrom, IsAt, strip_name_from_address-IsReadFrom, address_domain-IsAt,
}
use camelmailer.Memory.Lookup
use camelmailer.Memory.Lookup.{
  Networks, strip_name_from_address, address_domain, is_domain_for, is_owned_by, domain_for_address,
  first_of_all, is_confirmed_address, find_confirmed_sender_address,
}

-- Who owns the domain is the server, or its organization.
abbrev pub Owns : Server → DomainOwner → Type 0
Owns server (of_server id) = id ≡ server.id
Owns server (of_organization id) = id ≡ server.organization_id

-- The address that is read in the value is one of a verified domain that the server may send for.
abbrev pub HasDomain : MemoryStore → Server → Text → Type 0
HasDomain db server value =
    (address : Text) × IsReadFrom address value
    × Any (λ (d : Domain). (d.verified ≡ true) × IsAt d.name address × Owns server d.owner)
        (values db.domains)

-- The address that is read in the value is a confirmed sender address of the server, in any case of its
-- letters.
abbrev pub HasSender : MemoryStore → EntityId → Text → Type 0
HasSender db server_id value =
    (address : Text) × IsReadFrom address value
    × Any
        (λ (a : SenderAddress).
          (a.server_id ≡ server_id)
          × (a.verified ≡ true)
          × (eq_ignore_ascii_case a.email_address address ≡ true))
        (values db.sender_addresses)

-- Every value of a header, of which there is one at least, has the property.
abbrev pub EachOf : (Text → Type 0) → List Text → Type 0
EachOf P vs = (is_empty vs ≡ false) × All P vs

-- The values of a header.
abbrev pub values_of : Text → Headers → List Text
values_of name headers = unwrap_or [] (header_get name headers)

find-Any :
    {A : Type 0} (p : A → Bool) (P : A → Type 0) (xs : List A)
    → ((x : A) → p x ≡ true → P x)
    → is_some (find p xs) ≡ true
    → Any P xs
find-Any p P [] k h = ground arith
find-Any p P (x ∷ xs) k h = elim (Bool-cases (p x)) [
  | inl e ↦ inl (k x e)
  | inr e ↦ inr (find-Any p P xs k (rw e at h))
]

any-Any :
    {A : Type 0} (p : A → Bool) (P : A → Type 0) (xs : List A)
    → ((x : A) → p x ≡ true → P x)
    → any p xs ≡ true
    → Any P xs
any-Any p P [] k h = ground arith
any-Any p P (x ∷ xs) k h = elim (Bool-cases (p x)) [
  | inl e ↦ inl (k x e)
  | inr e ↦ inr (any-Any p P xs k (rw e at h))
]

all-All :
    {A : Type 0} (p : A → Bool) (P : A → Type 0) (xs : List A)
    → ((x : A) → p x ≡ true → P x)
    → all p xs ≡ true
    → All P xs
all-All p P [] k h = tt
all-All p P (x ∷ xs) k h = (k x (ground arith), all-All p P xs k (ground arith))

is_some-map : {A B : Type 0} (f : A → B) (o : Option A) → is_some (map_option f o) ≡ is_some o
is_some-map f none = refl
is_some-map f (some a) = refl

owns : (server : Server) (o : DomainOwner) → is_owned_by server o ≡ true → Owns server o
unfolding is_owned_by
owns server (of_server id) h = ground arith
owns server (of_organization id) h = ground arith

domain_of :
    (server : Server) (name : Text) (d : Domain)
    → is_domain_for server name d ≡ true
    → (d.verified ≡ true) × (name ≡ d.name) × Owns server d.owner
unfolding is_domain_for
domain_of server name d h =
    (ground arith, sym (text_eq→eq d.name name (ground arith)), owns server d.owner (ground arith))

domain_for_address_of :
    (db : MemoryStore) (server : Server) (value : Text) (o : Option Text)
    → address_domain value ≡ o
    → domain_for_address db server value ≡ (
        o >>= λ name.
        map_option (λ (d : Domain). d.id) (find (is_domain_for server name) (values db.domains)))
unfolding domain_for_address
domain_for_address_of db server value o e =
    ap
      (λ (x : Option Text). x >>= λ name.
        map_option (λ (d : Domain). d.id) (find (is_domain_for server name) (values db.domains)))
      e

-- An address for which a domain is found has one.
domain_for-HasDomain :
    (db : MemoryStore) (server : Server) (value : Text) (o : Option Text)
    → address_domain value ≡ o
    → is_some (domain_for_address db server value) ≡ true
    → HasDomain db server value
domain_for-HasDomain db server value none e h =
    let h' : is_some {A = EntityId} none ≡ true =
      rw (domain_for_address_of db server value none e) at h in
    ground (arith, h')
domain_for-HasDomain db server value (some name) e h =
    let h' : is_some
          (map_option (λ (d : Domain). d.id) (find (is_domain_for server name) (values db.domains)))
        ≡ true =
      rw (domain_for_address_of db server value (some name) e) at h in
    (
      strip_name_from_address value,
      strip_name_from_address-IsReadFrom value,
      find-Any (is_domain_for server name) _ (values db.domains)
          (λ d k.
            let (v, n, o) = domain_of server name d k in
            (v, rw n at (address_domain-IsAt value name e), o))
          (sym (
              is_some-map (λ (d : Domain). d.id)
                (find (is_domain_for server name) (values db.domains)))
            ∙ h'),
    )

all-map :
    (f : Text → Option EntityId) (vs : List Text)
    → all is_some (map f vs) ≡ all (λ v. is_some (f v)) vs
all-map f [] = refl
all-map f (v ∷ vs) = rw (all-map f vs) refl

first_of_all-each :
    (f : Text → Option EntityId) (vs : List Text)
    → is_some (first_of_all (map f vs)) ≡ true
    → (is_empty vs ≡ false) × (all (λ v. is_some (f v)) vs ≡ true)
unfolding first_of_all
first_of_all-each f [] h = ground (arith, h)
first_of_all-each f (v ∷ vs) h = (refl, ground (arith, all-map f vs))

authenticated_when :
    (db : MemoryStore) (server_id : EntityId) (vs : List Text) (o : Option Server)
    → map_get id_eq server_id db.servers ≡ o
    → Lookup.find_authenticated_domain db server_id vs
      ≡ (o >>= λ server. first_of_all (map (domain_for_address db server) vs))
unfolding Lookup.find_authenticated_domain
authenticated_when db server_id vs o e =
    ap (λ (x : Option Server). x >>= λ server. first_of_all (map (domain_for_address db server) vs))
      e

-- The values of a header that authenticates a domain.
pub find_authenticated_domain_lem :
    (db : MemoryStore) (server_id : EntityId) (vs : List Text) (o : Option Server)
    → map_get id_eq server_id db.servers ≡ o
    → is_some (Lookup.find_authenticated_domain db server_id vs) ≡ true
    → (server : Server) × (map_get id_eq server_id db.servers ≡ some server)
      × EachOf (HasDomain db server) vs
find_authenticated_domain_lem db server_id vs none e h =
    let h' : is_some {A = EntityId} none ≡ true =
      rw (authenticated_when db server_id vs none e) at h in
    ground (arith, h')
find_authenticated_domain_lem db server_id vs (some server) e h =
    let (n, a) =
      first_of_all-each (domain_for_address db server) vs
        (rw (authenticated_when db server_id vs (some server) e) at h) in
    (
      server,
      e,
      (
        n,
        all-All (λ v. is_some (domain_for_address db server v)) (HasDomain db server) vs
            (λ v k. domain_for-HasDomain db server v (address_domain v) refl k) a,
      ),
    )

-- A value whose address is confirmed has a sender address.
is_confirmed_address-HasSender :
    (db : MemoryStore) (server_id : EntityId) (value : Text)
    → is_confirmed_address db server_id value ≡ true
    → HasSender db server_id value
unfolding is_confirmed_address
is_confirmed_address-HasSender db server_id value h = (
  strip_name_from_address value,
  strip_name_from_address-IsReadFrom value,
  any-Any
      (λ (a : SenderAddress).
        a.server_id == server_id
        && a.verified
        && eq_ignore_ascii_case a.email_address (strip_name_from_address value))
      _ (values db.sender_addresses) (λ a l. (ground arith, ground arith, ground arith)) h,
)

-- The values of a header whose addresses are confirmed.
pub find_confirmed_sender_address_lem :
    (db : MemoryStore) (server_id : EntityId) (vs : List Text)
    → find_confirmed_sender_address db server_id vs ≡ true
    → EachOf (HasSender db server_id) vs
unfolding find_confirmed_sender_address
find_confirmed_sender_address_lem db server_id vs h = (
  ground arith,
  all-All (is_confirmed_address db server_id) (HasSender db server_id) vs
      (is_confirmed_address-HasSender db server_id) (ground arith),
)
