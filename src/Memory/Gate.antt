-- ===== src/Memory/Gate.antt =====
-- The end of DATA over the in-memory store (`finish_data` of crates/camelmailer-smtp/src/session.rs and
-- `find_authenticated_domain` of crates/camelmailer-core/src/store.rs): who may send under which address.
use camelmailer.Base.{
  ℕ, ◌≡◌, refl, ◌⊎◌, inl, inr, Bool, true, false, ◌||◌, Option, none, some, List, [], if◌then◌else◌,
  is_some, map_option, unwrap_or, map_get, arith, Bool-cases,
}
use camelmailer.Text.{Text, codes}
use camelmailer.Model.{EntityId, Server, Credential}
use camelmailer.Quota.{UsageMonth}
use camelmailer.Smtp.Types.{Conn, Reply, Moment, Headers}
use camelmailer.Smtp.Env.{Env, MessageSink, Crates}
use camelmailer.Smtp.Finish
use camelmailer.Smtp.Finish.{finish_data, sender_is_valid}
use camelmailer.Smtp.Gates.{finish_data_gated}
use camelmailer.Memory.{MemoryStore, id_eq}
use camelmailer.Memory.Lookup
use camelmailer.Memory.Lookup.{
  Networks, strip_name_from_address, address_domain, is_domain_for, is_owned_by, domain_for_address,
  first_of_all, is_confirmed_address, find_confirmed_sender_address,
}
use camelmailer.Memory.Instance.{memory_store}
use camelmailer.Memory.Owned.{
  HasDomain, HasSender, EachOf, values_of, find_authenticated_domain_lem,
  find_confirmed_sender_address_lem,
}

-- Every value of the header authenticates for the server: what is read in each is an address of a verified
-- domain of the server or of its organization.
abbrev pub IsAuthentic : MemoryStore → EntityId → List Text → Type 0
IsAuthentic db server_id vs =
    (server : Server) × (map_get id_eq server_id db.servers ≡ some server)
    × EachOf (HasDomain db server) vs

-- What lets the credential of a server send a message with these headers.
abbrev pub MaySend : MemoryStore → EntityId → Headers → Type 0
MaySend db server_id headers =
    IsAuthentic db server_id (values_of (codes "from") headers)
    ⊎ ((server : Server) × (map_get id_eq server_id db.servers ≡ some server)
        × (server.allow_sender ≡ true)
        × IsAuthentic db server_id (values_of (codes "sender") headers))
    ⊎ EachOf (HasSender db server_id) (values_of (codes "from") headers)

-- The three checks on their outcomes: `sender` counts for a server that allows it.
Passes : Option EntityId → Option EntityId → Bool → Bool → Type 0
Passes from sender allowed confirmed =
    (is_some from ≡ true) ⊎ ((allowed ≡ true) × (is_some sender ≡ true)) ⊎ (confirmed ≡ true)

abbrev allows_sender : Option Server → Bool
allows_sender o = unwrap_or false (map_option (λ (s : Server). s.allow_sender) o)

passes :
    (from sender : Option EntityId) (allowed confirmed : Bool)
    → (is_some (elim from [ some d ↦ some d | none ↦ if allowed then sender else none ])
        || confirmed)
      ≡ true
    → Passes from sender allowed confirmed
unfolding Passes
passes (some d) sender allowed confirmed h = inl refl
passes none sender true confirmed h = elim (Bool-cases (is_some sender)) [
  | inl y ↦ inr (inl (refl, y))
  | inr n ↦ inr (inr (ground arith))
]
passes none sender false confirmed h = inr (inr h)

allowing :
    (o : Option Server)
    → allows_sender o ≡ true
    → (server : Server) × (o ≡ some server) × (server.allow_sender ≡ true)
allowing none h = ground (arith, h)
allowing (some server) h = (server, refl, h)

may_send :
    (db : MemoryStore) (server_id : EntityId) (headers : Headers)
    → Passes
        (Lookup.find_authenticated_domain db server_id (values_of (codes "from") headers))
        (Lookup.find_authenticated_domain db server_id (values_of (codes "sender") headers))
        (allows_sender (map_get id_eq server_id db.servers))
        (find_confirmed_sender_address db server_id (values_of (codes "from") headers))
    → MaySend db server_id headers
unfolding Passes
may_send db server_id headers (inl h) =
    inl (find_authenticated_domain_lem db server_id (values_of (codes "from") headers) _ refl h)
may_send db server_id headers (inr (inl h)) =
    let (server, e, a) = allowing (map_get id_eq server_id db.servers) h.0 in
    inr (
      inl (
        server,
        e,
        a,
        find_authenticated_domain_lem db server_id (values_of (codes "sender") headers) _ refl h.1,
      ))
may_send db server_id headers (inr (inr h)) =
    inr (inr (find_confirmed_sender_address_lem db server_id (values_of (codes "from") headers) h))

module _ {Q Net : Type 0} (nets : Networks Text Net) (month_of : ℕ → UsageMonth) (now : ℕ)
    (sink : MessageSink Q) (crates : Crates) where
  -- The environment of a session over the in-memory store.
  abbrev pub memory_env : Env MemoryStore Q
  memory_env = record { store = memory_store nets month_of now; sink = sink; crates = crates }

  -- Which of the three checks let a message pass.
  passed :
      (db : MemoryStore) (headers : Headers) (cred : Credential)
      → sender_is_valid memory_env db headers (some cred) ≡ true
      → Passes
          (Lookup.find_authenticated_domain db cred.server_id (values_of (codes "from") headers))
          (Lookup.find_authenticated_domain db cred.server_id (values_of (codes "sender") headers))
          (allows_sender (map_get id_eq cred.server_id db.servers))
          (find_confirmed_sender_address db cred.server_id (values_of (codes "from") headers))
  unfolding sender_is_valid memory_store Finish.authenticated_domain
      Finish.find_authenticated_domain
  passed db headers cred h = passes _ _ _ _ h

  authorised-MaySend :
      (db : MemoryStore) (headers : Headers) (cred : Credential)
      → sender_is_valid memory_env db headers (some cred) ≡ true
      → MaySend db cred.server_id headers
  authorised-MaySend db headers cred h =
      may_send db cred.server_id headers (passed db headers cred h)

  -- When the end of DATA of a session with a credential changes the queue, the address that is read in
  -- each From value of the message is a local part and a verified domain of the credential's server or
  -- of its organization, or so is that in each Sender value and the server allows that header, or that
  -- in each From value is a confirmed sender address of the server; and the header has a value. Read is
  -- one address of a value, that between its first `<` and its last `>`, or the whole value if no `<`
  -- has a `>` behind it; others are not looked at.
  pub finish_data-MaySend :
      (m : Moment) (c c' : Conn MemoryStore Q) (r : Reply) (cred : Credential)
      → finish_data memory_env m c ≡ some (c', r)
      → c.session.credential ≡ some cred
      → (c'.queue ≡ c.queue) ⊎ MaySend c.db cred.server_id (unwrap_or [] c.session.headers)
  finish_data-MaySend m c c' r cred e k = elim (finish_data_gated memory_env m c c' r e) [
    | inl same ↦ inl same
    | inr a ↦
        inr (authorised-MaySend c.db (unwrap_or [] c.session.headers) cred (rw k at a.authorised))
  ]
