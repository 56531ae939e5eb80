-- ===== src/Memory/Instance.antt =====
-- `impl Store for MemoryStore` as the store of an SMTP session. All the calls of one step read one
-- clock, and `month_of` is the calendar.
use camelmailer.Base.{ℕ, values, map_get}
use camelmailer.Text.{Text}
use camelmailer.Quota.{UsageMonth}
use camelmailer.Smtp.Env.{Store}
use camelmailer.Memory.{MemoryStore, id_eq}
use camelmailer.Memory.Count.{day_of}
use camelmailer.Memory.Lookup.{Networks, match_ip_credential}
use camelmailer.Memory.Lookup

unfoldable pub memory_store :
    {Net : Type 0} → Networks Text Net → (ℕ → UsageMonth) → ℕ → Store MemoryStore
memory_store nets month_of now = record {
  organization = λ db id. map_get id_eq id db.organizations;
  server = λ db id. map_get id_eq id db.servers;
  find_smtp_credential_by_key = Lookup.find_smtp_credential_by_key;
  find_server_by_token = Lookup.find_server_by_token;
  find_route_by_token = Lookup.find_route_by_token;
  find_route_by_name_and_domain = Lookup.find_route_by_name_and_domain;
  find_ip_credential = λ db ip. match_ip_credential nets (values db.credentials) ip;
  smtp_credentials_for_server = Lookup.smtp_credentials_for_server;
  find_server_by_permalinks = Lookup.find_server_by_permalinks;
  find_authenticated_domain = Lookup.find_authenticated_domain;
  send_usage = Lookup.send_usage (day_of now);
  send_policy_for_organization = Lookup.send_policy_for_organization;
  organization_month_usage = Lookup.organization_month_usage (month_of (day_of now));
  return_path_route_for_server = Lookup.return_path_route_for_server;
  record_credential_use = Lookup.record_credential_use now;
  find_confirmed_sender_address = Lookup.find_confirmed_sender_address;
}
