-- ===== src/Tests/Rewrites.antt =====
-- src/dns/handler.rs: rewrites at fixed inputs.
use rust_dns_backend.Base.{◌≡◌, refl, true, some, List, [], ◌∷◌}
use rust_dns_backend.Text.{Text, codes, to_lowercase, text_eq, trim_end}
use rust_dns_backend.Net.{parse_ip}
use rust_dns_backend.Map.{Map, map_insert}
use rust_dns_backend.Dns.{Message, response, a, a_data}
use rust_dns_backend.Filter.{insert_rewrites}
use rust_dns_backend.Client.{ClientConfig, load_group_rewrites_for_client}
use rust_dns_backend.Handler.Responses.{rewrite_message}
use rust_dns_backend.Handler.Steps.{domain_normalized}
use rust_dns_backend.Tests.Fixtures.{
  ascii, literal_regex, host_nets, responses, client_configs, client_resolvers, wire, lookups,
  configs, asked, differ,
}
use rust_dns_backend.Tests.Handling.{client_db, default, ads}

abbrev rewrite_reply : Message
rewrite_reply = record asked {
  message_type = response;
  recursion_available = true;
  answers =
      record { owner = ads.name; record_type = a; record_ttl = 30; rdata = some (a_data 167772163) }
      ∷ [];
}

reply_run : rewrite_message 30 asked (codes "10.0.0.3") a ≡ some rewrite_reply
unfolding rewrite_message parse_ip
reply_run = refl

abbrev nas_rewrites : Map Text
nas_rewrites = (codes "nas.lan", codes "10.0.0.3") ∷ []

abbrev in_group : ClientConfig (List Text)
in_group = record default { group_rewrites = some nas_rewrites }

loaded_run : load_group_rewrites_for_client client_db (codes "1") ≡ some nas_rewrites
unfolding load_group_rewrites_for_client insert_rewrites map_insert to_lowercase
loaded_run = refl

other_name : ¬ (to_lowercase (codes "NAS.lan") ≡ domain_normalized (codes "NAS.lan."))
unfolding to_lowercase domain_normalized text_eq trim_end
other_name = differ (to_lowercase (codes "NAS.lan")) (domain_normalized (codes "NAS.lan.")) refl
