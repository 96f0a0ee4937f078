-- ===== src/Configd/Server/Examples.antt =====
-- A concrete request to the broker.
use mksrv.Common.{
  drop_text, ℕ, ◌≡◌, refl, ◌↔◌, false, Option, some, List, [], ◌∷◌, is_empty, Text, txt, text_eq,
  has_prefix, trim_left_func, trim_right_func, trim_space, trim_right, trim_prefix, contains,
  lookup, keys, pos, is_space,
}
use mksrv.Configd.Token.{Claims, vpn_groups, has_vpn_group, vpn_entitled}
use mksrv.Configd.Server.{
  TenantEntry, ClientConfig, issued, Request, bearer_token, issue, answer_claims, client_config,
}
use mksrv.Configd.Server.Entitled.{
  IsServed, IsEntitled, verified_for, client_config_iff, client_config-mints,
}

abbrev issuer : Text
issuer = txt "https://id/realms/acme"

abbrev member : Claims
member = record { issuer = issuer; subject = txt "ann"; expiry = pos 2000; groups = txt "dev" ∷ [] }

abbrev acme : TenantEntry
acme = record {
  issuer = issuer;
  tenant = txt "acme";
  display_name = txt "Acme";
  primary = [];
  logo_data_uri = [];
  headscale_user = txt "acme";
  control_url = txt "https://mesh";
  forwards = [];
  update_feed_url = [];
  min_version = [];
}

abbrev request : Request
request = record { authorization = txt "Bearer t"; device_name = txt "phone" }

abbrev roster : List (Text × TenantEntry)
roster = (issuer, acme) ∷ []

abbrev sign : ClientConfig → Option Text
sign config = some config.tenant_id

abbrev preauth : Text → Option Text
preauth user = some (txt "key")

abbrev verifying : Text → List Text → ℕ → Option Claims × ℕ
verifying token allowed cache = (some member, cache)

client_config_example :
    ((client_config sign preauth verifying 1000 roster request 0).0.response ≡ issued (txt "acme"))
    ↔ ((is_empty (bearer_token request.authorization) ≡ false)
        × IsServed sign preauth 1000 request.device_name roster
            (verified_for verifying roster request 0)
            (txt "acme"))
client_config_example = client_config_iff sign preauth verifying 1000 roster request 0 (txt "acme")

key_minted : (client_config sign preauth verifying 1000 roster request 0).0.minted ≡ txt "acme" ∷ []
unfolding client_config answer_claims issue bearer_token vpn_entitled has_vpn_group vpn_groups txt
    keys lookup contains text_eq trim_prefix has_prefix drop_text trim_space trim_left_func
    trim_right_func trim_right is_space
key_minted = refl

client_config-mints_example :
    (entry : TenantEntry) × IsEntitled roster (verified_for verifying roster request 0) entry
    × ((client_config sign preauth verifying 1000 roster request 0).0.minted
        ≡ entry.headscale_user ∷ [])
client_config-mints_example =
    client_config-mints sign preauth verifying 1000 roster request 0 (λ e. cc (e, key_minted))
