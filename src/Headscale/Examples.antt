-- ===== src/Headscale/Examples.antt =====
-- Tests and witnesses of the isolation policy and of the commands.
use mksrv.Common.{true, text_eq, ◌++◌, ◌≡◌, refl, some, List, [], ◌∷◌, txt, join}
use mksrv.Headscale.Policy.{
  PolicyTenant, tenants_rules, policy_rules, policy, render_rule, render_rules, render_destination,
}
use mksrv.Headscale.Command.{
  escape, quote, quoted, command, shell_words, outside, shell_words-quoted,
}
use mksrv.Headscale.Accounts.{
  User, find_in, Headscale, find_user, created_user, create_missing, ensure_user, Ensures,
  ensure_user-Ensures, expire_api_keys_except, Expires, expire_api_keys_except-Expires,
}

abbrev two_tenants : List PolicyTenant
two_tenants =
    record {
      id = txt "acme";
      routes = txt "10.1.0.0/16" ∷ [];
      web_ports = txt "80" ∷ txt "81" ∷ [];
    }
    ∷ record { id = txt "beta"; routes = []; web_ports = [] }
    ∷ []

policy_test :
    policy []
    ≡ txt
        "{\n  \"acls\": [\n    { \"action\": \"accept\", \"src\": [\"mksrv-fleet@\"], \"dst\": [\"mksrv-fleet@:*\"] }\n  ]\n}\n"
unfolding txt policy policy_rules tenants_rules render_rules render_rule render_destination join
policy_test = refl

command_test :
    command (txt "users" ∷ txt "it's" ∷ [])
    ≡ txt "sudo podman exec mksrv-headscale headscale 'users' 'it'\\''s'"
unfolding txt command quoted quote escape join
command_test = refl

shell_words-quoted_example :
    shell_words outside (join (quoted (txt "users" ∷ txt "it's" ∷ [])) (txt " "))
    ≡ some (txt "users" ∷ txt "it's" ∷ [])
shell_words-quoted_example = shell_words-quoted (txt "users") (txt "it's" ∷ [])

-- A server that gives a new user the id 7.
abbrev small_server : Headscale (List User)
small_server = record {
  users = λ w. some w;
  create_user = λ name w. (true, w ++ record { id = txt "7"; name = name } ∷ []);
  api_keys = λ w. some (txt "k1" ∷ txt "k2" ∷ []);
  expire_key = λ prefix w. (true, w);
}

abbrev acme : User
acme = record { id = txt "3"; name = txt "acme" }

ensure_user-Ensures_example :
    Ensures small_server
      (txt "beta")
      (acme ∷ [])
      (txt "7")
      (ensure_user small_server (txt "beta") (acme ∷ [])).1
unfolding txt ensure_user create_missing created_user find_user find_in text_eq
ensure_user-Ensures_example =
    ensure_user-Ensures small_server (txt "beta") (acme ∷ []) (txt "7") refl

expire_api_keys_except_example :
    Expires
      (txt "k2")
      (txt "k1" ∷ txt "k2" ∷ [])
      (expire_api_keys_except small_server (txt "k2") []).0
expire_api_keys_except_example =
    expire_api_keys_except-Expires small_server (txt "k2") [] (txt "k1" ∷ txt "k2" ∷ []) refl
