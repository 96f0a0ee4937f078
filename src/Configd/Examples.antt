-- ===== src/Configd/Examples.antt =====
-- A concrete token, and the name of a concrete device.
use mksrv.Common.{
  ℕ, ◌≡◌, refl, ◌↔◌, Bool, Option, some, List, [], ◌∷◌, Text, txt, text_eq, split, pos,
}
use mksrv.Configd.NodeName.{is_label_byte, node_name, IsLabel, node_name_lem}
use mksrv.Configd.Token.{Claims, TokenHeader, verify, IsAuthentic, verify_iff, key_for}
use mksrv.Configd.Token.Cache.{KeepsCache, key_for-KeepsCache}

node_name_example : IsLabel (node_name (txt "acme") (txt "Ann's phone"))
unfolding txt is_label_byte
node_name_example =
    node_name_lem 97 (txt "cme") (txt "Ann's phone") (refl, (refl, (refl, (refl, tt)))) refl

abbrev issuer : Text
issuer = txt "https://id/realms/acme"

abbrev member : Claims
member = record { issuer = issuer; subject = txt "ann"; expiry = pos 2000; groups = txt "dev" ∷ [] }

abbrev decode_header : Text → Option TokenHeader
decode_header part = some (record { alg = txt "RS256"; kid = txt "k1" })

abbrev decode_claims : Text → Option Claims
decode_claims part = some member

abbrev fetch_jwks : Text → Option (List (Text × ℕ))
fetch_jwks realm = some ((txt "k1", 1) ∷ [])

abbrev is_signed : ℕ → Text → Text → Bool
is_signed key input signature = text_eq input signature

verify_example :
    ((verify fetch_jwks decode_header decode_claims
        (λ part. some part)
        is_signed
        1000
        5
        (issuer ∷ [])
        (txt "h.c.s")
        []).0
      ≡ some member)
    ↔ IsAuthentic fetch_jwks decode_header decode_claims
        (λ part. some part)
        is_signed
        1000
        5
        (issuer ∷ [])
        (split (txt "h.c.s") 46)
        []
        member
verify_example =
    verify_iff fetch_jwks decode_header decode_claims (λ part. some part) is_signed 1000 5
      (issuer ∷ []) (txt "h.c.s") [] member

key_for-KeepsCache_example :
    KeepsCache 5 issuer (txt "k1") [] (key_for fetch_jwks 5 issuer (txt "k1") [])
key_for-KeepsCache_example = key_for-KeepsCache fetch_jwks 5 issuer (txt "k1") []
