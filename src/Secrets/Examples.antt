-- ===== src/Secrets/Examples.antt =====
-- A secret of two letters, and a parameter that is made for it.
use mksrv.Common.{ℕ, ◌≡◌, Bool, false, Option, some, [], ◌∷◌, arith, Text, txt}
use mksrv.Secrets.Random.{
  drawn, usable, usable_in, random_alphanumeric, IsSecret, random_alphanumeric_lem,
}
use mksrv.Secrets.Store.{ensure_random}
use mksrv.Secrets.Store.Ensured.{Ensures, ensure_random-Ensures}

abbrev read : ℕ → Option Text
read i = some (250 ∷ 7 ∷ 9 ∷ [])

random_alphanumeric_example :
    (secret : Text) × IsSecret 3 secret × (random_alphanumeric read 2 3 ≡ drawn secret)
unfolding usable_in usable
random_alphanumeric_example = random_alphanumeric_lem read 2 3 (omega arith)

abbrev never : Text → Bool
never name = false

ensure_random-Ensures_example :
    Ensures
      (txt "prod")
      never
      never
      []
      (txt "/mksrv/{env}/key")
      (ensure_random (txt "prod") never never read 30 [] (txt "/mksrv/{env}/key") 16)
ensure_random-Ensures_example =
    ensure_random-Ensures (txt "prod") never never [] (txt "/mksrv/{env}/key") read 30 16
