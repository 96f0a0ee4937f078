-- ===== src/Secrets/Store.antt =====
-- internal/secrets/secrets.go: `Expand`, `Leaf`, `Get`, `Put`, `EnsureString` and `EnsureRandom`, over
-- the parameters of SSM. What the service answers is a state, the parameters that it holds, and
-- which of the requests fail.
pub mod Ensured
use mksrv.Common.{
  ◌||◌, ℕ, zero, suc, ◌+◌, ◌*◌, ◌/◌, ◌%◌, Bool, true, false, ◌&&◌, not, Option, none, some, List,
  [], ◌∷◌, ◌++◌, arith, ltb, if◌then◌else◌, is_some, drop, Text, txt, has_prefix, trim_right,
  last_index, lookup, insert,
}
use mksrv.Secrets.Random.{Drawn, drawn, failed, unfinished, random_alphanumeric}

-- strings.ReplaceAll(ref, "{env}", env), with the number of bytes to skip of a placeholder.
replace_from : Text → ℕ → Text → Text
replace_from env skip [] = []
replace_from env (suc skip) (c ∷ s) = replace_from env skip s
replace_from env zero (c ∷ s) =
    let here = has_prefix (c ∷ s) (txt "{env}") in
    let rest = replace_from env (if here then 4 else 0) s in if here then env ++ rest else c ∷ rest

-- `Expand`
pub expand : Text → Text → Text
expand env ref = replace_from env 0 ref

-- `Leaf`
pub leaf : Text → Text
leaf ref =
    let name = trim_right ref 47 in
    elim (last_index name 47) [ none ↦ name | some i ↦ drop (suc i) name ]

-- An answer of SSM to a read.
pub data Answer : Type 0 where
  found : Text → Answer
  not_found : Answer
  broken : Answer

-- The result of an operation that returns a string, with the parameters that it leaves behind.
pub record Outcome : Type 0 where
  pub value : Option Text
  pub parameters : List (Text × Text)

module _ (env : Text) (get_fails put_fails : Text → Bool) where
  pub get : List (Text × Text) → Text → Answer
  get parameters ref =
      let name = expand env ref in
      if get_fails name
      then broken
      else elim (lookup parameters name) [ none ↦ not_found | some value ↦ found value ]

  -- PutParameter: without `overwrite`, the service refuses a name that it holds. Nobody else writes in
  -- between, so that a name that was just not found is not refused.
  pub put_parameter : Bool → List (Text × Text) → Text → Text → Option (List (Text × Text))
  put_parameter overwrite parameters name value =
      if put_fails name || (not overwrite && is_some (lookup parameters name))
      then none
      else some (insert parameters name value)

  pub put : List (Text × Text) → Text → Text → Option (List (Text × Text))
  put parameters ref value = put_parameter true parameters (expand env ref) value

  pub keep_value : List (Text × Text) → Text → Option (List (Text × Text)) → Outcome
  keep_value before value none = record { value = none; parameters = before }
  keep_value before value (some after) = record { value = some value; parameters = after }

  -- Any error of the read, not only a missing parameter, lets the value be stored.
  pub ensure_string : List (Text × Text) → Text → Text → Outcome
  ensure_string parameters ref value = elim (get parameters ref) [
    | found existing ↦ record { value = some existing; parameters = parameters }
    | not_found ↦ keep_value parameters value (put parameters ref value)
    | broken ↦ keep_value parameters value (put parameters ref value)
  ]

  -- `base64.RawURLEncoding.EncodedLen(nbytes)`, of 16 bytes at least.
  pub secret_length : ℕ → ℕ
  secret_length nbytes =
      let n = if ltb nbytes 16 then 16 else nbytes in n / 3 * 4 + (n % 3 * 8 + 5) / 6

  pub create : List (Text × Text) → Text → Drawn → Outcome
  create parameters ref (drawn secret) =
      keep_value parameters secret (put_parameter false parameters (expand env ref) secret)
  create parameters ref failed = record { value = none; parameters = parameters }
  create parameters ref unfinished = record { value = none; parameters = parameters }

  -- `read` is rand.Read, and `reads` bounds the reads, as in `random_alphanumeric`.
  pub ensure_random : (ℕ → Option Text) → ℕ → List (Text × Text) → Text → ℕ → Outcome
  ensure_random read reads parameters ref nbytes = elim (get parameters ref) [
    | found value ↦ record { value = some value; parameters = parameters }
    | broken ↦ record { value = none; parameters = parameters }
    | not_found ↦ create parameters ref (random_alphanumeric read reads (secret_length nbytes))
  ]
