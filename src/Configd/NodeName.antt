-- ===== src/Configd/NodeName.antt =====
-- internal/configd/server.go: `nodeName`
use mathlib.Core.List.{reverse}
use mksrv.Common.{
  StartsClear, All-trim, length-trim_le, trim-StartsClear, trim-EndsClear, trim-ne-nil, ℕ, ◌≤◌, ◌≡◌,
  refl, ◌≢◌, inl, inr, Bool, true, false, ◌&&◌, ◌||◌, not, [], ◌∷◌, ◌++◌, arith, leb, ◌==◌,
  if◌then◌else◌, Bool-cases, length, is_empty, take, All, All-append, All-take, length-take_le,
  Text, txt, trim_space, trim, to_lower,
}

-- The bytes that `[^a-z0-9-]+` leaves.
unfoldable pub is_label_byte : ℕ → Bool
is_label_byte c = (leb 97 c && leb c 122) || (leb 48 c && leb c 57) || c == 45

-- nodeNameRe.ReplaceAllString(slug, "-"): every run of other bytes becomes one dash. `inside` tells
-- that the byte before was one of them.
pub replace_runs : Bool → Text → Text
replace_runs inside [] = []
replace_runs inside (c ∷ s) =
    let rest = replace_runs (not (is_label_byte c)) s in
    if is_label_byte c then c ∷ rest else if inside then rest else 45 ∷ rest

pub slug_of : Text → Text
slug_of device_header =
    let slug = trim (replace_runs false (to_lower (trim_space device_header))) 45 in
    if is_empty slug then txt "device" else slug

pub node_name : Text → Text → Text
node_name tenant device_header = trim (take 63 (tenant ++ (txt "-" ++ slug_of device_header))) 45

-- A name that DNS takes as a label: letters, digits and dashes, at most 63 of them, with no dash at
-- either end.
pub record IsLabel (name : Text) : Type 0 where
  pub bytes : All (λ c. is_label_byte c ≡ true) name
  pub short : length name ≤ 63
  pub some_byte : name ≢ []
  pub start : StartsClear (λ c. c == 45) name
  pub end : StartsClear (λ c. c == 45) (reverse name)

replace_runs_lem :
    (inside : Bool) (s : Text) → All (λ c. is_label_byte c ≡ true) (replace_runs inside s)
unfolding replace_runs is_label_byte
replace_runs_lem inside [] = tt
replace_runs_lem inside (c ∷ s) = elim (Bool-cases (is_label_byte c)) [
  | inl e ↦ rw (e, replace_runs) (e, replace_runs_lem false s)
  | inr e ↦ elim (Bool-cases inside) [
    | inl i ↦ rw (e, i, replace_runs) (replace_runs_lem true s)
    | inr i ↦ rw (e, i, replace_runs) (refl, replace_runs_lem true s)
  ]
]

slug_of_lem : (device_header : Text) → All (λ c. is_label_byte c ≡ true) (slug_of device_header)
unfolding slug_of is_label_byte txt
slug_of_lem device_header =
    let raw = replace_runs false (to_lower (trim_space device_header)) in
    elim (Bool-cases (is_empty (trim raw 45))) [
      | inl e ↦ rw (e, slug_of) (refl, (refl, (refl, (refl, (refl, (refl, tt))))))
      | inr e ↦
          rw (e, slug_of) (All-trim (λ c. is_label_byte c ≡ true) raw 45 (replace_runs_lem false _))
    ]

-- Whatever a client sends as its device name, `nodeName` gives a DNS label, for a tenant whose id is
-- one or more letters, digits and dashes and does not start with a dash.
pub node_name_lem :
    (c : ℕ) (id device_header : Text)
    → All (λ b. is_label_byte b ≡ true) (c ∷ id)
    → (c == 45) ≡ false
    → IsLabel (node_name (c ∷ id) device_header)
unfolding node_name is_label_byte txt
node_name_lem c id device_header bytes clear =
    let whole = (c ∷ id) ++ (txt "-" ++ slug_of device_header) in
    let name = take 63 whole in
    let P : (ℕ → Type 0) = λ b. is_label_byte b ≡ true in
    record {
      bytes =
          All-trim P name 45
            (All-take P 63 whole (All-append P (c ∷ id) _ bytes (refl, slug_of_lem device_header)));
      short = omega (arith, length-trim_le name 45, length-take_le 63 whole);
      some_byte = trim-ne-nil c (take 62 (id ++ (txt "-" ++ slug_of device_header))) 45 clear;
      start = trim-StartsClear name 45;
      end = trim-EndsClear name 45;
    }
