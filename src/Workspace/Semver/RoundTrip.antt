-- ===== src/Workspace/Semver/RoundTrip.antt =====
-- A printed version is read back.
use mksrv.Common.{
  ℕ, ◌≤◌, ◌≡◌, refl, ◌≢◌, ◌⊎◌, inl, inr, Bool, true, false, some, [], ◌∷◌, ◌++◌, append-nil, arith,
  if◌then◌else◌, All, All-append, Text, txt, trim_prefix, before_first, split, itoa, max_int64,
  IsDigit, All-itoa, itoa-ne-nil, atoi-itoa, All-imp, trim_space_none, before_first-append,
  before_first_pass, before_first_none, split_none, split-append, is_space,
}
use mksrv.Workspace.Semver.{Version, component, parse_parts, version_core, parse_semver}

abbrev pub dotted : Version → Text
dotted v = itoa v.major ++ b'.' ∷ (itoa v.minor ++ b'.' ∷ itoa v.patch)

-- What may stand behind the three numbers: nothing, or a pre-release or build mark and any text.
pub data Suffix : Type 0 where
  bare : Suffix
  prerelease build : Text → Suffix

abbrev pub suffix_text : Suffix → Text
suffix_text bare = []
suffix_text (prerelease t) = b'-' ∷ t
suffix_text (build t) = b'+' ∷ t

abbrev pub NoSpace : Text → Type 0
NoSpace = All (λ c. is_space c ≡ false)

-- The bytes of a dotted version: digits and dots.
abbrev IsVersionByte : ℕ → Type 0
IsVersionByte c = (c ≡ b'.') ⊎ IsDigit c

itoa-IsVersionByte : (n : ℕ) → All IsVersionByte (itoa n)
itoa-IsVersionByte n = All-imp (λ c h. inr h) (itoa n) (All-itoa n)

dotted-IsVersionByte : (v : Version) → All IsVersionByte (dotted v)
dotted-IsVersionByte v = All-append IsVersionByte (itoa v.major) _ (itoa-IsVersionByte v.major) (
  inl refl,
  All-append IsVersionByte (itoa v.minor) _ (itoa-IsVersionByte v.minor)
      (inl refl, itoa-IsVersionByte v.patch),
)

itoa-no_dot : (n : ℕ) → All (λ c. c ≢ b'.') (itoa n)
itoa-no_dot n = All-imp (λ c h. omega arith) (itoa n) (All-itoa n)

dotted-no_dash : (v : Version) → All (λ c. c ≢ b'-') (dotted v)
dotted-no_dash v = All-imp (λ c h. omega arith) (dotted v) (dotted-IsVersionByte v)

dotted-no_plus : (v : Version) → All (λ c. c ≢ b'+') (dotted v)
dotted-no_plus v = All-imp (λ c h. omega arith) (dotted v) (dotted-IsVersionByte v)

dotted-NoSpace : (v : Version) → NoSpace (dotted v)
dotted-NoSpace v = All-imp not_space (dotted v) (dotted-IsVersionByte v)
  where
    not_space : (c : ℕ) → IsVersionByte c → is_space c ≡ false
    not_space c h = unfold is_space in ground arith

split-dotted :
    (v : Version) → split (dotted v) b'.' ≡ itoa v.major ∷ itoa v.minor ∷ itoa v.patch ∷ []
split-dotted v = rw (
  split-append b'.' (itoa v.major) _ (itoa-no_dot v.major),
  split-append b'.' (itoa v.minor) _ (itoa-no_dot v.minor),
  split_none b'.' (itoa v.patch) (itoa-no_dot v.patch),
)

-- The suffix is cut off.
cut_suffix :
    (v : Version) (suffix : Suffix)
    → before_first (before_first (dotted v ++ suffix_text suffix) b'-') b'+' ≡ dotted v
cut_suffix v bare = rw (
  append-nil,
  before_first_none b'-' (dotted v) (dotted-no_dash v),
  before_first_none b'+' (dotted v) (dotted-no_plus v),
)
cut_suffix v (prerelease t) = rw (
  before_first-append b'-' (dotted v) t (dotted-no_dash v),
  before_first_none b'+' (dotted v) (dotted-no_plus v),
)
cut_suffix v (build t) =
    rw (before_first_pass b'-' (dotted v) (b'+' ∷ t) (dotted-no_dash v))
      (unfold before_first in before_first-append b'+' (dotted v) _ (dotted-no_plus v))

component-itoa : (n : ℕ) → n ≤ max_int64 → component (itoa n) ≡ some n
unfolding component
component-itoa n h = rw (atoi-itoa n h, component)

abbrev pub render : Bool → Version → Suffix → Text
render with_v v suffix = (if with_v then b'v' ∷ [] else []) ++ (dotted v ++ suffix_text suffix)

trim_prefix_version :
    (s r : Text)
    → s ≢ []
    → All IsVersionByte s
    → (trim_prefix (s ++ r) (txt "v") ≡ s ++ r) × (trim_prefix (b'v' ∷ (s ++ r)) (txt "v") ≡ s ++ r)
unfolding trim_prefix txt
trim_prefix_version [] r some_byte h = absurd (some_byte refl)
trim_prefix_version (c ∷ s) r some_byte (hc, h) = (ground arith, ground arith)

dotted-ne-nil : (v : Version) → dotted v ≢ []
dotted-ne-nil v = ground (arith, itoa-ne-nil v.major)

render-NoSpace :
    (with_v : Bool) (v : Version) (suffix : Suffix)
    → NoSpace (suffix_text suffix)
    → NoSpace (render with_v v suffix)
unfolding is_space
render-NoSpace true v suffix h =
    (refl, All-append (λ c. is_space c ≡ false) (dotted v) _ (dotted-NoSpace v) h)
render-NoSpace false v suffix h =
    All-append (λ c. is_space c ≡ false) (dotted v) _ (dotted-NoSpace v) h

version_core-render :
    (with_v : Bool) (v : Version) (suffix : Suffix)
    → NoSpace (suffix_text suffix)
    → version_core (render with_v v suffix) ≡ dotted v
unfolding version_core
version_core-render true v suffix h =
    rw
      (
        trim_space_none (render true v suffix) (render-NoSpace true v suffix h),
        (trim_prefix_version (dotted v) (suffix_text suffix) (dotted-ne-nil v)
            (dotted-IsVersionByte v)).1,
      )
      (cut_suffix v suffix)
version_core-render false v suffix h =
    rw
      (
        trim_space_none (render false v suffix) (render-NoSpace false v suffix h),
        (trim_prefix_version (dotted v) (suffix_text suffix) (dotted-ne-nil v)
            (dotted-IsVersionByte v)).0,
      )
      (cut_suffix v suffix)

-- A version whose numbers an int64 holds is read back from its text, with or without a leading v,
-- and with any pre-release or build suffix that holds no space.
pub parse_semver-render :
    (with_v : Bool) (v : Version) (suffix : Suffix)
    → v.major ≤ max_int64
    → v.minor ≤ max_int64
    → v.patch ≤ max_int64
    → NoSpace (suffix_text suffix)
    → parse_semver (render with_v v suffix) ≡ some v
unfolding parse_semver parse_parts
parse_semver-render with_v v suffix a b c h = rw (
  version_core-render with_v v suffix h,
  split-dotted v,
  parse_parts,
  component-itoa v.major a,
  component-itoa v.minor b,
  component-itoa v.patch c,
)
