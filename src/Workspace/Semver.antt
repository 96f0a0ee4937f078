-- ===== src/Workspace/Semver.antt =====
-- internal/workspace/semantic.go: `parseSemver` and `compareSemver`. The error values are read only
-- by messages: `none` stands for them.
pub mod RoundTrip
pub mod Order
use mksrv.Common.{
  ℕ, ◌+◌, ◌-◌, Option, none, some, List, [], ◌∷◌, arith, ltb, if◌then◌else◌, ◌>>=◌, Text, txt,
  trim_space, trim_prefix, before_first, split, ℤ, pos, negsuc, atoi,
}

-- The array `[3]int`. A parsed component is never negative.
pub record Version : Type 0 where
  pub major : ℕ
  pub minor : ℕ
  pub patch : ℕ

-- One round of the loop over the parts: a number that is not negative.
pub component : Text → Option ℕ
component part = elim (atoi part) [
  | none ↦ none
  | some number ↦ elim number [ pos n ↦ some n | negsuc n ↦ none ]
]

pub parse_parts : List Text → Option Version
parse_parts (a ∷ b ∷ c ∷ []) = do
  major ← component a
  minor ← component b
  patch ← component c
  some (record { major = major; minor = minor; patch = patch })
parse_parts _ = none

-- What is parsed of a version: no space around it, no leading v, no pre-release and build suffix.
pub version_core : Text → Text
version_core value =
    before_first (before_first (trim_prefix (trim_space value) (txt "v")) b'-') b'+'

pub parse_semver : Text → Option Version
parse_semver value = parse_parts (split (version_core value) b'.')

-- The loop over the three components, with its early returns.
pub compare_parts : Version → Version → ℤ
compare_parts left right =
    if ltb left.major right.major
    then negsuc 0
    else if ltb right.major left.major
    then pos 1
    else if ltb left.minor right.minor
    then negsuc 0
    else if ltb right.minor left.minor
    then pos 1
    else if ltb left.patch right.patch
    then negsuc 0
    else if ltb right.patch left.patch
    then pos 1
    else pos 0

pub compare_semver : Text → Text → Option ℤ
compare_semver left right = do
  left_parts ← parse_semver left
  right_parts ← parse_semver right
  some (compare_parts left_parts right_parts)
