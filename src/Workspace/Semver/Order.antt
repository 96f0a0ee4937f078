-- ===== src/Workspace/Semver/Order.antt =====
-- `compareSemver` is the order of versions by major, minor and patch number.
use mksrv.Common.{◌<◌, ◌≡◌, ◌↔◌, ◌⊎◌, some, arith, Text, pos, negsuc}
use mksrv.Workspace.Semver.{Version, parse_semver, compare_parts, compare_semver}

-- `a` is older than `b`.
abbrev pub Older : Version → Version → Type 0
Older a b =
    (a.major < b.major)
    ⊎ (a.major ≡ b.major) × ((a.minor < b.minor) ⊎ (a.minor ≡ b.minor) × (a.patch < b.patch))

compare_parts_cases :
    (a b : Version)
    → ((compare_parts a b ≡ negsuc 0) ↔ Older a b)
      × ((compare_parts a b ≡ pos 0) ↔ (a ≡ b))
      × ((compare_parts a b ≡ pos 1) ↔ Older b a)
unfolding compare_parts
compare_parts_cases a b = ground arith

-- For two texts that parse, the result is -1, 0 or 1 exactly when the first version is older than
-- the second, the same, or newer.
pub compare_semver_iff :
    (left right : Text) {a b : Version}
    → parse_semver left ≡ some a
    → parse_semver right ≡ some b
    → ((compare_semver left right ≡ some (negsuc 0)) ↔ Older a b)
      × ((compare_semver left right ≡ some (pos 0)) ↔ (a ≡ b))
      × ((compare_semver left right ≡ some (pos 1)) ↔ Older b a)
unfolding compare_semver
compare_semver_iff left right {a} {b} p q = ground (arith, compare_parts_cases a b)
