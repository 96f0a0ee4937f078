-- ===== src/Common/Net.antt =====
-- Package net: what SplitHostPort, ParseIP and ParseCIDR accept.
use Prim.Native.Nat.{ℕ, zero, suc, ◌+◌, ◌-◌, ◌*◌}
use mathlib.Core.Path.{◌≡◌, refl}
use mathlib.Core.Bool.{Bool, true, false, ◌&&◌, ◌||◌, not}
use mathlib.Core.Option.{Option, none, some}
use mathlib.Core.List.{[], ◌∷◌}
use mksrv.Common.Tests.{ltb, leb, ◌==◌, if◌then◌else◌, is_some, ◌>>=◌}
use mksrv.Common.Lists.{is_empty, drop}
use mksrv.Common.Texts.{Text, txt}
use mksrv.Common.Strings.{cut, last_index, has_prefix}
use mksrv.Common.Decimal.{scan_digits, magnitude}

-- strings.IndexByte(s, c) >= 0
unfoldable pub has_byte : Text → ℕ → Bool
has_byte [] c = false
has_byte (d ∷ s) c = d == c || has_byte s c

-- The first position of a byte.
unfoldable pub index_byte : Text → ℕ → Option ℕ
index_byte [] c = none
index_byte (d ∷ s) c = if d == c then some 0 else (do i ← index_byte s c; some (i + 1))

-- A bracketed host, whose closing bracket stands at `end`; `i` is the last colon.
bracketed_ok : Text → ℕ → ℕ → Bool
unfolding has_byte
bracketed_ok s end i =
    end + 1 == i && (not (has_byte (drop 1 s) b'[') && not (has_byte (drop (end + 1) s) b']'))

-- A host with no bracket: its only colon is the last one.
plain_ok : Text → ℕ → Bool
unfolding has_byte index_byte
plain_ok s i = elim (index_byte s b':') [
  | none ↦ false
  | some j ↦ j == i && (not (has_byte s b'[') && not (has_byte s b']'))
]

-- Whether net.SplitHostPort returns no error.
unfoldable pub is_host_port : Text → Bool
unfolding bracketed_ok plain_ok index_byte
is_host_port s = elim (last_index s b':') [
  | none ↦ false
  | some i ↦
      if has_prefix s (b'[' ∷ [])
      then elim (index_byte s b']') [ none ↦ false | some end ↦ bracketed_ok s end i ]
      else plain_ok s i
]

-- The fields of a dotted IPv4 address from the number, the digits of the field so far, and the
-- fields behind it: four fields of one to three digits, none above 255 or with a leading zero.
unfoldable pub ipv4_fields : Text → (value digits dots : ℕ) → Bool
ipv4_fields [] value digits dots = not (digits == 0) && dots == 3
ipv4_fields (c ∷ s) value digits dots =
    let digit = ipv4_fields s (value * 10 + (c - b'0')) (digits + 1) dots in
    let dot = ipv4_fields s 0 0 (dots + 1) in
    if leb b'0' c && leb c b'9'
    then (if digits == 1 && value == 0
        then false
        else if ltb 255 (value * 10 + (c - b'0'))
        then false
        else digit)
    else if c == b'.'
    then (if digits == 0 || dots == 3 then false else dot)
    else false

unfoldable pub is_ipv4 : Text → Bool
unfolding ipv4_fields
is_ipv4 s = ipv4_fields s 0 0 0

unfoldable pub is_hex : ℕ → Bool
is_hex c = (leb b'0' c && leb c b'9') || (leb b'a' c && leb c b'f') || (leb b'A' c && leb c b'F')

-- How many hexadecimal digits a text begins with.
hex_run : Text → ℕ
unfolding is_hex
hex_run [] = 0
hex_run (c ∷ s) = if is_hex c then hex_run s + 1 else 0

-- What must hold when the text of an IPv6 address is at its end after `filled` bytes.
ipv6_end : ℕ → Bool → Bool
ipv6_end filled ellipsis = if ltb filled 16 then ellipsis else not ellipsis

-- The loop of parseIPv6 over `rounds` groups: the text that is left, the bytes filled so far, and
-- whether `::` was read. A round fills two bytes, so that eight rounds are enough.
ipv6_groups : ℕ → Text → ℕ → Bool → Bool
unfolding hex_run ipv6_end ipv4_fields
ipv6_groups zero s filled ellipsis = false
ipv6_groups (suc rounds) s filled ellipsis =
    let n = hex_run s in
    let after = drop n s in
    let tail = drop (n + 1) s in
    let next = ipv6_groups rounds tail (filled + 2) ellipsis in
    let next_ellipsis = ipv6_groups rounds (drop (n + 2) s) (filled + 2) true in
    if n == 0 || ltb 4 n || leb 16 filled
    then false
    else if has_prefix after (b'.' ∷ [])
    then (if ellipsis || filled == 12
        then leb (filled + 4) 16 && (ipv4_fields s 0 0 0 && ipv6_end (filled + 4) ellipsis)
        else false)
    else if is_empty after
    then ipv6_end (filled + 2) ellipsis
    else if not (has_prefix after (b':' ∷ [])) || is_empty tail
    then false
    else if has_prefix tail (b':' ∷ [])
    then (if ellipsis
        then false
        else if is_empty (drop (n + 2) s)
        then ipv6_end (filled + 2) true
        else next_ellipsis)
    else next

-- An IPv6 address with no zone.
unfoldable pub is_ipv6 : Text → Bool
unfolding ipv6_groups
is_ipv6 s =
    if has_prefix s (b':' ∷ b':' ∷ [])
    then is_empty (drop 2 s) || ipv6_groups 8 (drop 2 s) 0 true
    else ipv6_groups 8 s 0 false

-- netip.ParseAddr looks for the first dot, colon or percent sign: the length in bits of an address
-- with no zone, `none` for a text that is none.
address_bits : Text → Text → Option ℕ
unfolding is_ipv4 is_ipv6
address_bits whole [] = none
address_bits whole (c ∷ s) =
    if c == b'.'
    then (if is_ipv4 whole then some 32 else none)
    else if c == b':'
    then (if is_ipv6 whole then some 128 else none)
    else if c == b'%'
    then none
    else address_bits whole s

-- net.ParseIP(s) != nil
unfoldable pub is_ip : Text → Bool
unfolding address_bits
is_ip s = is_some (address_bits s s)

-- The prefix length of a CIDR, at most the number of bits of its address.
prefix_ok : Text → ℕ → Bool
unfolding magnitude scan_digits
prefix_ok mask bits = elim (magnitude mask) [ none ↦ false | some n ↦ leb n bits ]

-- Whether net.ParseCIDR returns no error.
unfoldable pub is_cidr : Text → Bool
unfolding address_bits prefix_ok
is_cidr s = elim (cut s b'/') [
  | none ↦ false
  | some (address, mask) ↦ elim (address_bits address address) [
    | none ↦ false
    | some bits ↦ prefix_ok mask bits
  ]
]

host_ports :
    (is_host_port (txt "db.acme:5432") ≡ true)
    × (is_host_port (txt "[::1]:22") ≡ true)
    × (is_host_port (txt "::1:22") ≡ false)
    × (is_host_port (txt "db") ≡ false)
unfolding is_host_port txt last_index has_prefix
host_ports = (refl, refl, refl, refl)

addresses :
    (is_ip (txt "10.0.0.1") ≡ true)
    × (is_ip (txt "10.0.0.256") ≡ false)
    × (is_ip (txt "10.0.01.1") ≡ false)
    × (is_ip (txt "fd7a:115c::1") ≡ true)
    × (is_ip (txt "::") ≡ true)
    × (is_ip (txt "1:2:3:4:5:6:7::8:9") ≡ false)
    × (is_ip (txt "::ffff:10.0.0.1") ≡ true)
    × (is_ip (txt "example.com") ≡ false)
unfolding is_ip txt has_prefix
addresses = (refl, refl, refl, refl, refl, refl, refl, refl)

cidrs :
    (is_cidr (txt "10.0.0.0/8") ≡ true)
    × (is_cidr (txt "10.0.0.0/33") ≡ false)
    × (is_cidr (txt "fd00::/64") ≡ true)
    × (is_cidr (txt "10.0.0.0") ≡ false)
unfolding is_cidr txt cut has_prefix
cidrs = (refl, refl, refl, refl)
