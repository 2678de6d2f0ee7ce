-- ===== src/Url/Ip.antt =====
-- The IPv6 addresses that `netip.ParseAddr` takes, which `url.Parse` asks for behind a `[`.
use go_gather.Base.{
  ℕ, ◌+◌, ◌*◌, ◌-◌, Bool, true, false, not, ◌&&◌, ◌||◌, ◌==◌, leb, ltb, Option, some, List, [], ◌∷◌,
  if◌then◌else◌, length,
}
use go_gather.Base.Text.{Text, split, has_prefix, drop, codes}

abbrev is_digit : ℕ → Bool
is_digit c = leb b'0' c && leb c b'9'

abbrev is_hex : ℕ → Bool
is_hex c = is_digit c || (leb b'a' c && leb c b'f') || (leb b'A' c && leb c b'F')

abbrev all_bytes : (ℕ → Bool) → Text → Bool
all_bytes p [] = true
all_bytes p (c ∷ s) = p c && all_bytes p s

-- A group of one to four hexadecimal digits.
unfoldable is_group : Text → Bool
is_group s = all_bytes is_hex s && leb 1 (length s) && leb (length s) 4

-- A decimal number up to 255 without leading zeros.
unfoldable is_octet : Text → Bool
is_octet (a ∷ []) = is_digit a
is_octet (a ∷ b ∷ []) = is_digit a && is_digit b && not (a == b'0')
is_octet (a ∷ b ∷ c ∷ []) =
    is_digit a
    && is_digit b
    && is_digit c
    && not (a == b'0')
    && leb ((a - b'0') * 100 + (b - b'0') * 10 + (c - b'0')) 255
is_octet _ = false

abbrev four_octets : List Text → Bool
four_octets (a ∷ b ∷ c ∷ d ∷ []) = is_octet a && is_octet b && is_octet c && is_octet d
four_octets _ = false

-- `parseIPv4Fields`
unfoldable is_ipv4 : Text → Bool
unfolding split is_octet
is_ipv4 s = four_octets (split b'.' s)

-- After `count` groups: a `::` stands for at least one more, and without one there are eight.
abbrev is_whole : ℕ → Bool → Bool
is_whole count ellipsis = if ellipsis then ltb count 8 else count == 8

-- The last part: a group, or an IPv4 address in the place of two.
unfoldable last_group : ℕ → Bool → Text → Bool
unfolding is_group is_ipv4
last_group count ellipsis p =
    ltb count 8
    && (if is_group p
        then is_whole (count + 1) ellipsis
        else is_ipv4 p
          && (ellipsis || count == 6)
          && leb (count + 2) 8
          && is_whole (count + 2) ellipsis)

-- The loop of `parseIPv6` over the parts between colons. An empty part behind another is a `::`.
unfoldable groups : ℕ → Bool → List Text → Bool
unfolding is_group last_group
groups count ellipsis [] = false
groups count ellipsis (p ∷ []) = last_group count ellipsis p
groups count ellipsis (p ∷ [] ∷ []) = false
groups count ellipsis (p ∷ [] ∷ [] ∷ []) =
    ltb count 8 && is_group p && not ellipsis && is_whole (count + 1) true
groups count ellipsis (p ∷ [] ∷ q ∷ parts) =
    let rest = groups (count + 1) true (q ∷ parts) in
    ltb count 8 && is_group p && not ellipsis && rest
groups count ellipsis (p ∷ (c ∷ q) ∷ parts) =
    let rest = groups (count + 1) ellipsis ((c ∷ q) ∷ parts) in ltb count 8 && is_group p && rest

abbrev behind_ellipsis : Text → Bool
behind_ellipsis [] = true
behind_ellipsis (c ∷ s) = groups 0 true (split b':' (c ∷ s))

-- `parseIPv6` of an address and of the zone that stood behind its `%`.
unfoldable pub is_ipv6 : Text → Option Text → Bool
unfolding has_prefix drop split groups
is_ipv6 s (some []) = false
is_ipv6 s _ =
    if has_prefix s (codes "::") then behind_ellipsis (drop 2 s) else groups 0 false (split b':' s)
