-- ===== src/Addresses.antt =====
-- IP addresses and address blocks as a condition reads them
-- (apps/api/src/authz/domain/policy: `isValidCidr` of condition.ts; `parseIpv4`, `parseIpv6`,
-- `parseIp` and `containedIn` of evaluate-condition.ts). A bigint is a natural number.
pub mod Blocks
mod Tests
use accesscore.Prelude.{
  ℕ, zero, suc, ◌+◌, ◌-◌, ◌*◌, ◌%◌, ◌^◌, Bool, true, false, not, ◌&&◌, ◌||◌, List, [], ◌∷◌, ◌++◌,
  Option, none, some, leb, eqb, if◌then◌else◌, length, take, drop, all, Text, ◌==◌, index_of,
  includes, split, grow,
}

-- What the host computes of texts: `Date.parse`, in milliseconds, and `Number` where it yields an
-- integer that is not negative; `none` stands for every other outcome.
pub record Host : Type 0 where
  pub date_parse : Text → Option ℕ
  pub number_of : Text → Option ℕ

abbrev pub is_digit : ℕ → Bool
is_digit c = leb b'0' c && leb c b'9'

-- /^\d{1,3}$/
unfoldable pub is_octet_text : Text → Bool
is_octet_text s = leb 1 (length s) && leb (length s) 3 && all is_digit s

unfoldable pub decimal_from : ℕ → Text → ℕ
decimal_from value [] = value
decimal_from value (c ∷ s) = decimal_from (value * 10 + (c - b'0')) s

-- `Number` of decimal digits.
abbrev pub decimal : Text → ℕ
decimal s = decimal_from 0 s

abbrev pub is_hex : ℕ → Bool
is_hex c = is_digit c || (leb b'a' c && leb c b'f') || (leb b'A' c && leb c b'F')

abbrev hex_digit : ℕ → ℕ
hex_digit c = if is_digit c then c - b'0' else if leb b'a' c then c - 87 else c - 55

unfoldable pub hex_from : ℕ → Text → ℕ
hex_from value [] = value
hex_from value (c ∷ s) = hex_from (value * 16 + hex_digit c) s

-- /^[0-9a-fA-F]{1,4}$/
unfoldable pub is_group_text : Text → Bool
is_group_text s = leb 1 (length s) && leb (length s) 4 && all is_hex s

-- One octet of a dotted address.
unfoldable pub is_octet : Text → Bool
is_octet s = is_octet_text s && leb (decimal s) 255

unfoldable pub is_valid_cidr : Text → Bool
is_valid_cidr cidr = elim (index_of b'/' cidr) [
  | none ↦ false
  | some slash ↦
      let addr = take slash cidr in
      let prefix_text = drop (slash + 1) cidr in
      let octets = split b'.' addr in
      if not (is_octet_text prefix_text)
      then false
      else if includes b':' addr
      then leb (decimal prefix_text) 128
        && leb 2 (length addr)
        && all (λ c. is_hex c || eqb c b':') addr
      else if not (eqb (length octets) 4)
      then false
      else all is_octet octets && leb (decimal prefix_text) 32
]

-- The loop of `parseIpv4`; `(result << 8n) | octet` adds an octet.
unfoldable pub read_octets : ℕ → List Text → Option ℕ
read_octets result [] = some result
read_octets result (part ∷ parts) =
    let rest = read_octets (result * 256 + decimal part) parts in
    if not (is_octet_text part) then none else if not (leb (decimal part) 255) then none else rest

unfoldable pub parse_ipv4 : Text → Option ℕ
parse_ipv4 value =
    let parts = split b'.' value in if not (eqb (length parts) 4) then none else read_octets 0 parts

-- `value.split('::')`
unfoldable pub split_double : Text → List Text
split_double [] = [] ∷ []
split_double (a ∷ []) = (a ∷ []) ∷ []
split_double (a ∷ b ∷ s) =
    let cut = [] ∷ split_double s in
    let kept = grow a (split_double (b ∷ s)) in if eqb a b':' && eqb b b':' then cut else kept

abbrev pub push_group : ℕ → Option (List ℕ) → Option (List ℕ)
push_group group none = none
push_group group (some out) = some (group ∷ out)

unfoldable pub read_groups : List Text → Option (List ℕ)
read_groups [] = some []
read_groups (group ∷ groups) =
    let rest = push_group (hex_from 0 group) (read_groups groups) in
    if not (is_group_text group) then none else rest

unfoldable pub parse_groups : Text → Option (List ℕ)
parse_groups [] = some []
parse_groups (c ∷ part) = read_groups (split b':' (c ∷ part))

unfoldable pub zeros : ℕ → List ℕ
zeros zero = []
zeros (suc n) = 0 ∷ zeros n

-- The groups around a `::`; `fill < 1` is the sum of the lengths above 7.
unfoldable pub fill_groups : Option (List ℕ) → Option (List ℕ) → Option (List ℕ)
fill_groups none tail = none
fill_groups (some head) none = none
fill_groups (some head) (some tail) =
    if leb 8 (length head + length tail)
    then none
    else some (head ++ (zeros (8 - length head - length tail) ++ tail))

abbrev full_groups : Option (List ℕ) → Option (List ℕ)
full_groups none = none
full_groups (some groups) = if not (eqb (length groups) 8) then none else some groups

unfoldable pub groups_of : Text → List Text → Option (List ℕ)
groups_of value [] = full_groups (parse_groups value)
groups_of value (_ ∷ []) = full_groups (parse_groups value)
groups_of value (head ∷ tail ∷ []) = fill_groups (parse_groups head) (parse_groups tail)
groups_of value (_ ∷ _ ∷ _ ∷ _) = none

-- `(result << 16n) | group` adds a group.
unfoldable pub join_groups : ℕ → List ℕ → ℕ
join_groups result [] = result
join_groups result (group ∷ groups) = join_groups (result * 65536 + group) groups

unfoldable pub parse_ipv6 : Text → Option ℕ
parse_ipv6 value = elim (groups_of value (split_double value)) [
  | none ↦ none
  | some groups ↦ some (join_groups 0 groups)
]

pub record ParsedIp : Type 0 where
  pub bits : ℕ
  pub value : ℕ

abbrev parsed : ℕ → Option ℕ → Option ParsedIp
parsed bits none = none
parsed bits (some value) = some (record { bits = bits; value = value })

unfoldable pub parse_ip : Text → Option ParsedIp
parse_ip value =
    if includes b':' value then parsed 128 (parse_ipv6 value) else parsed 32 (parse_ipv4 value)

-- `value & mask`, where the mask clears the lower bits.
abbrev pub masked : ℕ → ℕ → ℕ
masked value lower = value - value % 2 ^ lower

abbrev same_block : ParsedIp → Option ParsedIp → Option ℕ → Bool
same_block ip none prefix = false
same_block ip (some base) none = false
same_block ip (some base) (some prefix) =
    if not (eqb base.bits ip.bits)
    then false
    else if not (leb prefix ip.bits)
    then false
    else eqb (masked ip.value (ip.bits - prefix)) (masked base.value (ip.bits - prefix))

unfoldable pub contained_in : Host → ParsedIp → Text → Bool
contained_in host ip cidr = elim (index_of b'/' cidr) [
  | none ↦ false
  | some slash ↦ same_block ip (parse_ip (take slash cidr)) (host.number_of (drop (slash + 1) cidr))
]
