-- ===== src/Addresses/Blocks.antt =====
-- What an accepted IPv4 block contains (condition.ts: `isValidCidr`; evaluate-condition.ts:
-- `parseIpv4`, `parseIp`, `containedIn`).
use native.Mathlib.Nat.{div-add-mod, eq_of_mul-eq-mul_left}
use accesscore.Prelude.{
  ℕ, zero, suc, ◌+◌, ◌-◌, ◌*◌, ◌/◌, ◌^◌, ◌≤◌, ◌<◌, ◌≡◌, refl, sym, ap, ◌∙◌, ◌↔◌, true, false, List,
  [], ◌∷◌, some, arith, eqb, length, take, drop, all, Text, index_of, includes, split,
}
use accesscore.Addresses.{
  Host, is_octet_text, decimal, is_octet, is_valid_cidr, read_octets, parse_ipv4, ParsedIp,
  parse_ip, masked, contained_in,
}

-- `Number` reads one to three digits as a decimal.
abbrev pub ReadsDecimals : Host → Type 0
ReadsDecimals host = (s : Text) → is_octet_text s ≡ true → host.number_of s ≡ some (decimal s)

read_octets_total :
    (acc : ℕ) (parts : List Text)
    → all is_octet parts ≡ true
    → (r : ℕ) × (read_octets acc parts ≡ some r)
unfolding read_octets is_octet
read_octets_total acc [] h = (acc, refl)
read_octets_total acc (p ∷ ps) h =
    let (r, read) = read_octets_total (acc * 256 + decimal p) ps (ground arith) in
    (r, ground (arith, read))

pow-pos : (k : ℕ) → 0 < 2 ^ k
pow-pos zero = omega arith
pow-pos (suc k) = omega (arith, pow-pos k)

masked-div : (v w k : ℕ) → (masked v k ≡ masked w k) ↔ (v / 2 ^ k ≡ w / 2 ^ k)
masked-div v w k =
    let m = 2 ^ k in
    let one : masked v k ≡ 2 ^ k * (v / 2 ^ k) = omega (arith, div-add-mod v (2 ^ k)) in
    let two : masked w k ≡ 2 ^ k * (w / 2 ^ k) = omega (arith, div-add-mod w (2 ^ k)) in
    (
      λ e. eq_of_mul-eq-mul_left (2 ^ k) (pow-pos k) (v / 2 ^ k) (w / 2 ^ k) (sym one ∙ e ∙ two),
      λ e. one ∙ ap (λ q. 2 ^ k * q) e ∙ sym two,
    )

-- The parts of an accepted block without a colon.
valid_parts :
    (cidr : Text) (slash : ℕ)
    → index_of b'/' cidr ≡ some slash
    → is_valid_cidr cidr ≡ true
    → includes b':' (take slash cidr) ≡ false
    → (is_octet_text (drop (slash + 1) cidr) ≡ true)
      × (eqb (length (split b'.' (take slash cidr))) 4 ≡ true)
      × (all is_octet (split b'.' (take slash cidr)) ≡ true)
      × (decimal (drop (slash + 1) cidr) ≤ 32)
unfolding is_valid_cidr
valid_parts cidr slash found valid plain = ground arith

parse_ip-total :
    (addr : Text)
    → includes b':' addr ≡ false
    → eqb (length (split b'.' addr)) 4 ≡ true
    → all is_octet (split b'.' addr) ≡ true
    → (base : ℕ) × (parse_ip addr ≡ some (record { bits = 32; value = base }))
unfolding parse_ip parse_ipv4
parse_ip-total addr plain four octets =
    let (base, read) = read_octets_total 0 (split b'.' addr) octets in (base, ground (arith, read))

abbrev Ipv4 : ℕ → ParsedIp
Ipv4 value = record { bits = 32; value = value }

-- An accepted block whose text before the slash has no colon is an IPv4 block: its address can be
-- read, its prefix length is at most 32, and it contains exactly the IPv4 addresses whose leading
-- bits, as many as the prefix says, are those of the block. The host must read decimal digits.
pub contained_in-is_valid_cidr :
    (host : Host) (cidr : Text) (slash : ℕ)
    → ReadsDecimals host
    → index_of b'/' cidr ≡ some slash
    → is_valid_cidr cidr ≡ true
    → includes b':' (take slash cidr) ≡ false
    → (base : ℕ) × (parse_ip (take slash cidr) ≡ some (record { bits = 32; value = base }))
      × (decimal (drop (slash + 1) cidr) ≤ 32)
      × ((value : ℕ)
          → (contained_in host (record { bits = 32; value = value }) cidr ≡ true) ↔ (
              value / 2 ^ (32 - decimal (drop (slash + 1) cidr))
              ≡ base / 2 ^ (32 - decimal (drop (slash + 1) cidr))))
unfolding contained_in
contained_in-is_valid_cidr host cidr slash reads found valid plain =
    let (digits, four, octets, low) = valid_parts cidr slash found valid plain in
    let (base, read) = parse_ip-total (take slash cidr) plain four octets in
    let prefix = reads (drop (slash + 1) cidr) digits in
    (
      base,
      read,
      low,
      λ value.
          let k = 32 - decimal (drop (slash + 1) cidr) in
          ground (arith, found, read, prefix, masked-div value base k),
    )
