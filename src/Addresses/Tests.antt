-- ===== src/Addresses/Tests.antt =====
-- A run over an address block (condition.ts, evaluate-condition.ts).
use accesscore.Prelude.{
  ℕ, suc, ◌+◌, ◌-◌, ◌/◌, ◌^◌, ◌≤◌, ◌≡◌, refl, ◌↔◌, Bool, true, false, List, Option, none, some,
  arith, if◌then◌else◌, drop, take, Text, text, index_of, split, includes,
}
use accesscore.Addresses.{
  Host, is_octet_text, decimal, ParsedIp, parse_ip, contained_in, is_valid_cidr,
}
use accesscore.Addresses.Blocks.{ReadsDecimals, contained_in-is_valid_cidr}

-- A host whose `Number` reads one to three digits, and that knows no date.
abbrev digits_only : Host
digits_only = record {
  date_parse = λ s. none;
  number_of = λ s. if is_octet_text s then some (decimal s) else none;
}

digits_only-ReadsDecimals : ReadsDecimals digits_only
digits_only-ReadsDecimals s h = rw h refl

abbrev private_block : Text
private_block = text "10.0.0.0/8"

contained_in-is_valid_cidr_example :
    (base : ℕ) × (parse_ip (take 8 private_block) ≡ some (record { bits = 32; value = base }))
    × (decimal (drop 9 private_block) ≤ 32)
    × ((value : ℕ)
        → (contained_in digits_only (record { bits = 32; value = value }) private_block ≡ true) ↔ (
            value / 2 ^ (32 - decimal (drop 9 private_block))
            ≡ base / 2 ^ (32 - decimal (drop 9 private_block))))
unfolding index_of text is_valid_cidr is_octet_text includes split accesscore.Prelude.grow
    accesscore.Addresses.is_octet accesscore.Addresses.decimal_from
contained_in-is_valid_cidr_example =
    contained_in-is_valid_cidr digits_only private_block 8 digits_only-ReadsDecimals refl refl refl
