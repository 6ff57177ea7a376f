-- ===== src/Packet.antt =====
-- The router's two routines that read and change an IP packet in place (src/router.rs). A packet
-- is the list of its bytes; a routine that takes `&mut [u8]` returns the new bytes.
pub mod Checksum
pub mod Fields
use h3llo.Base.{
  ℕ, ◌+◌, ◌-◌, ◌*◌, ◌/◌, ◌%◌, List, [], ◌∷◌, Option, none, some, ◌==◌, ltb, if◌then◌else◌, length,
  get_elem?, get_or, set, take, drop,
}
use h3llo.Net.{IpAddr, v4, v6}

abbrev pub ipv4_ttl_offset : ℕ
ipv4_ttl_offset = 8

abbrev pub ipv4_checksum_offset : ℕ
ipv4_checksum_offset = 10

abbrev pub ipv6_hop_limit_offset : ℕ
ipv6_hop_limit_offset = 7

abbrev pub ipv4_min_len : ℕ
ipv4_min_len = 20

abbrev pub ipv6_min_len : ℕ
ipv6_min_len = 40

-- One round of carry folding, `(sum & 0xFFFF) + (sum >> 16)`.
abbrev pub fold_carry : ℕ → ℕ
fold_carry sum = sum % 0x10000 + sum / 0x10000

-- The RFC 1624 update of the checksum when the time to live goes down by one.
unfoldable pub update_checksum : ℕ → ℕ
update_checksum old_check =
    let sum = fold_carry (fold_carry (old_check + 0x0100)) in
    if sum % 0x10000 == 0xFFFF then 0 else sum % 0x10000

-- `u16::from_be_bytes` of the two bytes at an offset, and the write back.
abbrev pub read_u16_be : List ℕ → ℕ → ℕ
read_u16_be packet i = get_or packet i 0 * 256 + get_or packet (i + 1) 0

abbrev pub write_u16_be : List ℕ → ℕ → ℕ → List ℕ
write_u16_be packet i v = set (set packet i (v / 256)) (i + 1) (v % 256)

unfoldable pub decrement_ttl_v4 : List ℕ → Option ℕ × List ℕ
decrement_ttl_v4 packet =
    let old_ttl = get_or packet ipv4_ttl_offset 0 in
    let aged = set packet ipv4_ttl_offset (old_ttl - 1) in
    let new_check = update_checksum (read_u16_be aged ipv4_checksum_offset) in
    if ltb (length packet) ipv4_min_len
    then (none, packet)
    else if old_ttl == 0
    then (some 0, packet)
    else (some old_ttl, write_u16_be aged ipv4_checksum_offset new_check)

unfoldable pub decrement_ttl_v6 : List ℕ → Option ℕ × List ℕ
decrement_ttl_v6 packet =
    let old_hl = get_or packet ipv6_hop_limit_offset 0 in
    if ltb (length packet) ipv6_min_len
    then (none, packet)
    else if old_hl == 0
    then (some 0, packet)
    else (some old_hl, set packet ipv6_hop_limit_offset (old_hl - 1))

-- `decrement_ttl`: the old value, and the packet as it is left.
unfoldable pub decrement_ttl : List ℕ → Option ℕ × List ℕ
unfolding decrement_ttl_v4 decrement_ttl_v6
decrement_ttl packet = elim (get_elem? packet 0) [
  | none ↦ (none, packet)
  | some first ↦
      if first / 16 == 4
      then decrement_ttl_v4 packet
      else if first / 16 == 6
      then decrement_ttl_v6 packet
      else (none, packet)
]

-- The number that a run of octets spells, most significant first.
abbrev pub from_octets : ℕ → List ℕ → ℕ
from_octets acc [] = acc
from_octets acc (b ∷ bs) = from_octets (acc * 256 + b) bs

-- The octets of `packet[from..from + count]`.
abbrev octets_at : List ℕ → ℕ → ℕ → List ℕ
octets_at packet from count = take count (drop from packet)

unfoldable pub extract_dst_ip : List ℕ → Option IpAddr
extract_dst_ip packet = elim (get_elem? packet 0) [
  | none ↦ none
  | some first ↦
      if first / 16 == 4
      then if ltb (length packet) 20
        then none
        else some (v4 (from_octets 0 (octets_at packet 16 4)))
      else if first / 16 == 6
      then if ltb (length packet) 40
        then none
        else some (v6 (from_octets 0 (octets_at packet 24 16)))
      else none
]
