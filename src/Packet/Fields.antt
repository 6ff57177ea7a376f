-- ===== src/Packet/Fields.antt =====
-- What `decrement_ttl` does to the fields of a packet, apart from the checksum.
use Prim.Native.Nat.{pred}
use mathlib.Core.Option
use h3llo.Base.{
  ℕ, ◌-◌, ◌/◌, ◌%◌, ◌≡◌, sym, ◌≢◌, ◌&&◌, List, ◌∷◌, Option, none, arith, ◌==◌, ltb, if◌then◌else◌,
  length, get_elem?, get_or, set, get_elem?-set_ne,
}
use h3llo.Packet.{decrement_ttl, extract_dst_ip, update_checksum, read_u16_be}

-- The time to live or hop limit of a packet that is long enough for its version.
unfoldable pub hop_limit : List ℕ → Option ℕ
hop_limit packet =
    if ltb 19 (length packet) && get_or packet 0 0 / 16 == 4
    then get_elem? packet 8
    else if ltb 39 (length packet) && get_or packet 0 0 / 16 == 6
    then get_elem? packet 7
    else none

-- `decrement_ttl` reports the hop limit that it found, and leaves one less, zero staying zero; a
-- packet without a hop limit is reported as `none`, and has none afterwards.
pub decrement_ttl-hop_limit :
    (packet : List ℕ)
    → ((decrement_ttl packet).0 ≡ hop_limit packet)
      × (hop_limit (decrement_ttl packet).1 ≡ Option.map pred (hop_limit packet))
unfolding decrement_ttl hop_limit
decrement_ttl-hop_limit (b0 ∷ b1 ∷ b2 ∷ b3 ∷ b4 ∷ b5 ∷ b6 ∷ b7 ∷ b8 ∷ b9 ∷ b10 ∷ b11 ∷ rest) =
    ground arith
decrement_ttl-hop_limit packet = ground arith

pub length-decrement_ttl : (packet : List ℕ) → length (decrement_ttl packet).1 ≡ length packet
unfolding decrement_ttl
length-decrement_ttl (b0 ∷ b1 ∷ b2 ∷ b3 ∷ b4 ∷ b5 ∷ b6 ∷ b7 ∷ b8 ∷ b9 ∷ b10 ∷ b11 ∷ rest) =
    ground arith
length-decrement_ttl packet = ground arith

-- The destination of a packet is not touched.
pub extract_dst_ip-decrement_ttl :
    (packet : List ℕ) → extract_dst_ip (decrement_ttl packet).1 ≡ extract_dst_ip packet
unfolding decrement_ttl extract_dst_ip
extract_dst_ip-decrement_ttl (b0 ∷ b1 ∷ b2 ∷ b3 ∷ b4 ∷ b5 ∷ b6 ∷ b7 ∷ b8 ∷ b9 ∷ b10 ∷ b11 ∷ rest) =
    ground arith
extract_dst_ip-decrement_ttl packet = ground arith

-- Only the hop limit (byte 8 under IPv4, byte 7 under IPv6) and, under IPv4, the checksum (bytes
-- 10 and 11) can change.
pub get_elem?-decrement_ttl :
    (packet : List ℕ) (i : ℕ)
    → i ≢ 7
    → i ≢ 8
    → i ≢ 10
    → i ≢ 11
    → get_elem? (decrement_ttl packet).1 i ≡ get_elem? packet i
unfolding decrement_ttl
get_elem?-decrement_ttl packet i n7 n8 n10 n11 =
    let ttl = get_or packet 8 0 - 1 in
    let aged = set packet 8 ttl in
    let check = update_checksum (read_u16_be aged 10) in
    ground (
      arith,
      get_elem?-set_ne packet 8 i ttl (λ e. n8 (sym e)),
      get_elem?-set_ne aged 10 i (check / 256) (λ e. n10 (sym e)),
      get_elem?-set_ne (set aged 10 (check / 256)) 11 i (check % 256) (λ e. n11 (sym e)),
      get_elem?-set_ne packet 7 i (get_or packet 7 0 - 1) (λ e. n7 (sym e)),
    )
