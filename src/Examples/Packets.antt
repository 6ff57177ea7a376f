-- ===== src/Examples/Packets.antt =====
-- A small IPv4 packet and a small IPv6 packet through `decrement_ttl`.
use h3llo.Base.{ℕ, ◌%◌, ◌≡◌, refl, List, [], ◌∷◌, some, arith, take}
use h3llo.Net.{v4}
use h3llo.Packet.{decrement_ttl, extract_dst_ip, update_checksum}
use h3llo.Packet.Checksum.{word_sum, decrement_ttl-word_sum}

-- 20 bytes: time to live 64, checksum 0x66d7, from 10.0.0.1 to 10.0.0.2.
abbrev pub ipv4_packet : List ℕ
ipv4_packet =
    0x45 ∷ 0 ∷ 0 ∷ 20 ∷ 0 ∷ 0 ∷ 0 ∷ 0 ∷ 64 ∷ 17 ∷ 0x66 ∷ 0xd7 ∷ 10 ∷ 0 ∷ 0 ∷ 1 ∷ 10 ∷ 0 ∷ 0 ∷ 2 ∷ []

aged : decrement_ttl ipv4_packet ≡ (
  some 64,
  0x45 ∷ 0 ∷ 0 ∷ 20 ∷ 0 ∷ 0 ∷ 0 ∷ 0 ∷ 63 ∷ 17 ∷ 0x67 ∷ 0xd7 ∷ 10 ∷ 0 ∷ 0 ∷ 1 ∷ 10 ∷ 0 ∷ 0 ∷ 2 ∷ [],
)
unfolding decrement_ttl update_checksum
aged = refl

-- The checksum of the packet is right, so the sum of its words has the residue 0.
valid : word_sum (take 20 ipv4_packet) % 65535 ≡ 0
valid = refl

negative_zero : update_checksum 0xFEFF ≡ 0
unfolding update_checksum
negative_zero = refl

dst : extract_dst_ip ipv4_packet ≡ some (v4 0x0a000002)
unfolding extract_dst_ip
dst = refl

decrement_ttl-word_sum_example :
    word_sum (take 20 (decrement_ttl ipv4_packet).1) % 65535
    ≡ word_sum (take 20 ipv4_packet) % 65535
decrement_ttl-word_sum_example =
    decrement_ttl-word_sum ipv4_packet 20 (omega arith) (omega arith) refl
