-- ===== src/Packet/Checksum.antt =====
-- The incremental checksum update of `decrement_ttl` against the Internet checksum of RFC 1071.
use h3llo.Base.{
  ℕ, suc, ◌+◌, ◌-◌, ◌*◌, ◌%◌, ◌≤◌, ◌<◌, ◌≡◌, refl, subst, List, [], ◌∷◌, ◌/◌, arith, take, All,
  get_or,
}
use h3llo.Packet.{update_checksum, decrement_ttl, decrement_ttl_v4}

-- The sum of the big-endian 16-bit words of a run of bytes, an odd last byte padded by zero.
abbrev pub word_sum : List ℕ → ℕ
word_sum [] = 0
word_sum (hi ∷ []) = hi * 256
word_sum (hi ∷ lo ∷ rest) = hi * 256 + lo + word_sum rest

abbrev twelve_and : ℕ → ℕ
twelve_and k = suc (suc (suc (suc (suc (suc (suc (suc (suc (suc (suc (suc k)))))))))))

abbrev pub IsBytes : List ℕ → Type 0
IsBytes = All (λ b. b < 256)

update_checksum_residue :
    (c : ℕ)
    → c < 65536
    → (update_checksum c % 65535 ≡ (c + 256) % 65535) × (update_checksum c < 65535)
unfolding update_checksum
update_checksum_residue c h = ground arith

-- The words of the first twelve bytes, apart from the rest of the header.
word_sum-take :
    (k b0 b1 b2 b3 b4 b5 b6 b7 b8 b9 b10 b11 : ℕ) (rest : List ℕ)
    → word_sum
        (take (twelve_and k) (b0 ∷ b1 ∷ b2 ∷ b3 ∷ b4 ∷ b5 ∷ b6 ∷ b7 ∷ b8 ∷ b9 ∷ b10 ∷ b11 ∷ rest))
      ≡ (b0 + b2 + b4 + b6 + b8) * 256
        + (b1 + b3 + b5 + b7 + b9)
        + (b10 * 256 + b11)
        + word_sum (take k rest)
word_sum-take k b0 b1 b2 b3 b4 b5 b6 b7 b8 b9 b10 b11 rest = omega arith

-- One less in the high byte of the aged word is made up by the checksum.
aged_residue :
    (ttl check others : ℕ)
    → 0 < ttl
    → check < 65536
    → ((ttl - 1) * 256 + others + update_checksum check) % 65535
      ≡ (ttl * 256 + others + check) % 65535
aged_residue ttl check others pos small = omega (arith, update_checksum_residue check)

aged_header :
    (k : ℕ) (packet : List ℕ)
    → IsBytes packet
    → word_sum (take (twelve_and k) (decrement_ttl_v4 packet).1) % 65535
      ≡ word_sum (take (twelve_and k) packet) % 65535
unfolding decrement_ttl_v4
aged_header k (b0 ∷ b1 ∷ b2 ∷ b3 ∷ b4 ∷ b5 ∷ b6 ∷ b7 ∷ b8 ∷ b9 ∷ b10 ∷ b11 ∷ rest) h = ground (
  arith,
  word_sum-take k b0 b1 b2 b3 b4 b5 b6 b7 b8 b9 b10 b11 rest,
  aged_residue b8 (b10 * 256 + b11)
      ((b0 + b2 + b4 + b6) * 256 + (b1 + b3 + b5 + b7 + b9) + word_sum (take k rest)),
  update_checksum_residue (b10 * 256 + b11),
)
aged_header k packet h = refl

-- When `decrement_ttl` is given an IPv4 packet, the one's complement sum of its header, of
-- whatever length from twelve bytes on, keeps its residue modulo 0xFFFF, on every branch: a header
-- whose checksum was right stays right, and one that was wrong stays wrong by as much.
pub decrement_ttl-word_sum :
    (packet : List ℕ) (n : ℕ)
    → IsBytes packet
    → 12 ≤ n
    → get_or packet 0 0 / 16 ≡ 4
    → word_sum (take n (decrement_ttl packet).1) % 65535 ≡ word_sum (take n packet) % 65535
unfolding decrement_ttl
decrement_ttl-word_sum (b0 ∷ packet) n h m v =
    let split : twelve_and (n - 12) ≡ n = omega arith in
    subst
      (λ (t : ℕ).
        word_sum (take t (decrement_ttl (b0 ∷ packet)).1) % 65535
        ≡ word_sum (take t (b0 ∷ packet)) % 65535)
      split (ground (arith, aged_header (n - 12) (b0 ∷ packet) h))
decrement_ttl-word_sum [] n h m v = refl
