-- ===== src/Buffers/Room.antt =====
-- Packets fit into the buffers that are allocated for them.
use h3llo.Base.{
  ℕ, zero, suc, ◌+◌, ◌-◌, ◌≤◌, leb, Bool, true, if◌then◌else◌, List, length, ◌≡◌, refl, ap, arith,
  Bool-cases, inl, inr,
}
use h3llo.Datagram.{zeros}
use h3llo.Buffers.{
  max_packet_buffer_size, headroom, PacketBuf, pool_for, alloc_uninit_packet_buf, alloc_packet_buf,
}

length-zeros : (n : ℕ) → length (zeros n) ≡ n
length-zeros zero = refl
length-zeros (suc n) = omega (arith, length-zeros n)

-- A request that fits into the larger pool gets a buffer with as much visible length, whichever pool
-- it comes from.
pub alloc_uninit_packet_buf-le :
    (max_datagram_size size : ℕ)
    → size + headroom ≤ max_packet_buffer_size
    → size ≤ length (alloc_uninit_packet_buf max_datagram_size size).visible
unfolding alloc_uninit_packet_buf pool_for
alloc_uninit_packet_buf-le max_datagram_size size h =
    elim (Bool-cases (leb (size + headroom) max_datagram_size)) [
      | inl t ↦ rw t (let n = length-zeros (max_datagram_size - headroom) in ground arith)
      | inr f ↦ rw f (let n = length-zeros (max_packet_buffer_size - headroom) in omega arith)
    ]

-- A packet of at most 65526 octets is copied whole into a buffer with 10 octets of room before it, and
-- the copy does not panic.
pub alloc_packet_buf-exact :
    (max_datagram_size : ℕ) (octets : List ℕ)
    → length octets + headroom ≤ max_packet_buffer_size
    → alloc_packet_buf max_datagram_size octets
      ≡ (record { room = headroom; visible = octets }, true)
unfolding alloc_packet_buf alloc_uninit_packet_buf
alloc_packet_buf-exact max_datagram_size octets h =
    let fits = alloc_uninit_packet_buf-le max_datagram_size (length octets) h in
    let yes_fits : leb (length octets)
          (length (alloc_uninit_packet_buf max_datagram_size (length octets)).visible)
        ≡ true =
      ground arith in
    let other = (alloc_uninit_packet_buf max_datagram_size (length octets)).visible in
    let copied : Bool → PacketBuf × Bool =
      λ b. (record { room = headroom; visible = if b then octets else other }, b) in
    ap copied yes_fits
