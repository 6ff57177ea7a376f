-- ===== src/Buffers.antt =====
-- The buffers of packets (src/helpers.rs): which pool an allocation is taken from, and how much of the
-- buffer is visible. A buffer is its room before the data, and its data.
pub mod Room
use h3llo.Base.{ℕ, ◌+◌, ◌-◌, leb, Bool, if◌then◌else◌, List, length}
use h3llo.Datagram.{zeros}

-- `MAX_PACKET_BUFFER_SIZE`.
abbrev pub max_packet_buffer_size : ℕ
max_packet_buffer_size = 65_536

-- `HEADROOM`.
abbrev pub headroom : ℕ
headroom = 10

pub data BufferPool : Type 0 where
  datagram_pool : BufferPool
  buffer_pool : BufferPool

pub record PacketBuf : Type 0 where
  pub room : ℕ
  pub visible : List ℕ

-- `max_datagram_size` is a constant of the crate datagram_socket.
unfoldable pub pool_for : ℕ → ℕ → BufferPool × ℕ
pool_for max_datagram_size size =
    if leb (size + headroom) max_datagram_size
    then (datagram_pool, max_datagram_size)
    else (buffer_pool, max_packet_buffer_size)

-- The octets of the octets are not set yet, and stand as zeros.
unfoldable pub alloc_uninit_packet_buf : ℕ → ℕ → PacketBuf
alloc_uninit_packet_buf max_datagram_size size = record {
  room = headroom;
  visible = zeros ((pool_for max_datagram_size size).1 - headroom);
}

-- `truncate` and `copy_from_slice`, which panics unless the lengths agree: the second component says
-- whether it does not.
unfoldable pub alloc_packet_buf : ℕ → List ℕ → PacketBuf × Bool
alloc_packet_buf max_datagram_size octets =
    let buf = alloc_uninit_packet_buf max_datagram_size (length octets) in
    let fits = leb (length octets) (length buf.visible) in
    (record buf { visible = if fits then octets else buf.visible }, fits)
