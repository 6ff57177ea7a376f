-- ===== src/Datagram.antt =====
-- The framing of CONNECT-IP datagrams (`ConnectIpDatagramCodec` of src/h3session.rs). The
-- variable-length integers of the crate octets and the buffers of buffer_pool are parameters.
pub mod Integers
pub mod Framing
use h3llo.Base.{
  zero, suc, ℕ, ◌+◌, ◌/◌, ◌==◌, ltb, List, [], ◌∷◌, ◌++◌, Option, none, some, Bool, true, false,
  not, ◌||◌, if◌then◌else◌, length, take, get_elem?,
}

-- What is asked of octets: `put_varint` gives the bytes that it writes.
pub record Octets : Type 0 where
  pub varint_len : ℕ → ℕ
  pub put_varint : ℕ → List ℕ
  pub varint_parse_len : ℕ → ℕ
  pub get_varint : List ℕ → Option ℕ

-- What is asked of a buffer: its bytes, a prefix if there is room before them, and the removal of
-- bytes at the front.
pub record PooledBuf (Buf : Type 0) : Type 0 where
  pub bytes : Buf → List ℕ
  pub add_prefix : Buf → List ℕ → Buf × Bool
  pub pop_front : Buf → ℕ → Buf

abbrev pub context_id_ip : ℕ
context_id_ip = 0

pub record ConnectIpDatagramCodec : Type 0 where
  pub expected_qsi : ℕ
  pub qsi_buf : List ℕ
  pub qsi_len : ℕ

abbrev pub zeros : ℕ → List ℕ
zeros zero = []
zeros (suc n) = 0 ∷ zeros n

-- The start of a buffer is overwritten.
abbrev pub overwrite : List ℕ → List ℕ → List ℕ
overwrite [] buf = buf
overwrite (b ∷ bs) [] = []
overwrite (b ∷ bs) (c ∷ buf) = b ∷ overwrite bs buf

abbrev pub is_context : Option ℕ → Bool
is_context none = false
is_context (some b) = b == context_id_ip

module _ (octets : Octets) where
  unfoldable pub encode_qsi : ℕ → List ℕ × ℕ
  encode_qsi qsi = (overwrite (octets.put_varint qsi) (zeros 8), octets.varint_len qsi)

  abbrev pub with_len : ℕ → Option ℕ → Option (ℕ × ℕ)
  with_len qsi_len none = none
  with_len qsi_len (some qsi) = some (qsi, qsi_len)

  unfoldable pub decode_qsi : List ℕ → Option (ℕ × ℕ)
  decode_qsi [] = none
  decode_qsi (first ∷ buf) =
      let qsi_len = octets.varint_parse_len first in
      if ltb (length (first ∷ buf)) qsi_len
      then none
      else with_len qsi_len (octets.get_varint (first ∷ buf))

  unfoldable pub new_codec : ℕ → ConnectIpDatagramCodec
  new_codec connect_stream_id =
      let expected_qsi = connect_stream_id / 4 in
      let (qsi_buf, qsi_len) = encode_qsi expected_qsi in
      record { expected_qsi = expected_qsi; qsi_buf = qsi_buf; qsi_len = qsi_len }

  unfoldable pub qsi_bytes : ConnectIpDatagramCodec → List ℕ
  qsi_bytes codec = take codec.qsi_len codec.qsi_buf

  module _ {Buf : Type 0} (pooled : PooledBuf Buf) where
    -- `&&`: the second prefix is added only after the first.
    abbrev pub add_second : Buf × Bool → List ℕ → Buf × Bool
    add_second (packet, true) bytes = pooled.add_prefix packet bytes
    add_second (packet, false) bytes = (packet, false)

    unfoldable pub prepend : ConnectIpDatagramCodec → Buf → Buf × Bool
    prepend codec packet =
        add_second (pooled.add_prefix packet (context_id_ip ∷ [])) (qsi_bytes codec)

    abbrev pub strip_context : Buf → ℕ → Buf × Bool
    strip_context packet qsi_len =
        let prefix_len = qsi_len + 1 in
        let len = length (pooled.bytes packet) in
        if ltb len prefix_len || not (is_context (get_elem? (pooled.bytes packet) qsi_len))
        then (packet, false)
        else if len == prefix_len
        then (packet, false)
        else (pooled.pop_front packet prefix_len, true)

    abbrev pub strip_decoded : ConnectIpDatagramCodec → Buf → Option (ℕ × ℕ) → Buf × Bool
    strip_decoded codec packet none = (packet, false)
    strip_decoded codec packet (some (qsi, qsi_len)) =
        if not (qsi == codec.expected_qsi) || not (qsi_len == codec.qsi_len)
        then (packet, false)
        else strip_context packet qsi_len

    unfoldable pub strip : ConnectIpDatagramCodec → Buf → Buf × Bool
    strip codec packet = strip_decoded codec packet (decode_qsi (pooled.bytes packet))
