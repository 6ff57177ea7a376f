-- ===== src/Examples/Datagrams.antt =====
-- The session of stream 4, whose quarter stream id is 1, and a packet with eight bytes of room.
use h3llo.Base.{
  ℕ, ◌+◌, ◌-◌, ◌*◌, ◌/◌, ◌%◌, ltb, leb, List, [], ◌∷◌, ◌++◌, Option, none, some, Bool, true, false,
  if◌then◌else◌, length, drop, ◌≡◌, ◌≢◌, ◌↔◌, refl, ap, arith,
}
use h3llo.Datagram.{
  Octets, PooledBuf, context_id_ip, new_codec, qsi_bytes, prepend, strip, encode_qsi,
}
use h3llo.Datagram.Integers.{IsVarint}
use h3llo.Datagram.Framing.{IsBuffer, strip_iff}

-- The variable-length integers of RFC 9000 up to two bytes, which is all that these sessions need.
abbrev pub get_short : List ℕ → Option ℕ
get_short [] = none
get_short (a ∷ []) = if ltb a 0x40 then some a else none
get_short (a ∷ b ∷ bytes) =
    if ltb a 0x40 then some a else if ltb a 0x80 then some ((a - 0x40) * 0x100 + b) else none

abbrev pub short_len : ℕ → ℕ
short_len b = if ltb b 0x40 then 1 else 2

abbrev pub octets : Octets
octets = record {
  varint_len = short_len;
  put_varint = λ q. if ltb q 0x40 then q ∷ [] else (0x40 + q / 0x100) ∷ q % 0x100 ∷ [];
  varint_parse_len = short_len;
  get_varint = get_short;
}

pub short_canonical :
    (b : ℕ) (bs : List ℕ)
    → short_len b ≡ 1
    → get_short (b ∷ bs) ≡ some 1
    → (rest : List ℕ) × (b ∷ bs ≡ 1 ∷ rest)
short_canonical b [] h k = let same : b ≡ 1 = ground arith in ([], λ i. same i ∷ [])
short_canonical b (c ∷ bs) h k = let same : b ≡ 1 = ground arith in (c ∷ bs, λ i. same i ∷ c ∷ bs)

pub short_read : (rest : List ℕ) → get_short (1 ∷ rest) ≡ some 1
short_read [] = refl
short_read (b ∷ rest) = refl

abbrev pub one_varint : IsVarint octets 1
one_varint = record {
  written = refl;
  fits = (omega arith, omega arith);
  parsed = λ b bs rest e. let same : b ≡ 1 = cc in ap short_len same;
  read = short_read;
  canonical = short_canonical;
}

pub record Buffer : Type 0 where
  pub headroom : ℕ
  pub data_bytes : List ℕ

abbrev pub add_if : Bool → Buffer → List ℕ → Buffer × Bool
add_if true b bytes =
    (record { headroom = b.headroom - length bytes; data_bytes = bytes ++ b.data_bytes }, true)
add_if false b bytes = (b, false)

abbrev pub buffers : PooledBuf Buffer
buffers = record {
  bytes = λ b. b.data_bytes;
  add_prefix = λ b bytes. add_if (leb (length bytes) b.headroom) b bytes;
  pop_front = λ b n. record { headroom = b.headroom + n; data_bytes = drop n b.data_bytes };
}

pub add_if-bytes :
    (t : Bool) (b : Buffer) (bytes : List ℕ)
    → (add_if t b bytes).1 ≡ true
    → (add_if t b bytes).0.data_bytes ≡ bytes ++ b.data_bytes
add_if-bytes true b bytes h = refl
add_if-bytes false b bytes h = ground arith

abbrev pub laws : IsBuffer buffers
laws = record {
  prefixed = λ b bytes h. add_if-bytes (leb (length bytes) b.headroom) b bytes h;
  popped = λ b n h. refl;
}

abbrev pub packet : Buffer
packet = record { headroom = 8; data_bytes = 0x45 ∷ 0 ∷ 0 ∷ 20 ∷ [] }

pub full : packet.data_bytes ≢ []
full e = cc

pub framed : (prepend octets buffers (new_codec octets 4) packet).1 ≡ true
unfolding prepend new_codec encode_qsi qsi_bytes
framed = refl

abbrev payload : List ℕ
payload = 20 ∷ []

strip_iff_example :
    (((strip octets buffers (new_codec octets 4) packet).1 ≡ true)
      × ((strip octets buffers (new_codec octets 4) packet).0.data_bytes ≡ payload))
    ↔ ((payload ≢ [])
        × (packet.data_bytes ≡ qsi_bytes octets (new_codec octets 4) ++ (context_id_ip ∷ payload)))
strip_iff_example = strip_iff octets buffers laws 4 one_varint packet payload
