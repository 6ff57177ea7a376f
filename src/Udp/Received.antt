-- ===== src/Udp/Received.antt =====
-- What the receiving actor hands on of what the sending actor sent.
use h3llo.Base.{
  ℕ, ◌*◌, ◌≤◌, ◌<◌, min, List, [], ◌∷◌, ◌++◌, map, length, All, some, subst, Bool, true, ◌≡◌, refl,
  sym, ap, ◌∙◌, arith,
}
use native.Mathlib.Nat.{mul-le-mul_right}
use mathlib.Core.List.{append_assoc, append-nil}
use h3llo.Net.{SocketAddr}
use h3llo.Buffers.Room.{alloc_packet_buf-exact}
use h3llo.Udp.{
  Transmit, SendSocket, complete, chunks, RecvAnswer, message, pass_on, read_ready, copy_all,
  send_all,
}
use h3llo.Udp.Sent.{datagrams, IsPacket, IsFitting, send_all-prefix, send_all-IsFitting}

-- A packet that fits into a buffer of 65536 octets behind 10 octets of room.
abbrev pub IsCopyable : List ℕ → Type 0
IsCopyable packet = length packet ≤ 65_526

All-append_first : (xs ys : List (List ℕ)) → All IsCopyable (xs ++ ys) → All IsCopyable xs
All-append_first [] ys h = tt
All-append_first (x ∷ xs) ys (p, h) = (p, All-append_first xs ys h)

All-append_rest : (xs ys : List (List ℕ)) → All IsCopyable (xs ++ ys) → All IsCopyable ys
All-append_rest [] ys h = h
All-append_rest (x ∷ xs) ys (p, h) = All-append_rest xs ys h

-- The packets of the batches that were handed on.
abbrev pub packets_of : List (SocketAddr × List (List ℕ)) → List (List ℕ)
packets_of [] = []
packets_of ((remote, packets) ∷ batches) = packets ++ packets_of batches

packets_of-append :
    (xs ys : List (SocketAddr × List (List ℕ)))
    → packets_of (xs ++ ys) ≡ packets_of xs ++ packets_of ys
packets_of-append [] ys = refl
packets_of-append ((remote, packets) ∷ xs) ys =
    ap (λ ps. packets ++ ps) (packets_of-append xs ys)
    ∙ sym (append_assoc packets (packets_of xs) (packets_of ys))

-- The segments of a send, coalesced again by the kernel of the receiver.
abbrev pub coalesced : SocketAddr → Transmit → RecvAnswer
coalesced remote transmit = message remote transmit.segment_size transmit.contents

module _ (max_datagram_size : ℕ) (remote : SocketAddr)
    (is_open : List (SocketAddr × List (List ℕ)) → Bool) where
  copy_all-IsCopyable :
      (segments : List (List ℕ))
      → All IsCopyable segments
      → copy_all max_datagram_size segments ≡ some segments
  unfolding copy_all
  copy_all-IsCopyable [] h = refl
  copy_all-IsCopyable (segment ∷ segments) (p, h) =
      let exact = alloc_packet_buf-exact max_datagram_size segment (omega arith) in
      let rest = copy_all-IsCopyable segments h in rw (exact, rest) refl

  -- A message that holds a segment.
  read_ready-message :
      (stride : ℕ) (bytes : List ℕ) (answers : List RecvAnswer)
      (before : List (SocketAddr × List (List ℕ)))
      → 0 < stride
      → stride ≤ length bytes
      → All IsCopyable (chunks stride bytes)
      → read_ready max_datagram_size is_open (message remote stride bytes ∷ answers) before
        ≡ pass_on max_datagram_size is_open
            (is_open before)
            (read_ready max_datagram_size is_open answers
              (before ++ (remote, chunks stride bytes) ∷ []))
            before
  unfolding read_ready
  read_ready-message stride [] answers before p h short = absurd (omega arith)
  read_ready-message stride (b ∷ bytes) answers before p h short =
      let size : min stride (length (b ∷ bytes)) ≡ stride = omega arith in
      let copied = copy_all-IsCopyable (chunks stride (b ∷ bytes)) short in rw (size, copied) refl

  -- A channel that stays open.
  module _ (opened : (before : List (SocketAddr × List (List ℕ))) → is_open before ≡ true) where
    read_ready-datagrams :
        (enable_offload : Bool) (transmits : List Transmit)
        (before : List (SocketAddr × List (List ℕ)))
        → All (IsFitting enable_offload) transmits
        → All IsCopyable (datagrams transmits)
        → packets_of
            (read_ready max_datagram_size is_open (map (coalesced remote) transmits) before).0
          ≡ packets_of before ++ datagrams transmits
    unfolding read_ready
    read_ready-datagrams off [] before h short = sym (append-nil (packets_of before))
    read_ready-datagrams off (t ∷ ts) before (f, h) short =
        let answers = map (coalesced remote) ts in
        let cut = chunks t.segment_size t.contents in
        let next = before ++ (remote, cut) ∷ [] in
        let size = f.uniform in
        let some_segment = f.some_segment in
        let grown : 1 * t.segment_size ≤ f.segments * t.segment_size =
          mul-le-mul_right t.segment_size some_segment in
        let room : t.segment_size ≤ length t.contents = omega arith in
        ap (λ out. packets_of out.0)
          (read_ready-message t.segment_size t.contents answers before f.some_octet room
              (All-append_first cut (datagrams ts) short)
            ∙ ap
                (λ b.
                  pass_on max_datagram_size is_open b
                    (read_ready max_datagram_size is_open answers next) before)
                (opened before))
        ∙ read_ready-datagrams off ts next h (All-append_rest cut (datagrams ts) short)
        ∙ ap (λ ps. ps ++ datagrams ts)
            (packets_of-append before ((remote, cut) ∷ [])
              ∙ ap (λ ps. packets_of before ++ ps) (append-nil cut))
        ∙ append_assoc (packets_of before) cut (datagrams ts)

    -- A batch of non-empty packets of at most 65526 octets that is sent to its end arrives as it was:
    -- the receiver, given the sends as its kernel coalesced them and an output that stays open,
    -- hands on batches that hold the packets, unchanged and in their order.
    pub read_ready-send_all :
        (socket : SendSocket) (enable_offload : Bool) (dest : SocketAddr) (packets : List (List ℕ))
        → All IsPacket packets
        → All IsCopyable packets
        → (send_all socket enable_offload dest [] packets).1 ≡ complete
        → packets_of
            (read_ready max_datagram_size is_open
              (map (coalesced remote) (send_all socket enable_offload dest [] packets).0)
              []).0
          ≡ packets
    read_ready-send_all socket off dest packets h short e =
        let (left, split, ends) = send_all-prefix socket off dest packets h in
        let sent = (send_all socket off dest [] packets).0 in
        read_ready-datagrams off sent [] (send_all-IsFitting socket off dest packets h)
          (All-append_first (datagrams sent) left (subst (All IsCopyable) split short))
        ∙ sym (split ∙ ap (λ ps. datagrams sent ++ ps) (ends.0 e) ∙ append-nil (datagrams sent))
