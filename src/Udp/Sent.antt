-- ===== src/Udp/Sent.antt =====
-- What the sending actor makes of a batch.
use h3llo.Base.{
  ℕ, zero, suc, ◌+◌, ◌*◌, ◌/◌, ◌≤◌, ◌<◌, min, max, List, [], ◌∷◌, ◌++◌, length, All, Option, none,
  some, Bool, false, ◌≡◌, ◌≢◌, ◌↔◌, ◌⊎◌, refl, sym, ap, ◌∙◌, subst, arith, length-append,
  Bool-cases, leb, ltb, if◌then◌else◌, inl, inr,
}
use native.Mathlib.Nat.{le-div_iff_mul-le}
use mathlib.Core.List.{append_assoc, append-nil}
use h3llo.Net.{SocketAddr}
use h3llo.Udp.{
  Transmit, SendSocket, Ending, complete, exhausted, chunks, max_segs, max_send_payload, segs_run,
  next_transmit, after_send, on_send_error, is_non_fatal_send_error, IoError, send_runs, send_all,
}
use h3llo.Udp.Runs.{IsRun, gather-IsRun, gather-shorter, chunks-concat, length-concat}

-- The datagrams that the kernel makes of the sends.
abbrev pub datagrams : List Transmit → List (List ℕ)
datagrams [] = []
datagrams (transmit ∷ transmits) =
    chunks transmit.segment_size transmit.contents ++ datagrams transmits

abbrev pub IsPacket : List ℕ → Type 0
IsPacket packet = 0 < length packet

-- What a send may be: segments of one size, no more octets than a payload has unless there is one
-- segment only, and one segment only if offloading is off.
pub record IsFitting (enable_offload : Bool) (transmit : Transmit) : Type 0 where
  pub segments : ℕ
  pub some_segment : 0 < segments
  pub some_octet : 0 < transmit.segment_size
  pub uniform : length transmit.contents ≡ segments * transmit.segment_size
  pub fits : (segments ≡ 1) ⊎ (length transmit.contents ≤ max_send_payload transmit.destination.ip)
  pub alone : enable_offload ≡ false → segments ≡ 1

datagrams-append : (xs ys : List Transmit) → datagrams (xs ++ ys) ≡ datagrams xs ++ datagrams ys
datagrams-append [] ys = refl
datagrams-append (x ∷ xs) ys =
    ap (λ ds. chunks x.segment_size x.contents ++ ds) (datagrams-append xs ys)
    ∙ sym (append_assoc (chunks x.segment_size x.contents) (datagrams xs) (datagrams ys))

All-append_right : (xs ys : List (List ℕ)) → All IsPacket (xs ++ ys) → All IsPacket ys
All-append_right [] ys h = h
All-append_right (x ∷ xs) ys (_, h) = All-append_right xs ys h

All-append :
    (b : Bool) (xs ys : List Transmit)
    → All (IsFitting b) xs
    → All (IsFitting b) ys
    → All (IsFitting b) (xs ++ ys)
All-append b [] ys h k = k
All-append b (x ∷ xs) ys (p, h) k = (p, All-append b xs ys h k)

-- As many segments as the quotient allows fit into the payload, and one is always allowed.
within :
    (count segs size bytes payload : ℕ)
    → 0 < size
    → 0 < count
    → count ≤ max (min segs (payload / size)) 1
    → bytes ≡ count * size
    → (count ≡ 1) ⊎ (bytes ≤ payload)
within count segs size bytes payload positive some_count h e = elim (Bool-cases (leb count 1)) [
  | inl t ↦ inl (ground arith)
  | inr f ↦
      let low : count ≤ payload / size = ground arith in
      let product : count * size ≤ payload = (le-div_iff_mul-le positive).0 low in inr (omega arith)
]

on_send_error-ends :
    (error : IoError) (used_gso : Bool)
    → (on_send_error error used_gso ≢ complete) × (on_send_error error used_gso ≢ exhausted)
on_send_error-ends error used_gso = elim (Bool-cases (is_non_fatal_send_error error used_gso)) [
  | inl t ↦ rw t (λ e. cc, λ e. cc)
  | inr f ↦ rw f (λ e. cc, λ e. cc)
]

module _ (socket : SendSocket) (enable_offload : Bool) (dest : SocketAddr) where
  module _ (sent : List Transmit) (packet : List ℕ) (packets : List (List ℕ))
      (positive : IsPacket packet) where
    abbrev limit : ℕ
    limit = segs_run socket enable_offload dest sent (length packet)

    abbrev step : Transmit × List (List ℕ)
    step = next_transmit socket enable_offload dest sent packet packets

    step-IsRun : IsRun (length packet) limit (packet ∷ packets) (step.0.contents, step.1)
    step-IsRun = gather-IsRun (length packet) limit (packet ∷ packets) positive

    step-shorter : length step.1 ≤ length packets
    step-shorter = gather-shorter (length packet) limit packet packets refl (omega arith) positive

    step-split : packet ∷ packets ≡ datagrams (step.0 ∷ []) ++ step.1
    step-split =
        let run = step-IsRun in
        let cut : chunks (length packet) step.0.contents ≡ run.taken =
          ap (chunks (length packet)) run.joined
          ∙ chunks-concat (length packet) run.taken positive run.uniform in
        run.split
        ∙ ap (λ ds. ds ++ step.1) (sym (append-nil (chunks (length packet) step.0.contents) ∙ cut))

    step-IsFitting : IsFitting enable_offload step.0
    step-IsFitting =
        let run = step-IsRun in
        let count : suc (length packets) ≡ length run.taken + length step.1 =
          ap length run.split ∙ length-append run.taken step.1 in
        let shorter = step-shorter in
        let some_taken : 0 < length run.taken = omega arith in
        let size : length step.0.contents ≡ length run.taken * length packet =
          ap length run.joined ∙ length-concat (length packet) run.taken run.uniform in
        let bounded = run.bounded in
        record {
          segments = length run.taken;
          some_segment = some_taken;
          some_octet = positive;
          uniform = size;
          fits =
              within (length run.taken) (max_segs socket enable_offload sent) (length packet)
                (length step.0.contents) (max_send_payload dest.ip) positive some_taken bounded
                size;
          alone = λ off.
              let quotient = max_send_payload dest.ip / length packet in
              let single : length run.taken ≤ max (min 1 quotient) 1 =
                subst
                  (λ b.
                    length run.taken
                    ≤ max (min (if b then socket.max_gso_segments sent else 1) quotient) 1)
                  off bounded in
              omega arith;
        }

  -- What is left of a batch when its sending ends as it did.
  record IsSent (sent : List Transmit) (packets : List (List ℕ)) (out : List Transmit × Ending)
      : Type 0 where
    left : List (List ℕ)
    split : datagrams sent ++ packets ≡ datagrams out.0 ++ left
    complete_iff : (out.1 ≡ complete) ↔ (left ≡ [])
    in_time : out.1 ≢ exhausted
    fitting : All (IsFitting enable_offload) out.0

  after_send-IsSent :
      (sent : List Transmit) (packet : List ℕ) (packets : List (List ℕ)) (transmit : Transmit)
      (rest : List (List ℕ)) (later : List Transmit × Ending)
      → packet ∷ packets ≡ datagrams (transmit ∷ []) ++ rest
      → IsSent (sent ++ transmit ∷ []) rest later
      → All (IsFitting enable_offload) sent
      → (answer : Option IoError)
      → IsSent sent (packet ∷ packets) (after_send socket enable_offload sent transmit later answer)
  after_send-IsSent sent packet packets transmit rest later e s fs none = record {
    left = s.left;
    split =
        ap (λ ds. datagrams sent ++ ds) e
        ∙ sym (append_assoc (datagrams sent) (datagrams (transmit ∷ [])) rest)
        ∙ ap (λ ds. ds ++ rest) (sym (datagrams-append sent (transmit ∷ [])))
        ∙ s.split;
    complete_iff = s.complete_iff;
    in_time = s.in_time;
    fitting = s.fitting;
  }
  after_send-IsSent sent packet packets transmit rest later e s fs (some error) =
      let used_gso = ltb transmit.segment_size (length transmit.contents) in
      let (goes_on, in_time) = on_send_error-ends error used_gso in
      record {
        left = packet ∷ packets;
        split = refl;
        complete_iff = (λ k. absurd (goes_on k), λ k. cc);
        in_time = in_time;
        fitting = fs;
      }

  send_runs-IsSent :
      (fuel : ℕ) (sent : List Transmit) (packets : List (List ℕ))
      → length packets ≤ fuel
      → All IsPacket packets
      → All (IsFitting enable_offload) sent
      → IsSent sent packets (send_runs socket enable_offload fuel dest sent packets)
  send_runs-IsSent fuel sent [] h ps fs = record {
    left = [];
    split = refl;
    complete_iff = (λ _. refl, λ _. refl);
    in_time = λ k. cc;
    fitting = fs;
  }
  send_runs-IsSent zero sent (packet ∷ packets) h ps fs = absurd (omega arith)
  send_runs-IsSent (suc fuel) sent (packet ∷ packets) h (positive, ps) fs =
      let (transmit, rest) = step sent packet packets positive in
      let split : packet ∷ packets ≡ datagrams (transmit ∷ []) ++ rest =
        step-split sent packet packets positive in
      let short = step-shorter sent packet packets positive in
      let fits = step-IsFitting sent packet packets positive in
      let later =
        send_runs-IsSent fuel (sent ++ transmit ∷ []) rest (omega arith)
          (All-append_right (datagrams (transmit ∷ [])) rest
            (subst (All IsPacket) split (positive, ps)))
          (All-append enable_offload sent (transmit ∷ []) fs (fits, tt)) in
      after_send-IsSent sent packet packets transmit rest _ split later fs
        (socket.try_send sent transmit)

  send_all-IsSent :
      (packets : List (List ℕ))
      → All IsPacket packets
      → IsSent [] packets (send_all socket enable_offload dest [] packets)
  unfolding send_all
  send_all-IsSent packets h = send_runs-IsSent (length packets) [] packets (omega arith) h tt

  -- The datagrams that a batch of non-empty packets goes out as are its packets, unchanged and in
  -- their order, up to the first send that fails for good; and the whole batch if no send fails.
  pub send_all-prefix :
      (packets : List (List ℕ))
      → All IsPacket packets
      → (left : List (List ℕ)) × (packets
          ≡ datagrams (send_all socket enable_offload dest [] packets).0 ++ left)
        × (((send_all socket enable_offload dest [] packets).1 ≡ complete) ↔ (left ≡ []))
  send_all-prefix packets h =
      let out = send_all-IsSent packets h in (out.left, out.split, out.complete_iff)

  -- As many rounds as the batch has packets are enough: the sending of non-empty packets ends with
  -- the batch or with a failed send.
  pub send_all-ne-exhausted :
      (packets : List (List ℕ))
      → All IsPacket packets
      → (send_all socket enable_offload dest [] packets).1 ≢ exhausted
  send_all-ne-exhausted packets h = (send_all-IsSent packets h).in_time

  -- Each send of a batch of non-empty packets has one or more segments of one size, has at most 65507
  -- octets to an IPv4 address and 65527 to an IPv6 address unless it is a single segment, and is a
  -- single segment if offloading is off.
  pub send_all-IsFitting :
      (packets : List (List ℕ))
      → All IsPacket packets
      → All (IsFitting enable_offload) (send_all socket enable_offload dest [] packets).0
  send_all-IsFitting packets h = (send_all-IsSent packets h).fitting
