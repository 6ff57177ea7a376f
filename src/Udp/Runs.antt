-- ===== src/Udp/Runs.antt =====
-- What a round of the sending loop gathers.
use h3llo.Base.{
  ℕ, suc, zero, ◌+◌, ◌*◌, ◌/◌, ◌≤◌, ◌<◌, max, ◌==◌, ==_iff, ltb, List, [], ◌∷◌, ◌++◌, length, take,
  drop, true, ◌&&◌, All, length-append, ◌≡◌, refl, sym, ap, ◌∙◌, subst, arith, Bool-cases, inl, inr,
}
use mathlib.Core.List.{append_assoc, append-nil}
use native.Mathlib.Nat.{mul-div_cancel}
use h3llo.Udp.{gather, chunks, chunks_fuel}

abbrev pub concat : List (List ℕ) → List ℕ
concat [] = []
concat (packet ∷ packets) = packet ++ concat packets

abbrev pub HasSize : ℕ → List ℕ → Type 0
HasSize size packet = length packet ≡ size

-- A round takes packets of one size off the front, at most `limit` of them.
pub record IsRun (size limit : ℕ) (packets : List (List ℕ)) (gathered : List ℕ × List (List ℕ))
    : Type 0 where
  pub taken : List (List ℕ)
  pub joined : gathered.0 ≡ concat taken
  pub split : packets ≡ taken ++ gathered.1
  pub uniform : All (HasSize size) taken
  pub bounded : length taken ≤ limit

pub length-concat :
    (size : ℕ) (packets : List (List ℕ))
    → All (HasSize size) packets
    → length (concat packets) ≡ length packets * size
length-concat size [] h = omega arith
length-concat size (packet ∷ packets) (h, hs) =
    omega (arith, length-append packet (concat packets), length-concat size packets hs)

module _ (size limit : ℕ) (positive : 0 < size) where
  -- A buffer that holds `count` packets.
  gather_from :
      (count : ℕ) (buf : List ℕ) (packets : List (List ℕ))
      → length buf ≡ count * size
      → (taken : List (List ℕ)) × ((gather size limit buf packets).0 ≡ buf ++ concat taken)
        × (packets ≡ taken ++ (gather size limit buf packets).1)
        × All (HasSize size) taken
        × (count + length taken ≤ max count limit)
  unfolding gather
  gather_from count buf [] e = ([], sym (append-nil buf), refl, tt, omega arith)
  gather_from count buf (packet ∷ packets) e =
      elim (Bool-cases ((length packet == size) && ltb (length buf / size) limit)) [
        | inr f ↦ rw f ([], sym (append-nil buf), refl, tt, omega arith)
        | inl t ↦
            let same : length packet ≡ size = ground arith in
            let room : length buf / size < limit = ground arith in
            let quotient : length buf / size ≡ count =
              ap (λ n. n / size) e ∙ mul-div_cancel count positive in
            let grown : length (buf ++ packet) ≡ (count + 1) * size =
              omega (arith, length-append buf packet) in
            let (taken, joined, parted, sizes, most) =
              gather_from (count + 1) (buf ++ packet) packets grown in
            rw t (
              packet ∷ taken,
              joined ∙ append_assoc buf packet (concat taken),
              ap (λ ps. packet ∷ ps) parted,
              (same, sizes),
              omega arith,
            )
      ]

take-append : (packet rest : List ℕ) → take (length packet) (packet ++ rest) ≡ packet
take-append [] rest = refl
take-append (b ∷ packet) rest = ap (λ bs. b ∷ bs) (take-append packet rest)

drop-append : (packet rest : List ℕ) → drop (length packet) (packet ++ rest) ≡ rest
drop-append [] rest = refl
drop-append (b ∷ packet) rest = drop-append packet rest

-- A buffer is cut where its packets were joined.
chunks_fuel-concat :
    (size fuel : ℕ) (packets : List (List ℕ))
    → 0 < size
    → All (HasSize size) packets
    → length (concat packets) ≤ fuel
    → chunks_fuel fuel size (concat packets) ≡ packets
chunks_fuel-concat size zero [] p h k = refl
chunks_fuel-concat size (suc fuel) [] p h k = refl
chunks_fuel-concat size fuel ([] ∷ packets) p (e, hs) k = absurd (omega arith)
chunks_fuel-concat size zero ((b ∷ packet) ∷ packets) p (e, hs) k =
    absurd (omega (arith, length-append (b ∷ packet) (concat packets)))
chunks_fuel-concat size (suc fuel) ((b ∷ packet) ∷ packets) p (e, hs) k =
    let all = (b ∷ packet) ++ concat packets in
    let first : take size all ≡ b ∷ packet =
      subst (λ n. take n all ≡ b ∷ packet) e (take-append (b ∷ packet) (concat packets)) in
    let others : drop size all ≡ concat packets =
      subst (λ n. drop n all ≡ concat packets) e (drop-append (b ∷ packet) (concat packets)) in
    let later =
      chunks_fuel-concat size fuel packets p hs
        (omega (arith, length-append (b ∷ packet) (concat packets))) in
    rw (first, others, later) refl

pub chunks-concat :
    (size : ℕ) (packets : List (List ℕ))
    → 0 < size
    → All (HasSize size) packets
    → chunks size (concat packets) ≡ packets
unfolding chunks
chunks-concat size packets p h =
    chunks_fuel-concat size (length (concat packets)) packets p h (omega arith)

pub gather-IsRun :
    (size limit : ℕ) (packets : List (List ℕ))
    → 0 < size
    → IsRun size limit packets (gather size limit [] packets)
gather-IsRun size limit packets p =
    let (taken, joined, parted, sizes, most) =
      gather_from size limit p 0 [] packets (omega arith) in
    record {
      taken = taken;
      joined = joined;
      split = parted;
      uniform = sizes;
      bounded = omega arith;
    }

gather-le :
    (size limit : ℕ) (buf : List ℕ) (packets : List (List ℕ))
    → length (gather size limit buf packets).1 ≤ length packets
unfolding gather
gather-le size limit buf [] = omega arith
gather-le size limit buf (packet ∷ packets) =
    let h = gather-le size limit (buf ++ packet) packets in
    elim (Bool-cases ((length packet == size) && ltb (length buf / size) limit)) [
      | inl t ↦ rw t (omega arith)
      | inr f ↦ rw f (omega arith)
    ]

-- A round takes the first packet.
pub gather-shorter :
    (size limit : ℕ) (packet : List ℕ) (packets : List (List ℕ))
    → length packet ≡ size
    → 0 < limit
    → 0 < size
    → length (gather size limit [] (packet ∷ packets)).1 ≤ length packets
unfolding gather
gather-shorter size limit packet packets e h p =
    let none_yet : 0 / size ≡ 0 = omega arith in
    let same : (length packet == size) ≡ true = (==_iff (length packet) size).1 e in
    let room : ltb (0 / size) limit ≡ true = ground arith in
    rw (same, room) (gather-le size limit packet packets)
