-- ===== src/Datagram/Integers.antt =====
-- The quarter stream id at the front of a datagram, written and read.
use h3llo.Base.{
  ℕ, suc, ◌+◌, ◌/◌, ◌<◌, ◌≤◌, ltb, List, [], ◌∷◌, ◌++◌, none, some, false, if◌then◌else◌, length,
  take, drop, get_elem?, length-append, ◌≡◌, refl, sym, ap, ◌∙◌, subst, arith, Bool-cases,
  Option-cases, inl, inr,
}
use h3llo.Datagram.{
  Octets, zeros, overwrite, encode_qsi, with_len, decode_qsi, new_codec, qsi_bytes,
}

-- What octets documents of the integer `q`: it is written in its length, reads back whatever
-- follows, and bytes of this length that read as `q` are those that are written.
pub record IsVarint (octets : Octets) (q : ℕ) : Type 0 where
  pub written : length (octets.put_varint q) ≡ octets.varint_len q
  pub fits : (0 < octets.varint_len q) × (octets.varint_len q ≤ 8)
  pub parsed :
      (b : ℕ) (bs rest : List ℕ)
      → b ∷ bs ≡ octets.put_varint q ++ rest
      → octets.varint_parse_len b ≡ octets.varint_len q
  pub read : (rest : List ℕ) → octets.get_varint (octets.put_varint q ++ rest) ≡ some q
  pub canonical :
      (b : ℕ) (bs : List ℕ)
      → octets.varint_parse_len b ≡ octets.varint_len q
      → octets.get_varint (b ∷ bs) ≡ some q
      → (rest : List ℕ) × (b ∷ bs ≡ octets.put_varint q ++ rest)

take-overwrite : (w buf : List ℕ) → length w ≤ length buf → take (length w) (overwrite w buf) ≡ w
take-overwrite [] buf h = refl
take-overwrite (b ∷ w) [] h = elim h [ ]
take-overwrite (b ∷ w) (c ∷ buf) h = ap (λ bs. b ∷ bs) (take-overwrite w buf (omega arith))

pub drop-append_one :
    (w : List ℕ) (c : ℕ) (rest : List ℕ) → drop (length w + 1) (w ++ c ∷ rest) ≡ rest
drop-append_one w c rest =
    let next : suc (length w) ≡ length w + 1 = omega arith in
    subst (λ n. drop n (w ++ c ∷ rest) ≡ rest) next (one w)
  where
    one : (v : List ℕ) → drop (suc (length v)) (v ++ c ∷ rest) ≡ rest
    one [] = refl
    one (b ∷ v) = one v

pub get_elem?-append :
    (w : List ℕ) (c : ℕ) (rest : List ℕ) → get_elem? (w ++ c ∷ rest) (length w) ≡ some c
get_elem?-append [] c rest = refl
get_elem?-append (b ∷ w) c rest = get_elem?-append w c rest

module _ (octets : Octets) where
  pub qsi_bytes-new_codec :
      (stream_id : ℕ)
      → IsVarint octets (stream_id / 4)
      → qsi_bytes octets (new_codec octets stream_id) ≡ octets.put_varint (stream_id / 4)
  unfolding qsi_bytes new_codec encode_qsi
  qsi_bytes-new_codec stream_id v =
      subst
        (λ n.
          take n (overwrite (octets.put_varint (stream_id / 4)) (zeros 8))
          ≡ octets.put_varint (stream_id / 4))
        v.written
        (take-overwrite (octets.put_varint (stream_id / 4)) (zeros 8)
          (let w = v.written in let f = v.fits.1 in omega arith))

  module _ (q : ℕ) (v : IsVarint octets q) where
    pub decode_qsi-written :
        (xs rest : List ℕ)
        → xs ≡ octets.put_varint q ++ rest
        → decode_qsi octets xs ≡ some (q, octets.varint_len q)
    unfolding decode_qsi
    decode_qsi-written [] rest e =
        let len : 0 ≡ length (octets.put_varint q) + length rest =
          ap length e ∙ length-append (octets.put_varint q) rest in
        let w = v.written in let f = v.fits.0 in absurd (omega arith)
    decode_qsi-written (b ∷ bs) rest e =
        let parse = v.parsed b bs rest e in
        let len : suc (length bs) ≡ length (octets.put_varint q) + length rest =
          ap length e ∙ length-append (octets.put_varint q) rest in
        let w = v.written in
        let long : ltb (suc (length bs)) (octets.varint_len q) ≡ false = ground arith in
        rw (parse, long, ap octets.get_varint e ∙ v.read rest) refl

    pub decode_qsi-canonical :
        (xs : List ℕ)
        → decode_qsi octets xs ≡ some (q, octets.varint_len q)
        → (rest : List ℕ) × (xs ≡ octets.put_varint q ++ rest)
    unfolding decode_qsi
    decode_qsi-canonical [] h = cc
    decode_qsi-canonical (b ∷ bs) h =
        elim (Bool-cases (ltb (suc (length bs)) (octets.varint_parse_len b))) [
          | inl t ↦
              let short : none ≡ some (q, octets.varint_len q) =
                sym (
                  ap
                    (λ c.
                      if c
                      then none
                      else with_len octets (octets.varint_parse_len b) (octets.get_varint (b ∷ bs)))
                    t)
                ∙ h in
              cc
          | inr f ↦
              let full : with_len octets (octets.varint_parse_len b) (octets.get_varint (b ∷ bs))
                  ≡ some (q, octets.varint_len q) =
                sym (
                  ap
                    (λ c.
                      if c
                      then none
                      else with_len octets (octets.varint_parse_len b) (octets.get_varint (b ∷ bs)))
                    f)
                ∙ h in
              elim (Option-cases (octets.get_varint (b ∷ bs))) [
                | inl none_read ↦
                    let clash : none ≡ some (q, octets.varint_len q) =
                      sym (ap (with_len octets (octets.varint_parse_len b)) none_read) ∙ full in
                    cc
                | inr (r, known) ↦
                    let both : some (r, octets.varint_parse_len b) ≡ some (q, octets.varint_len q) =
                      sym (ap (with_len octets (octets.varint_parse_len b)) known) ∙ full in
                    let value : r ≡ q = cc in
                    let size : octets.varint_parse_len b ≡ octets.varint_len q = cc in
                    v.canonical b bs size (known ∙ ap some value)
              ]
        ]
