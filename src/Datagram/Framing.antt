-- ===== src/Datagram/Framing.antt =====
-- Which datagrams `strip` accepts, and what it makes of a packet that `prepend` framed.
use h3llo.Base.{
  ℕ, suc, ◌+◌, ◌/◌, ◌≤◌, ◌==◌, ==_iff, ltb, List, [], ◌∷◌, ◌++◌, Option, none, some, Bool, true,
  false, not, ◌||◌, if◌then◌else◌, length, drop, get_elem?, length-append, ◌≡◌, ◌≢◌, ◌↔◌, refl, sym,
  ap, ◌∙◌, subst, arith, Bool-cases, inl, inr,
}
use h3llo.Datagram.{
  Octets, PooledBuf, context_id_ip, encode_qsi, decode_qsi, new_codec, qsi_bytes, add_second,
  prepend, strip_context, strip_decoded, strip,
}
use h3llo.Datagram.Integers.{
  IsVarint, drop-append_one, get_elem?-append, qsi_bytes-new_codec, decode_qsi-written,
  decode_qsi-canonical,
}

-- What buffer_pool documents of its buffers.
pub record IsBuffer {Buf : Type 0} (pooled : PooledBuf Buf) : Type 0 where
  pub prefixed :
      (packet : Buf) (bytes : List ℕ)
      → (pooled.add_prefix packet bytes).1 ≡ true
      → pooled.bytes (pooled.add_prefix packet bytes).0 ≡ bytes ++ pooled.bytes packet
  pub popped :
      (packet : Buf) (n : ℕ)
      → n ≤ length (pooled.bytes packet)
      → pooled.bytes (pooled.pop_front packet n) ≡ drop n (pooled.bytes packet)

module _ (octets : Octets) {Buf : Type 0} (pooled : PooledBuf Buf) where
  -- What is made of the bytes behind the integer.
  abbrev verdict : Buf → ℕ → List ℕ → Buf × Bool
  verdict packet n [] = (packet, false)
  verdict packet n (c ∷ []) = (packet, false)
  verdict packet n (c ∷ d ∷ rest) =
      if c == context_id_ip then (pooled.pop_front packet (n + 1), true) else (packet, false)

  strip_context-verdict :
      (packet : Buf) (w rest : List ℕ)
      → pooled.bytes packet ≡ w ++ rest
      → strip_context octets pooled packet (length w) ≡ verdict packet (length w) rest
  strip_context-verdict packet w [] e =
      let len : length (pooled.bytes packet) ≡ length w + 0 = ap length e ∙ length-append w [] in
      let short : ltb (length (pooled.bytes packet)) (length w + 1) ≡ true = ground arith in
      rw short refl
  strip_context-verdict packet w (c ∷ []) e =
      let len : length (pooled.bytes packet) ≡ length w + 1 =
        ap length e ∙ length-append w (c ∷ []) in
      let long : ltb (length (pooled.bytes packet)) (length w + 1) ≡ false = ground arith in
      let whole : (length (pooled.bytes packet) == length w + 1) ≡ true = ground arith in
      let at = ap (λ bs. get_elem? bs (length w)) e ∙ get_elem?-append w c [] in
      rw (long, at, whole)
        (elim (Bool-cases (c == context_id_ip)) [ inl t ↦ rw t refl | inr f ↦ rw f refl ])
  strip_context-verdict packet w (c ∷ d ∷ rest) e =
      let len : length (pooled.bytes packet) ≡ length w + suc (suc (length rest)) =
        ap length e ∙ length-append w (c ∷ d ∷ rest) in
      let long : ltb (length (pooled.bytes packet)) (length w + 1) ≡ false = ground arith in
      let more : (length (pooled.bytes packet) == length w + 1) ≡ false = ground arith in
      let at = ap (λ bs. get_elem? bs (length w)) e ∙ get_elem?-append w c (d ∷ rest) in
      rw (long, at, more)
        (elim (Bool-cases (c == context_id_ip)) [ inl t ↦ rw t refl | inr f ↦ rw f refl ])

  module _ (laws : IsBuffer pooled) where
    verdict_iff :
        (packet : Buf) (w xs rest : List ℕ)
        → pooled.bytes packet ≡ w ++ xs
        → (((verdict packet (length w) xs).1 ≡ true)
            × (pooled.bytes (verdict packet (length w) xs).0 ≡ rest))
          ↔ ((rest ≢ []) × (xs ≡ context_id_ip ∷ rest))
    verdict_iff packet w [] rest e = (λ h. let k = h.0 in ground arith, λ h. let k = h.1 in cc)
    verdict_iff packet w (c ∷ []) rest e = (
      λ h. let k = h.0 in ground arith,
      λ h. let k = h.1 in let none_left : rest ≡ [] = cc in absurd (h.0 none_left),
    )
    verdict_iff packet w (c ∷ d ∷ xs) rest e =
        let len : length (pooled.bytes packet) ≡ length w + suc (suc (length xs)) =
          ap length e ∙ length-append w (c ∷ d ∷ xs) in
        let left : pooled.bytes (pooled.pop_front packet (length w + 1)) ≡ d ∷ xs =
          laws.popped packet (length w + 1) (omega arith)
          ∙ ap (drop (length w + 1)) e
          ∙ drop-append_one w c (d ∷ xs) in
        elim (Bool-cases (c == context_id_ip)) [
          | inl t ↦
              let zeroed : c ≡ context_id_ip = (==_iff c context_id_ip).0 t in
              rw t (
                λ h.
                    let same : rest ≡ d ∷ xs = sym h.1 ∙ left in
                    (
                      λ k. let gone : d ∷ xs ≡ [] = sym same ∙ k in cc,
                      (λ i. zeroed i ∷ sym same i),
                    ),
                λ h. let k = h.1 in let same : d ∷ xs ≡ rest = cc in (refl, left ∙ same),
              )
          | inr f ↦ rw f (
            λ h. let k = h.0 in ground arith,
            λ h.
                let k = h.1 in
                let zeroed : c ≡ context_id_ip = cc in
                let clash : true ≡ false = sym ((==_iff c context_id_ip).1 zeroed) ∙ f in
                ground arith,
          )
        ]

    module _ (stream_id : ℕ) (v : IsVarint octets (stream_id / 4)) where
      strip-written :
          (packet : Buf) (xs : List ℕ)
          → pooled.bytes packet ≡ octets.put_varint (stream_id / 4) ++ xs
          → strip octets pooled (new_codec octets stream_id) packet
            ≡ verdict packet (length (octets.put_varint (stream_id / 4))) xs
      unfolding strip new_codec encode_qsi
      strip-written packet xs e =
          let q = stream_id / 4 in
          let same_q : (q == q) ≡ true = (==_iff q q).1 refl in
          let same_len : (octets.varint_len q == octets.varint_len q) ≡ true =
            (==_iff (octets.varint_len q) (octets.varint_len q)).1 refl in
          rw (decode_qsi-written octets q v (pooled.bytes packet) xs e, same_q, same_len)
            (subst
              (λ n.
                strip_context octets pooled packet n
                ≡ verdict packet (length (octets.put_varint q)) xs)
              v.written (strip_context-verdict packet (octets.put_varint q) xs e))

      strip_decoded-true :
          (packet : Buf) (o : Option (ℕ × ℕ))
          → (strip_decoded octets pooled (new_codec octets stream_id) packet o).1 ≡ true
          → o ≡ some (stream_id / 4, octets.varint_len (stream_id / 4))
      unfolding new_codec encode_qsi
      strip_decoded-true packet none h = ground arith
      strip_decoded-true packet (some (r, n)) h =
          let q = stream_id / 4 in
          elim (Bool-cases (not (r == q) || not (n == octets.varint_len q))) [
            | inl t ↦
                let bad : false ≡ true =
                  sym (
                    ap
                      (λ b. (if b then (packet, false) else strip_context octets pooled packet n).1)
                      t)
                  ∙ h in
                ground arith
            | inr f ↦
                let value : r ≡ q = ground arith in
                let size : n ≡ octets.varint_len q = ground arith in λ i. some (value i, size i)
          ]

      -- If buffers and the integer of the session behave as documented, `strip` accepts exactly the
      -- datagrams that are the quarter stream id of the session, the context id of IP and a packet
      -- that is not empty, in this order, and it leaves the packet.
      pub strip_iff :
          (packet : Buf) (rest : List ℕ)
          → (((strip octets pooled (new_codec octets stream_id) packet).1 ≡ true)
              × (pooled.bytes (strip octets pooled (new_codec octets stream_id) packet).0 ≡ rest))
            ↔ ((rest ≢ [])
                × (pooled.bytes packet
                    ≡ qsi_bytes octets (new_codec octets stream_id) ++ (context_id_ip ∷ rest)))
      unfolding strip
      strip_iff packet rest =
          let w = octets.put_varint (stream_id / 4) in
          let framed = qsi_bytes-new_codec octets stream_id v in
          (
            λ h.
                let decoded =
                  strip_decoded-true packet (decode_qsi octets (pooled.bytes packet)) h.0 in
                let (xs, e) =
                  decode_qsi-canonical octets (stream_id / 4) v (pooled.bytes packet) decoded in
                let s = strip-written packet xs e in
                let r = (verdict_iff packet w xs rest e).0 (
                  sym (ap (λ (p : Buf × Bool). p.1) s) ∙ h.0,
                  sym (ap (λ (p : Buf × Bool). pooled.bytes p.0) s) ∙ h.1,
                ) in
                (
                  r.0,
                  e ∙ ap (λ bs. w ++ bs) r.1 ∙ sym (ap (λ bs. bs ++ (context_id_ip ∷ rest)) framed),
                ),
            λ h.
                let e : pooled.bytes packet ≡ w ++ (context_id_ip ∷ rest) =
                  h.1 ∙ ap (λ bs. bs ++ (context_id_ip ∷ rest)) framed in
                let s = strip-written packet (context_id_ip ∷ rest) e in
                let r = (verdict_iff packet w (context_id_ip ∷ rest) rest e).1 (h.0, refl) in
                (
                  ap (λ (p : Buf × Bool). p.1) s ∙ r.0,
                  ap (λ (p : Buf × Bool). pooled.bytes p.0) s ∙ r.1,
                ),
          )

      prepend-bytes :
          (packet : Buf) (first : Buf × Bool)
          → pooled.add_prefix packet (context_id_ip ∷ []) ≡ first
          → (add_second octets pooled first (qsi_bytes octets (new_codec octets stream_id))).1
            ≡ true
          → pooled.bytes
              (add_second octets pooled first (qsi_bytes octets (new_codec octets stream_id))).0
            ≡ qsi_bytes octets (new_codec octets stream_id) ++ (context_id_ip ∷ pooled.bytes packet)
      prepend-bytes packet (p, false) e h = ground arith
      prepend-bytes packet (p, true) e h =
          laws.prefixed p (qsi_bytes octets (new_codec octets stream_id)) h
          ∙ ap (λ bs. qsi_bytes octets (new_codec octets stream_id) ++ bs)
              (sym (ap (λ (x : Buf × Bool). pooled.bytes x.0) e)
                ∙ laws.prefixed packet (context_id_ip ∷ []) (ap (λ (x : Buf × Bool). x.1) e))

      -- If buffers and the integer of the session behave as documented, a packet that is not empty
      -- and that `prepend` could frame is what `strip` gives back.
      pub strip-prepend :
          (packet : Buf)
          → pooled.bytes packet ≢ []
          → (prepend octets pooled (new_codec octets stream_id) packet).1 ≡ true
          → ((strip octets pooled
                (new_codec octets stream_id)
                (prepend octets pooled (new_codec octets stream_id) packet).0).1
              ≡ true)
            × (pooled.bytes
                  (strip octets pooled
                    (new_codec octets stream_id)
                    (prepend octets pooled (new_codec octets stream_id) packet).0).0
                ≡ pooled.bytes packet)
      unfolding prepend
      strip-prepend packet full h =
          (strip_iff (prepend octets pooled (new_codec octets stream_id) packet).0
              (pooled.bytes packet)).1
            (full, prepend-bytes packet (pooled.add_prefix packet (context_id_ip ∷ [])) refl h)
