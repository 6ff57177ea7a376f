-- ===== src/Router/Counts.antt =====
-- The drops that the router counts while it counts a group down and sends it.
use h3llo.Base.{
  ℕ, suc, ◌+◌, ◌≤◌, ◌≡◌, ◌≢◌, refl, sym, ap, ◌∙◌, List, [], ◌∷◌, ◌++◌, Option, none, some, Bool,
  true, false, if◌then◌else◌, length, arith, length-append, u64_max, saturating_add,
}
use mathlib.Core.Path.{fun_ext}
use mathlib.Core.Logic.{ite, if_neg}
use h3llo.Packet.{decrement_ttl}
use h3llo.Metrics.{
  DropReason, DropReason-discrete, invalid_ip_version, no_route, ttl_expired, channel_closed,
  PktCounters, Counters, record_drop, record_wait,
}
use h3llo.Channel.{
  batch_bytes, Channels, Sent, Answer, accepted, record_events, send_with_backpressure,
}
use h3llo.Channel.Laws.{send_and_record-reason}
use h3llo.Router.{
  RouterState, Aged, push_aged, age_group, send_unless_empty, send_batch, send_expired,
  forward_aged,
}
use h3llo.Router.Fate.{Fate, invalid, unroutable, deliver, expire, aged_fate}

module _ (r : DropReason) where
  -- The packets counted under `r`.
  abbrev pub counted : Counters → ℕ
  counted c = (c.stats.drop_reasons r).packets

  abbrev pub only : DropReason → ℕ → ℕ
  only s n = ite (DropReason-discrete r s) n 0

  only_add : (s : DropReason) (m n : ℕ) → only s (m + n) ≡ only s m + only s n
  only_add s m n = ground arith

  abbrev pub weight : {Tx : Type 0} → Fate Tx → ℕ
  weight invalid = only invalid_ip_version 1
  weight unroutable = only no_route 1
  weight (deliver tx packet) = 0
  weight (expire packet) = only ttl_expired 1

  abbrev pub tally : {Tx : Type 0} → (List ℕ → Fate Tx) → List (List ℕ) → ℕ
  tally f [] = 0
  tally f (packet ∷ packets) = weight (f packet) + tally f packets

  pub counted-record_drop :
      (c : Counters) (s : DropReason) (n bytes : ℕ)
      → counted c ≤ u64_max
      → counted (record_drop c s n bytes) ≡ saturating_add (counted c) (only s n)
  unfolding record_drop
  counted-record_drop c s n bytes h = ground arith

  -- What is counted, with what is about to be counted as expired.
  abbrev pub potential : Aged → ℕ
  potential a = saturating_add (counted a.counters) (only ttl_expired (length a.expired))

  pub only_zero : (s : DropReason) → only s 0 ≡ 0
  only_zero s = ground arith

  one_more :
      (a : Aged) (packet : List ℕ)
      → only ttl_expired (length (a.expired ++ packet ∷ []))
        ≡ only ttl_expired (length a.expired) + only ttl_expired 1
  one_more a packet =
      ap (only ttl_expired) (length-append a.expired (packet ∷ []))
      ∙ only_add ttl_expired (length a.expired) 1

  push_aged-potential :
      {Tx : Type 0} (tx : Tx) (old : Option ℕ) (packet : List ℕ) (a : Aged)
      → counted a.counters ≤ u64_max
      → (potential (push_aged old packet a)
          ≡ saturating_add (potential a) (weight (aged_fate tx old packet)))
        × (counted (push_aged old packet a).counters ≤ u64_max)
  unfolding push_aged
  push_aged-potential tx none packet a h = (
    omega (arith, counted-record_drop a.counters invalid_ip_version 1 (length packet)),
    omega (arith, counted-record_drop a.counters invalid_ip_version 1 (length packet)),
  )
  push_aged-potential tx (some (suc (suc n))) packet a h = (omega arith, h)
  push_aged-potential tx old packet a h = (omega (arith, one_more a packet), h)

  pub age_group-potential :
      {Tx : Type 0} (tx : Tx) (group : List (List ℕ)) (a : Aged)
      → counted a.counters ≤ u64_max
      → (potential (age_group a group)
          ≡ saturating_add
              (potential a)
              (tally (λ p. aged_fate tx (decrement_ttl p).0 (decrement_ttl p).1) group))
        × (counted (age_group a group).counters ≤ u64_max)
  unfolding age_group
  age_group-potential tx [] a h = (omega arith, h)
  age_group-potential tx (packet ∷ group) a h =
      let old = (decrement_ttl packet).0 in
      let packet' = (decrement_ttl packet).1 in
      let (step, small) = push_aged-potential tx old packet' a h in
      let (rest, bound) = age_group-potential tx group (push_aged old packet' a) small in
      (omega arith, bound)

  -- Any drop but one for a closed channel.
  module _ (other : r ≢ channel_closed) where
    pub counted-send_batch :
        {Tx : Type 0} (channels : Channels Tx) (tx : Tx) (batch : List (List ℕ))
        (st : RouterState Tx)
        → counted (send_batch channels tx batch st).counters ≡ counted st.counters
    unfolding send_batch
    counted-send_batch channels tx batch st =
        ap (λ (c : PktCounters). c.packets) (send_and_record-reason st.counters _ _ _ r other)

    counted-record_events :
        (answer : Answer) (c : Counters)
        → counted (record_events c (send_with_backpressure answer).0) ≡ counted c
    unfolding record_events send_with_backpressure record_wait
    counted-record_events accepted c = refl
    counted-record_events answer c = refl

    counted_refused :
        (b : Bool) (c : Counters) (n bytes : ℕ)
        → counted (if b then c else record_drop c channel_closed n bytes) ≡ counted c
    unfolding record_drop
    counted_refused true c n bytes = refl
    counted_refused false c n bytes =
        ap (λ (c : PktCounters). c.packets)
          (if_neg (DropReason-discrete r channel_closed) other _ _)

    counted-send_expired :
        {Tx : Type 0} (channels : Channels Tx) (tx : Tx) (batch : List (List ℕ))
        (st : RouterState Tx)
        → counted st.counters ≤ u64_max
        → counted (send_expired channels tx batch st).counters
          ≡ saturating_add (counted st.counters) (only ttl_expired (length batch))
    unfolding send_expired
    counted-send_expired channels tx batch st h =
        let answer = channels.answer st.sends tx batch in
        let dropped = record_drop st.counters ttl_expired (length batch) (batch_bytes batch) in
        counted_refused (send_with_backpressure answer).1
          (record_events dropped (send_with_backpressure answer).0) (length batch)
          (batch_bytes batch)
        ∙ counted-record_events answer dropped
        ∙ counted-record_drop st.counters ttl_expired (length batch) (batch_bytes batch) h

    counted_unless_empty :
        {Tx : Type 0} (channels : Channels Tx) (tx : Tx) (batch : List (List ℕ))
        (st : RouterState Tx)
        → counted (send_unless_empty (send_batch channels tx) batch st).counters
          ≡ counted st.counters
    counted_unless_empty channels tx [] st = refl
    counted_unless_empty channels tx (packet ∷ batch) st =
        counted-send_batch channels tx (packet ∷ batch) st

    expired_unless_empty :
        {Tx : Type 0} (channels : Channels Tx) (tx : Tx) (batch : List (List ℕ))
        (st : RouterState Tx)
        → counted st.counters ≤ u64_max
        → counted (send_unless_empty (send_expired channels tx) batch st).counters
          ≡ saturating_add (counted st.counters) (only ttl_expired (length batch))
    expired_unless_empty channels tx [] st h = ground arith
    expired_unless_empty channels tx (packet ∷ batch) st h =
        counted-send_expired channels tx (packet ∷ batch) st h

    pub counted-forward_aged :
        {Tx : Type 0} (channels : Channels Tx) (tx input_tx : Tx) (a : Aged)
        (sends : List (Sent Tx))
        → counted a.counters ≤ u64_max
        → counted (forward_aged channels tx input_tx a sends).counters ≡ potential a
    unfolding forward_aged
    counted-forward_aged {Tx} channels tx input_tx a sends h =
        let start : RouterState Tx = record { counters = a.counters; sends = sends } in
        let sent = counted_unless_empty channels tx a.forward start in
        expired_unless_empty channels input_tx a.expired
          (send_unless_empty (send_batch channels tx) a.forward start) (omega (arith, sent))
        ∙ ap (λ (n : ℕ). saturating_add n (only ttl_expired (length a.expired))) sent

  pub tally_deliver :
      {Tx : Type 0} (tx : Tx) (xs : List (List ℕ)) → tally (λ p. deliver tx p) xs ≡ 0
  tally_deliver tx [] = refl
  tally_deliver tx (x ∷ xs) = omega (arith, tally_deliver tx xs)

  pub tally_unroutable :
      (Tx : Type 0) (xs : List (List ℕ))
      → tally {Tx = Tx} (λ p. unroutable) xs ≡ only no_route (length xs)
  tally_unroutable Tx [] = sym (only_zero no_route)
  tally_unroutable Tx (x ∷ xs) =
      let grown : 1 + length xs ≡ suc (length xs) = omega arith in
      omega
        (arith, tally_unroutable Tx xs, only_add no_route 1 (length xs), ap (only no_route) grown)

  pub tally-ext :
      {Tx : Type 0} (f g : List ℕ → Fate Tx) (xs : List (List ℕ))
      → ((p : List ℕ) → f p ≡ g p)
      → tally f xs ≡ tally g xs
  tally-ext f g xs h = ap (λ k. tally k xs) (fun_ext h)

  pub tally-append :
      {Tx : Type 0} (f : List ℕ → Fate Tx) (xs ys : List (List ℕ))
      → tally f (xs ++ ys) ≡ tally f xs + tally f ys
  tally-append f [] ys = omega arith
  tally-append f (x ∷ xs) ys = omega (arith, tally-append f xs ys)
