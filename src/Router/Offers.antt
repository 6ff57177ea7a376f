-- ===== src/Router/Offers.antt =====
-- The packets that a trace of sends offers to a channel, and those that are due to it.
use h3llo.Base.{
  ℕ, suc, ◌≡◌, refl, sym, ap, ◌∙◌, List, [], ◌∷◌, ◌++◌, Option, none, some, true, false,
  if◌then◌else◌, arith, Bool-cases, inl, inr,
}
use h3llo.Metrics.{Counters}
use mathlib.Core.Path.{fun_ext}
use mathlib.Core.List.{append_assoc, append-nil}
use h3llo.Packet.{decrement_ttl}
use h3llo.Channel.{Channels, Sent}
use h3llo.Router.{
  RouterState, Aged, push_aged, age_group, send_unless_empty, send_batch, send_expired,
  forward_aged,
}
use h3llo.Router.Fate.{Fate, invalid, unroutable, deliver, expire, aged_fate}

abbrev pub no_aged : Counters → Aged
no_aged counters = record { counters = counters; forward = []; expired = [] }

module _ {Tx : Type 0} (channels : Channels Tx) (c : Tx) where
  -- The packets offered to a channel by a trace, in order.
  abbrev pub offered : List (Sent Tx) → List (List ℕ)
  offered [] = []
  offered (s ∷ sends) = (if channels.same_channel s.channel c then s.batch else []) ++ offered sends

  offered-append : (xs ys : List (Sent Tx)) → offered (xs ++ ys) ≡ offered xs ++ offered ys
  offered-append [] ys = refl
  offered-append (s ∷ xs) ys = rw (offered-append xs ys, append_assoc) refl

  -- What the fate of a packet, or of several, adds to it.
  abbrev pub due : Tx → Fate Tx → List (List ℕ)
  due input_tx invalid = []
  due input_tx unroutable = []
  due input_tx (deliver tx packet) = if channels.same_channel tx c then packet ∷ [] else []
  due input_tx (expire packet) = if channels.same_channel input_tx c then packet ∷ [] else []

  abbrev pub all_due : Tx → (List ℕ → Fate Tx) → List (List ℕ) → List (List ℕ)
  all_due input_tx f [] = []
  all_due input_tx f (packet ∷ packets) = due input_tx (f packet) ++ all_due input_tx f packets

  pub all_due-append :
      (input_tx : Tx) (f : List ℕ → Fate Tx) (xs ys : List (List ℕ))
      → all_due input_tx f (xs ++ ys) ≡ all_due input_tx f xs ++ all_due input_tx f ys
  all_due-append input_tx f [] ys = refl
  all_due-append input_tx f (x ∷ xs) ys = rw (all_due-append input_tx f xs ys, append_assoc) refl

  pub all_due_unroutable :
      (input_tx : Tx) (xs : List (List ℕ)) → all_due input_tx (λ p. unroutable) xs ≡ []
  all_due_unroutable input_tx [] = refl
  all_due_unroutable input_tx (x ∷ xs) = all_due_unroutable input_tx xs

  pub all_due_deliver :
      (input_tx tx : Tx) (xs : List (List ℕ))
      → all_due input_tx (λ p. deliver tx p) xs ≡ (if channels.same_channel tx c then xs else [])
  all_due_deliver input_tx tx [] = ground arith
  all_due_deliver input_tx tx (x ∷ xs) = ground (arith, all_due_deliver input_tx tx xs)

  -- What ageing a group leaves for the two channels.
  abbrev pub pending : Tx → Tx → Aged → List (List ℕ)
  pending tx input_tx a =
      (if channels.same_channel tx c then a.forward else [])
      ++ (if channels.same_channel input_tx c then a.expired else [])

  -- Two channels that differ are not both this one.
  not_both :
      (tx input_tx : Tx)
      → channels.same_channel tx input_tx ≡ false
      → channels.same_channel tx c ≡ true
      → channels.same_channel input_tx c ≡ false
  not_both tx input_tx other here = elim (Bool-cases (channels.same_channel input_tx c)) [
    | inl there ↦
        let same = (channels.same_channel_iff tx input_tx).1 (
          (channels.same_channel_iff tx c).0 here
          ∙ sym ((channels.same_channel_iff input_tx c).0 there)) in
        cc
    | inr elsewhere ↦ elsewhere
  ]

  due_aged :
      (tx input_tx : Tx) (old : Option ℕ) (packet : List ℕ) (a : Aged)
      → channels.same_channel tx input_tx ≡ false
      → pending tx input_tx (push_aged old packet a)
        ≡ pending tx input_tx a ++ due input_tx (aged_fate tx old packet)
  unfolding push_aged
  due_aged tx input_tx none packet a other = sym (append-nil _)
  due_aged tx input_tx (some (suc (suc n))) packet a other =
      elim (Bool-cases (channels.same_channel tx c)) [
        | inl here ↦ rw (here, not_both tx input_tx other here) (simp append-nil)
        | inr elsewhere ↦ rw elsewhere (simp append-nil)
      ]
  due_aged tx input_tx old packet a other = elim (Bool-cases (channels.same_channel input_tx c)) [
    | inl here ↦ rw here (simp append_assoc)
    | inr elsewhere ↦ rw elsewhere (simp append-nil)
  ]

  pub age_group-pending :
      (tx input_tx : Tx) (group : List (List ℕ)) (a : Aged)
      → channels.same_channel tx input_tx ≡ false
      → pending tx input_tx (age_group a group)
        ≡ pending tx input_tx a
          ++ all_due input_tx (λ p. aged_fate tx (decrement_ttl p).0 (decrement_ttl p).1) group
  unfolding age_group
  age_group-pending tx input_tx [] a other = sym (append-nil _)
  age_group-pending tx input_tx (packet ∷ group) a other =
      let old = (decrement_ttl packet).0 in
      let packet' = (decrement_ttl packet).1 in
      age_group-pending tx input_tx group (push_aged old packet' a) other
      ∙ rw (due_aged tx input_tx old packet' a other, append_assoc) refl

  -- What a send adds to the offers of this channel.
  abbrev pub share : Tx → List (List ℕ) → List (List ℕ)
  share tx batch = if channels.same_channel tx c then batch else []

  pub send_batch-offered :
      (tx : Tx) (batch : List (List ℕ)) (st : RouterState Tx)
      → offered (send_batch channels tx batch st).sends ≡ offered st.sends ++ share tx batch
  unfolding send_batch
  send_batch-offered tx batch st = rw offered-append (rw append-nil refl)

  send_expired-offered :
      (tx : Tx) (batch : List (List ℕ)) (st : RouterState Tx)
      → offered (send_expired channels tx batch st).sends ≡ offered st.sends ++ share tx batch
  unfolding send_expired
  send_expired-offered tx batch st = rw offered-append (rw append-nil refl)

  send_unless_empty-offered :
      (send : List (List ℕ) → RouterState Tx → RouterState Tx) (tx : Tx)
      → ((b : List (List ℕ)) (st : RouterState Tx)
          → offered (send b st).sends ≡ offered st.sends ++ share tx b)
      → (b : List (List ℕ)) (st : RouterState Tx)
      → offered (send_unless_empty send b st).sends ≡ offered st.sends ++ share tx b
  send_unless_empty-offered send tx h [] st = elim (Bool-cases (channels.same_channel tx c)) [
    | inl here ↦ rw here (sym (append-nil _))
    | inr elsewhere ↦ rw elsewhere (sym (append-nil _))
  ]
  send_unless_empty-offered send tx h (packet ∷ b) st = h (packet ∷ b) st

  pub forward_aged-offered :
      (tx input_tx : Tx) (a : Aged) (sends : List (Sent Tx))
      → offered (forward_aged channels tx input_tx a sends).sends
        ≡ offered sends ++ pending tx input_tx a
  unfolding forward_aged
  forward_aged-offered tx input_tx a sends =
      let first =
        send_unless_empty (send_batch channels tx) a.forward
          (record { counters = a.counters; sends = sends }) in
      send_unless_empty-offered (send_expired channels input_tx) input_tx
        (send_expired-offered input_tx) a.expired first
      ∙ rw
          (
            send_unless_empty-offered (send_batch channels tx) tx (send_batch-offered tx) a.forward
                (record { counters = a.counters; sends = sends }),
            append_assoc,
          )
          refl

  pub no_pending :
      (tx input_tx : Tx) (counters : Counters) → pending tx input_tx (no_aged counters) ≡ []
  no_pending tx input_tx counters = ground arith

  pub all_due-ext :
      (input_tx : Tx) (f g : List ℕ → Fate Tx) (xs : List (List ℕ))
      → ((p : List ℕ) → f p ≡ g p)
      → all_due input_tx f xs ≡ all_due input_tx g xs
  all_due-ext input_tx f g xs h = ap (λ k. all_due input_tx k xs) (fun_ext h)
