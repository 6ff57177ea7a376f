-- ===== src/Tun/Written.antt =====
-- What the device is given.
use h3llo.Base.{
  ℕ, ◌+◌, ◌≤◌, ltb, Bool, true, false, Option, none, some, List, [], ◌∷◌, ◌++◌, length, map, All,
  ◌≡◌, sym, subst, arith, Bool-cases, Option-cases, inl, inr,
}
use h3llo.Metrics.{Counters, record_drop}
use h3llo.Udp.{IoError}
use h3llo.Tun.{
  virtio_net_hdr_len, prepend_hdr, Device, send_each, sent_multiple, write_batch, admit, TunTx,
  TunTxEvent, batch, input_closed, stop, tick, TunStatus, running, finished, failed, written_batch,
  write_admitted, tun_tx_step, tun_tx_goes, tun_tx_run,
}

-- The largest packet that the device may be given, with the header that offloading adds.
abbrev pub limit : Bool → ℕ → ℕ
limit true mtu = virtio_net_hdr_len + mtu
limit false mtu = mtu

abbrev pub IsWithin : ℕ → List ℕ → Type 0
IsWithin most packet = length packet ≤ most

All-append :
    (most : ℕ) (xs ys : List (List ℕ))
    → All (IsWithin most) xs
    → All (IsWithin most) ys
    → All (IsWithin most) (xs ++ ys)
All-append most [] ys h k = k
All-append most (x ∷ xs) ys (p, h) k = (p, All-append most xs ys h k)

All-prepend_hdr :
    (mtu : ℕ) (xs : List (List ℕ))
    → All (IsWithin mtu) xs
    → All (IsWithin (virtio_net_hdr_len + mtu)) (map prepend_hdr xs)
unfolding prepend_hdr
All-prepend_hdr mtu [] h = tt
All-prepend_hdr mtu (x ∷ xs) (p, h) = (omega arith, All-prepend_hdr mtu xs h)

-- What is admitted fits, and every packet is admitted or counted as a drop.
admit-IsWithin :
    (mtu : ℕ) (packets : List (List ℕ)) (c : Counters) → All (IsWithin mtu) (admit mtu packets c).0
unfolding admit
admit-IsWithin mtu [] c = tt
admit-IsWithin mtu (packet ∷ packets) c = elim (Bool-cases (ltb mtu (length packet))) [
  | inl t ↦ rw t (admit-IsWithin mtu packets (record_drop c _ 1 (length packet)))
  | inr f ↦ rw f (ground arith, admit-IsWithin mtu packets c)
]

send_each-IsWithin :
    (device : Device) (most : ℕ) (packets given : List (List ℕ))
    → All (IsWithin most) packets
    → All (IsWithin most) given
    → All (IsWithin most) (send_each device given packets).0
unfolding send_each
send_each-IsWithin device most [] given h k = k
send_each-IsWithin device most (packet ∷ packets) given (p, h) k =
    elim (Option-cases (device.send given packet)) [
      | inl e ↦
          rw (send_each, e)
            (send_each-IsWithin device most packets (given ++ packet ∷ []) h
              (All-append most given (packet ∷ []) k (p, tt)))
      | inr (error, e) ↦ rw (send_each, e) (All-append most given (packet ∷ []) k (p, tt))
    ]

sent_multiple-IsWithin :
    (device : Device) (most : ℕ) (packets given : List (List ℕ)) (answer : Option IoError)
    → All (IsWithin most) packets
    → All (IsWithin most) given
    → All (IsWithin most) (sent_multiple device given packets answer).0
sent_multiple-IsWithin device most packets given answer h k = All-append most given packets k h

write_batch-IsWithin :
    (device : Device) (offload : Bool) (mtu : ℕ) (packets given : List (List ℕ))
    → All (IsWithin mtu) packets
    → All (IsWithin (limit offload mtu)) given
    → All (IsWithin (limit offload mtu)) (write_batch device offload given packets).0
unfolding write_batch
write_batch-IsWithin device true mtu packets given h k =
    let framed = map prepend_hdr packets in
    sent_multiple-IsWithin device (virtio_net_hdr_len + mtu) framed given
      (device.send_multiple given framed) (All-prepend_hdr mtu packets h) k
write_batch-IsWithin device false mtu packets given h k =
    send_each-IsWithin device mtu packets given h k

-- The writer for a device of this size has given it what fits.
abbrev pub IsFit : Bool → ℕ → TunTx → Type 0
IsFit offload mtu t =
    (t.offload ≡ offload) × (t.mtu ≡ mtu) × All (IsWithin (limit offload mtu)) t.given

written_batch-IsFit :
    (offload : Bool) (mtu : ℕ) (packets : List (List ℕ)) (out : List (List ℕ) × Option IoError)
    (t : TunTx)
    → IsFit offload mtu t
    → All (IsWithin (limit offload mtu)) out.0
    → IsFit offload mtu (written_batch packets out t)
written_batch-IsFit offload mtu packets (given, none) t (a, b, h) k = (a, b, k)
written_batch-IsFit offload mtu packets (given, some error) t (a, b, h) k = (a, b, k)

write_admitted-IsFit :
    (device : Device) (offload : Bool) (mtu : ℕ) (out : List (List ℕ) × Counters) (t : TunTx)
    → IsFit offload mtu t
    → All (IsWithin mtu) out.0
    → IsFit offload mtu (write_admitted device out t)
write_admitted-IsFit device offload mtu ([], c) t h k = h
write_admitted-IsFit device offload mtu (packet ∷ packets, c) t (a, b, h) k =
    written_batch-IsFit offload mtu (packet ∷ packets)
      (write_batch device t.offload t.given (packet ∷ packets)) (record t { counters = c })
      (a, b, h)
      (subst
        (λ o.
          All (IsWithin (limit offload mtu)) (write_batch device o t.given (packet ∷ packets)).0)
        (sym a) (write_batch-IsWithin device offload mtu (packet ∷ packets) t.given k h))

tun_tx_step-IsFit :
    (device : Device) (offload : Bool) (mtu : ℕ) (event : TunTxEvent) (t : TunTx)
    → IsFit offload mtu t
    → IsFit offload mtu (tun_tx_step device event t)
unfolding tun_tx_step
tun_tx_step-IsFit device offload mtu (batch packets) t (a, b, h) =
    write_admitted-IsFit device offload mtu (admit t.mtu packets t.counters) t (a, b, h)
      (subst (λ m. All (IsWithin m) (admit t.mtu packets t.counters).0) b
        (admit-IsWithin t.mtu packets t.counters))
tun_tx_step-IsFit device offload mtu input_closed t h = h
tun_tx_step-IsFit device offload mtu stop t h = h
tun_tx_step-IsFit device offload mtu (tick delivered) t h = h

tun_tx_goes-IsFit :
    (offload : Bool) (mtu : ℕ) (status : TunStatus) (next : TunTx → TunTx) (t : TunTx)
    → IsFit offload mtu t
    → IsFit offload mtu (next t)
    → IsFit offload mtu (tun_tx_goes status next t)
tun_tx_goes-IsFit offload mtu running next t h k = k
tun_tx_goes-IsFit offload mtu finished next t h k = h
tun_tx_goes-IsFit offload mtu (failed error) next t h k = h

-- Whatever comes, no packet that the writer gives to its device is larger than the device's MTU, not
-- counting the header of 10 octets that it adds to each when offloading is on; whether the device then
-- coalesces several of them into one write is left open.
pub tun_tx_run-IsFit :
    (device : Device) (offload : Bool) (mtu : ℕ) (events : List TunTxEvent) (t : TunTx)
    → IsFit offload mtu t
    → IsFit offload mtu (tun_tx_run device events t)
unfolding tun_tx_run
tun_tx_run-IsFit device offload mtu [] t h = h
tun_tx_run-IsFit device offload mtu (event ∷ events) t h =
    tun_tx_goes-IsFit offload mtu t.status
      (λ t. tun_tx_run device events (tun_tx_step device event t)) t h
      (tun_tx_run-IsFit device offload mtu events (tun_tx_step device event t)
        (tun_tx_step-IsFit device offload mtu event t h))
