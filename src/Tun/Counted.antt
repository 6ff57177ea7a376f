-- ===== src/Tun/Counted.antt =====
-- How the writer counts packets.
use h3llo.Base.{
  ℕ, ◌+◌, ◌≤◌, ltb, Option, none, some, List, [], ◌∷◌, length, ◌≡◌, refl, ap, arith, u64_max,
  Bool-cases, inl, inr,
}
use h3llo.Metrics.{Counters, record_success, record_drop, oversize}
use h3llo.Udp.{IoError}
use h3llo.Tun.{Device, write_batch, admit, TunTx, batch, written_batch, write_admitted, tun_tx_step}
use h3llo.Engine.Counted.{packets_seen}

record IsAdmitted (n : ℕ) (c : Counters) (out : List (List ℕ) × Counters) : Type 0 where
  seen : length out.0 + out.1.stats.dropped.packets ≡ c.stats.dropped.packets + n
  kept : out.1.stats.succeeded ≡ c.stats.succeeded
  grown : c.stats.dropped.packets ≤ out.1.stats.dropped.packets

admit-IsAdmitted :
    (mtu : ℕ) (packets : List (List ℕ)) (c : Counters)
    → c.stats.dropped.packets + length packets ≤ u64_max
    → IsAdmitted (length packets) c (admit mtu packets c)
unfolding admit record_drop
admit-IsAdmitted mtu [] c h = record { seen = omega arith; kept = refl; grown = omega arith }
admit-IsAdmitted mtu (packet ∷ packets) c h =
    let d = record_drop c oversize 1 (length packet) in
    let over : IsAdmitted (length packets) d (admit mtu packets d) =
      admit-IsAdmitted mtu packets d (omega arith) in
    let under = admit-IsAdmitted mtu packets c (omega arith) in
    let seen = over.seen in
    let grown = over.grown in
    let seen' = under.seen in
    let grown' = under.grown in
    elim (Bool-cases (ltb mtu (length packet))) [
      | inl t ↦ rw (admit, t) (record { seen = omega arith; kept = over.kept; grown = omega arith })
      | inr f ↦
          rw (admit, f) (record { seen = omega arith; kept = under.kept; grown = omega arith })
    ]

written_batch-packets_seen :
    (packets : List (List ℕ)) (out : List (List ℕ) × Option IoError) (t : TunTx)
    → t.counters.stats.succeeded.packets + length packets ≤ u64_max
    → t.counters.stats.dropped.packets + length packets ≤ u64_max
    → packets_seen (written_batch packets out t).counters ≡ packets_seen t.counters + length packets
unfolding record_success record_drop
written_batch-packets_seen packets (written, none) t h k = omega arith
written_batch-packets_seen packets (written, some error) t h k = omega arith

write_admitted-packets_seen :
    (device : Device) (n : ℕ) (out : List (List ℕ) × Counters) (t : TunTx)
    → IsAdmitted n t.counters out
    → t.counters.stats.succeeded.packets + n ≤ u64_max
    → t.counters.stats.dropped.packets + n ≤ u64_max
    → packets_seen (write_admitted device out t).counters ≡ packets_seen t.counters + n
write_admitted-packets_seen device n ([], c) t a h k =
    let seen = a.seen in let kept = ap (λ s. s.packets) a.kept in omega arith
write_admitted-packets_seen device n (packet ∷ packets, c) t a h k =
    let seen = a.seen in
    let grown = a.grown in
    let kept = ap (λ s. s.packets) a.kept in
    let counted =
      written_batch-packets_seen (packet ∷ packets)
        (write_batch device t.offload t.given (packet ∷ packets)) (record t { counters = c })
        (omega arith) (omega arith) in
    omega arith

-- Every packet of a batch is counted once, as written or as dropped, whether the device takes it, finds
-- it too large or fails, as long as neither total can pass 64 bits.
pub tun_tx_step-packets_seen :
    (device : Device) (packets : List (List ℕ)) (t : TunTx)
    → t.counters.stats.succeeded.packets + length packets ≤ u64_max
    → t.counters.stats.dropped.packets + length packets ≤ u64_max
    → packets_seen (tun_tx_step device (batch packets) t).counters
      ≡ packets_seen t.counters + length packets
unfolding tun_tx_step
tun_tx_step-packets_seen device packets t h k =
    write_admitted-packets_seen device (length packets) (admit t.mtu packets t.counters) t
      (admit-IsAdmitted t.mtu packets t.counters k) h k
