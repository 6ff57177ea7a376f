-- ===== src/Channel/Laws.antt =====
-- What a recorded send leaves in the counters.
use h3llo.Base.{ℕ, ◌+◌, ◌≤◌, ◌≡◌, ◌≢◌, if◌then◌else◌, refl, u64_max, arith}
use mathlib.Core.Logic.{if_neg}
use h3llo.Metrics.{
  DropReason, DropReason-discrete, channel_closed, Counters, record_success, record_drop,
  record_wait,
}
use h3llo.Channel.{Answer, accepted, full_accepted, full_closed, closed, send_and_record}

-- A batch that is sent counts once: its packets go to the successes if `send_and_record` returns
-- `true`, and to the drops if it returns `false`, as long as these totals do not saturate.
pub send_and_record-total :
    (c : Counters) (answer : Answer) (packets bytes : ℕ)
    → c.stats.succeeded.packets + packets ≤ u64_max
    → c.stats.dropped.packets + packets ≤ u64_max
    → ((send_and_record c answer packets bytes).0.stats.succeeded.packets
        ≡ c.stats.succeeded.packets
          + (if (send_and_record c answer packets bytes).1 then packets else 0))
      × ((send_and_record c answer packets bytes).0.stats.dropped.packets
          ≡ c.stats.dropped.packets
            + (if (send_and_record c answer packets bytes).1 then 0 else packets))
unfolding send_and_record record_success record_drop record_wait
send_and_record-total c accepted packets bytes h k = omega arith
send_and_record-total c answer packets bytes h k = omega arith

pub send_and_record-reason :
    (c : Counters) (answer : Answer) (packets bytes : ℕ) (r : DropReason)
    → r ≢ channel_closed
    → (send_and_record c answer packets bytes).0.stats.drop_reasons r ≡ c.stats.drop_reasons r
unfolding send_and_record record_success record_drop record_wait
send_and_record-reason c accepted packets bytes r h = refl
send_and_record-reason c (full_accepted wait) packets bytes r h = refl
send_and_record-reason c full_closed packets bytes r h =
    if_neg (DropReason-discrete r channel_closed) h _ _
send_and_record-reason c closed packets bytes r h =
    if_neg (DropReason-discrete r channel_closed) h _ _
