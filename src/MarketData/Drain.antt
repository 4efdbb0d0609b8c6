-- ===== src/MarketData/Drain.antt =====
-- `process_pending` of `market_data_engine.cpp`, which ends and delivers all that waits.
use hft_sdk.Base.{
  List, Option, [], ap, arith, length, refl, some, suc, u64_mod, zero, ℕ, ◌%◌, ◌++◌, ◌+◌, ◌<◌, ◌∷◌,
  ◌≡◌, ◌≤◌,
}
use hft_sdk.Ring.{HpRingBuffer, try_pop}
use hft_sdk.Ring.Contents.{Contents, try_pop-Popped, length-Contents}
use hft_sdk.MarketData.{
  MdUpdate, incremental_refresh, snapshot_full, trade_report, MarketDataMessage, default_message,
  md_queue_size, MarketDataEngine, Delivery, deliver, handlers_of, process_pending,
}
use hft_sdk.MarketData.Outboxes.{
  md_queue_size-IsSize, FeedCall, feed_all, Outbox, offer_all, Implements, SameHandlers,
  feed_all-SameHandlers, feed_all-Implements,
}

-- The calls of the handlers of `e` for the messages of `q`, in order.
unfoldable pub deliver_all : MarketDataEngine → List MarketDataMessage → List Delivery
deliver_all e [] = []
deliver_all e (m ∷ q) = deliver e m ++ deliver_all e q

unfoldable pub count_on : ℕ → List MarketDataMessage → ℕ
count_on n [] = n
count_on n (m ∷ q) = count_on ((n + 1) % u64_mod) q

-- The result of the loop where the messages of `q` wait.
pub record Drained (e : MarketDataEngine) (q : List MarketDataMessage)
    (out : Option (MarketDataEngine × List Delivery)) : Type 0 where
  pub ring : HpRingBuffer MarketDataMessage
  pub ended :
      out
      ≡ some (
        record e { md_queue = ring; messages_published = count_on e.messages_published q },
        deliver_all e q,
      )
  pub emptied : Contents md_queue_size default_message ring []

handlers_same :
    (e : MarketDataEngine) (r : HpRingBuffer MarketDataMessage) (n : ℕ) (u : MdUpdate)
    → handlers_of (record e { md_queue = r; messages_published = n }) u ≡ handlers_of e u
handlers_same e r n (incremental_refresh tob) = refl
handlers_same e r n (snapshot_full depth) = refl
handlers_same e r n (trade_report t) = refl

deliver_all_same :
    (e : MarketDataEngine) (r : HpRingBuffer MarketDataMessage) (n : ℕ) (q : List MarketDataMessage)
    → deliver_all (record e { md_queue = r; messages_published = n }) q ≡ deliver_all e q
unfolding deliver_all
deliver_all_same e r n [] = refl
deliver_all_same e r n (m ∷ q) =
    rw (handlers_same e r n m.update) (rw (deliver_all_same e r n q) refl)

-- The loop ends on more fuel than messages, empties the queue, and delivers them all in order.
process_pending-Drained :
    (fuel : ℕ) (e : MarketDataEngine) (q : List MarketDataMessage)
    → length q < fuel
    → Contents md_queue_size default_message e.md_queue q
    → Drained e q (process_pending fuel e)
unfolding process_pending deliver_all count_on
process_pending-Drained zero e q h c = absurd (omega arith)
process_pending-Drained (suc fuel) e [] h c =
    let p = try_pop-Popped md_queue_size default_message e.md_queue [] md_queue_size-IsSize c in
    record {
      ring = (try_pop md_queue_size default_message e.md_queue).0;
      ended = let none_left = ap (λ x. x.1) p in rw (none_left, process_pending) refl;
      emptied = rw p c;
    }
process_pending-Drained (suc fuel) e (m ∷ q) h c =
    let (p, c') =
      try_pop-Popped md_queue_size default_message e.md_queue (m ∷ q) md_queue_size-IsSize c in
    let r = (try_pop md_queue_size default_message e.md_queue).0 in
    let e' = record e { md_queue = r; messages_published = (e.messages_published + 1) % u64_mod } in
    let d = process_pending-Drained fuel e' q (omega arith) c' in
    record {
      ring = d.ring;
      ended =
          rw (p, process_pending)
            (rw (d.ended, process_pending)
              (rw (deliver_all_same e r ((e.messages_published + 1) % u64_mod) q) refl));
      emptied = d.emptied;
    }

-- The result of feeding an engine and then publishing.
pub record Published (e : MarketDataEngine) (b : Outbox)
    (out : Option (MarketDataEngine × List Delivery)) : Type 0 where
  pub final : MarketDataEngine
  pub ended : out ≡ some (final, deliver_all e b.waiting)
  pub emptied : Contents md_queue_size default_message final.md_queue []
  pub counted : final.messages_published ≡ count_on e.messages_published b.waiting
  pub held_back : final.messages_throttled ≡ b.held_back

deliver_all-SameHandlers :
    (e e' : MarketDataEngine) (q : List MarketDataMessage)
    → SameHandlers e e'
    → deliver_all e' q ≡ deliver_all e q
unfolding deliver_all
deliver_all-SameHandlers e e' [] s = refl
deliver_all-SameHandlers e e' (m ∷ q) s =
    rw (handlers_agree e e' m.update s) (rw (deliver_all-SameHandlers e e' q s) refl)
  where
    handlers_agree :
        (e e' : MarketDataEngine) (u : MdUpdate)
        → SameHandlers e e'
        → handlers_of e' u ≡ handlers_of e u
    handlers_agree e e' (incremental_refresh tob) s = s.l1
    handlers_agree e e' (snapshot_full depth) s = s.l2
    handlers_agree e e' (trade_report t) s = s.trades

-- If the ring of an engine holds what waits in an outbox, then after every sequence of updates and
-- trades the publication, with fuel for 16384 rounds, ends, leaves the ring empty, calls the
-- handlers of each message that the outbox then has waiting, in the order of the calls, with
-- updates held back by the throttle and messages that found 16383 others waiting left out, and
-- counts what was published and what was held back.
pub process_pending-Published :
    (e : MarketDataEngine) (b : Outbox) (cs : List FeedCall) (fuel : ℕ)
    → Implements e b
    → md_queue_size ≤ fuel
    → Published e (offer_all e.throttle_ns b cs) (process_pending fuel (feed_all e cs))
process_pending-Published e b cs fuel i h =
    let e' = feed_all e cs in
    let b' = offer_all e.throttle_ns b cs in
    let i' = feed_all-Implements e b cs i in
    let s = feed_all-SameHandlers e cs in
    let (_, few) = length-Contents md_queue_size default_message e'.md_queue b'.waiting i'.queue in
    let d = process_pending-Drained fuel e' b'.waiting (omega arith) i'.queue in
    record {
      final = record e' {
        md_queue = d.ring;
        messages_published = count_on e'.messages_published b'.waiting;
      };
      ended = rw (← deliver_all-SameHandlers e e' b'.waiting s) d.ended;
      emptied = d.emptied;
      counted = ap (λ n. count_on n b'.waiting) s.published;
      held_back = i'.held_back;
    }
