-- ===== src/MarketData/Outboxes.antt =====
-- The updates of `market_data_engine.cpp` on their way from the feed to the handlers.
use hft_sdk.Base.{
  Bool-cases, List, [], ap, arith, if◌then◌else◌, inl, inr, length, ltb, refl, subst, sym, u64_mod,
  ℕ, ◌%◌, ◌++◌, ◌+◌, ◌-◌, ◌∙◌, ◌∷◌, ◌≡◌,
}
use hft_sdk.Types.{DepthSnapshot, Symbol, Timestamp, TopOfBook, Trade}
use hft_sdk.Ring.{HpRingBuffer, try_push}
use hft_sdk.Ring.Slots.{IsSize}
use hft_sdk.Ring.Contents.{Contents, try_push-Pushed, length-Contents}
use hft_sdk.MarketData.{
  MdUpdate, incremental_refresh, snapshot_full, trade_report, MarketDataMessage, default_message,
  md_queue_size, MarketDataEngine, should_throttle, message, enqueue_message, on_update,
  on_tob_update, on_depth_update, on_md_trade,
}

pub md_queue_size-IsSize : IsSize md_queue_size
md_queue_size-IsSize = record {
  at_least = omega arith;
  at_most = omega arith;
  copies = 1125899906842624;
  divides = refl;
}

-- A call of the feed, with the time at which it reads the clock.
pub data FeedCall : Type 0 where
  feeds_tob : TopOfBook → Timestamp → FeedCall
  feeds_depth : DepthSnapshot → Timestamp → FeedCall
  feeds_trade : Trade → Timestamp → FeedCall

unfoldable pub feed : MarketDataEngine → FeedCall → MarketDataEngine
feed e (feeds_tob tob now) = on_tob_update e tob now
feed e (feeds_depth depth now) = on_depth_update e depth now
feed e (feeds_trade t now) = on_md_trade e t now

unfoldable pub feed_all : MarketDataEngine → List FeedCall → MarketDataEngine
feed_all e [] = e
feed_all e (c ∷ cs) = feed_all (feed e c) cs

-- What a feed promises: the times of the last publications, the count of the updates held back, and
-- the messages that wait, at most one less than the size of the ring.
pub record Outbox : Type 0 where
  pub times : List (Symbol × Timestamp)
  pub held_back : ℕ
  pub waiting : List MarketDataMessage

abbrev pub accept : MarketDataMessage → List MarketDataMessage → List MarketDataMessage
accept m q = if ltb (length q) (md_queue_size - 1) then q ++ m ∷ [] else q

abbrev pub offer_update : ℕ → Outbox → MdUpdate → Symbol → Timestamp → Outbox
offer_update throttle b update symbol now =
    let (times, held) = should_throttle throttle b.times symbol now in
    if held
    then record b { times = times; held_back = (b.held_back + 1) % u64_mod }
    else record b { times = times; waiting = accept (message update symbol now) b.waiting }

unfoldable pub offer : ℕ → Outbox → FeedCall → Outbox
offer throttle b (feeds_tob tob now) =
    offer_update throttle b (incremental_refresh tob) tob.symbol now
offer throttle b (feeds_depth depth now) =
    offer_update throttle b (snapshot_full depth) depth.symbol now
offer throttle b (feeds_trade t now) = record b {
  waiting = accept (message (trade_report t) t.symbol now) b.waiting;
}

unfoldable pub offer_all : ℕ → Outbox → List FeedCall → Outbox
offer_all throttle b [] = b
offer_all throttle b (c ∷ cs) = offer_all throttle (offer throttle b c) cs

-- The ring of the engine holds what waits in the outbox, and the rest agrees.
pub record Implements (e : MarketDataEngine) (b : Outbox) : Type 0 where
  pub queue : Contents md_queue_size default_message e.md_queue b.waiting
  pub times : e.last_publish_time ≡ b.times
  pub held_back : e.messages_throttled ≡ b.held_back

-- What no call of the feed changes.
pub record SameHandlers (e e' : MarketDataEngine) : Type 0 where
  pub throttle : e'.throttle_ns ≡ e.throttle_ns
  pub l1 : e'.l1_handlers ≡ e.l1_handlers
  pub l2 : e'.l2_handlers ≡ e.l2_handlers
  pub trades : e'.trade_handlers ≡ e.trade_handlers
  pub published : e'.messages_published ≡ e.messages_published

push_accepts :
    (r : HpRingBuffer MarketDataMessage) (q : List MarketDataMessage) (m : MarketDataMessage)
    → Contents md_queue_size default_message r q
    → Contents md_queue_size default_message
        (try_push md_queue_size default_message m r).0
        (accept m q)
push_accepts r q m c =
    let p = try_push-Pushed md_queue_size default_message m r q md_queue_size-IsSize c in
    let (e, l) = length-Contents md_queue_size default_message r q c in
    elim (Bool-cases (ltb (length q) (md_queue_size - 1))) [
      | inl f ↦ rw f (p.free (ground arith)).1
      | inr f ↦ rw f (rw (p.full (ground arith)) c)
    ]

enqueue-Implements :
    (e : MarketDataEngine) (b : Outbox) (m : MarketDataMessage)
    → Implements e b
    → Implements (enqueue_message e m) (record b { waiting = accept m b.waiting })
unfolding enqueue_message
enqueue-Implements e b m i = record {
  queue = push_accepts e.md_queue b.waiting m i.queue;
  times = i.times;
  held_back = i.held_back;
}

on_update-Implements :
    (e : MarketDataEngine) (b : Outbox) (u : MdUpdate) (s : Symbol) (now : Timestamp)
    → Implements e b
    → Implements (on_update e u s now) (offer_update e.throttle_ns b u s now)
unfolding on_update
on_update-Implements e b u s now i =
    let t = i.times in
    let out = should_throttle e.throttle_ns e.last_publish_time s now in
    rw (sym t) (elim (Bool-cases out.1) [
      | inl f ↦ rw f (record {
        queue = i.queue;
        times = refl;
        held_back = ap (λ n. (n + 1) % u64_mod) i.held_back;
      })
      | inr f ↦ rw f (
          enqueue-Implements (record e { last_publish_time = out.0 }) (record b { times = out.0 })
            (message u s now) (record { queue = i.queue; times = refl; held_back = i.held_back }))
    ])

enqueue-SameHandlers :
    (e : MarketDataEngine) (m : MarketDataMessage) → SameHandlers e (enqueue_message e m)
unfolding enqueue_message
enqueue-SameHandlers e m = record {
  throttle = refl;
  l1 = refl;
  l2 = refl;
  trades = refl;
  published = refl;
}

on_update-SameHandlers :
    (e : MarketDataEngine) (u : MdUpdate) (s : Symbol) (now : Timestamp)
    → SameHandlers e (on_update e u s now)
unfolding on_update enqueue_message
on_update-SameHandlers e u s now =
    let out = should_throttle e.throttle_ns e.last_publish_time s now in
    elim (Bool-cases out.1) [
      | inl f ↦
          rw f (record { throttle = refl; l1 = refl; l2 = refl; trades = refl; published = refl })
      | inr f ↦
          rw f (record { throttle = refl; l1 = refl; l2 = refl; trades = refl; published = refl })
    ]

feed-SameHandlers : (e : MarketDataEngine) (c : FeedCall) → SameHandlers e (feed e c)
unfolding feed
feed-SameHandlers e (feeds_tob tob now) = on_update-SameHandlers e _ tob.symbol now
feed-SameHandlers e (feeds_depth depth now) = on_update-SameHandlers e _ depth.symbol now
feed-SameHandlers e (feeds_trade t now) = enqueue-SameHandlers e _

feed-Implements :
    (e : MarketDataEngine) (b : Outbox) (c : FeedCall)
    → Implements e b
    → Implements (feed e c) (offer e.throttle_ns b c)
unfolding feed offer
feed-Implements e b (feeds_tob tob now) i = on_update-Implements e b _ tob.symbol now i
feed-Implements e b (feeds_depth depth now) i = on_update-Implements e b _ depth.symbol now i
feed-Implements e b (feeds_trade t now) i = enqueue-Implements e b _ i

SameHandlers-trans :
    {e e' e'' : MarketDataEngine} → SameHandlers e e' → SameHandlers e' e'' → SameHandlers e e''
SameHandlers-trans s t = record {
  throttle = t.throttle ∙ s.throttle;
  l1 = t.l1 ∙ s.l1;
  l2 = t.l2 ∙ s.l2;
  trades = t.trades ∙ s.trades;
  published = t.published ∙ s.published;
}

pub feed_all-SameHandlers :
    (e : MarketDataEngine) (cs : List FeedCall) → SameHandlers e (feed_all e cs)
unfolding feed_all
feed_all-SameHandlers e [] = record {
  throttle = refl;
  l1 = refl;
  l2 = refl;
  trades = refl;
  published = refl;
}
feed_all-SameHandlers e (c ∷ cs) =
    SameHandlers-trans (feed-SameHandlers e c) (feed_all-SameHandlers (feed e c) cs)

pub feed_all-Implements :
    (e : MarketDataEngine) (b : Outbox) (cs : List FeedCall)
    → Implements e b
    → Implements (feed_all e cs) (offer_all e.throttle_ns b cs)
unfolding feed_all offer_all
feed_all-Implements e b [] i = i
feed_all-Implements e b (c ∷ cs) i =
    subst (λ t. Implements (feed_all (feed e c) cs) (offer_all t (offer e.throttle_ns b c) cs))
      (feed-SameHandlers e c).throttle
      (feed_all-Implements (feed e c) (offer e.throttle_ns b c) cs (feed-Implements e b c i))
