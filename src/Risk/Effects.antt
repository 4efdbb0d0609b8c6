-- ===== src/Risk/Effects.antt =====
-- What `check_order` of `risk_engine.cpp` changes: its counters and the order timestamps, no more.
use hft_sdk.Base.{
  Bool-cases, List, arith, if◌then◌else◌, inl, inr, leb, length, refl, u64_mod, ◌%◌, ◌+◌, ◌∙◌, ◌≡◌,
}
use hft_sdk.Types.{Order, RejectReason, Timestamp, TraderId, is_no_reason, no_reason}
use hft_sdk.Risk.{
  RiskEngine, get_limits, get_state, put_state, check_kill_switch, check_price_validity,
  check_quantity_validity, check_position_limit, check_rate_limit, checked, check_order, window_ns,
  drop_expired,
}
use hft_sdk.Risk.Maps.{get_state-put_state}

-- All but the counters and the timestamps is the same.
pub record Same (r r' : RiskEngine) : Type 0 where
  pub positions : (t : TraderId) → (get_state r' t).positions ≡ (get_state r t).positions
  pub net_positions : (t : TraderId) → (get_state r' t).net_position ≡ (get_state r t).net_position
  pub kills : (t : TraderId) → (get_state r' t).killed ≡ (get_state r t).killed
  pub global : r'.global_kill ≡ r.global_kill
  pub limits : (t : TraderId) → get_limits r' t ≡ get_limits r t

-- What a check that passed leaves.
record Kept (r r' : RiskEngine) : Type 0 where
  same : Same r r'
  checks : r'.orders_checked ≡ r.orders_checked
  rejects : r'.orders_rejected ≡ r.orders_rejected

-- What all the checks leave, with their verdict.
record Done (r : RiskEngine) (out : RiskEngine × RejectReason) : Type 0 where
  same : Same r out.0
  checks : out.0.orders_checked ≡ r.orders_checked
  rejects :
      out.0.orders_rejected
      ≡ (if is_no_reason out.1 then r.orders_rejected else (r.orders_rejected + 1) % u64_mod)

-- A new list of timestamps for one trader.
restamp-Kept :
    (r : RiskEngine) (t : TraderId) (stamps : List Timestamp)
    → Kept r (put_state t (record (get_state r t) { order_timestamps = stamps }) r)
unfolding get_limits put_state
restamp-Kept r t stamps = record {
  same = record {
    positions = λ u.
        ground
          (arith, get_state-put_state t u (record (get_state r t) { order_timestamps = stamps }) r);
    net_positions = λ u.
        ground
          (arith, get_state-put_state t u (record (get_state r t) { order_timestamps = stamps }) r);
    kills = λ u.
        ground
          (arith, get_state-put_state t u (record (get_state r t) { order_timestamps = stamps }) r);
    global = refl;
    limits = λ u. refl;
  };
  checks = refl;
  rejects = refl;
}

Kept-refl : (r : RiskEngine) → Kept r r
Kept-refl r = record {
  same = record {
    positions = λ u. refl;
    net_positions = λ u. refl;
    kills = λ u. refl;
    global = refl;
    limits = λ u. refl;
  };
  checks = refl;
  rejects = refl;
}

Kept-trans : {r r' r'' : RiskEngine} → Kept r r' → Kept r' r'' → Kept r r''
Kept-trans k l = record {
  same = record {
    positions = λ u. l.same.positions u ∙ k.same.positions u;
    net_positions = λ u. l.same.net_positions u ∙ k.same.net_positions u;
    kills = λ u. l.same.kills u ∙ k.same.kills u;
    global = l.same.global ∙ k.same.global;
    limits = λ u. l.same.limits u ∙ k.same.limits u;
  };
  checks = l.checks ∙ k.checks;
  rejects = l.rejects ∙ k.rejects;
}

check_rate_limit-Kept :
    (r : RiskEngine) (t : TraderId) (now : Timestamp) → Kept r (check_rate_limit r t now).0
unfolding check_rate_limit
check_rate_limit-Kept r t now =
    elim (Bool-cases (
      leb (get_limits r t).max_order_rate (
        length (drop_expired now (window_ns (get_limits r t)) (get_state r t).order_timestamps)))) [
          | inl e ↦ rw e (restamp-Kept r t _)
          | inr e ↦ rw e (restamp-Kept r t _)
        ]

checked-Done :
    (r : RiskEngine) (out : RiskEngine × RejectReason)
    (next : RiskEngine → RiskEngine × RejectReason)
    → Kept r out.0
    → ((x : RiskEngine) → Kept r x → Done r (next x))
    → Done r (checked out next)
unfolding get_state get_limits
checked-Done r (x, verdict) next k f = elim (Bool-cases (is_no_reason verdict)) [
  | inl e ↦ rw e (f x k)
  | inr e ↦ rw e (record {
    same = record {
      positions = k.same.positions;
      net_positions = k.same.net_positions;
      kills = k.same.kills;
      global = k.same.global;
      limits = k.same.limits;
    };
    checks = k.checks;
    rejects = rw (e, k.rejects) refl;
  })
]

-- The effects of a check that leaves `out`, its engine and its verdict.
pub record CheckEffects (r : RiskEngine) (out : RiskEngine × RejectReason) : Type 0 where
  pub same : Same r out.0
  pub counted : out.0.orders_checked ≡ (r.orders_checked + 1) % u64_mod
  pub rejected :
      out.0.orders_rejected
      ≡ (if is_no_reason out.1 then r.orders_rejected else (r.orders_rejected + 1) % u64_mod)

-- A check counts the order, counts it as rejected exactly if its verdict is a reason to reject,
-- and leaves every trader's positions, net position, kill switch and limits and the global kill
-- switch as they are.
pub check_order-CheckEffects : (r : RiskEngine) (o : Order) → CheckEffects r (check_order r o)
unfolding check_order check_position_limit get_state get_limits
check_order-CheckEffects r o =
    let t = o.trader_id in
    let r0 = record r { orders_checked = (r.orders_checked + 1) % u64_mod } in
    let n5 : RiskEngine → RiskEngine × RejectReason = λ x. (x, no_reason) in
    let n4 : RiskEngine → RiskEngine × RejectReason =
      λ x. checked (check_rate_limit x t o.submit_time) n5 in
    let n3 : RiskEngine → RiskEngine × RejectReason =
      λ x. checked (check_position_limit x t o) n4 in
    let n2 : RiskEngine → RiskEngine × RejectReason =
      λ x. checked (x, check_quantity_validity o) n3 in
    let n1 : RiskEngine → RiskEngine × RejectReason = λ x. checked (x, check_price_validity o) n2 in
    let d5 : (x : RiskEngine) → Kept r0 x → Done r0 (n5 x) =
      λ x k. record { same = k.same; checks = k.checks; rejects = k.rejects } in
    let d4 : (x : RiskEngine) → Kept r0 x → Done r0 (n4 x) = λ x k.
      checked-Done r0 (check_rate_limit x t o.submit_time) n5
        (Kept-trans k (check_rate_limit-Kept x t o.submit_time)) d5 in
    let d3 : (x : RiskEngine) → Kept r0 x → Done r0 (n3 x) = λ x k.
      checked-Done r0 (check_position_limit x t o) n4
        (Kept-trans k (restamp-Kept x t (get_state x t).order_timestamps)) d4 in
    let d2 : (x : RiskEngine) → Kept r0 x → Done r0 (n2 x) =
      λ x k. checked-Done r0 (x, check_quantity_validity o) n3 k d3 in
    let d1 : (x : RiskEngine) → Kept r0 x → Done r0 (n1 x) =
      λ x k. checked-Done r0 (x, check_price_validity o) n2 k d2 in
    let d = checked-Done r0 (r0, check_kill_switch r0 t) n1 (Kept-refl r0) d1 in
    record {
      same = record {
        positions = d.same.positions;
        net_positions = d.same.net_positions;
        kills = d.same.kills;
        global = d.same.global;
        limits = d.same.limits;
      };
      counted = d.checks;
      rejected = d.rejects;
    }
