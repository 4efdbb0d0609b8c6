-- ===== src/Telemetry.antt =====
-- The telemetry of `src/metrics/telemetry.hpp` and `src/metrics/telemetry.cpp`, less its printed
-- reports. The type `D` and its operations stand for `double`. The times of the steady clock are
-- arguments, in nanoseconds, and a name is the list of its characters.
pub mod Timers
use hft_sdk.Base.{
  Bool, DoubleOps, List, Name, Option, [], false, if◌then◌else◌, ltb, neg_part, none, pos, pos_part,
  same_name, some, true, u64_mod, ℕ, ℤ, ◌%◌, ◌&&◌, ◌*ℤ◌, ◌+ℤ◌, ◌+◌, ◌-ℤ◌, ◌-◌, ◌==◌, ◌||◌, ◌∷◌,
}
use hft_sdk.Types.{Price, Quantity, Timestamp}
use hft_sdk.Histogram.{LatencyHistogram, new_histogram, record_latency}

unfoldable pub starts_with : Name → Name → Bool
starts_with [] text = true
starts_with (c ∷ m) [] = false
starts_with (c ∷ m) (d ∷ text) = c == d && starts_with m text

-- `text.find(word) != npos`, for a word that is not empty.
unfoldable pub contains : Name → Name → Bool
contains word [] = false
contains word (d ∷ text) = starts_with word (d ∷ text) || contains word text

-- The words "e2e", "match" and "md".
abbrev pub e2e_word : Name
e2e_word = 101 ∷ 50 ∷ 101 ∷ []

abbrev pub match_word : Name
match_word = 109 ∷ 97 ∷ 116 ∷ 99 ∷ 104 ∷ []

abbrev pub md_word : Name
md_word = 109 ∷ 100 ∷ []

-- The map of the active timers. It has a name once, so an erasure takes all entries of a name.
abbrev pub Timers : Type 0
Timers = List (Name × Timestamp)

unfoldable pub find_timer : Name → Timers → Option Timestamp
find_timer n [] = none
find_timer n ((m, begun) ∷ ts) = if same_name m n then some begun else find_timer n ts

unfoldable pub put_timer : Name → Timestamp → Timers → Timers
put_timer n now [] = (n, now) ∷ []
put_timer n now ((m, begun) ∷ ts) =
    if same_name m n then (m, now) ∷ ts else (m, begun) ∷ put_timer n now ts

unfoldable pub erase_timer : Name → Timers → Timers
erase_timer n [] = []
erase_timer n ((m, begun) ∷ ts) =
    if same_name m n then erase_timer n ts else (m, begun) ∷ erase_timer n ts

-- A cast of `int64_t` to `uint64_t`, and back.
abbrev pub as_uint64 : ℤ → ℕ
as_uint64 a = (pos_part a + (u64_mod - neg_part a % u64_mod)) % u64_mod

abbrev pub as_int64 : ℕ → ℤ
as_int64 n = if ltb n 9223372036854775808 then pos n else pos n -ℤ pos u64_mod

pub record Telemetry (D : Type 0) : Type 0 where
  pub e2e_latency : LatencyHistogram D
  pub matching_latency : LatencyHistogram D
  pub md_latency : LatencyHistogram D
  pub fix_in_latency : LatencyHistogram D
  pub fix_out_latency : LatencyHistogram D
  pub orders : ℕ
  pub trades : ℕ
  pub cancels : ℕ
  pub rejects : ℕ
  pub total_fill_qty : ℕ
  pub total_fill_notional : ℕ
  pub queue_pos_hist : LatencyHistogram D
  pub fill_prob_sum : ℤ
  pub fill_prob_count : ℕ
  pub slippage_sum : ℤ
  pub slippage_count : ℕ
  pub active_timers : Timers
  pub export_interval_ms : ℕ

abbrev pub fixed_point_scale : ℤ
fixed_point_scale = pos 1000000000

module _ {D : Type 0} (ops : DoubleOps D) where
  open ops use {of_int, mul, truncate}

  unfoldable pub new_latency : LatencyHistogram D
  new_latency = new_histogram 10000 100 ops

  abbrev pub record_in : LatencyHistogram D → ℤ → LatencyHistogram D
  record_in h ns = record_latency 10000 100 ops h ns

  abbrev pub new_telemetry : Telemetry D
  new_telemetry = record {
    e2e_latency = new_latency;
    matching_latency = new_latency;
    md_latency = new_latency;
    fix_in_latency = new_latency;
    fix_out_latency = new_latency;
    orders = 0;
    trades = 0;
    cancels = 0;
    rejects = 0;
    total_fill_qty = 0;
    total_fill_notional = 0;
    queue_pos_hist = new_histogram 1000 1 ops;
    fill_prob_sum = pos 0;
    fill_prob_count = 0;
    slippage_sum = pos 0;
    slippage_count = 0;
    active_timers = [];
    export_interval_ms = 1000;
  }

  -- `reset`, which leaves the active timers and the interval.
  abbrev pub reset_telemetry : Telemetry D → Telemetry D
  reset_telemetry t = record (new_telemetry) {
    active_timers = t.active_timers;
    export_interval_ms = t.export_interval_ms;
  }

  abbrev pub record_e2e_latency : Telemetry D → ℤ → Telemetry D
  record_e2e_latency t ns = record t { e2e_latency = record_in t.e2e_latency ns }

  abbrev pub record_matching_latency : Telemetry D → ℤ → Telemetry D
  record_matching_latency t ns = record t { matching_latency = record_in t.matching_latency ns }

  abbrev pub record_md_latency : Telemetry D → ℤ → Telemetry D
  record_md_latency t ns = record t { md_latency = record_in t.md_latency ns }

  abbrev pub record_fix_inbound_latency : Telemetry D → ℤ → Telemetry D
  record_fix_inbound_latency t ns = record t { fix_in_latency = record_in t.fix_in_latency ns }

  abbrev pub record_fix_outbound_latency : Telemetry D → ℤ → Telemetry D
  record_fix_outbound_latency t ns = record t { fix_out_latency = record_in t.fix_out_latency ns }

  abbrev pub record_order : Telemetry D → Telemetry D
  record_order t = record t { orders = (t.orders + 1) % u64_mod }

  abbrev pub record_telemetry_trade : Telemetry D → Telemetry D
  record_telemetry_trade t = record t { trades = (t.trades + 1) % u64_mod }

  abbrev pub record_cancel : Telemetry D → Telemetry D
  record_cancel t = record t { cancels = (t.cancels + 1) % u64_mod }

  abbrev pub record_reject : Telemetry D → Telemetry D
  record_reject t = record t { rejects = (t.rejects + 1) % u64_mod }

  abbrev pub record_fill : Telemetry D → Quantity → Price → Telemetry D
  record_fill t qty price = record t {
    total_fill_qty = (t.total_fill_qty + as_uint64 qty) % u64_mod;
    total_fill_notional = (t.total_fill_notional + as_uint64 (qty *ℤ price)) % u64_mod;
  }

  abbrev pub record_queue_position : Telemetry D → ℕ → Telemetry D
  record_queue_position t position = record t {
    queue_pos_hist = record_latency 1000 1 ops t.queue_pos_hist (pos position);
  }

  -- `fetch_add` on `int64_t`, which wraps around.
  abbrev pub add_fixed_point : ℤ → D → ℤ
  add_fixed_point sum x = as_int64 (as_uint64 (sum +ℤ truncate (mul x (of_int fixed_point_scale))))

  abbrev pub record_fill_probability : Telemetry D → D → Telemetry D
  record_fill_probability t prob = record t {
    fill_prob_sum = add_fixed_point t.fill_prob_sum prob;
    fill_prob_count = (t.fill_prob_count + 1) % u64_mod;
  }

  abbrev pub record_slippage : Telemetry D → D → Telemetry D
  record_slippage t ticks = record t {
    slippage_sum = add_fixed_point t.slippage_sum ticks;
    slippage_count = (t.slippage_count + 1) % u64_mod;
  }

  abbrev pub start_timer : Telemetry D → Name → Timestamp → Telemetry D
  start_timer t name now = record t { active_timers = put_timer name now t.active_timers }

  abbrev pub set_export_interval_ms : Telemetry D → ℕ → Telemetry D
  set_export_interval_ms t ms = record t { export_interval_ms = ms }

  -- The sample goes to the histogram that the name calls for.
  unfoldable pub record_named : Telemetry D → Name → ℤ → Telemetry D
  record_named t name ns =
      if contains e2e_word name
      then record_e2e_latency t ns
      else if contains match_word name
      then record_matching_latency t ns
      else if contains md_word name
      then record_md_latency t ns
      else t

  unfoldable pub end_timer : Telemetry D → Name → Timestamp → Telemetry D
  end_timer t name now = elim (find_timer name t.active_timers) [
    | none ↦ t
    | some begun ↦
        let t' = record_named t name (pos now -ℤ pos begun) in
        record t' { active_timers = erase_timer name t'.active_timers }
  ]
