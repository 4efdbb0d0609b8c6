-- ===== src/L3Book/Runs.antt =====
-- All that a run of the book computes with, under one name for an `unfolding` line.
use hft_sdk.Base.{erase, insert, lookup, min_ℤ, neg_part, pos_part, ◌*ℤ◌, ◌+ℤ◌, ◌-ℤ◌, ◌/ℤ◌}
use hft_sdk.L3Book.{init}
use hft_sdk.L3Book.Levels.{
  find_level, push_level, set_level, erase_level, find_node, erase_node, renumber,
  update_queue_positions, refresh_level, erase_order,
}
use hft_sdk.L3Book.Match.{
  breaks_at, take_qty, replenish, drop_done, resting_after, record_trade, match_one, match_queue,
  match_against, queue_available, available_for, cannot_fill, run_match, match_incoming,
}
use hft_sdk.L3Book.Query.{
  queue_visible, level_info, best_level, best_bid, best_ask, depth, bid_depth, ask_depth,
  micro_price_of, tob_of, top_of_book, orders_at_price, deref, queue_position, visible_before,
  quantity_ahead,
}
use hft_sdk.L3Book.Ops.{
  last_fill, match_report, add_resting_order, rest_or_cancel, place_rest, add_events, add_order,
  remove_at, cancel_order, resubmit, replace_order,
}

unfoldable pub runs : Unit {0}
unfolding init find_level push_level set_level erase_level find_node erase_node renumber
    update_queue_positions refresh_level erase_order breaks_at take_qty replenish drop_done
    resting_after record_trade match_one match_queue match_against queue_available available_for
    cannot_fill run_match match_incoming queue_visible level_info best_level best_bid best_ask depth
    bid_depth ask_depth micro_price_of tob_of top_of_book orders_at_price deref queue_position
    visible_before quantity_ahead last_fill match_report add_resting_order rest_or_cancel place_rest
    add_events add_order remove_at cancel_order resubmit replace_order lookup insert erase pos_part
    neg_part ◌+ℤ◌ ◌-ℤ◌ ◌*ℤ◌ ◌/ℤ◌ min_ℤ
runs = tt
