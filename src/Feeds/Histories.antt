-- ===== src/Feeds/Histories.antt =====
-- The histories that an `L1Feed` of `l1_feed.cpp` keeps.
use hft_sdk.Base.{
  Bool-cases, List, [], ap, append-nil, append_assoc, arith, drop, if◌then◌else◌, inl, inr, length,
  length-append, ltb, ltb_ℤ, pos, refl, suc, sym, zero, ℕ, ◌&&◌, ◌++◌, ◌+◌, ◌-◌, ◌∙◌, ◌∷◌, ◌≡◌, ◌≤◌,
}
use hft_sdk.Types.{Price, Quantity, Timestamp}
use hft_sdk.L3Book.{Book}
use hft_sdk.L3Book.Query.{top_of_book}
use hft_sdk.Feeds.{
  L1Feed, TradeRecord, drop_front, feed_trade, max_spread_history, max_trade_history, new_feed,
  push_bounded, update_feed,
}

-- The calls that change a feed, each update with the book of its time.
pub data L1Call : Type 0 where
  updates_feed : Book → Timestamp → L1Call
  records_trade : Price → Quantity → L1Call

unfoldable pub feed_call : L1Call → L1Feed → L1Feed
feed_call (updates_feed b ts) f = update_feed f b ts
feed_call (records_trade p q) f = feed_trade f p q

unfoldable pub feed_calls : List L1Call → L1Feed → L1Feed
feed_calls [] f = f
feed_calls (c ∷ cs) f = feed_calls cs (feed_call c f)

-- All trades of the calls, and all spreads above zero of a valid top of book.
unfoldable pub trades_of : List L1Call → List TradeRecord
trades_of [] = []
trades_of (updates_feed b ts ∷ cs) = trades_of cs
trades_of (records_trade p q ∷ cs) = record { price = p; quantity = q } ∷ trades_of cs

unfoldable pub spreads_of : List L1Call → List Price
spreads_of [] = []
spreads_of (updates_feed b ts ∷ cs) =
    let tob = top_of_book b ts in
    let rest = spreads_of cs in
    if tob.valid && ltb_ℤ (pos 0) tob.spread then tob.spread ∷ rest else rest
spreads_of (records_trade p q ∷ cs) = spreads_of cs

module _ {ℓ} {A : Type ℓ} where
  -- The last `n` entries, or all if there are fewer.
  abbrev pub latest : ℕ → List A → List A
  latest n xs = drop (length xs - n) xs

  drop_front-drop :
      (k : ℕ) (xs : List A) (x : A)
      → k ≤ length xs
      → drop_front (drop k xs ++ x ∷ []) ≡ drop (suc k) (xs ++ x ∷ [])
  drop_front-drop zero [] x h = refl
  drop_front-drop zero (y ∷ xs) x h = refl
  drop_front-drop (suc k) [] x h = absurd (omega arith)
  drop_front-drop (suc k) (y ∷ xs) x h = drop_front-drop k xs x (omega arith)

  length-drop : (k : ℕ) (xs : List A) → length (drop k xs) ≡ length xs - k
  length-drop zero xs = omega arith
  length-drop (suc k) [] = omega arith
  length-drop (suc k) (x ∷ xs) = length-drop k xs ∙ omega arith

  push_bounded-latest :
      (n : ℕ) (xs : List A) (x : A) → push_bounded n (latest n xs) x ≡ latest n (xs ++ x ∷ [])
  unfolding push_bounded
  push_bounded-latest n xs x =
      let k = length xs - n in
      let whole = length-append xs (x ∷ []) in
      let kept : length (drop k xs ++ x ∷ []) ≡ (length xs - k) + 1 =
        length-append (drop k xs) (x ∷ []) ∙ ap (λ i. i + 1) (length-drop k xs) in
      elim (Bool-cases (ltb n (length (drop k xs ++ x ∷ [])))) [
        | inl e ↦
            let next : suc k ≡ length (xs ++ x ∷ []) - n = ground (arith, e, kept, whole) in
            rw e (drop_front-drop k xs x (omega arith) ∙ ap (λ i. drop i (xs ++ x ∷ [])) next)
        | inr e ↦
            let none_now : zero ≡ k = ground (arith, e, kept) in
            let none_next : zero ≡ length (xs ++ x ∷ []) - n = ground (arith, e, kept, whole) in
            rw e (
              ap (λ i. drop i xs ++ x ∷ []) (sym none_now)
              ∙ ap (λ i. drop i (xs ++ x ∷ [])) none_next)
      ]

  push_bounded-append :
      (n : ℕ) (past xs ys : List A) (x : A)
      → xs ≡ latest n past
      → (push_bounded n xs x ≡ latest n (past ++ x ∷ []))
        × ((past ++ x ∷ []) ++ ys ≡ past ++ x ∷ ys)
  push_bounded-append n past xs ys x e =
      (ap (λ l. push_bounded n l x) e ∙ push_bounded-latest n past x, append_assoc past (x ∷ []) ys)

feed_calls-trades :
    (cs : List L1Call) (f : L1Feed) (past : List TradeRecord)
    → f.recent_trades ≡ latest max_trade_history past
    → (feed_calls cs f).recent_trades ≡ latest max_trade_history (past ++ trades_of cs)
unfolding feed_calls feed_call update_feed feed_trade trades_of
feed_calls-trades [] f past e = e ∙ ap (latest max_trade_history) (sym (append-nil past))
feed_calls-trades (updates_feed b ts ∷ cs) f past e =
    feed_calls-trades cs (update_feed f b ts) past e
feed_calls-trades (records_trade p q ∷ cs) f past e =
    let x : TradeRecord = record { price = p; quantity = q } in
    let (now, whole) =
      push_bounded-append max_trade_history past f.recent_trades (trades_of cs) x e in
    feed_calls-trades cs (feed_trade f p q) (past ++ x ∷ []) now
    ∙ ap (latest max_trade_history) whole

feed_calls-spreads :
    (cs : List L1Call) (f : L1Feed) (past : List Price)
    → f.spread_history ≡ latest max_spread_history past
    → (feed_calls cs f).spread_history ≡ latest max_spread_history (past ++ spreads_of cs)
unfolding feed_calls feed_call update_feed feed_trade spreads_of
feed_calls-spreads [] f past e = e ∙ ap (latest max_spread_history) (sym (append-nil past))
feed_calls-spreads (records_trade p q ∷ cs) f past e =
    feed_calls-spreads cs (feed_trade f p q) past e
feed_calls-spreads (updates_feed b ts ∷ cs) f past e =
    let tob = top_of_book b ts in
    let (now, whole) =
      push_bounded-append max_spread_history past f.spread_history (spreads_of cs) tob.spread e in
    elim (Bool-cases (tob.valid && ltb_ℤ (pos 0) tob.spread)) [
      | inr t ↦ rw t (feed_calls-spreads cs (update_feed f b ts) past (rw t e))
      | inl t ↦ rw t (
          feed_calls-spreads cs (update_feed f b ts) (past ++ tob.spread ∷ []) (rw t now)
          ∙ ap (latest max_spread_history) whole)
    ]

-- The histories of a feed after some calls.
pub record Remembers (cs : List L1Call) (f : L1Feed) : Type 0 where
  pub trades : f.recent_trades ≡ latest max_trade_history (trades_of cs)
  pub spreads : f.spread_history ≡ latest max_spread_history (spreads_of cs)
  pub few_trades : length f.recent_trades ≤ max_trade_history
  pub few_spreads : length f.spread_history ≤ max_spread_history

-- After every sequence of updates and trades on a new feed, its trades are the last 1000 of all,
-- and its spreads the last 500 of those spreads of a valid top of book that were above zero, in
-- their order, and of neither are there more.
pub feed_calls-Remembers : (cs : List L1Call) → Remembers cs (feed_calls cs new_feed)
feed_calls-Remembers cs =
    let f = feed_calls cs new_feed in
    let trades = feed_calls-trades cs new_feed [] refl in
    let spreads = feed_calls-spreads cs new_feed [] refl in
    record {
      trades = trades;
      spreads = spreads;
      few_trades =
          let n = ap length trades in
          omega (arith, n, length-drop (length (trades_of cs) - max_trade_history) (trades_of cs));
      few_spreads =
          let n = ap length spreads in
          omega
            (arith, n, length-drop (length (spreads_of cs) - max_spread_history) (spreads_of cs));
    }
