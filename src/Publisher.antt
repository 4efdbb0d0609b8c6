-- ===== src/Publisher.antt =====
-- The publisher of `src/market/market_data_publisher.cpp`. A handler is a number, and a call of a handler
-- is the handler with what it is given; `none` is an empty `std::function`, which is not called.
use hft_sdk.Base.{List, Option, none, refl, some, sym, ℕ, ◌≡◌}
use hft_sdk.Types.{BookLevel, SymbolId, TopOfBook, Trade}

pub record MarketDataPublisher : Type 0 where
  pub tob_handler : Option ℕ
  pub trade_handler : Option ℕ
  pub depth_handler : Option ℕ

abbrev pub new_publisher : MarketDataPublisher
new_publisher = record { tob_handler = none; trade_handler = none; depth_handler = none }

abbrev pub on_top_of_book : ℕ → MarketDataPublisher → MarketDataPublisher
on_top_of_book cb p = record p { tob_handler = some cb }

abbrev pub on_published_trade : ℕ → MarketDataPublisher → MarketDataPublisher
on_published_trade cb p = record p { trade_handler = some cb }

abbrev pub on_depth_snapshot : ℕ → MarketDataPublisher → MarketDataPublisher
on_depth_snapshot cb p = record p { depth_handler = some cb }

-- `if (handler) handler(x)`.
unfoldable pub call_handler : {A : Type 0} → Option ℕ → A → Option (ℕ × A)
call_handler none x = none
call_handler (some cb) x = some (cb, x)

abbrev pub publish_top_of_book : MarketDataPublisher → TopOfBook → Option (ℕ × TopOfBook)
publish_top_of_book p tob = call_handler p.tob_handler tob

abbrev pub publish_trade : MarketDataPublisher → Trade → Option (ℕ × Trade)
publish_trade p t = call_handler p.trade_handler t

abbrev pub publish_depth :
    MarketDataPublisher
    → SymbolId
    → List BookLevel
    → List BookLevel
    → Option (ℕ × (SymbolId × List BookLevel × List BookLevel))
publish_depth p sym bids asks = call_handler p.depth_handler (sym, bids, asks)

-- The handler set last is the one that is called, and setting another kind of handler leaves it.
publish_top_of_book-on_top_of_book :
    (p : MarketDataPublisher) (first last other : ℕ) (tob : TopOfBook)
    → publish_top_of_book
        (on_published_trade other (on_top_of_book last (on_top_of_book first p)))
        tob
      ≡ some (last, tob)
unfolding call_handler
publish_top_of_book-on_top_of_book p first last other tob = refl
