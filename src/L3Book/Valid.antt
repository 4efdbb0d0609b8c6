-- ===== src/L3Book/Valid.antt =====
-- The invariant of a book. Its parts speak of the two sides, of the index, of the counts, and of the
-- prices of the two sides against one another.
pub mod Matching
pub mod Resting
pub mod Cancelling
pub mod Adding
use hft_sdk.Base.{
  All, Option, arith, if◌then◌else◌, lookup, ltb, refl, u64_mod, ◌%◌, ◌+◌, ◌<ℤ◌, ◌≡◌, ◌≤◌,
}
use hft_sdk.Types.{OrderId, Symbol, buy, sell}
use hft_sdk.L3Book.{Level, Levels, Location, Book, init}
use hft_sdk.L3Book.Sides.{IsSide}
use hft_sdk.L3Book.Locate.{occurs, locate}
use hft_sdk.L3Book.Counts.{size}

-- Where the order stands, on either side.
abbrev pub locate_in : Book → OrderId → Option Location
locate_in b i = if ltb 0 (occurs i b.bids) then locate buy i b.bids else locate sell i b.asks

-- Every bid is below every ask.
abbrev pub Uncrossed : Levels → Levels → Type 0
Uncrossed bids asks = All (λ a. All (λ b. b.price <ℤ a.price) bids) asks

pub record IsValid (b : Book) : Type 0 where
  pub bids_side : IsSide buy b.bids
  pub asks_side : IsSide sell b.asks
  pub unique : (i : OrderId) → occurs i b.bids + occurs i b.asks ≤ 1
  pub indexed : (i : OrderId) → lookup i b.order_index ≡ locate_in b i
  pub bid_count : b.bid_order_count ≡ size b.bids % u64_mod
  pub ask_count : b.ask_order_count ≡ size b.asks % u64_mod
  pub uncrossed : Uncrossed b.bids b.asks

pub init-IsValid : (symbol : Symbol) → IsValid (init symbol)
unfolding init occurs locate size lookup
init-IsValid symbol = record {
  bids_side = tt;
  asks_side = tt;
  unique = λ i. omega arith;
  indexed = λ i. ground arith;
  bid_count = refl;
  ask_count = refl;
  uncrossed = tt;
}
