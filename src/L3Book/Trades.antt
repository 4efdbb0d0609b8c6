-- ===== src/L3Book/Trades.antt =====
-- What `match_incoming` writes into the trades.
use hft_sdk.Base.{
  ==ℤ_iff, All, All-append, Bool-cases, List, [], ap, arith, false, inl, inr, int_laws, length,
  length-append, min_ℤ_cases, min_ℤ_le, pos, refl, suc, sym, true, u64_mod, zero, ℕ, ◌%◌, ◌++◌, ◌+◌,
  ◌<ℤ◌, ◌∙◌, ◌∷◌, ◌≡◌, ◌≤ℤ◌,
}
use hft_sdk.Types.{Order, Price, Symbol, Timestamp, Trade}
use hft_sdk.L3Book.{L3Order, Levels, Ledger, Progress, Book, MatchResult}
use hft_sdk.L3Book.Match.{
  open_qty, drop_done, breaks_at, match_one, match_qty, match_against, record_trade, cannot_fill,
  run_match, match_incoming, opposite, start,
}
use hft_sdk.L3Book.Fills.{ledger-with_opposite}
use hft_sdk.L3Book.Steps.{AllOrders, match_against-inv}

-- A trade of the incoming order `o` in the book of `symbol` at time `ts`, within its limit.
pub record IsFill (symbol : Symbol) (o : Order) (ts : Timestamp) (t : Trade) : Type 0 where
  pub within_limit : breaks_at o t.price ≡ false
  pub incoming : (t.incoming_id ≡ o.id) × (t.incoming_trader ≡ o.trader_id)
  pub aggressor : t.aggressor_side ≡ o.side
  pub of_book : (t.symbol ≡ symbol) × (t.match_timestamp_ns ≡ ts)
  pub positive : pos 0 <ℤ t.qty

-- Consecutive trade ids, on `uint64_t`.
unfoldable pub IdsFrom : ℕ → List Trade → Type 0
IdsFrom n [] = Unit
IdsFrom n (t ∷ ts) = (t.trade_id ≡ n) × IdsFrom ((n + 1) % u64_mod) ts

-- The id after `k` trades.
unfoldable pub id_after : ℕ → ℕ → ℕ
id_after n zero = n
id_after n (suc k) = id_after ((n + 1) % u64_mod) k

-- A resting order has something to offer.
abbrev pub IsOffer : Price → L3Order → Type 0
IsOffer p o = pos 0 <ℤ open_qty o

pub record Good (symbol : Symbol) (o : Order) (ts : Timestamp) (n : ℕ) (s : Progress) : Type 0 where
  pub fills : All (IsFill symbol o ts) s.trades
  pub ids : IdsFrom n s.trades
  pub next : s.next_trade_id ≡ id_after n (length s.trades)
  pub left : pos 0 ≤ℤ s.remaining
  pub most : s.remaining ≤ℤ o.quantity

IdsFrom-snoc :
    (n : ℕ) (ts : List Trade) (t : Trade)
    → IdsFrom n ts
    → t.trade_id ≡ id_after n (length ts)
    → IdsFrom n (ts ++ t ∷ [])
unfolding IdsFrom id_after
IdsFrom-snoc n [] t h e = (e, tt)
IdsFrom-snoc n (x ∷ ts) t h e = (h.0, IdsFrom-snoc ((n + 1) % u64_mod) ts t h.1 e)

id_after-suc : (n k : ℕ) → id_after n (suc k) ≡ (id_after n k + 1) % u64_mod
unfolding id_after
id_after-suc n zero = refl
id_after-suc n (suc k) = id_after-suc ((n + 1) % u64_mod) k

next_trade_id-drop_done :
    (o : L3Order) (g : Ledger) → (drop_done o g).next_trade_id ≡ g.next_trade_id
unfolding drop_done
next_trade_id-drop_done o g = ground arith

length-snoc {ℓ} : {A : Type ℓ} (xs : List A) (x : A) → length (xs ++ x ∷ []) ≡ suc (length xs)
length-snoc xs x = omega (arith, length-append xs (x ∷ []))

module _ (symbol : Symbol) (o : Order) (ts : Timestamp) (n : ℕ) where
  Good-match_one :
      (p : Price) (resting : L3Order) (s : Progress)
      → breaks_at o p ≡ false
      → IsOffer p resting
      → pos 0 <ℤ s.remaining
      → Good symbol o ts n s
      → Good symbol o ts n (match_one symbol o ts p resting s)
  unfolding match_one record_trade
  Good-match_one p resting s h offer some_left g = record {
    fills = All-append _ s.trades _ g.fills (
      record {
        within_limit = h;
        incoming = (refl, refl);
        aggressor = refl;
        of_book = (refl, refl);
        positive = positive;
      },
      tt,
    );
    ids = IdsFrom-snoc n s.trades _ g.ids g.next;
    next =
        next_trade_id-drop_done _ _
        ∙ ap (λ k. (k + 1) % u64_mod) g.next
        ∙ sym (id_after-suc n (length s.trades))
        ∙ ap (id_after n) (sym (length-snoc s.trades _));
    left = let h = min_ℤ_le s.remaining (open_qty resting) in omega int_laws;
    most = let h = positive in omega (int_laws, g.most);
  }
    where
      positive : pos 0 <ℤ match_qty resting s
      positive = elim (min_ℤ_cases s.remaining (open_qty resting)) [
        | inl c ↦ rw c.0 offer
        | inr c ↦ rw c.0 some_left
      ]

  pub match_against-Good :
      (ls : Levels) (s : Progress)
      → AllOrders IsOffer ls
      → Good symbol o ts n s
      → Good symbol o ts n (match_against symbol o ts ls s).1
  match_against-Good = match_against-inv symbol o ts IsOffer (Good symbol o ts n) Good-match_one

-- What the result of `match_incoming` says of its trades and its quantities.
pub record Trades (b : Book) (o : Order) (ts : Timestamp) (b' : Book) (r : MatchResult)
    : Type 0 where
  pub fills : All (IsFill b.symbol o ts) r.trades
  pub ids : IdsFrom b.next_trade_id r.trades
  pub next : b'.next_trade_id ≡ id_after b.next_trade_id (length r.trades)
  pub left : pos 0 ≤ℤ r.remaining_qty
  pub most : r.remaining_qty ≤ℤ o.quantity
  pub filled_flag : r.fully_filled ≡ true → r.remaining_qty ≡ pos 0

-- For an order of non-negative quantity, where all that rests on the opposite side has an open
-- quantity above zero, every trade is within the limit of the order, carries its id, trader and
-- side, the symbol and the time, and has a positive quantity; the trade ids are consecutive on 64
-- bits; the remaining quantity is between zero and the quantity of the order; and an order that is
-- flagged as fully filled has nothing remaining.
pub match_incoming-Trades :
    (b : Book) (o : Order) (ts : Timestamp)
    → pos 0 ≤ℤ o.quantity
    → AllOrders IsOffer (opposite b o.side)
    → let (b', r) = match_incoming b o ts in Trades b o ts b' r
unfolding match_incoming run_match IdsFrom id_after
match_incoming-Trades b o ts h a = elim (Bool-cases (cannot_fill b o)) [
  | inl e ↦ rw e (record {
    fills = tt;
    ids = tt;
    next = refl;
    left = h;
    most = omega arith;
    filled_flag = λ f. cc;
  })
  | inr e ↦
      let g =
        match_against-Good b.symbol o ts b.next_trade_id (opposite b o.side) (start b o) a
          (record { fills = tt; ids = tt; next = refl; left = h; most = omega arith }) in
      rw e (record {
        fills = g.fills;
        ids = g.ids;
        next = rw ledger-with_opposite g.next;
        left = g.left;
        most = g.most;
        filled_flag = (==ℤ_iff _ _).0;
      })
]
