-- ===== src/TradeEngine/Balance.antt =====
-- What a trade does to the positions of `trade_engine.cpp`.
use hft_sdk.Base.{
  Bool-cases, DoubleOps, List, Option, [], ap, false, if◌then◌else◌, inl, inr, int_laws, map, none,
  parts_of_eq, pos, refl, some, sum_ℤ, sym, true, u64_mod, zero-+ℤ, ◌%◌, ◌+ℤ◌, ◌+◌, ◌==◌, ◌∙◌, ◌∷◌,
  ◌≡◌,
}
use hft_sdk.Types.{Price, Quantity, Side, Symbol, Trade, TraderId, buy, sell}
use hft_sdk.TradeEngine.{
  Position, TraderSymbolKey, same_key, Positions, find_position, TradeEngine, new_trade_engine,
  position_at, fill_position, update_position, passive_side, process_trade, mark, mark_all,
  mark_to_market,
}
use hft_sdk.TradeEngine.Positions.{
  signed, share, net_qty-fill_position, net_in, position_at-put_position, update_position-net_in,
  same_key_iff,
}

abbrev key_of : TraderId → Trade → TraderSymbolKey
key_of trader t = record { trader_id = trader; symbol = t.symbol }

key_path : (k o : TraderSymbolKey) → same_key k o ≡ true → k ≡ o
key_path k o e =
    let (a, b) = (same_key_iff k o).0 e in λ i. record { trader_id = a i; symbol = b i }

-- The two sides of a trade cancel out.
opposite_fills :
    (symbol : Symbol) (a b : TraderId) (t : Trade) (s : Side)
    → share symbol (key_of a t) (signed s t.qty)
        +ℤ share symbol (key_of b t) (signed (passive_side s) t.qty)
      ≡ pos 0
unfolding share
opposite_fills symbol a b t buy = elim (Bool-cases (t.symbol == symbol)) [
  | inl e ↦ rw e (omega int_laws)
  | inr e ↦ rw e (omega int_laws)
]
opposite_fills symbol a b t sell = elim (Bool-cases (t.symbol == symbol)) [
  | inl e ↦ rw e (omega int_laws)
  | inr e ↦ rw e (omega int_laws)
]

module _ {D : Type 0} (ops : DoubleOps D) where
  -- The change of the position under `o` by a fill of the trader in the trade.
  unfoldable pub change : TraderId → Trade → Side → TraderSymbolKey → Quantity
  change trader t s o = if same_key (key_of trader t) o then signed s t.qty else pos 0

  net_qty-update_position :
      (m : Positions D) (trader : TraderId) (t : Trade) (s : Side) (o : TraderSymbolKey)
      → (position_at ops (update_position ops m trader t.symbol s t.qty t.price).0 o).net_qty
        ≡ (position_at ops m o).net_qty +ℤ change trader t s o
  unfolding update_position change
  net_qty-update_position m trader t s o =
      let k = key_of trader t in
      let p = record (position_at ops m k) { symbol = t.symbol } in
      rw (position_at-put_position ops k o (fill_position ops s t.qty t.price p) m)
        (elim (Bool-cases (same_key k o)) [
          | inr e ↦ rw e (omega int_laws)
          | inl e ↦ rw e (
              net_qty-fill_position ops s t.qty t.price p
              ∙ ap (λ x. (position_at ops m x).net_qty +ℤ signed s t.qty) (key_path k o e))
        ])

  -- What becomes of an engine that processes a trade.
  pub record Settles (e : TradeEngine D) (t : Trade) (e' : TradeEngine D) : Type 0 where
    pub positions :
        (o : TraderSymbolKey)
        → (position_at ops e'.positions o).net_qty
          ≡ (position_at ops e.positions o).net_qty
            +ℤ change t.incoming_trader t t.aggressor_side o
            +ℤ change t.resting_trader t (passive_side t.aggressor_side) o
    pub zero_sum :
        (symbol : Symbol) → net_in ops symbol e'.positions ≡ net_in ops symbol e.positions
    pub volume : e'.total_volume ≡ e.total_volume +ℤ t.qty
    pub count : e'.total_trades ≡ (e.total_trades + 1) % u64_mod

  -- A trade moves the net position of its incoming trader in its symbol by its quantity to its
  -- side, and that of its resting trader to the other, also where they are the same trader, and no
  -- other net position; the net positions in a symbol keep their sum; the volume grows by the
  -- quantity and the count by one.
  pub process_trade-Settles :
      (e : TradeEngine D) (t : Trade) → Settles e t (process_trade ops e t).0
  unfolding process_trade
  process_trade-Settles e t =
      let m1 =
        (update_position ops e.positions t.incoming_trader t.symbol t.aggressor_side t.qty
          t.price).0 in
      let d = passive_side t.aggressor_side in
      record {
        positions = λ o.
            net_qty-update_position m1 t.resting_trader t d o
            ∙ ap (λ x. x +ℤ change t.resting_trader t d o)
                (net_qty-update_position e.positions t.incoming_trader t t.aggressor_side o);
        zero_sum = λ s.
            let a =
              parts_of_eq
                (update_position-net_in ops s m1 t.resting_trader t.symbol d t.qty t.price) in
            let b = parts_of_eq (
              update_position-net_in ops s e.positions t.incoming_trader t.symbol t.aggressor_side
                t.qty t.price) in
            let c =
              parts_of_eq
                (opposite_fills s t.incoming_trader t.resting_trader t t.aggressor_side) in
            omega (int_laws, a, b, c);
        volume = refl;
        count = refl;
      }

  unfoldable pub process_trades : TradeEngine D → List Trade → TradeEngine D
  process_trades e [] = e
  process_trades e (t ∷ ts) = process_trades (process_trade ops e t).0 ts

  process_trades-net_in :
      (symbol : Symbol) (e : TradeEngine D) (ts : List Trade)
      → net_in ops symbol (process_trades e ts).positions ≡ net_in ops symbol e.positions
  unfolding process_trades
  process_trades-net_in symbol e [] = refl
  process_trades-net_in symbol e (t ∷ ts) =
      process_trades-net_in symbol (process_trade ops e t).0 ts
      ∙ (process_trade-Settles e t).zero_sum symbol

  process_trades-volume :
      (e : TradeEngine D) (ts : List Trade)
      → (process_trades e ts).total_volume ≡ e.total_volume +ℤ sum_ℤ (map (λ t. t.qty) ts)
  unfolding process_trades sum_ℤ
  process_trades-volume e [] = omega int_laws
  process_trades-volume e (t ∷ ts) =
      let h = parts_of_eq (process_trades-volume (process_trade ops e t).0 ts) in
      let v = parts_of_eq (process_trade-Settles e t).volume in omega (int_laws, h, v)

  -- What a new engine keeps of any trades.
  pub record Squared (ts : List Trade) (e : TradeEngine D) : Type 0 where
    pub flat : (symbol : Symbol) → net_in ops symbol e.positions ≡ pos 0
    pub volume : e.total_volume ≡ sum_ℤ (map (λ t. t.qty) ts)

  -- After every sequence of trades on a new engine, the net positions in each symbol sum up to
  -- zero, and the volume is the sum of the quantities.
  pub process_trades-Squared :
      (ts : List Trade) → Squared ts (process_trades (new_trade_engine ops) ts)
  unfolding net_in
  process_trades-Squared ts = record {
    flat = λ s. process_trades-net_in s (new_trade_engine ops) ts;
    volume = process_trades-volume (new_trade_engine ops) ts ∙ zero-+ℤ _;
  }

  -- Marking to market, position by position.
  abbrev pub marked : Symbol → Price → TraderSymbolKey → Option (Position D) → Option (Position D)
  marked symbol current k none = none
  marked symbol current k (some p) = some (if k.symbol == symbol then mark ops current p else p)

  find-mark_all :
      (symbol : Symbol) (current : Price) (k : TraderSymbolKey) (m : Positions D)
      → find_position k (mark_all ops symbol current m)
        ≡ marked symbol current k (find_position k m)
  unfolding find_position mark_all
  find-mark_all symbol current k [] = refl
  find-mark_all symbol current k ((here, p) ∷ m) =
      let ih = find-mark_all symbol current k m in
      elim (Bool-cases (same_key here k)) [
        | inl e ↦
            let s = ((same_key_iff here k).0 e).1 in
            elim (Bool-cases (here.symbol == symbol)) [
              | inl f ↦
                  let g : (k.symbol == symbol) ≡ true = ap (λ x. x == symbol) (sym s) ∙ f in
                  rw f (rw e (rw g refl))
              | inr f ↦
                  let g : (k.symbol == symbol) ≡ false = ap (λ x. x == symbol) (sym s) ∙ f in
                  rw f (rw e (rw g refl))
            ]
        | inr e ↦ elim (Bool-cases (here.symbol == symbol)) [
          | inl f ↦ rw f (rw e ih)
          | inr f ↦ rw f (rw e ih)
        ]
      ]

  -- Marking a symbol to market marks the position of every trader in that symbol by the given
  -- price, and leaves every other position, and which positions there are.
  mark_to_market-marked :
      (e : TradeEngine D) (symbol : Symbol) (current : Price) (k : TraderSymbolKey)
      → find_position k (mark_to_market ops e symbol current).positions
        ≡ marked symbol current k (find_position k e.positions)
  unfolding mark_to_market
  mark_to_market-marked e symbol current k = find-mark_all symbol current k e.positions
