-- ===== src/TradeEngine/Positions.antt =====
-- The net quantities that `trade_engine.cpp` keeps.
use hft_sdk.Base.{
  Bool-cases, DoubleOps, [], ap, arith, false, if◌then◌else◌, inl, inr, int_laws, parts_of_eq, pos,
  refl, sym, true, ◌+ℤ◌, ◌-ℤ◌, ◌==◌, ◌↔◌, ◌∙◌, ◌∷◌, ◌≡◌,
}
use hft_sdk.Types.{Price, Quantity, Side, Symbol, TraderId, buy, sell}
use hft_sdk.TradeEngine.{
  Position, TraderSymbolKey, same_key, Positions, find_position, put_position, position_at,
  cover_short, average_buy, close_long, average_sell, fill_position, update_position,
}

-- The signed quantity of a fill.
abbrev pub signed : Side → Quantity → Quantity
signed buy qty = qty
signed sell qty = pos 0 -ℤ qty

pub same_key_iff :
    (k o : TraderSymbolKey)
    → (same_key k o ≡ true) ↔ ((k.trader_id ≡ o.trader_id) × (k.symbol ≡ o.symbol))
unfolding same_key
same_key_iff k o = ground arith

same_key-left : (k o x : TraderSymbolKey) → same_key k o ≡ true → same_key k x ≡ same_key o x
unfolding same_key
same_key-left k o x e = ground arith

-- One key is not the same as two that differ.
same_key_apart :
    (k o x : TraderSymbolKey) → same_key k o ≡ false → same_key k x ≡ true → same_key o x ≡ false
unfolding same_key
same_key_apart k o x e f = ground arith

-- What a quantity under the key `k` counts for a symbol.
unfoldable pub share : Symbol → TraderSymbolKey → Quantity → Quantity
share symbol k q = if k.symbol == symbol then q else pos 0

share-same_key :
    (symbol : Symbol) (k o : TraderSymbolKey) (q : Quantity)
    → same_key k o ≡ true
    → share symbol k q ≡ share symbol o q
unfolding share
share-same_key symbol k o q e =
    ap (λ s. if s == symbol then q else pos 0) ((same_key_iff k o).0 e).1

pub share-+ℤ :
    (symbol : Symbol) (k : TraderSymbolKey) (a b : Quantity)
    → share symbol k (a +ℤ b) ≡ share symbol k a +ℤ share symbol k b
unfolding share
share-+ℤ symbol k a b = elim (Bool-cases (k.symbol == symbol)) [
  | inl e ↦ rw e refl
  | inr e ↦ rw e (omega int_laws)
]

module _ {D : Type 0} (ops : DoubleOps D) where
  pub net_qty-fill_position :
      (s : Side) (qty : Quantity) (price : Price) (p : Position D)
      → (fill_position ops s qty price p).net_qty ≡ p.net_qty +ℤ signed s qty
  unfolding fill_position cover_short average_buy close_long average_sell
  net_qty-fill_position buy qty price p = ground arith
  net_qty-fill_position sell qty price p =
      let e : (average_sell ops qty price (close_long ops qty price p)).net_qty ≡ p.net_qty =
        ground arith in
      rw e (omega int_laws)

  symbol-fill_position :
      (s : Side) (qty : Quantity) (price : Price) (p : Position D)
      → (fill_position ops s qty price p).symbol ≡ p.symbol
  unfolding fill_position cover_short average_buy close_long average_sell
  symbol-fill_position buy qty price p = ground arith
  symbol-fill_position sell qty price p = ground arith

  -- The net quantities of all traders in one symbol, added up.
  unfoldable pub net_in : Symbol → Positions D → Quantity
  net_in symbol [] = pos 0
  net_in symbol ((k, p) ∷ rest) = share symbol k p.net_qty +ℤ net_in symbol rest

  position_at-cons :
      (here k : TraderSymbolKey) (o : Position D) (rest : Positions D)
      → position_at ops ((here, o) ∷ rest) k
        ≡ (if same_key here k then o else position_at ops rest k)
  unfolding position_at find_position
  position_at-cons here k o rest = ground arith

  share-new_position :
      (symbol : Symbol) (k : TraderSymbolKey)
      → share symbol k (position_at ops [] k).net_qty ≡ pos 0
  unfolding share position_at find_position
  share-new_position symbol k = elim (Bool-cases (k.symbol == symbol)) [
    | inl e ↦ rw e refl
    | inr e ↦ rw e refl
  ]

  net_in-put_position :
      (symbol : Symbol) (k : TraderSymbolKey) (p : Position D) (m : Positions D)
      → net_in symbol (put_position k p m) +ℤ share symbol k (position_at ops m k).net_qty
        ≡ net_in symbol m +ℤ share symbol k p.net_qty
  unfolding net_in put_position
  net_in-put_position symbol k p [] = rw (share-new_position symbol k) (omega int_laws)
  net_in-put_position symbol k p ((here, o) ∷ rest) =
      let ih = parts_of_eq (net_in-put_position symbol k p rest) in
      rw (position_at-cons here k o rest) (elim (Bool-cases (same_key here k)) [
        | inl e ↦
            let q = parts_of_eq (share-same_key symbol here k o.net_qty e) in
            let r = parts_of_eq (share-same_key symbol here k p.net_qty e) in
            rw e (omega (int_laws, q, r))
        | inr e ↦ rw e (omega (int_laws, ih))
      ])

  pub position_at-put_position :
      (k o : TraderSymbolKey) (p : Position D) (m : Positions D)
      → position_at ops (put_position k p m) o ≡ (if same_key k o then p else position_at ops m o)
  unfolding put_position
  position_at-put_position k o p [] = position_at-cons k o p []
  position_at-put_position k o p ((here, old) ∷ rest) = elim (Bool-cases (same_key here k)) [
    | inl e ↦ rw e (
        position_at-cons here o p rest
        ∙ rw (position_at-cons here o old rest) (ground (arith, same_key-left here k o e)))
    | inr e ↦ rw e (
        position_at-cons here o old (put_position k p rest)
        ∙ rw (position_at-cons here o old rest, position_at-put_position k o p rest)
            (ground (arith, same_key_apart here k o e)))
  ]

  pub update_position-net_in :
      (symbol : Symbol) (m : Positions D) (t : TraderId) (sym : Symbol) (s : Side) (qty : Quantity)
      (price : Price)
      → net_in symbol (update_position ops m t sym s qty price).0
        ≡ net_in symbol m +ℤ share symbol (record { trader_id = t; symbol = sym }) (signed s qty)
  unfolding update_position
  update_position-net_in symbol m t sym s qty price =
      let k : TraderSymbolKey = record { trader_id = t; symbol = sym } in
      let p = record (position_at ops m k) { symbol = sym } in
      let a = parts_of_eq (net_in-put_position symbol k (fill_position ops s qty price p) m) in
      let b = parts_of_eq (
        ap (share symbol k) (net_qty-fill_position s qty price p)
        ∙ share-+ℤ symbol k p.net_qty (signed s qty)) in
      omega (int_laws, a, b)
