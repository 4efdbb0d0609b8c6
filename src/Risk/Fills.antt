-- ===== src/Risk/Fills.antt =====
-- The positions that `risk_engine.cpp` keeps: `on_fill` and the position limits.
use hft_sdk.Base.{
  ==_iff, Bool-cases, List, [], abs_ℤ, arith, if◌then◌else◌, inl, inr, insert, int_laws, lookup,
  lookup-insert, ltb_ℤ, ltb_ℤ-false, ltb_ℤ-true, map, parts_of_eq, pos, refl, sum_ℤ, ℤ, ◌&&◌, ◌+ℤ◌,
  ◌-ℤ◌, ◌==◌, ◌↔◌, ◌∙◌, ◌∷◌, ◌≡◌, ◌≤ℤ◌,
}
use hft_sdk.Types.{Order, Quantity, Side, Symbol, TraderId, buy, no_reason, sell}
use hft_sdk.Risk.{
  RiskEngine, get_limits, get_state, put_state, position, moved, get_position, check_order, on_fill,
  or_else, new_engine,
}
use hft_sdk.Risk.Maps.{get_state-put_state, get_position-get_state}
use hft_sdk.Risk.Orders.{check_order-IsAcceptable}
use hft_sdk.Risk.Effects.{check_order-CheckEffects}

-- The state of the trader after a fill.
state-on_fill :
    (r : RiskEngine) (t : TraderId) (s : Symbol) (d : Side) (q : Quantity) (u : TraderId)
    → get_state (on_fill r t s d q) u ≡ (
        if t == u
        then record (get_state r t) {
          positions = insert s (moved d (position (get_state r t) s) q) (get_state r t).positions;
          net_position = moved d (get_state r t).net_position q;
        }
        else get_state r u)
unfolding on_fill
state-on_fill r t s d q u = get_state-put_state t u _ r

-- A fill moves the position of its trader in its symbol by its quantity, up for a buy and down for
-- a sell, and no other position.
pub get_position-on_fill :
    (r : RiskEngine) (t : TraderId) (s : Symbol) (d : Side) (q : Quantity) (u : TraderId)
    (s' : Symbol)
    → get_position (on_fill r t s d q) u s'
      ≡ (if t == u && s == s' then moved d (get_position r u s') q else get_position r u s')
unfolding position
get_position-on_fill r t s d q u s' =
    let st = get_state r t in
    ground (
      arith,
      get_position-get_state r u s',
      get_position-get_state (on_fill r t s d q) u s',
      state-on_fill r t s d q u,
      lookup-insert s s' (moved d (position st s) q) st.positions,
    )

sum-insert :
    (s : Symbol) (p : Quantity) (m : List (Symbol × Quantity))
    → sum_ℤ (map (λ x. x.1) (insert s p m)) +ℤ or_else (pos 0) (lookup s m)
      ≡ sum_ℤ (map (λ x. x.1) m) +ℤ p
unfolding insert lookup sum_ℤ
sum-insert s p [] = omega int_laws
sum-insert s p ((i, x) ∷ m) = elim (Bool-cases (i == s)) [
  | inl e ↦ rw e (omega int_laws)
  | inr e ↦ rw e (omega (int_laws, parts_of_eq (sum-insert s p m)))
]

abs_le : (a m : ℤ) → (abs_ℤ a ≤ℤ m) ↔ ((a ≤ℤ m) × (pos 0 ≤ℤ m +ℤ a))
unfolding abs_ℤ
abs_le a m = elim (Bool-cases (ltb_ℤ a (pos 0))) [
  | inl e ↦
      let z = ltb_ℤ-true a (pos 0) e in
      rw e
        (λ h. (omega int_laws, omega int_laws), λ h. let h0 = h.0 in let h1 = h.1 in omega int_laws)
  | inr e ↦
      let z = ltb_ℤ-false a (pos 0) e in
      rw e (λ h. (omega int_laws, omega int_laws), λ h. let h0 = h.0 in omega int_laws)
]

-- A part of a move that ends within limits ends within limits.
moved-within :
    (d : Side) (p q n most : Quantity)
    → pos 0 ≤ℤ q
    → q ≤ℤ n
    → abs_ℤ p ≤ℤ most
    → abs_ℤ (moved d p n) ≤ℤ most
    → abs_ℤ (moved d p q) ≤ℤ most
unfolding moved
moved-within buy p q n most a b h k =
    let (x0, x1) = (abs_le p most).0 h in
    let (y0, y1) = (abs_le (p +ℤ n) most).0 k in
    (abs_le (p +ℤ q) most).1 (omega int_laws, omega int_laws)
moved-within sell p q n most a b h k =
    let (x0, x1) = (abs_le p most).0 h in
    let (y0, y1) = (abs_le (p -ℤ n) most).0 k in
    (abs_le (p -ℤ q) most).1 (omega int_laws, omega int_laws)

-- The position of the trader of an order in its symbol, and its net position, are within its limits.
pub record IsWithin (r : RiskEngine) (t : TraderId) (s : Symbol) : Type 0 where
  pub in_symbol : abs_ℤ (get_position r t s) ≤ℤ (get_limits r t).max_position_per_symbol
  pub net : abs_ℤ (get_state r t).net_position ≤ℤ (get_limits r t).max_net_position

get_limits-on_fill :
    (r : RiskEngine) (t : TraderId) (s : Symbol) (d : Side) (q : Quantity) (u : TraderId)
    → get_limits (on_fill r t s d q) u ≡ get_limits r u
unfolding get_limits on_fill put_state
get_limits-on_fill r t s d q u = refl

-- The positions of the trader of an order after the check and a fill.
filled_position :
    (r : RiskEngine) (o : Order) (q : Quantity)
    → let r' = on_fill (check_order r o).0 o.trader_id o.symbol o.side q in
      (get_position r' o.trader_id o.symbol
        ≡ moved o.side (position (get_state r o.trader_id) o.symbol) q)
      × ((get_state r' o.trader_id).net_position
          ≡ moved o.side (get_state r o.trader_id).net_position q)
unfolding position
filled_position r o q =
    let t = o.trader_id in
    let s = o.symbol in
    let x = (check_order r o).0 in
    let same = (check_order-CheckEffects r o).same in
    let et = (==_iff t t).1 refl in
    let es = (==_iff s s).1 refl in
    (
      ground (
        arith,
        get_position-on_fill x t s o.side q t s,
        get_position-get_state x t s,
        same.positions t,
        et,
        es,
      ),
      ground (arith, state-on_fill x t s o.side q t, same.net_positions t, et),
    )

-- After an order of a trader whose positions are within the limits has passed the checks, a fill
-- of the order, whole or in part, leaves the trader's position in the symbol and net position
-- within the limits.
pub check_order-on_fill :
    (r : RiskEngine) (o : Order) (q : Quantity)
    → IsWithin r o.trader_id o.symbol
    → (check_order r o).1 ≡ no_reason
    → pos 0 ≤ℤ q
    → q ≤ℤ o.quantity
    → IsWithin (on_fill (check_order r o).0 o.trader_id o.symbol o.side q) o.trader_id o.symbol
check_order-on_fill r o q w e h k =
    let t = o.trader_id in
    let a = (check_order-IsAcceptable r o).0 e in
    let (p, n) = filled_position r o q in
    let l =
      get_limits-on_fill (check_order r o).0 t o.symbol o.side q t
      ∙ (check_order-CheckEffects r o).same.limits t in
    let before = rw (get_position-get_state r t o.symbol) at w.in_symbol in
    record {
      in_symbol =
          rw (p, l)
            (moved-within o.side (position (get_state r t) o.symbol) q o.quantity _ h k before
              a.position_room);
      net =
          rw (n, l)
            (moved-within o.side (get_state r t).net_position q o.quantity _ h k w.net a.net_room);
    }

-- Every net position is the sum of the positions of its trader.
pub record IsBalanced (r : RiskEngine) : Type 0 where
  pub balanced :
      (t : TraderId)
      → (get_state r t).net_position ≡ sum_ℤ (map (λ x. x.1) (get_state r t).positions)

pub new_engine-IsBalanced : IsBalanced new_engine
unfolding get_state lookup sum_ℤ
new_engine-IsBalanced = record { balanced = λ t. refl }

moved-balanced :
    (d : Side) (net q : Quantity) (s : Symbol) (m : List (Symbol × Quantity))
    → net ≡ sum_ℤ (map (λ x. x.1) m)
    → moved d net q ≡ sum_ℤ (map (λ x. x.1) (insert s (moved d (or_else (pos 0) (lookup s m)) q) m))
unfolding moved
moved-balanced buy net q s m e =
    let p = or_else (pos 0) (lookup s m) in
    omega (int_laws, parts_of_eq e, parts_of_eq (sum-insert s (p +ℤ q) m))
moved-balanced sell net q s m e =
    let p = or_else (pos 0) (lookup s m) in
    omega (int_laws, parts_of_eq e, parts_of_eq (sum-insert s (p -ℤ q) m))

-- If every trader's net position is the sum of the trader's positions, a fill keeps it so.
pub on_fill-IsBalanced :
    (r : RiskEngine) (t : TraderId) (s : Symbol) (d : Side) (q : Quantity)
    → IsBalanced r
    → IsBalanced (on_fill r t s d q)
unfolding position
on_fill-IsBalanced r t s d q i = record {
  balanced = λ u. rw (state-on_fill r t s d q u) (elim (Bool-cases (t == u)) [
    | inr e ↦ rw e (i.balanced u)
    | inl e ↦ rw e (moved-balanced d _ q s _ (i.balanced t))
  ]);
}

pub check_order-IsBalanced :
    (r : RiskEngine) (o : Order) → IsBalanced r → IsBalanced (check_order r o).0
check_order-IsBalanced r o i =
    let s = (check_order-CheckEffects r o).same in
    record { balanced = λ t. rw (s.positions t, s.net_positions t) (i.balanced t) }
