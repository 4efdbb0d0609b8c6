-- ===== src/L3Book/Fills.antt =====
-- Matching moves quantity and loses none: what the trades take is what the incoming order no longer
-- wants and what the resting orders no longer offer.
use hft_sdk.Base.{
  ==ℤ_iff, Bool-cases, List, [], arith, inl, inr, int_laws, leb_ℤ, ltb_ℤ, map, not, parts_of_eq,
  pos, refl, sum_ℤ, sym, zero-+ℤ, ◌&&◌, ◌++◌, ◌+ℤ◌, ◌-ℤ◌, ◌==ℤ◌, ◌∙◌, ◌∷◌, ◌≡◌,
}
use hft_sdk.Types.{Order, Price, Quantity, Side, Symbol, Timestamp, Trade, buy, sell}
use hft_sdk.L3Book.{L3Order, Levels, Ledger, Book, Progress, MatchResult}
use hft_sdk.L3Book.Match.{
  open_qty, breaks_at, start, with_opposite, take_qty, replenish, resting_after, record_trade,
  match_one, match_queue, match_against, match_incoming, cannot_fill, run_match, opposite,
  match_qty, keep_node, keep_level, drop_done,
}

-- The quantity of a list of trades.
abbrev pub traded : List Trade → Quantity
traded ts = sum_ℤ (map (λ t. t.qty) ts)

-- What a queue and a side still offer.
unfoldable pub queue_open : List L3Order → Quantity
queue_open [] = pos 0
queue_open (o ∷ q) = open_qty o +ℤ queue_open q

unfoldable pub side_open : Levels → Quantity
side_open [] = pos 0
side_open (l ∷ ls) = queue_open l.queue +ℤ side_open ls

pub open_qty-take_qty : (m : Quantity) (o : L3Order) → open_qty (take_qty m o) ≡ open_qty o -ℤ m
unfolding take_qty
open_qty-take_qty m o = elim (Bool-cases (leb_ℤ m o.visible_qty)) [
  | inl e ↦ rw e (omega int_laws)
  | inr e ↦ rw e (omega int_laws)
]

replenish-open :
    (o : L3Order) (m : Quantity) → o.visible_qty ≡ pos 0 → m +ℤ (o.hidden_qty -ℤ m) ≡ open_qty o
replenish-open o m z = rw z (omega int_laws)

pub open_qty-replenish : (o : L3Order) → open_qty (replenish o) ≡ open_qty o
unfolding replenish
open_qty-replenish o =
    elim (Bool-cases (o.visible_qty ==ℤ pos 0 && ltb_ℤ (pos 0) o.hidden_qty && o.is_iceberg)) [
      | inl e ↦ rw e (replenish-open o _ ((==ℤ_iff _ _).0 (ground arith)))
      | inr e ↦ rw e refl
    ]

-- From a supply `a` at `s` to a supply `b` at `t`.
pub record Moves (a : Quantity) (s : Progress) (b : Quantity) (t : Progress) : Type 0 where
  pub demand : t.remaining +ℤ traded t.trades ≡ s.remaining +ℤ traded s.trades
  pub supply : b +ℤ traded t.trades ≡ a +ℤ traded s.trades
  pub volume : t.total_volume +ℤ traded s.trades ≡ s.total_volume +ℤ traded t.trades

Moves-refl : (a : Quantity) (s : Progress) → Moves a s a s
Moves-refl a s = record { demand = refl; supply = refl; volume = refl }

Moves-trans : {a b c : Quantity} {s t u : Progress} → Moves a s b t → Moves b t c u → Moves a s c u
Moves-trans m n = record {
  demand = n.demand ∙ m.demand;
  supply = n.supply ∙ m.supply;
  volume = omega (int_laws, parts_of_eq m.volume, parts_of_eq n.volume);
}

-- The rest of the side stands by.
Moves-frame :
    (r : Quantity) {a b : Quantity} {s t : Progress} → Moves a s b t → Moves (a +ℤ r) s (b +ℤ r) t
Moves-frame r m = record {
  demand = m.demand;
  volume = m.volume;
  supply = omega (int_laws, parts_of_eq m.supply);
}

Moves-frame_left :
    (r : Quantity) {a b : Quantity} {s t : Progress} → Moves a s b t → Moves (r +ℤ a) s (r +ℤ b) t
Moves-frame_left r m = record {
  demand = m.demand;
  volume = m.volume;
  supply = omega (int_laws, parts_of_eq m.supply);
}

-- A change of the ledger that keeps the volume.
pub traded-snoc : (ts : List Trade) (t : Trade) → traded (ts ++ t ∷ []) ≡ traded ts +ℤ t.qty
unfolding sum_ℤ
traded-snoc [] t = omega int_laws
traded-snoc (x ∷ ts) t = rw (traded-snoc ts t) (omega int_laws)

total_volume-drop_done : (o : L3Order) (g : Ledger) → (drop_done o g).total_volume ≡ g.total_volume
unfolding drop_done
total_volume-drop_done o g = ground arith

queue_open-keep_node :
    (o : L3Order) (q : List L3Order) → queue_open (keep_node o q) ≡ open_qty o +ℤ queue_open q
unfolding queue_open
queue_open-keep_node o q = elim (Bool-cases (open_qty o ==ℤ pos 0)) [
  | inl e ↦ rw e (rw ((==ℤ_iff _ _).0 e) (sym (zero-+ℤ _)))
  | inr e ↦ rw e refl
]

side_open-keep_level :
    (p : Price) (q : List L3Order) (ls : Levels)
    → side_open (keep_level p q ls) ≡ queue_open q +ℤ side_open ls
unfolding side_open queue_open
side_open-keep_level p [] ls = sym (zero-+ℤ _)
side_open-keep_level p (o ∷ q) ls = refl

pub open_qty-resting_after :
    (o : L3Order) (s : Progress) → open_qty (resting_after o s) ≡ open_qty o -ℤ match_qty o s
unfolding resting_after
open_qty-resting_after o s = open_qty-replenish _ ∙ open_qty-take_qty _ o

module _ (symbol : Symbol) (incoming : Order) (ts : Timestamp) where
  match_one-Moves :
      (p : Price) (o : L3Order) (s : Progress)
      → Moves (open_qty o) s (open_qty (resting_after o s)) (match_one symbol incoming ts p o s)
  unfolding match_one record_trade
  match_one-Moves p o s = record {
    demand = rw traded-snoc (omega int_laws);
    supply = rw (traded-snoc, open_qty-resting_after o s) (omega int_laws);
    volume = rw (traded-snoc, total_volume-drop_done) (omega int_laws);
  }

  pub match_queue-Moves :
      (p : Price) (q : List L3Order) (s : Progress)
      → let (q', s') = match_queue symbol incoming ts p q s in
        Moves (queue_open q) s (queue_open q') s'
  unfolding match_queue queue_open
  match_queue-Moves p [] s = Moves-refl _ s
  match_queue-Moves p (o ∷ q) s = elim (Bool-cases (ltb_ℤ (pos 0) s.remaining)) [
    | inr e ↦ rw e (Moves-refl _ s)
    | inl e ↦
        rw (e, queue_open-keep_node)
          (Moves-trans (Moves-frame _ (match_one-Moves p o s))
            (Moves-frame_left _ (match_queue-Moves p q _)))
  ]

  pub match_against-Moves :
      (ls : Levels) (s : Progress)
      → let (ls', s') = match_against symbol incoming ts ls s in
        Moves (side_open ls) s (side_open ls') s'
  unfolding match_against side_open
  match_against-Moves [] s = Moves-refl _ s
  match_against-Moves (l ∷ ls) s =
      elim (Bool-cases (ltb_ℤ (pos 0) s.remaining && not (breaks_at incoming l.price))) [
        | inr e ↦ rw e (Moves-refl _ s)
        | inl e ↦
            rw (e, side_open-keep_level)
              (Moves-trans (Moves-frame _ (match_queue-Moves l.price l.queue s))
                (Moves-frame_left _ (match_against-Moves ls _)))
      ]

-- What `match_incoming` does to the quantities of the order and of the book.
pub record Conserves (b : Book) (o : Order) (b' : Book) (r : MatchResult) : Type 0 where
  pub order_side : r.remaining_qty +ℤ traded r.trades ≡ o.quantity
  pub book_side : side_open (opposite b' o.side) +ℤ traded r.trades ≡ side_open (opposite b o.side)
  pub volume : b'.total_volume ≡ b.total_volume +ℤ traded r.trades

pub opposite-with_opposite :
    (b : Book) (s : Side) (ls : Levels) (g : Ledger) → opposite (with_opposite b s ls g) s ≡ ls
opposite-with_opposite b buy ls g = refl
opposite-with_opposite b sell ls g = refl

pub ledger-with_opposite :
    (b : Book) (s : Side) (ls : Levels) (g : Ledger) → (with_opposite b s ls g).ledger ≡ g
ledger-with_opposite b buy ls g = refl
ledger-with_opposite b sell ls g = refl

-- On every book and for every order, the remaining quantity and the traded quantities make up the
-- quantity of the order, the traded quantities are what the opposite side loses in open quantity,
-- and the total volume grows by them.
pub match_incoming-Conserves :
    (b : Book) (o : Order) (ts : Timestamp)
    → let (b', r) = match_incoming b o ts in Conserves b o b' r
unfolding match_incoming run_match sum_ℤ
match_incoming-Conserves b o ts = elim (Bool-cases (cannot_fill b o)) [
  | inl e ↦
      rw e (record {
        order_side = omega int_laws;
        book_side = omega int_laws;
        volume = omega int_laws;
      })
  | inr e ↦
      let m = match_against-Moves b.symbol o ts (opposite b o.side) (start b o) in
      rw e (record {
        order_side = m.demand ∙ omega int_laws;
        book_side = rw opposite-with_opposite (m.supply ∙ omega int_laws);
        volume = rw ledger-with_opposite (omega (int_laws, parts_of_eq m.volume));
      })
]
