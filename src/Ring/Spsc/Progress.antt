-- ===== src/Ring/Spsc/Progress.antt =====
-- `pop` of `HPRingBuffer.hpp` makes progress: the consumer alone, whatever the producer left undone,
-- takes all that was sent.
use hft_sdk.Base.{
  List, [], ap, arith, length, length-append, refl, suc, sym, zero, ℕ, ◌++◌, ◌+◌, ◌-◌, ◌∙◌, ◌∷◌,
  ◌≡◌, ◌≢◌,
}
use hft_sdk.Ring.{slot}
use hft_sdk.Ring.Slots.{IsSize}
use hft_sdk.Ring.Queue.{same_seq}
use hft_sdk.Ring.Spsc.{
  Consumer, loaded_read, found_item, took_item, Machine, Step, load_read, see_item, read_item,
  store_read, Reach,
}
use hft_sdk.Ring.Spsc.Invariant.{Inv, knows_consumer, Reach-Inv, Step-Inv}
use hft_sdk.Ring.Spsc.Safety.{Inv-Delivered}

append_nil : {A : Type 0} (xs : List A) → xs ++ [] ≡ xs
append_nil [] = refl
append_nil (x ∷ xs) = rw (append_nil xs) refl

nil_of_length : {A : Type 0} (xs : List A) → length xs ≡ 0 → xs ≡ []
nil_of_length [] e = refl
nil_of_length (x ∷ xs) e = absurd (omega arith)

module _ {A : Type 0} (size : ℕ) (blank : A) where
  -- A run of the two threads.
  pub data Run : Machine A → Machine A → Type 0 where
    stays : {m : Machine A} → Run m m
    goes : {m m' m'' : Machine A} → Step size blank m m' → Run m' m'' → Run m m''

  -- The consumer alone takes everything that was sent.
  pub record Drains (m : Machine A) : Type 0 where
    pub final : Machine A
    pub run : Run m final
    pub producer_rests : final.producer ≡ m.producer
    pub same_sent : final.sent ≡ m.sent
    pub all_received : final.received ≡ m.sent

  earlier :
      {m m' : Machine A}
      → Step size blank m m'
      → m'.producer ≡ m.producer
      → m'.sent ≡ m.sent
      → Drains m'
      → Drains m
  earlier s p e d = record {
    final = d.final;
    run = goes s d.run;
    producer_rests = d.producer_rests ∙ p;
    same_sent = d.same_sent ∙ e;
    all_received = d.all_received ∙ e;
  }

  -- Every item but the first `d` from the end was received.
  abbrev Lacks : ℕ → Machine A → Type 0
  Lacks d m = length m.sent ≡ length m.received + d

  module _ (z : IsSize size) (d : ℕ)
      (ih : (m : Machine A) → Inv size blank m → Lacks d m → Drains m) where
    finish_took :
        (m : Machine A) (rs : ℕ) (v : A)
        → m.consumer ≡ took_item rs v
        → Inv size blank m
        → Lacks (suc d) m
        → Drains m
    finish_took m rs v c i l =
        let s = store_read rs v c refl in
        let i' = Step-Inv size blank z s i in
        earlier s refl refl (ih _ i' (omega (arith, l, length-append m.received (v ∷ []))))

    finish_found :
        (m : Machine A) (rs : ℕ)
        → m.consumer ≡ found_item rs
        → Inv size blank m
        → Lacks (suc d) m
        → Drains m
    finish_found m rs c i l =
        let s = read_item rs c refl in
        earlier s refl refl
          (finish_took _ rs (slot size blank m.ring rs) refl (Step-Inv size blank z s i) l)

    finish_loaded :
        (m : Machine A) (rs : ℕ)
        → m.consumer ≡ loaded_read rs
        → Inv size blank m
        → Lacks (suc d) m
        → Drains m
    finish_loaded m rs c i l =
        let k = knows_consumer size blank m (loaded_read rs) i c in
        let apart : rs ≢ m.ring.write_sequence = λ e.
          let q = same_seq size blank m.ring m.sent (length m.received) z i.holds (sym k ∙ e) in
          absurd (omega arith) in
        let s = see_item rs c apart refl in
        earlier s refl refl (finish_found _ rs refl (Step-Inv size blank z s i) l)

    finish_from :
        (m : Machine A) (c : Consumer A)
        → m.consumer ≡ c
        → Inv size blank m
        → Lacks (suc d) m
        → Drains m
    finish_from m Consumer.at_rest c i l =
        let s = load_read c refl in
        earlier s refl refl
          (finish_loaded _ m.ring.read_sequence refl (Step-Inv size blank z s i) l)
    finish_from m (loaded_read rs) c i l = finish_loaded m rs c i l
    finish_from m (found_item rs) c i l = finish_found m rs c i l
    finish_from m (took_item rs v) c i l = finish_took m rs v c i l

  drains : IsSize size → (d : ℕ) (m : Machine A) → Inv size blank m → Lacks d m → Drains m
  drains z zero m i l =
      let e = Inv-Delivered size blank m i in
      let len = ap length e.in_order ∙ length-append m.received e.on_way in
      let nil = nil_of_length e.on_way (omega (arith, len, l)) in
      record {
        final = m;
        run = stays;
        producer_rests = refl;
        same_sent = refl;
        all_received = sym (e.in_order ∙ ap (λ xs. m.received ++ xs) nil ∙ append_nil m.received);
      }
  drains z (suc d) m i l = finish_from z d (drains z d) m m.consumer refl i l

  -- On a ring of a size that is a power of two, from every state that the two threads can reach,
  -- the consumer by its own steps alone, wherever the producer stands, can end up with everything
  -- that was sent.
  pub Reach-Drains : {m : Machine A} → IsSize size → Reach size blank m → Drains m
  Reach-Drains {m} z r =
      let i = Reach-Inv size blank z r in
      let o = i.holds.order in drains z (length m.sent - length m.received) m i (omega arith)
