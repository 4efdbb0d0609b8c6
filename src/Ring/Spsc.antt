-- ===== src/Ring/Spsc.antt =====
-- One producer thread and one consumer thread on an `HPRingBuffer`. A step is one access to memory
-- that both threads see, in any interleaving; the accesses are in one total order. The steps are
-- those of `try_push` and `try_pop`, and of the loops of `push` and `pop`, which do them again.
pub mod Invariant
pub mod Safety
pub mod Progress
pub mod Tests
use hft_sdk.Base.{
  Bool, List, [], false, leb, set, true, u64_mod, ℕ, ◌%◌, ◌++◌, ◌+◌, ◌-◌, ◌∷◌, ◌≡◌, ◌≢◌,
}
use hft_sdk.Ring.{HpRingBuffer, distance, new_ring, slot}

-- Where the producer stands in `try_push`, with its local values.
pub data Producer {ℓ} (A : Type ℓ) : Type ℓ where
  at_rest : Producer A
  loaded_write : A → ℕ → Producer A
  found_room : A → ℕ → Producer A
  stored_item : A → ℕ → Producer A

-- Where the consumer stands in `try_pop`, with its local values.
pub data Consumer {ℓ} (A : Type ℓ) : Type ℓ where
  at_rest : Consumer A
  loaded_read : ℕ → Consumer A
  found_item : ℕ → Consumer A
  took_item : ℕ → A → Consumer A

-- The ring, the threads, the items of the pushes that succeeded and the results of the pops.
pub record Machine {ℓ} (A : Type ℓ) : Type ℓ where
  pub ring : HpRingBuffer A
  pub producer : Producer A
  pub consumer : Consumer A
  pub sent : List A
  pub received : List A

module _ {ℓ} {A : Type ℓ} (size : ℕ) (blank : A) where
  abbrev pub new_machine : Machine A
  new_machine = record {
    ring = new_ring size blank;
    producer = Producer.at_rest;
    consumer = Consumer.at_rest;
    sent = [];
    received = [];
  }

  -- `buffer_[ws & mask_] = item`.
  abbrev pub store_item : A → ℕ → HpRingBuffer A → HpRingBuffer A
  store_item x ws r = record r { buffer = set r.buffer (ws % size) x }

  abbrev pub sees_full : ℕ → HpRingBuffer A → Bool
  sees_full ws r = leb (size - 1) (distance ws r.read_sequence)

  pub data Step (m m' : Machine A) : Type ℓ where
    load_write :
        (x : A)
        → m.producer ≡ Producer.at_rest
        → m' ≡ record m { producer = loaded_write x m.ring.write_sequence }
        → Step m m'
    see_full :
        (x : A) (ws : ℕ)
        → m.producer ≡ loaded_write x ws
        → sees_full ws m.ring ≡ true
        → m' ≡ record m { producer = Producer.at_rest }
        → Step m m'
    see_room :
        (x : A) (ws : ℕ)
        → m.producer ≡ loaded_write x ws
        → sees_full ws m.ring ≡ false
        → m' ≡ record m { producer = found_room x ws }
        → Step m m'
    write_item :
        (x : A) (ws : ℕ)
        → m.producer ≡ found_room x ws
        → m' ≡ record m { ring = store_item x ws m.ring; producer = stored_item x ws }
        → Step m m'
    store_write :
        (x : A) (ws : ℕ)
        → m.producer ≡ stored_item x ws
        → m' ≡ record m {
          ring = record (m.ring) { write_sequence = (ws + 1) % u64_mod };
          producer = Producer.at_rest;
          sent = m.sent ++ x ∷ [];
        }
        → Step m m'
    load_read :
        m.consumer ≡ Consumer.at_rest
        → m' ≡ record m { consumer = loaded_read m.ring.read_sequence }
        → Step m m'
    see_empty :
        (rs : ℕ)
        → m.consumer ≡ loaded_read rs
        → rs ≡ m.ring.write_sequence
        → m' ≡ record m { consumer = Consumer.at_rest }
        → Step m m'
    see_item :
        (rs : ℕ)
        → m.consumer ≡ loaded_read rs
        → rs ≢ m.ring.write_sequence
        → m' ≡ record m { consumer = found_item rs }
        → Step m m'
    read_item :
        (rs : ℕ)
        → m.consumer ≡ found_item rs
        → m' ≡ record m { consumer = took_item rs (slot size blank m.ring rs) }
        → Step m m'
    store_read :
        (rs : ℕ) (v : A)
        → m.consumer ≡ took_item rs v
        → m' ≡ record m {
          ring = record (m.ring) { read_sequence = (rs + 1) % u64_mod };
          consumer = Consumer.at_rest;
          received = m.received ++ v ∷ [];
        }
        → Step m m'

  -- The machines that the two threads may reach from a new ring.
  pub data Reach : Machine A → Type ℓ where
    fresh : Reach new_machine
    step : {m m' : Machine A} → Reach m → Step m m' → Reach m'
