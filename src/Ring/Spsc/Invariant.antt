-- ===== src/Ring/Spsc/Invariant.antt =====
-- What every interleaving of the producer and the consumer of `HPRingBuffer.hpp` keeps.
use hft_sdk.Base.{
  ==_iff, Bool-cases, List, [], ap, arith, false, get_or, inl, inr, length, length-append,
  length-set, ltb, refl, set, subst, sym, u64_mod, ℕ, ◌%◌, ◌++◌, ◌+◌, ◌-◌, ◌<◌, ◌==◌, ◌∙◌, ◌∷◌, ◌≡◌,
  ◌≢◌, ◌≤◌,
}
use hft_sdk.Ring.{HpRingBuffer, distance}
use hft_sdk.Ring.Slots.{next_sequence, IsSize, slot_of_sequence}
use hft_sdk.Ring.Queue.{
  Holds, new_ring-Holds, pending, put_slot, set-items, get_or-snoc_lt, get_or-snoc_end,
}
use hft_sdk.Ring.Spsc.{
  Producer, loaded_write, found_room, stored_item, Consumer, loaded_read, found_item, took_item,
  Machine, new_machine, store_item, sees_full, Step, load_write, see_full, see_room, write_item,
  store_write, load_read, see_empty, see_item, read_item, store_read, Reach, fresh, step,
}

module _ {A : Type 0} (size : ℕ) (blank : A) where
  -- What the local values of the producer say of the shared ones.
  abbrev pub ProducerKnows : HpRingBuffer A → List A → ℕ → Producer A → Type 0
  ProducerKnows r sent n Producer.at_rest = Unit
  ProducerKnows r sent n (loaded_write x ws) = ws ≡ r.write_sequence
  ProducerKnows r sent n (found_room x ws) =
      (ws ≡ r.write_sequence) × (length sent < n + (size - 1))
  ProducerKnows r sent n (stored_item x ws) =
      (ws ≡ r.write_sequence)
      × (length sent < n + (size - 1))
      × (get_or r.buffer (length sent % size) blank ≡ x)

  -- What the local values of the consumer say of the shared ones.
  abbrev pub ConsumerKnows : HpRingBuffer A → List A → ℕ → Consumer A → Type 0
  ConsumerKnows r sent n Consumer.at_rest = Unit
  ConsumerKnows r sent n (loaded_read rs) = rs ≡ r.read_sequence
  ConsumerKnows r sent n (found_item rs) = (rs ≡ r.read_sequence) × (n < length sent)
  ConsumerKnows r sent n (took_item rs v) =
      (rs ≡ r.read_sequence) × (n < length sent) × (v ≡ get_or sent n blank)

  pub record Inv (m : Machine A) : Type 0 where
    pub holds : Holds size blank m.ring m.sent (length m.received)
    pub prefix : (k : ℕ) → k < length m.received → get_or m.received k blank ≡ get_or m.sent k blank
    pub producing : ProducerKnows m.ring m.sent (length m.received) m.producer
    pub consuming : ConsumerKnows m.ring m.sent (length m.received) m.consumer

  pub new_machine-Inv : Inv (new_machine size blank)
  new_machine-Inv = record {
    holds = new_ring-Holds size blank;
    prefix = λ k h. absurd (omega arith);
    producing = tt;
    consuming = tt;
  }

  -- The write of an item after the pending ones.
  store_item-Holds :
      (x : A) (ws : ℕ) (r : HpRingBuffer A) (sent : List A) (n : ℕ)
      → IsSize size
      → Holds size blank r sent n
      → ws ≡ r.write_sequence
      → length sent < n + (size - 1)
      → Holds size blank (store_item size blank x ws r) sent n
        × (get_or (store_item size blank x ws r).buffer (length sent % size) blank ≡ x)
  store_item-Holds x ws r sent n z h e l =
      let s : ws % size ≡ length sent % size =
        ap (λ i. i % size) e ∙ put_slot size blank r sent n z h in
      let order = h.order in
      let at : (k : ℕ)
          → n ≤ k
          → k < length sent + 1
          → get_or (store_item size blank x ws r).buffer (k % size) blank
            ≡ get_or (sent ++ x ∷ []) k blank =
        λ k i j. rw s (set-items size blank x r sent n z h l k i j) in
      (
        record {
          written = h.written;
          read = h.read;
          order = h.order;
          room = h.room;
          cells = length-set r.buffer (ws % size) x ∙ h.cells;
          items = λ k i j. at k i (omega arith) ∙ get_or-snoc_lt sent x k blank j;
        },
        at (length sent) h.order (omega arith) ∙ get_or-snoc_end sent x blank,
      )

  -- The item is published.
  store_write-Holds :
      (x : A) (ws : ℕ) (r : HpRingBuffer A) (sent : List A) (n : ℕ)
      → Holds size blank r sent n
      → ProducerKnows r sent n (stored_item x ws)
      → Holds size blank (record r { write_sequence = (ws + 1) % u64_mod }) (sent ++ x ∷ []) n
  store_write-Holds x ws r sent n h (e, l, at) =
      let len = length-append sent (x ∷ []) in
      let order = h.order in
      record {
        written = rw (e, h.written, len) (next_sequence (length sent));
        read = h.read;
        order = omega (arith, len);
        room = omega (arith, len);
        cells = h.cells;
        items = λ k i j. elim (Bool-cases (k == length sent)) [
          | inl f ↦ rw ((==_iff k (length sent)).0 f) (at ∙ sym (get_or-snoc_end sent x blank))
          | inr f ↦
              let lt : k < length sent = ground (arith, len) in
              h.items k i lt ∙ sym (get_or-snoc_lt sent x k blank lt)
        ];
      }

  -- The slot of the item is given back.
  store_read-Holds :
      (rs : ℕ) (r : HpRingBuffer A) (sent : List A) (n : ℕ)
      → Holds size blank r sent n
      → rs ≡ r.read_sequence
      → n < length sent
      → Holds size blank (record r { read_sequence = (rs + 1) % u64_mod }) sent (n + 1)
  store_read-Holds rs r sent n h e l =
      let room = h.room in
      record {
        written = h.written;
        read = rw (e, h.read) (next_sequence n);
        order = omega arith;
        room = omega arith;
        cells = h.cells;
        items = λ k i j. h.items k (omega arith) j;
      }

  -- A test that finds room is right, since the consumer only makes more.
  seen_room :
      (ws : ℕ) (r : HpRingBuffer A) (sent : List A) (n : ℕ)
      → IsSize size
      → Holds size blank r sent n
      → ws ≡ r.write_sequence
      → sees_full size blank ws r ≡ false
      → length sent < n + (size - 1)
  seen_room ws r sent n z h e f =
      let p : distance ws r.read_sequence ≡ length sent - n =
        ap (λ i. distance i r.read_sequence) e ∙ pending size blank r sent n z h in
      ground arith

  -- So is a test that finds an item, since the producer only adds some.
  seen_item :
      (rs : ℕ) (r : HpRingBuffer A) (sent : List A) (n : ℕ)
      → Holds size blank r sent n
      → rs ≡ r.read_sequence
      → rs ≢ r.write_sequence
      → n < length sent
  seen_item rs r sent n h e f = elim (Bool-cases (ltb n (length sent))) [
    | inl g ↦ ground arith
    | inr g ↦
        let order = h.order in
        let q : n ≡ length sent = ground arith in
        absurd (f (e ∙ h.read ∙ ap (λ i. i % u64_mod) q ∙ sym h.written))
  ]

  -- A producer keeps what it knows while the consumer gives a slot back, and the consumer while the
  -- producer publishes an item.
  producer_frame :
      (rs : ℕ) (r : HpRingBuffer A) (sent : List A) (n : ℕ) (p : Producer A)
      → ProducerKnows r sent n p
      → ProducerKnows (record r { read_sequence = rs }) sent (n + 1) p
  producer_frame rs r sent n Producer.at_rest k = tt
  producer_frame rs r sent n (loaded_write x ws) k = k
  producer_frame rs r sent n (found_room x ws) (e, l) = (e, omega arith)
  producer_frame rs r sent n (stored_item x ws) (e, l, at) = (e, omega arith, at)

  consumer_frame :
      (x : A) (ws : ℕ) (r : HpRingBuffer A) (sent : List A) (n : ℕ) (c : Consumer A)
      → ConsumerKnows r sent n c
      → ConsumerKnows (record r { write_sequence = ws }) (sent ++ x ∷ []) n c
  consumer_frame x ws r sent n Consumer.at_rest k = tt
  consumer_frame x ws r sent n (loaded_read rs) k = k
  consumer_frame x ws r sent n (found_item rs) (e, l) =
      (e, omega (arith, length-append sent (x ∷ [])))
  consumer_frame x ws r sent n (took_item rs v) (e, l, at) =
      (e, omega (arith, length-append sent (x ∷ [])), at ∙ sym (get_or-snoc_lt sent x n blank l))

  consumer_same :
      (b : List A) (r : HpRingBuffer A) (sent : List A) (n : ℕ) (c : Consumer A)
      → ConsumerKnows r sent n c
      → ConsumerKnows (record r { buffer = b }) sent n c
  consumer_same b r sent n Consumer.at_rest k = tt
  consumer_same b r sent n (loaded_read rs) k = k
  consumer_same b r sent n (found_item rs) k = k
  consumer_same b r sent n (took_item rs v) k = k

  -- The received items stay those that were sent first.
  prefix-store_read :
      (m : Machine A) (v : A)
      → Inv m
      → v ≡ get_or m.sent (length m.received) blank
      → (k : ℕ) → k < length m.received + 1
      → get_or (m.received ++ v ∷ []) k blank ≡ get_or m.sent k blank
  prefix-store_read m v i e k l = elim (Bool-cases (k == length m.received)) [
    | inl f ↦ rw ((==_iff k (length m.received)).0 f) (get_or-snoc_end m.received v blank ∙ e)
    | inr f ↦
        let lt : k < length m.received = ground arith in
        get_or-snoc_lt m.received v k blank lt ∙ i.prefix k lt
  ]

  pub knows_producer :
      (m : Machine A) (p : Producer A)
      → Inv m
      → m.producer ≡ p
      → ProducerKnows m.ring m.sent (length m.received) p
  knows_producer m p i e = subst (ProducerKnows m.ring m.sent (length m.received)) e i.producing

  pub knows_consumer :
      (m : Machine A) (c : Consumer A)
      → Inv m
      → m.consumer ≡ c
      → ConsumerKnows m.ring m.sent (length m.received) c
  knows_consumer m c i e = subst (ConsumerKnows m.ring m.sent (length m.received)) e i.consuming

  pub Step-Inv : {m m' : Machine A} → IsSize size → Step size blank m m' → Inv m → Inv m'
  Step-Inv {m} z (load_write x p e) i =
      rw e
        (record { holds = i.holds; prefix = i.prefix; producing = refl; consuming = i.consuming })
  Step-Inv {m} z (see_full x ws p t e) i =
      rw e (record { holds = i.holds; prefix = i.prefix; producing = tt; consuming = i.consuming })
  Step-Inv {m} z (see_room x ws p t e) i =
      let k = knows_producer m (loaded_write x ws) i p in
      rw e (record {
        holds = i.holds;
        prefix = i.prefix;
        producing = (k, seen_room ws m.ring m.sent (length m.received) z i.holds k t);
        consuming = i.consuming;
      })
  Step-Inv {m} z (write_item x ws p e) i =
      let (k, l) = knows_producer m (found_room x ws) i p in
      let h = store_item-Holds x ws m.ring m.sent (length m.received) z i.holds k l in
      rw e (record {
        holds = h.0;
        prefix = i.prefix;
        producing = (k, l, h.1);
        consuming =
            consumer_same (set m.ring.buffer (ws % size) x) m.ring m.sent (length m.received)
              m.consumer i.consuming;
      })
  Step-Inv {m} z (store_write x ws p e) i =
      let k = knows_producer m (stored_item x ws) i p in
      rw e (record {
        holds = store_write-Holds x ws m.ring m.sent (length m.received) i.holds k;
        prefix = λ j l.
            i.prefix j l
            ∙ sym (get_or-snoc_lt m.sent x j blank (let o = i.holds.order in omega arith));
        producing = tt;
        consuming =
            consumer_frame x ((ws + 1) % u64_mod) m.ring m.sent (length m.received) m.consumer
              i.consuming;
      })
  Step-Inv {m} z (load_read c e) i =
      rw e
        (record { holds = i.holds; prefix = i.prefix; producing = i.producing; consuming = refl })
  Step-Inv {m} z (see_empty rs c t e) i =
      rw e (record { holds = i.holds; prefix = i.prefix; producing = i.producing; consuming = tt })
  Step-Inv {m} z (see_item rs c t e) i =
      let k = knows_consumer m (loaded_read rs) i c in
      rw e (record {
        holds = i.holds;
        prefix = i.prefix;
        producing = i.producing;
        consuming = (k, seen_item rs m.ring m.sent (length m.received) i.holds k t);
      })
  Step-Inv {m} z (read_item rs c e) i =
      let n = length m.received in
      let (k, l) = knows_consumer m (found_item rs) i c in
      let s : rs % size ≡ n % size =
        ap (λ j. j % size) (k ∙ i.holds.read) ∙ slot_of_sequence size n z in
      rw e (record {
        holds = i.holds;
        prefix = i.prefix;
        producing = i.producing;
        consuming =
            (k, l, ap (λ j. get_or m.ring.buffer j blank) s ∙ i.holds.items n (omega arith) l);
      })
  Step-Inv {m} z (store_read rs v c e) i =
      let n = length m.received in
      let (k, l, at) = knows_consumer m (took_item rs v) i c in
      let len : length (m.received ++ v ∷ []) ≡ n + 1 = length-append m.received (v ∷ []) in
      rw e (record {
        holds = rw len (store_read-Holds rs m.ring m.sent n i.holds k l);
        prefix = λ j g. prefix-store_read m v i at j (omega (arith, len));
        producing =
            rw len (producer_frame ((rs + 1) % u64_mod) m.ring m.sent n m.producer i.producing);
        consuming = tt;
      })

  pub Reach-Inv : {m : Machine A} → IsSize size → Reach size blank m → Inv m
  Reach-Inv z fresh = new_machine-Inv
  Reach-Inv z (step r s) = Step-Inv z s (Reach-Inv z r)
