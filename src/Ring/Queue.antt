-- ===== src/Ring/Queue.antt =====
-- `HPRingBuffer.hpp` as a bounded queue. The queue is the list of all items that were ever pushed
-- and the number of those that were popped.
use native.Mathlib.Nat.{mod-lt}
use hft_sdk.Base.{
  ==_iff, Bool, Bool-cases, List, Option, [], ap, arith, false, get_or, get_or-set_ne,
  get_or-set_self, inl, inr, leb, length, length-append, length-replicate, length-set, none, refl,
  set, some, suc, sym, true, u64_mod, zero, ℕ, ◌%◌, ◌++◌, ◌+◌, ◌-◌, ◌<◌, ◌==◌, ◌∙◌, ◌∷◌, ◌≡◌, ◌≢◌,
  ◌≤◌,
}
use hft_sdk.Ring.{HpRingBuffer, distance, new_ring, put, try_push, try_pop}
use hft_sdk.Ring.Slots.{
  distance_eq, same_sequence, next_sequence, IsSize, slot_of_sequence, same_slot,
}

pub get_or-snoc_lt {ℓ} :
    {A : Type ℓ} (xs : List A) (x : A) (k : ℕ) (d : A)
    → k < length xs
    → get_or (xs ++ x ∷ []) k d ≡ get_or xs k d
get_or-snoc_lt [] x k d h = absurd (omega arith)
get_or-snoc_lt (y ∷ ys) x zero d h = refl
get_or-snoc_lt (y ∷ ys) x (suc k) d h = get_or-snoc_lt ys x k d (omega arith)

pub get_or-snoc_end {ℓ} :
    {A : Type ℓ} (xs : List A) (x d : A) → get_or (xs ++ x ∷ []) (length xs) d ≡ x
get_or-snoc_end [] x d = refl
get_or-snoc_end (y ∷ ys) x d = get_or-snoc_end ys x d

module _ {ℓ} {A : Type ℓ} (size : ℕ) (blank : A) where
  -- The ring holds the items pushed after the first `n`.
  pub record Holds (r : HpRingBuffer A) (pushed : List A) (n : ℕ) : Type ℓ where
    pub written : r.write_sequence ≡ length pushed % u64_mod
    pub read : r.read_sequence ≡ n % u64_mod
    pub order : n ≤ length pushed
    pub room : length pushed ≤ n + (size - 1)
    pub cells : length r.buffer ≡ size
    pub items :
        (k : ℕ)
        → n ≤ k
        → k < length pushed
        → get_or r.buffer (k % size) blank ≡ get_or pushed k blank

  pub new_ring-Holds : Holds (new_ring size blank) [] 0
  new_ring-Holds = record {
    written = refl;
    read = refl;
    order = omega arith;
    room = omega arith;
    cells = length-replicate size blank;
    items = λ k h l. absurd (omega arith);
  }

  pub pending :
      (r : HpRingBuffer A) (pushed : List A) (n : ℕ)
      → IsSize size
      → Holds r pushed n
      → distance r.write_sequence r.read_sequence ≡ length pushed - n
  pending r pushed n z h =
      let a = h.order in
      let b = h.room in
      let c = z.at_least in
      let d = z.at_most in
      rw (h.written, h.read) (distance_eq (length pushed) n (omega arith) (omega arith))

  pub put_slot :
      (r : HpRingBuffer A) (pushed : List A) (n : ℕ)
      → IsSize size
      → Holds r pushed n
      → r.write_sequence % size ≡ length pushed % size
  put_slot r pushed n z h = rw h.written (slot_of_sequence size (length pushed) z)

  -- A write at the end of the queue overwrites no pending item.
  pub set-items :
      (x : A) (r : HpRingBuffer A) (pushed : List A) (n : ℕ)
      → IsSize size
      → Holds r pushed n
      → length pushed < n + (size - 1)
      → (k : ℕ) → n ≤ k
      → k < length pushed + 1
      → get_or (set r.buffer (length pushed % size) x) (k % size) blank
        ≡ get_or (pushed ++ x ∷ []) k blank
  set-items x r pushed n z h l k i j = elim (Bool-cases (k == length pushed)) [
    | inl e ↦
        let below : length pushed % size < length r.buffer =
          rw h.cells (mod-lt (length pushed) (let c = z.at_least in omega arith)) in
        rw ((==_iff k (length pushed)).0 e) (
          get_or-set_self r.buffer (length pushed % size) x blank below
          ∙ sym (get_or-snoc_end pushed x blank))
    | inr e ↦
        let lt : k < length pushed = ground arith in
        let apart : length pushed % size ≢ k % size = λ q. absurd (
          let f = same_slot size k (length pushed) (omega arith) (omega arith) (sym q) in
          omega arith) in
        get_or-set_ne r.buffer (length pushed % size) (k % size) x blank apart
        ∙ h.items k i lt
        ∙ sym (get_or-snoc_lt pushed x k blank lt)
  ]

  -- With room for it, an item is added at the end.
  pub put-Holds :
      (x : A) (r : HpRingBuffer A) (pushed : List A) (n : ℕ)
      → IsSize size
      → Holds r pushed n
      → length pushed < n + (size - 1)
      → Holds (put size blank x r) (pushed ++ x ∷ []) n
  unfolding put
  put-Holds x r pushed n z h l =
      let a = h.order in
      let c = z.at_least in
      let len = length-append pushed (x ∷ []) in
      let s = put_slot r pushed n z h in
      record {
        written = rw (h.written, len) (next_sequence (length pushed));
        read = h.read;
        order = omega (arith, len);
        room = omega (arith, len);
        cells = length-set r.buffer (r.write_sequence % size) x ∙ h.cells;
        items = λ k i j. rw s (set-items x r pushed n z h l k i (omega (arith, len)));
      }

  -- What a push does to a ring that holds the items after the first `n`.
  pub record Pushes (x : A) (r : HpRingBuffer A) (pushed : List A) (n : ℕ)
      (out : HpRingBuffer A × Bool) : Type ℓ where
    pub full : length pushed ≡ n + (size - 1) → out ≡ (r, false)
    pub free : length pushed < n + (size - 1) → (out.1 ≡ true) × Holds out.0 (pushed ++ x ∷ []) n

  -- On a ring of a size that is a power of two, holding the items after the first n that were
  -- pushed, a push fails and changes nothing if one item less than the size is pending, and
  -- otherwise adds its item at the end of the queue; the sequences may wrap around.
  pub try_push-Pushes :
      (x : A) (r : HpRingBuffer A) (pushed : List A) (n : ℕ)
      → IsSize size
      → Holds r pushed n
      → Pushes x r pushed n (try_push size blank x r)
  unfolding try_push
  try_push-Pushes x r pushed n z h =
      let p = pending r pushed n z h in
      rw p (elim (Bool-cases (leb (size - 1) (length pushed - n))) [
        | inl e ↦ rw e (record { full = λ f. refl; free = λ f. absurd (ground arith) })
        | inr e ↦ rw e (record {
          full = λ f. absurd (ground arith);
          free = λ f. (refl, put-Holds x r pushed n z h f);
        })
      ])

  -- What a pop does to a ring that holds the items after the first `n`.
  pub record Pops (r : HpRingBuffer A) (pushed : List A) (n : ℕ) (out : HpRingBuffer A × Option A)
      : Type ℓ where
    pub empty : n ≡ length pushed → out ≡ (r, none)
    pub nonempty :
        n < length pushed → (out.1 ≡ some (get_or pushed n blank)) × Holds out.0 pushed (n + 1)

  pub same_seq :
      (r : HpRingBuffer A) (pushed : List A) (n : ℕ)
      → IsSize size
      → Holds r pushed n
      → r.read_sequence ≡ r.write_sequence
      → n ≡ length pushed
  same_seq r pushed n z h e =
      let a = h.room in
      let c = z.at_least in
      let d = z.at_most in
      same_sequence (length pushed) n h.order (omega arith) (sym h.read ∙ e ∙ h.written)

  -- On a ring of a size that is a power of two, holding the items after the first n that were
  -- pushed, a pop finds nothing and changes nothing if no item is pending, and otherwise takes the
  -- item pushed first among them; the sequences may wrap around.
  pub try_pop-Pops :
      (r : HpRingBuffer A) (pushed : List A) (n : ℕ)
      → IsSize size
      → Holds r pushed n
      → Pops r pushed n (try_pop size blank r)
  unfolding try_pop
  try_pop-Pops r pushed n z h = elim (Bool-cases (r.read_sequence == r.write_sequence)) [
    | inl e ↦ rw e (record {
      empty = λ f. refl;
      nonempty = λ f. absurd (
          let q = same_seq r pushed n z h ((==_iff r.read_sequence r.write_sequence).0 e) in
          omega arith);
    })
    | inr e ↦ rw e (record {
      empty = λ f. absurd (
          let q =
            (==_iff r.read_sequence r.write_sequence).1
              (h.read ∙ ap (λ i. i % u64_mod) f ∙ sym h.written) in
          ground arith);
      nonempty = λ f. (
        ap some (
            ap (λ i. get_or r.buffer i blank)
              (ap (λ i. i % size) h.read ∙ slot_of_sequence size n z)
            ∙ h.items n (omega arith) f),
        record {
          written = h.written;
          read = rw h.read (next_sequence n);
          order = omega arith;
          room = let a = h.room in omega arith;
          cells = h.cells;
          items = λ k i j. h.items k (omega arith) j;
        },
      );
    })
  ]
