-- ===== src/Ring/Contents.antt =====
-- The items that an `HPRingBuffer` holds, as a list, in the order in which they will be popped.
use hft_sdk.Base.{
  ==_iff, Bool, Bool-cases, List, Option, [], ap, arith, drop, false, get_or, inl, inr, leb, length,
  none, refl, some, subst, suc, sym, true, u64_mod, zero, ℕ, ◌%◌, ◌++◌, ◌+◌, ◌-◌, ◌<◌, ◌==◌, ◌∙◌,
  ◌∷◌, ◌≡◌, ◌≤◌,
}
use hft_sdk.Ring.{
  HpRingBuffer, new_ring, try_push, try_pop, ring_size, is_ring_empty, is_full, capacity,
}
use hft_sdk.Ring.Slots.{IsSize}
use hft_sdk.Ring.Queue.{Holds, new_ring-Holds, pending, try_push-Pushes, try_pop-Pops, same_seq}

module _ {ℓ} {A : Type ℓ} where
  drop-snoc :
      (n : ℕ) (xs : List A) (x : A) → n ≤ length xs → drop n (xs ++ x ∷ []) ≡ drop n xs ++ x ∷ []
  drop-snoc zero xs x h = refl
  drop-snoc (suc n) [] x h = absurd (omega arith)
  drop-snoc (suc n) (y ∷ ys) x h = drop-snoc n ys x (omega arith)

  length-drop : (n : ℕ) (xs : List A) → length (drop n xs) ≡ length xs - n
  length-drop zero xs = omega arith
  length-drop (suc n) [] = omega arith
  length-drop (suc n) (x ∷ xs) = omega (arith, length-drop n xs)

  drop_next :
      (n : ℕ) (xs : List A) (x : A) (q : List A) (d : A)
      → drop n xs ≡ x ∷ q
      → (n < length xs) × (get_or xs n d ≡ x) × (drop (suc n) xs ≡ q)
  drop_next zero [] x q d e = absurd (omega (arith, ap length e))
  drop_next zero (y ∷ ys) x q d e = (omega arith, ap (λ l. get_or l 0 d) e, ap (drop 1) e)
  drop_next (suc n) [] x q d e = absurd (omega (arith, ap length e))
  drop_next (suc n) (y ∷ ys) x q d e = let (l, g, r) = drop_next n ys x q d e in (omega arith, g, r)

module _ {ℓ} {A : Type ℓ} (size : ℕ) (blank : A) where
  -- The ring holds the items of `q`, the next one to pop first.
  pub record Contents (r : HpRingBuffer A) (q : List A) : Type ℓ where
    pub pushed : List A
    pub popped : ℕ
    pub holds : Holds size blank r pushed popped
    pub rest : drop popped pushed ≡ q

  pub new_ring-Contents : Contents (new_ring size blank) []
  new_ring-Contents = record {
    pushed = [];
    popped = 0;
    holds = new_ring-Holds size blank;
    rest = refl;
  }

  pub length-Contents :
      (r : HpRingBuffer A) (q : List A) (c : Contents r q)
      → (length q ≡ length c.pushed - c.popped) × (length q ≤ size - 1)
  length-Contents r q c =
      let e = ap length c.rest in
      let l = length-drop c.popped c.pushed in
      let room = c.holds.room in (omega (arith, e, l), omega (arith, e, l))

  -- A push on a ring of items `q`.
  pub record Pushed (x : A) (r : HpRingBuffer A) (q : List A) (out : HpRingBuffer A × Bool)
      : Type ℓ where
    pub full : length q ≡ capacity size → out ≡ (r, false)
    pub free : length q < capacity size → (out.1 ≡ true) × Contents out.0 (q ++ x ∷ [])

  pub try_push-Pushed :
      (x : A) (r : HpRingBuffer A) (q : List A)
      → IsSize size
      → Contents r q
      → Pushed x r q (try_push size blank x r)
  try_push-Pushed x r q z c =
      let (e, l) = length-Contents r q c in
      let order = c.holds.order in
      let p = try_push-Pushes size blank x r c.pushed c.popped z c.holds in
      let big = z.at_least in
      record {
        full = λ f. p.full (omega arith);
        free = λ f.
            let (done, h) = p.free (omega arith) in
            (
              done,
              record {
                pushed = c.pushed ++ x ∷ [];
                popped = c.popped;
                holds = h;
                rest = drop-snoc c.popped c.pushed x order ∙ ap (λ s. s ++ x ∷ []) c.rest;
              },
            );
      }

  -- A pop of a ring of items `q`.
  abbrev pub Popped : HpRingBuffer A → List A → HpRingBuffer A × Option A → Type ℓ
  Popped r [] out = out ≡ (r, none)
  Popped r (x ∷ q) out = (out.1 ≡ some x) × Contents out.0 q

  pub try_pop-Popped :
      (r : HpRingBuffer A) (q : List A)
      → IsSize size
      → Contents r q
      → Popped r q (try_pop size blank r)
  try_pop-Popped r [] z c =
      let (e, l) = length-Contents r [] c in
      let order = c.holds.order in
      (try_pop-Pops size blank r c.pushed c.popped z c.holds).empty (omega arith)
  try_pop-Popped r (x ∷ q) z c =
      let (l, g, n) = drop_next c.popped c.pushed x q blank c.rest in
      let (e, h) = (try_pop-Pops size blank r c.pushed c.popped z c.holds).nonempty l in
      let one : c.popped + 1 ≡ suc c.popped = omega arith in
      (
        e ∙ ap some g,
        record {
          pushed = c.pushed;
          popped = suc c.popped;
          holds = subst (Holds size blank _ c.pushed) one h;
          rest = n;
        },
      )

  -- What the queries say of a ring of items `q`.
  pub record Reports (r : HpRingBuffer A) (q : List A) : Type 0 where
    pub size_is : ring_size r ≡ length q
    pub at_most : length q ≤ capacity size
    pub full_is : is_full size r ≡ leb (capacity size) (length q)
    pub empty_is : is_ring_empty r ≡ (length q == 0)

  same_test :
      (r : HpRingBuffer A) (q : List A)
      → IsSize size
      → Contents r q
      → is_ring_empty r ≡ (length q == 0)
  same_test r q z c =
      let (e, l) = length-Contents r q c in
      let order = c.holds.order in
      let w = c.holds.written in
      let d = c.holds.read in
      elim (Bool-cases (is_ring_empty r)) [
        | inl f ↦
            let g = (==_iff r.write_sequence r.read_sequence).0 f in
            let h = same_seq size blank r c.pushed c.popped z c.holds (sym g) in
            f ∙ sym ((==_iff (length q) 0).1 (omega arith))
        | inr f ↦ elim (Bool-cases (length q == 0)) [
          | inr g ↦ f ∙ sym g
          | inl g ↦
              let h : length c.pushed ≡ c.popped =
                let k = (==_iff (length q) 0).0 g in omega arith in
              let k =
                (==_iff r.write_sequence r.read_sequence).1 (w ∙ ap (λ i. i % u64_mod) h ∙ sym d) in
              cc
        ]
      ]

  -- On a ring of a size that is a power of two that holds the items of a list, there are at most
  -- as many as the capacity, the size is their number, and the tests for full and for empty tell
  -- whether that number is the capacity or more, and zero.
  pub ring_size-Reports :
      (r : HpRingBuffer A) (q : List A) → IsSize size → Contents r q → Reports r q
  ring_size-Reports r q z c =
      let (e, l) = length-Contents r q c in
      let p = pending size blank r c.pushed c.popped z c.holds in
      let n : ring_size r ≡ length q = p ∙ sym e in
      record {
        size_is = n;
        at_most = l;
        full_is = ap (leb (size - 1)) n;
        empty_is = same_test r q z c;
      }
