-- ===== src/Ring/Tests.antt =====
-- Runs of the ring buffer with four slots, and the witnesses of its theorems.
use hft_sdk.Base.{[], arith, false, refl, some, ℕ, ◌∷◌, ◌≡◌}
use hft_sdk.Ring.{HpRingBuffer, new_ring, put, try_push, try_pop}
use hft_sdk.Ring.Contents.{Contents, Reports, ring_size-Reports}
use hft_sdk.Ring.Slots.{IsSize}
use hft_sdk.Ring.Queue.{
  Holds, new_ring-Holds, put-Holds, Pushes, try_push-Pushes, Pops, try_pop-Pops,
}

abbrev empty_ring : HpRingBuffer ℕ
empty_ring = new_ring 4 0

abbrev full_ring : HpRingBuffer ℕ
full_ring = put 4 0 7 (put 4 0 6 (put 4 0 5 empty_ring))

refuses : (try_push 4 0 8 full_ring).1 ≡ false
unfolding try_push put
refuses = refl

takes_first : (try_pop 4 0 full_ring).1 ≡ some 5
unfolding try_pop put
takes_first = refl

four-IsSize : IsSize 4
four-IsSize = record {
  at_least = omega arith;
  at_most = omega arith;
  copies = 4611686018427387904;
  divides = refl;
}

one_item-Holds : Holds 4 0 (put 4 0 5 empty_ring) (5 ∷ []) 0
one_item-Holds = put-Holds 4 0 5 empty_ring [] 0 four-IsSize (new_ring-Holds 4 0) (omega arith)

try_push-Pushes_example :
    Pushes 4 0 6 (put 4 0 5 empty_ring) (5 ∷ []) 0 (try_push 4 0 6 (put 4 0 5 empty_ring))
try_push-Pushes_example =
    try_push-Pushes 4 0 6 (put 4 0 5 empty_ring) (5 ∷ []) 0 four-IsSize one_item-Holds

try_pop-Pops_example :
    Pops 4 0 (put 4 0 5 empty_ring) (5 ∷ []) 0 (try_pop 4 0 (put 4 0 5 empty_ring))
try_pop-Pops_example = try_pop-Pops 4 0 (put 4 0 5 empty_ring) (5 ∷ []) 0 four-IsSize one_item-Holds

one_item-Contents : Contents 4 0 (put 4 0 5 empty_ring) (5 ∷ [])
one_item-Contents = record { pushed = 5 ∷ []; popped = 0; holds = one_item-Holds; rest = refl }

ring_size-Reports_example : Reports 4 0 (put 4 0 5 empty_ring) (5 ∷ [])
ring_size-Reports_example =
    ring_size-Reports 4 0 (put 4 0 5 empty_ring) (5 ∷ []) four-IsSize one_item-Contents
