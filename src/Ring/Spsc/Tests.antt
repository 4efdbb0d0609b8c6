-- ===== src/Ring/Spsc/Tests.antt =====
-- Interleavings of two threads on a ring of four slots, and the witnesses of their theorems.
use hft_sdk.Base.{[], arith, refl, ℕ, ◌%◌, ◌∷◌, ◌≢◌}
use hft_sdk.Ring.Slots.{IsSize}
use hft_sdk.Ring.Spsc.{
  Machine, new_machine, store_item, load_write, see_room, write_item, store_write, load_read,
  see_item, Reach, fresh, step, found_room, found_item,
}
use hft_sdk.Ring.Spsc.Safety.{Delivered, Reach-Delivered, Reach-slots}
use hft_sdk.Ring.Spsc.Progress.{Drains, Reach-Drains}

quarter-IsSize : IsSize 4
quarter-IsSize = record {
  at_least = omega arith;
  at_most = omega arith;
  copies = 4611686018427387904;
  divides = refl;
}

abbrev fresh_ring : Machine ℕ
fresh_ring = new_machine 4 0

-- The producer has pushed 5.
abbrev pushed_one : Machine ℕ
pushed_one = record fresh_ring {
  ring = record (store_item 4 0 5 0 fresh_ring.ring) { write_sequence = 1 };
  sent = 5 ∷ [];
}

pushed_one-Reach : Reach 4 0 pushed_one
pushed_one-Reach =
    step
      (step (step (step fresh (load_write 5 refl refl)) (see_room 5 0 refl refl refl))
        (write_item 5 0 refl refl))
      (store_write 5 0 refl refl)

-- The producer is about to write 6, and the consumer to read 5.
abbrev both_busy : Machine ℕ
both_busy = record pushed_one { producer = found_room 6 1; consumer = found_item 0 }

both_busy-Reach : Reach 4 0 both_busy
both_busy-Reach =
    step
      (step (step (step pushed_one-Reach (load_write 6 refl refl)) (load_read refl refl))
        (see_room 6 1 refl refl refl))
      (see_item 0 refl (λ e. absurd (omega arith)) refl)

Reach-Delivered_example : Delivered 4 0 both_busy
Reach-Delivered_example = Reach-Delivered 4 0 quarter-IsSize both_busy-Reach

Reach-slots_example : 1 % 4 ≢ 0 % 4
Reach-slots_example = Reach-slots 4 0 6 1 0 quarter-IsSize both_busy-Reach refl refl

Reach-Drains_example : Drains 4 0 both_busy
Reach-Drains_example = Reach-Drains 4 0 quarter-IsSize both_busy-Reach
