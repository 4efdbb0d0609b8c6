-- ===== src/MemoryPool/Tests.antt =====
-- Runs of the memory pool, and the theorems at concrete inputs.
use hft_sdk.Base.{List, [], arith, false, none, refl, replicate, some, ◌++◌, ◌∷◌, ◌≡◌}
use hft_sdk.MemoryPool.{build_slots, new_pool, allocate, available}
use hft_sdk.MemoryPool.Built.{run_from}
use hft_sdk.MemoryPool.Calls.{
  take_slot, give_back, pool_call, stack_call, continue_with, answers, answers-new_pool,
}
use hft_sdk.MemoryPool.Threads.{
  PoolMove, allocator_moves, deallocator_moves, gives_back, has, drop_one, allocator_step,
  deallocator_step, pool_move, pool_moves, new_pool_machine,
}
use hft_sdk.MemoryPool.Threads.Safety.{IsSafe, pool_moves-IsSafe}

three_calls :
    answers (pool_call 2) (new_pool 2) (take_slot ∷ take_slot ∷ take_slot ∷ [])
    ≡ some (some 0) ∷ some (some 1) ∷ some none ∷ []
unfolding answers continue_with pool_call new_pool allocate build_slots
three_calls = refl

left_after_one : available 2 (allocate 2 (new_pool 2)).0 ≡ 1
unfolding new_pool allocate build_slots
left_after_one = refl

answers-new_pool_example :
    answers (pool_call 2) (new_pool 2) (take_slot ∷ give_back (some 0) ∷ give_back (some 0) ∷ [])
    ≡ answers
        (stack_call 2)
        (run_from 2 0)
        (take_slot ∷ give_back (some 0) ∷ give_back (some 0) ∷ [])
answers-new_pool_example =
    answers-new_pool 2 (ground arith) (take_slot ∷ give_back (some 0) ∷ give_back (some 0) ∷ [])

-- The slot 0 comes back while the other thread has read the link of slot 1, whose exchange then fails.
abbrev crossing_moves : List PoolMove
crossing_moves =
    replicate 5 (allocator_moves false)
    ++ gives_back 0 ∷ replicate 2 (allocator_moves false)
    ++ replicate 5 (deallocator_moves false)
    ++ replicate 6 (allocator_moves false)

handed_again : (pool_moves 2 crossing_moves (new_pool_machine 2)).handed ≡ 0 ∷ []
unfolding pool_moves pool_move allocator_step deallocator_step has drop_one new_pool build_slots
handed_again = refl

pool_moves-IsSafe_example : IsSafe 2 (pool_moves 2 crossing_moves (new_pool_machine 2))
pool_moves-IsSafe_example = pool_moves-IsSafe 2 (ground arith) crossing_moves
