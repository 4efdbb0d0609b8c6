-- ===== src/Ring.antt =====
-- `src/HPRingBuffer.hpp`: the ring buffer with its two sequences. `std::size_t` has 64 bits, and
-- `ws & mask_` is `ws % Size`, as `Size` is a power of two.
pub mod Slots
pub mod Queue
pub mod Contents
pub mod Spsc
pub mod Tests
use hft_sdk.Base.{
  Bool, List, Option, false, get_or, if◌then◌else◌, leb, none, replicate, set, some, true, u64_mod,
  ℕ, ◌%◌, ◌+◌, ◌-◌, ◌==◌,
}

pub record HpRingBuffer {ℓ} (A : Type ℓ) : Type ℓ where
  pub write_sequence : ℕ
  pub read_sequence : ℕ
  pub buffer : List A

-- `ws - rs`, on `std::size_t`.
abbrev pub distance : ℕ → ℕ → ℕ
distance ws rs = (ws + u64_mod - rs) % u64_mod

module _ {ℓ} {A : Type ℓ} (size : ℕ) (blank : A) where
  -- `HPRingBuffer()`: the array holds default values.
  abbrev pub new_ring : HpRingBuffer A
  new_ring = record { write_sequence = 0; read_sequence = 0; buffer = replicate size blank }

  -- `buffer_[ws & mask_] = item; write_sequence_.store(ws + 1)`.
  unfoldable pub put : A → HpRingBuffer A → HpRingBuffer A
  put item r = record r {
    buffer = set r.buffer (r.write_sequence % size) item;
    write_sequence = (r.write_sequence + 1) % u64_mod;
  }

  unfoldable pub try_push : A → HpRingBuffer A → HpRingBuffer A × Bool
  try_push item r =
      if leb (size - 1) (distance r.write_sequence r.read_sequence)
      then (r, false)
      else (put item r, true)

  -- A read of the array; an index out of range, which does not occur, reads `blank`.
  abbrev pub slot : HpRingBuffer A → ℕ → A
  slot r i = get_or r.buffer (i % size) blank

  unfoldable pub try_pop : HpRingBuffer A → HpRingBuffer A × Option A
  try_pop r = if r.read_sequence == r.write_sequence then (r, none) else (
    record r { read_sequence = (r.read_sequence + 1) % u64_mod },
    some (slot r r.read_sequence),
  )

abbrev pub is_ring_empty {ℓ} : {A : Type ℓ} → HpRingBuffer A → Bool
is_ring_empty r = r.write_sequence == r.read_sequence

abbrev pub is_full {ℓ} : {A : Type ℓ} → ℕ → HpRingBuffer A → Bool
is_full size r = leb (size - 1) (distance r.write_sequence r.read_sequence)

abbrev pub ring_size {ℓ} : {A : Type ℓ} → HpRingBuffer A → ℕ
ring_size r = distance r.write_sequence r.read_sequence

abbrev pub capacity : ℕ → ℕ
capacity size = size - 1
