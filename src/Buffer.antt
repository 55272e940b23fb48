-- ===== src/Buffer.antt =====
-- server/dashboard/src/ws/CircularBuffer.ts: the class `CircularBuffer<T>`. Its methods take the
-- object first, and `push` returns it changed. A capacity is positive, as the program's is.
pub mod Window
pub mod Contents
pub mod History
mod Tests
use ops_sys.Base.{
  ℕ, zero, suc, ◌+◌, ◌-◌, ◌%◌, Option, none, some, List, [], ◌∷◌, ltb, ◌==◌, if◌then◌else◌,
}
use ops_sys.Base.Arrays.{new_array, read, write}

pub record CircularBuffer {ℓ} (T : Type ℓ) : Type ℓ where
  pub capacity : ℕ
  pub buf : List (Option T)
  pub head : ℕ
  pub count : ℕ

module _ {ℓ} {T : Type ℓ} where
  unfoldable pub new : ℕ → CircularBuffer T
  new capacity = record { capacity = capacity; buf = new_array capacity; head = 0; count = 0 }

  unfoldable pub push : CircularBuffer T → T → CircularBuffer T
  push b item = record b {
    buf = write b.buf b.head item;
    head = (b.head + 1) % b.capacity;
    count = if ltb b.count b.capacity then b.count + 1 else b.count;
  }

  -- The loop of `snapshot`, with `n` rounds left from `i` on.
  unfoldable pub copy : List (Option T) → ℕ → ℕ → ℕ → ℕ → List (Option T)
  copy buf capacity start i zero = []
  copy buf capacity start i (suc n) =
      read buf ((start + i) % capacity) ∷ copy buf capacity start (i + 1) n

  unfoldable pub snapshot : CircularBuffer T → List (Option T)
  snapshot b =
      if b.count == 0
      then []
      else (let start = if ltb b.count b.capacity then 0 else b.head in
          copy b.buf b.capacity start 0 b.count)

  pub size : CircularBuffer T → ℕ
  size b = b.count

  -- `head - 1 + capacity`, summed first, since `-` stops at 0 here.
  unfoldable pub latest : CircularBuffer T → Option T
  latest b = if b.count == 0 then none else read b.buf ((b.head + b.capacity - 1) % b.capacity)
