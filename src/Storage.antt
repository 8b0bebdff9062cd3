-- ===== src/Storage.antt =====
-- storage.rs: `RingBuffer`. The slice that the caller lends is a list, with the capacity as length.
-- `get_elem?` reads it: `none` is an index out of bounds, where the code panics.
pub mod Ring
pub mod Packets
mod Tests
use smolgnet.Base.{
  ℕ, ◌+◌, ◌-◌, ◌%◌, Bool, ◌||◌, List, Option, none, length, get_elem?, set, is_empty,
}
use smolgnet.Base.{◌==◌, if◌then◌else◌}
use smolgnet.Base.Results.{Result, ok, err, buffer_full}

pub record RingBuffer {ℓ} (A : Type ℓ) : Type ℓ where
  pub storage : List A
  pub head : ℕ
  pub len : ℕ

module _ {ℓ} {A : Type ℓ} where
  unfoldable pub new : List A → RingBuffer A
  new storage = record { storage = storage; head = 0; len = 0 }

  unfoldable pub free : RingBuffer A → ℕ
  free r = length r.storage - r.len

  unfoldable pub clear : RingBuffer A → RingBuffer A
  clear r = record r { head = 0; len = 0 }

  unfoldable pub push_back : RingBuffer A → A → RingBuffer A × Result (Unit {0})
  push_back r value =
      if r.len == length r.storage || is_empty r.storage then (r, err buffer_full) else (
        record r {
          storage = set r.storage ((r.head + r.len) % length r.storage) value;
          len = r.len + 1;
        },
        ok tt,
      )

  unfoldable pub pop_front : RingBuffer A → RingBuffer A × Option A
  pop_front r = if r.len == 0 then (r, none) else (
    record r {
      head = if r.len - 1 == 0 then 0 else (r.head + 1) % length r.storage;
      len = r.len - 1;
    },
    get_elem? r.storage r.head,
  )

  unfoldable pub front : RingBuffer A → Option A
  front r = if r.len == 0 then none else get_elem? r.storage r.head
