-- ===== src/Storage/Packets.antt =====
-- storage.rs: `PacketBuffer`. A slot is read at an index that an operation keeps below the number of
-- slots; the model reads the empty slot past the end, where the code would panic.
use smolgnet.Base.{ℕ, ◌+◌, ◌-◌, ◌%◌, ◌||◌}
use smolgnet.Base.{List, Option, none, some, length, get_or, set, is_empty, replicate}
use smolgnet.Base.{ltb, leb, ◌==◌, if◌then◌else◌}
use smolgnet.Base.Results.{Result, ok, err, ◌then_ok◌, guard, ok_or, buffer_full, invalid_state}
use smolgnet.Base.Bytes.{slice, write_at}

pub record PacketMetadata {ℓ} (M : Type ℓ) : Type ℓ where
  pub meta : Option M
  pub offset : ℕ
  pub len : ℕ

pub record PacketBuffer {ℓ} (M : Type ℓ) : Type ℓ where
  pub metadata : List (PacketMetadata M)
  pub payload : List ℕ
  pub head : ℕ
  pub len : ℕ
  pub used_bytes : ℕ

module _ {ℓ} {M : Type ℓ} where
  -- `PacketMetadata::EMPTY`.
  unfoldable pub unused : PacketMetadata M
  unused = record { meta = none; offset = 0; len = 0 }

  unfoldable pub buffer_new : List (PacketMetadata M) → List ℕ → PacketBuffer M
  buffer_new metadata payload = record {
    metadata = replicate (length metadata) unused;
    payload = payload;
    head = 0;
    len = 0;
    used_bytes = 0;
  }

  unfoldable pub free_payload_bytes : PacketBuffer M → ℕ
  free_payload_bytes b = length b.payload - b.used_bytes

  unfoldable pub meta_index : PacketBuffer M → ℕ → ℕ
  meta_index b logical = (b.head + logical) % length b.metadata

  unfoldable pub allocation_offset : PacketBuffer M → ℕ → Option ℕ
  unfolding meta_index
  allocation_offset b n =
      let first = get_or b.metadata b.head unused in
      let last = get_or b.metadata (meta_index b (b.len - 1)) unused in
      let last_end = last.offset + last.len in
      if ltb (length b.payload) n
      then none
      else if b.len == 0
      then some 0
      else if leb first.offset last_end
      then (if leb n (length b.payload - last_end)
          then some last_end
          else if leb n first.offset
          then some 0
          else none)
      else if leb n (first.offset - last_end)
      then some last_end
      else none

  -- The packet at its offset, when there is one.
  place : PacketBuffer M → M → List ℕ → Option ℕ → PacketBuffer M × Result (Unit {0})
  unfolding meta_index
  place b meta bytes none = (b, err buffer_full)
  place b meta bytes (some offset) = (
    record b {
      payload = write_at b.payload offset bytes;
      metadata =
          set b.metadata (meta_index b b.len)
            (record { meta = some meta; offset = offset; len = length bytes });
      len = b.len + 1;
      used_bytes = b.used_bytes + length bytes;
    },
    ok tt,
  )

  unfoldable pub enqueue : PacketBuffer M → M → List ℕ → PacketBuffer M × Result (Unit {0})
  unfolding allocation_offset place
  enqueue b meta bytes =
      if is_empty b.metadata || b.len == length b.metadata
      then (b, err buffer_full)
      else place b meta bytes (allocation_offset b (length bytes))

  unfoldable pub peek : PacketBuffer M → Option (M × List ℕ)
  peek b =
      let slot = get_or b.metadata b.head unused in
      if b.len == 0 then none else elim slot.meta [
        | none ↦ none
        | some meta ↦ some (meta, slice b.payload slot.offset slot.len)
      ]

  -- The oldest packet leaves the buffer.
  unfoldable pub release_front : PacketBuffer M → PacketBuffer M
  release_front b =
      let slot = get_or b.metadata b.head unused in
      record b {
        metadata = set b.metadata b.head unused;
        head = if b.len - 1 == 0 then 0 else (b.head + 1) % length b.metadata;
        len = b.len - 1;
        used_bytes = b.used_bytes - slot.len;
      }

  -- The caller's slice is `room` bytes; what is copied into it stands beside the answer.
  unfoldable pub dequeue_into :
      PacketBuffer M → ℕ → PacketBuffer M × Result (Option (M × ℕ × List ℕ))
  unfolding release_front
  dequeue_into b room =
      let slot = get_or b.metadata b.head unused in
      if b.len == 0
      then (b, ok none)
      else (b, ok_or slot.meta invalid_state) then_ok λ b meta.
          (b, guard (leb slot.len room) buffer_full) then_ok λ b _.
          (release_front b, ok (some (meta, slot.len, slice b.payload slot.offset slot.len)))

  unfoldable pub drop_front : PacketBuffer M → PacketBuffer M × Option M
  unfolding release_front
  drop_front b =
      let slot = get_or b.metadata b.head unused in
      if b.len == 0
      then (b, none)
      else elim slot.meta [ none ↦ (b, none) | some meta ↦ (release_front b, some meta) ]

  unfoldable pub buffer_clear : PacketBuffer M → PacketBuffer M
  buffer_clear b = record b {
    metadata = replicate (length b.metadata) unused;
    head = 0;
    len = 0;
    used_bytes = 0;
  }
