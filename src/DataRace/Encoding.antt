-- ===== src/DataRace/Encoding.antt =====
-- The packed word of datarace.h: bit 0 is set, then 6 bits of the last reader's thread, 25 bits of
-- its clock, 6 and 25 bits for the last write, and on top whether that write was atomic.
use c11tester.Base.{ℕ, ◌*◌, ◌/◌, ◌%◌, ◌^◌, ◌-◌, Bool, not, bit_and, bit_or, ◌==◌}

abbrev pub thread_mask : ℕ
thread_mask = 0x3f

abbrev pub read_mask : ℕ
read_mask = 0x1ffffff

abbrev pub write_mask : ℕ
write_mask = read_mask

abbrev pub max_thread_id : ℕ
max_thread_id = thread_mask - 1

abbrev pub max_read_vector : ℕ
max_read_vector = read_mask - 1

abbrev pub max_write_vector : ℕ
max_write_vector = write_mask - 1

abbrev pub invalid_shadow_val : ℕ
invalid_shadow_val = 2

unfoldable pub is_short_record : ℕ → Bool
is_short_record x = not (bit_and x 0x1 == 0)

unfoldable pub rd_thread_id : ℕ → ℕ
rd_thread_id x = bit_and (x / 2 ^ 1) thread_mask

unfoldable pub read_vector : ℕ → ℕ
read_vector x = bit_and (x / 2 ^ 7) read_mask

unfoldable pub wr_thread_id : ℕ → ℕ
wr_thread_id x = bit_and (x / 2 ^ 32) thread_mask

unfoldable pub write_vector : ℕ → ℕ
write_vector x = bit_and (x / 2 ^ 38) write_mask

abbrev pub atomic_mask : ℕ
atomic_mask = 2 ^ 63

-- `x & ATOMICMASK`, as a test.
unfoldable pub has_atomic_mask : ℕ → Bool
has_atomic_mask x = not (bit_and x atomic_mask == 0)

-- Shifts of an `int` or `unsigned int`, and of a `uint64_t`.
abbrev shl32 : ℕ → ℕ → ℕ
shl32 x k = x * 2 ^ k % 2 ^ 32

abbrev shl64 : ℕ → ℕ → ℕ
shl64 x k = x * 2 ^ k % 2 ^ 64

unfoldable pub encode_op : ℕ → ℕ → ℕ → ℕ → ℕ
encode_op rdthread rdtime wrthread wrtime =
    bit_or (bit_or (bit_or (bit_or 0x1 (shl32 rdthread 1)) (shl32 rdtime 7)) (shl64 wrthread 32))
      (shl64 wrtime 38)
