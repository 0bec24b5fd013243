-- ===== src/Action/Tests.antt =====
-- A store of thread 1 and a read-modify-write of thread 2 on one variable.
use c11tester.Base.{◌≡◌, refl, true, ◌||◌, none, some, [], ◌∷◌}
use c11tester.Action.{ModelAction, reads_from}
use c11tester.Action.Kinds.{
  atomic_write, atomic_rmw, atomic_rmwr, release, acquire, acq_rel, is_rmw, is_rmwr, is_rmwc,
}

abbrev store : ModelAction
store = record {
  location = 4096;
  position = none;
  shared = reads_from none;
  last_fence_release = none;
  cv = some (record { clock = 0 ∷ 3 ∷ [] });
  value = 17;
  type = atomic_write;
  order = release;
  original_order = release;
  tid = 1;
  seq_number = 3;
  thread_operand = none;
}

-- The read part, and the second half with its value.
abbrev read_part : ModelAction
read_part = record store {
  shared = reads_from (some 3);
  cv = some (record { clock = 0 ∷ 0 ∷ 5 ∷ [] });
  value = 0;
  type = atomic_rmwr;
  order = acquire;
  tid = 2;
  seq_number = 5;
}

abbrev second_half : ModelAction
second_half = record read_part { value = 18; type = atomic_rmw; order = acq_rel; seq_number = 0 }

is_part : is_rmwr read_part.type ≡ true
unfolding is_rmwr
is_part = refl

is_half : (is_rmw second_half.type || is_rmwc second_half.type) ≡ true
unfolding is_rmw is_rmwc
is_half = refl
