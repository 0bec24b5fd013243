-- ===== src/ClockVector/Tests.antt =====
-- Clock vectors of two and three threads.
use c11tester.Base.{◌↔◌, [], ◌∷◌}
use c11tester.ClockVector.{ClockVector, Stamp, merge}
use c11tester.ClockVector.Order.{Below, merge-IsLub}

abbrev two : ClockVector
two = record { clock = 4 ∷ 1 ∷ [] }

abbrev three : ClockVector
three = record { clock = 2 ∷ 3 ∷ 5 ∷ [] }

abbrev act : Stamp
act = record { tid = 2; seq_number = 5 }

merge-IsLub_example : Below (merge two three).0 (record { clock = 9 ∷ 9 ∷ 9 ∷ [] }) ↔ (
    Below two (record { clock = 9 ∷ 9 ∷ 9 ∷ [] }) × Below three (record { clock = 9 ∷ 9 ∷ 9 ∷ [] }))
merge-IsLub_example = merge-IsLub two three (record { clock = 9 ∷ 9 ∷ 9 ∷ [] })
