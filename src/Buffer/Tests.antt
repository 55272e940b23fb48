-- ===== src/Buffer/Tests.antt =====
-- Buffers of three places, and the theorems about them at one.
use ops_sys.Base.{ℕ, ◌≡◌, refl, some, List, [], ◌∷◌, arith}
use ops_sys.Base.Arrays.{new_array, read, write}
use ops_sys.Buffer.{new, push, copy, snapshot, size}
use ops_sys.Buffer.History.{push_all, snapshot-push_all}

abbrev items : List ℕ
items = 1 ∷ 2 ∷ 3 ∷ 4 ∷ 5 ∷ []

snapshot_five : snapshot (push_all (new 3) items) ≡ some 3 ∷ some 4 ∷ some 5 ∷ []
unfolding snapshot push_all push new copy new_array read write
snapshot_five = refl

snapshot_two : snapshot {T = ℕ} (push_all (new 3) (1 ∷ 2 ∷ [])) ≡ some 1 ∷ some 2 ∷ []
unfolding snapshot push_all push new copy new_array read write
snapshot_two = refl

snapshot-push_all_example :
    (snapshot (push_all (new 3) items) ≡ some 3 ∷ some 4 ∷ some 5 ∷ [])
    × (size (push_all (new 3) items) ≡ 3)
snapshot-push_all_example = snapshot-push_all 3 items (omega arith)
