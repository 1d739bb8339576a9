-- ===== src/Queue/Examples.antt =====
-- The examples of the source's own tests.
use blt.Base.{ℕ, ◌≡◌, refl, some, List, [], ◌∷◌}
use blt.Base.Int.{pos}
use blt.Base.Sort.{sort}
use blt.Base.Text.{Text, ◌=t◌, text_le}
use mathlib.Core.List.{Perm}
use blt.Queue.{QueueItem, OrderMode, ids, stronger_le, order_up_next}
use blt.Queue.Lanes.{filter_by}
use blt.Queue.Fairness.{IsFair, order_up_next-fair}

abbrev item : ℕ → ℕ → ℕ → ℕ → QueueItem
item id who votes at = record { id = id; contributor = who ∷ []; votes = votes; added_at = pos at }

abbrev queue : List QueueItem
queue = item 1 b'A' 0 10 ∷ item 2 b'A' 0 11 ∷ item 3 b'A' 0 12 ∷ item 4 b'B' 0 13 ∷ []

fair_interleaves : order_up_next queue OrderMode.fair ≡ some (1 ∷ 4 ∷ 2 ∷ 3 ∷ [])
unfolding order_up_next ◌=t◌ text_le sort
fair_interleaves = refl

order_up_next-fair_example :
    (l : List QueueItem) × (order_up_next queue OrderMode.fair ≡ some (ids l))
    × Perm l queue
    × ((c : Text) → filter_by c l ≡ sort stronger_le (filter_by c queue))
    × IsFair l
order_up_next-fair_example = order_up_next-fair queue
