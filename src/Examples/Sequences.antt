-- ===== src/Examples/Sequences.antt =====
-- The theorems on the doubly linked list at concrete inputs.
use tinyredis.Prelude.{◌+◌, ◌≡◌, refl, none, some, [], ◌∷◌, length, min}
use tinyredis.Prelude.Int.{negsuc}
use tinyredis.DoubleList.{DoubleList, index, value_at, remove_loop}
use tinyredis.DoubleList.Laws.{IsValid, nth, value_at-index}
use tinyredis.DoubleList.Slices.{occurrences, remove_loop_count}
use tinyredis.Examples.{a, b}

abbrev three : DoubleList
three = record { vals = a ∷ b ∷ a ∷ []; len = 3 }

three-IsValid : IsValid three
three-IsValid = record { counted = refl }

value_at-index_example :
    elim (index three (negsuc 0)) [ none ↦ none | some k ↦ value_at three k ]
    ≡ nth (a ∷ b ∷ a ∷ []) (negsuc 0)
value_at-index_example = value_at-index three (negsuc 0) three-IsValid

remove_loop_count_example :
    ((remove_loop a 1 (a ∷ b ∷ a ∷ [])).1 ≡ min 1 (occurrences a (a ∷ b ∷ a ∷ [])))
    × (length (remove_loop a 1 (a ∷ b ∷ a ∷ [])).0 + (remove_loop a 1 (a ∷ b ∷ a ∷ [])).1
        ≡ length (a ∷ b ∷ a ∷ []))
    × (occurrences a (remove_loop a 1 (a ∷ b ∷ a ∷ [])).0 + (remove_loop a 1 (a ∷ b ∷ a ∷ [])).1
        ≡ occurrences a (a ∷ b ∷ a ∷ []))
remove_loop_count_example = remove_loop_count a 1 (a ∷ b ∷ a ∷ [])
