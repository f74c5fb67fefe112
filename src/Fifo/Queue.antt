-- ===== src/Fifo/Queue.antt =====
-- A queue of at most `cap` bytes, oldest first: what the FIFO promises its callers.
use slate.Base.{ℕ, Option, none, some, List, [], ◌∷◌, ◌++◌, ltb, if◌then◌else◌, length}
use slate.Fifo.{Status, success, empty, not_enough_big}

abbrev pub Queue : Type 0
Queue = List ℕ

abbrev pub put : ℕ → Queue → ℕ → Status × Queue
put cap q x = if ltb (length q) cap then (success, q ++ (x ∷ [])) else (not_enough_big, q)

abbrev pub get : Queue → Status × Option ℕ × Queue
get [] = (empty, none, [])
get (x ∷ q) = (success, some x, q)
