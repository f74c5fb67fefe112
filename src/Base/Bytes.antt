-- ===== src/Base/Bytes.antt =====
-- Lists of bytes.
use Prim.Native.Nat.{ℕ, zero, suc, ◌<◌}
use mathlib.Core.List.{List, [], ◌∷◌, ◌++◌}
use slate.Base.Lists.{take, drop}

abbrev pub AllBytes : List ℕ → Type 0
AllBytes [] = Unit
AllBytes (b ∷ bs) = (b < 256) × AllBytes bs

pub AllBytes-append : (xs ys : List ℕ) → AllBytes xs → AllBytes ys → AllBytes (xs ++ ys)
AllBytes-append [] ys a b = b
AllBytes-append (x ∷ xs) ys (h, a) b = (h, AllBytes-append xs ys a b)

pub AllBytes-take : (n : ℕ) (bs : List ℕ) → AllBytes bs → AllBytes (take n bs)
AllBytes-take zero bs a = tt
AllBytes-take (suc n) [] a = tt
AllBytes-take (suc n) (b ∷ bs) (h, a) = (h, AllBytes-take n bs a)

pub AllBytes-drop : (n : ℕ) (bs : List ℕ) → AllBytes bs → AllBytes (drop n bs)
AllBytes-drop zero bs a = a
AllBytes-drop (suc n) [] a = tt
AllBytes-drop (suc n) (b ∷ bs) (h, a) = AllBytes-drop n bs a
