-- ===== src/Kermit/Bsp/Tests.antt =====
-- _EK_init on arrays of the board of several sizes.
use slate.Base.{◌+◌, ◌≡◌, ◌<◌, ◌⊎◌, refl, true, none, some, arith}
use slate.Kermit.{k_success, k_failure}
use slate.Kermit.Bsp.{ek_init, mapped, sizeof_k_data}
use slate.Kermit.Bsp.Agrees.{FitsIn, ek_init_layout}

ek_init_layout_example :
    ((ek_init 8192 true true ≡ (k_success, some mapped)) × FitsIn 8192 mapped)
    ⊎ ((ek_init 8192 true true ≡ (k_failure, none)) × (8192 < mapped.k + sizeof_k_data))
ek_init_layout_example = ek_init_layout 8192 (omega arith) (omega arith)

-- Exactly what is needed, and one byte less.
exact : ek_init 7676 true true ≡ (k_success, some mapped)
unfolding ek_init
exact = refl

one_less : ek_init 7675 true true ≡ (k_failure, none)
unfolding ek_init
one_less = refl

-- Below 1536 bytes the difference wraps around, and the array is taken for large.
wrapped : ek_init 1000 true true ≡ (k_success, some mapped)
unfolding ek_init
wrapped = refl
