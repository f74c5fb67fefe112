-- ===== src/Kermit/Bsp/Agrees.antt =====
-- The two builds of src/libe_kermit/libe-kermit.c against each other, and the array of the board.
use slate.Base.{
  ℕ, ◌+◌, ◌≤◌, ◌<◌, ◌≡◌, ◌⊎◌, inl, inr, refl, arith, Bool, true, Bool-cases, Option, none, some,
  List, ltb, sub32,
}
use slate.Kermit.{Engine, Out, Run, run_map, k_success, k_failure, is_ok, loop, enter, begin_action}
use slate.Kermit
use slate.Kermit.Client.{reinit}
use slate.Kermit.Bsp.{
  obuflen, ibuflen, sizeof_k_data, sizeof_k_response, Layout, mapped, needed, ek_init,
}
use slate.Kermit.Bsp

-- The two buffers with eight bytes more each, the response and the data follow each other behind the
-- first 1536 bytes, and end inside `size` bytes.
pub record FitsIn (size : ℕ) (l : Layout) : Type 0 where
  pub behind : 1536 ≤ l.o_buf
  pub output : l.o_buf + obuflen + 8 ≤ l.i_buf
  pub input : l.i_buf + ibuflen + 8 ≤ l.r
  pub response : l.r + sizeof_k_response ≤ l.k
  pub inside : l.k + sizeof_k_data ≤ size

-- With an array of 1536 bytes at least, _EK_init either succeeds and its four regions lie one behind
-- the other in the array, or fails since they would not fit.
pub ek_init_layout :
    (size : ℕ)
    → 1536 ≤ size
    → size < 2147483648
    → ((ek_init size true true ≡ (k_success, some mapped)) × FitsIn size mapped)
      ⊎ ((ek_init size true true ≡ (k_failure, none)) × (size < mapped.k + sizeof_k_data))
unfolding ek_init
ek_init_layout size low high = elim (Bool-cases (ltb (sub32 size 1536) needed)) [
  | inl small ↦ inr (rw small, ground arith)
  | inr enough ↦ inl (
    rw enough,
    record {
      behind = omega arith;
      output = omega arith;
      input = omega arith;
      response = omega arith;
      inside = ground arith;
    },
  )
]

module _ {ℓ} {K : Type ℓ} {A : Type 0} (g : Engine K A) where
  -- What the caller gets, but for `nresend`.
  abbrev pub without_nresend : Out K A → Out K A
  without_nresend o = record o { nresend = none }

  main_end-agrees :
      (action : ℕ) (arg type : Bool) (r : Option (ℕ × K))
      → Bsp.main_end g action arg type r
        ≡ run_map without_nresend (Kermit.main_end g action arg type true r)
  unfolding Bsp.main_end Kermit.main_end
  main_end-agrees action arg type none = refl
  main_end-agrees action arg type (some (ret, k)) = refl

  -- The build for the board does what the other does where `nresend` has a place, and leaves that
  -- place alone.
  pub kermit_main-agrees :
      (fuel action : ℕ) (cmlist : Option (List A)) (arg type : Bool) (k : K)
      → Bsp.kermit_main g fuel action cmlist arg type k
        ≡ run_map without_nresend (Kermit.kermit_main g fuel action cmlist arg type true k)
  unfolding Bsp.kermit_main Kermit.kermit_main
  kermit_main-agrees fuel action cmlist arg type k =
      elim (Bool-cases (is_ok (reinit g cmlist k).0)) [
        | inl ok ↦ rw ok (main_end-agrees action arg type _)
        | inr bad ↦ rw bad
      ]
