-- ===== src/UnixIo/Packet/Frame/Deal.antt =====
-- What kreadpkt does with each byte of a packet.
use slate.Base.{
  ℕ, zero, suc, ◌+◌, ◌≤◌, ◌<◌, ◌≡◌, ◌≢◌, refl, sym, ◌∙◌, true, false, List, [], ◌∷◌, arith, length,
  length-set, set, get_or, pos,
}
use slate.UnixIo.Packet.{
  Params, Locals, returned, reads_on, final_char, note, deal_content, deal, is_cmd,
}

-- The first byte is stored, and it was no `C`: the five bytes are not "CMD\r\n".
abbrev pub IsNoCmd : Locals → Type 0
IsNoCmd s =
    (length s.cmd ≡ 6)
    × (0 < s.i)
    × (get_or s.cmd 0 0 ≢ b'C')
    × (s.i ≤ 5)
    × (s.comp ≡ true → s.i < 5)

abbrev pub Starts : Locals → Type 0
Starts s = (length s.cmd ≡ 6) × (s.i ≡ 0) × (s.comp ≡ true)

is_cmd-false : (cs : List ℕ) → get_or cs 0 0 ≢ b'C' → is_cmd cs ≡ false
is_cmd-false [] h = refl
is_cmd-false (a ∷ []) h = refl
is_cmd-false (a ∷ b ∷ []) h = refl
is_cmd-false (a ∷ b ∷ c ∷ []) h = refl
is_cmd-false (a ∷ b ∷ c ∷ d ∷ []) h = refl
is_cmd-false (a ∷ b ∷ c ∷ d ∷ e ∷ cs) h = ground arith

get_or-set_zero : (cs : List ℕ) (v : ℕ) → 0 < length cs → get_or (set cs 0 v) 0 0 ≡ v
get_or-set_zero [] v h = absurd (omega arith)
get_or-set_zero (c ∷ cs) v h = refl

get_or-set_later : (cs : List ℕ) (i v : ℕ) → 0 < i → get_or (set cs i v) 0 0 ≡ get_or cs 0 0
get_or-set_later [] i v h = refl
get_or-set_later (c ∷ cs) zero v h = absurd (omega arith)
get_or-set_later (c ∷ cs) (suc i) v h = refl

pub note-first : (s : Locals) → Starts s → s.rx_fifo_char ≢ b'C' → IsNoCmd (note s)
unfolding note
note-first s (l, z, c) h =
    let e : get_or (set s.cmd s.i s.rx_fifo_char) 0 0 ≡ s.rx_fifo_char =
      rw z (get_or-set_zero s.cmd s.rx_fifo_char (omega arith)) in
    (
      ground (arith, length-set s.cmd s.i s.rx_fifo_char),
      ground arith,
      λ q. h (sym e ∙ q),
      ground arith,
      λ q. ground arith,
    )

pub note-later : (s : Locals) → IsNoCmd s → IsNoCmd (note s)
unfolding note
note-later s (l, z, c, m, h) = (
  ground (arith, length-set s.cmd s.i s.rx_fifo_char),
  ground arith,
  λ q. c (sym (get_or-set_later s.cmd s.i s.rx_fifo_char z) ∙ q),
  ground arith,
  λ q. ground arith,
)

module _ (k : Params) where
  pub deal-IsNoCmd : (s : Locals) → IsNoCmd (note s) → deal k s ≡ deal_content k (note s)
  unfolding deal
  deal-IsNoCmd s (_, _, c, _, _) = ground (arith, is_cmd-false (note s).cmd c)

  -- A byte that stands for neither end of a packet.
  abbrev pub IsContent : ℕ → Type 0
  IsContent c = (c < 256) × (final_char k c ≢ k.r_soh) × (final_char k c ≢ k.r_eom)

  pub deal_content-noise :
      (s : Locals)
      → s.flag ≡ false
      → final_char k s.rx_fifo_char ≢ k.r_soh
      → deal_content k s ≡ reads_on s
  unfolding deal_content
  deal_content-noise s f h = ground arith

  pub deal_content-soh :
      (s : Locals)
      → final_char k s.rx_fifo_char ≡ k.r_soh
      → deal_content k s ≡ reads_on (record s { flag = true })
  unfolding deal_content
  deal_content-soh s h = ground arith

  pub deal_content-eom :
      (s : Locals)
      → s.flag ≡ true
      → final_char k s.rx_fifo_char ≡ k.r_eom
      → k.r_eom ≢ k.r_soh
      → deal_content k s ≡ returned (pos s.n) (record s { buff = set s.buff s.n 0 })
  unfolding deal_content
  deal_content-eom s f h ne = ground arith

  pub deal_content-byte :
      (s : Locals)
      → s.flag ≡ true
      → IsContent s.rx_fifo_char
      → s.n ≤ k.r_maxlen
      → deal_content k s ≡ reads_on (record s { n = s.n + 1; buff = set s.buff s.n s.rx_fifo_char })
  unfolding deal_content
  deal_content-byte s f (b, h, g) m = ground arith

  abbrev pub AllContent : List ℕ → Type 0
  AllContent [] = Unit
  AllContent (c ∷ cs) = IsContent c × AllContent cs

  -- No byte of the noise is the start of a packet.
  abbrev pub AllNoise : List ℕ → Type 0
  AllNoise [] = Unit
  AllNoise (c ∷ cs) = (final_char k c ≢ k.r_soh) × AllNoise cs
