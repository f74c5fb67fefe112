-- ===== src/UnixIo/File/Session.antt =====
-- The file functions of src/libe_kermit/unixio_rpi.c in any order: kopenfile, kreadfile, kclosefile and
-- kaccessfile, which E-Kermit calls with any arguments, and what its zgetc and K_REINIT do to the members of
-- `k` between them.  kwritefile changes no member of these.
mod Reading
pub mod Calls
mod Tests
use mathlib.Core.Path.{subst}
use slate.Base.{
  ℕ, zero, suc, ◌+◌, ◌-◌, ◌≤◌, ◌<◌, min, ◌≡◌, refl, sym, ap, ◌∙◌, Bool, true, false, Bool-cases,
  ◌&&◌, ℕ-cases, Option-cases, inl, inr, ◌⊎◌, Option, none, some, List, [], ◌∷◌, ◌++◌, arith, leb,
  ltb, ◌==◌, if◌then◌else◌, length, length-set, length-take, length-blit, take, drop, set, blit, ℤ,
  pos, negsuc, is_neg,
}
use slate.UnixIo.Packet.{x_ok, x_error}
use slate.UnixIo.File.{
  Done, done, overrun, crashed, KFile, kadd_rootpath, kfilename_maxsize, with_path, kopenfile,
  opened, text_fill, refilled, binary_fill, refill, byte_at, next_byte, read_at, kreadfile,
  kaccessfile, kclosefile, Request, fclose_input, close_output, unlink, close_code,
  delete_incomplete, and_then,
}
use slate.UnixIo.File.Read.{text_fill-Filled}

-- The buffer has its 520 cells and is read 512 at a time, and the bytes that count in it stand in front
-- of the 512th cell.
pub record IsSound (k : KFile) : Type 0 where
  pub cells : length k.zinbuf ≡ 520
  pub mode : k.zinlen ≡ 512
  pub inside : (p : ℕ) → k.zinptr ≡ some p → p + k.zincnt ≤ 512

-- A call, by what it leaves when it comes back, or what E-Kermit does itself between the calls: zgetc takes a
-- byte that counts, or counts below zero before it calls kreadfile; K_REINIT clears the count; and it sets the
-- members that kreadfile and kclosefile look at.
pub data Step (k : KFile) : KFile → Type 0 where
  opening :
      (fopen : List ℕ → Option (List ℕ)) (s : List ℕ) (mode : ℕ) (r : ℤ) (k' : KFile)
      → kopenfile fopen k s mode ≡ done (r, k')
      → Step k k'
  reading : (r : ℤ) (k' : KFile) → kreadfile k ≡ done (r, k') → Step k k'
  closing :
      (closed : ℤ) (c mode : ℕ) (r : ℤ) (k' : KFile) (asked : List Request)
      → kclosefile closed k c mode ≡ done (r, k', asked)
      → Step k k'
  testing :
      (stat : List ℕ → ℤ) (s : List ℕ) (r : ℤ) (k' : KFile)
      → kaccessfile stat k s ≡ done (r, k')
      → Step k k'
  taking :
      (p n : ℕ)
      → k.zinptr ≡ some p
      → k.zincnt ≡ suc n
      → Step k (record k { zinptr = some (p + 1); zincnt = n })
  using_up : k.zincnt ≡ 0 → Step k k
  clearing : Step k (record k { zincnt = 0 })
  setting :
      (binary ikeep s_first : ℕ) (filename : Option (List ℕ))
      → Step k (record k { binary = binary; ikeep = ikeep; s_first = s_first; filename = filename })

pub data Session (k : KFile) : KFile → Type 0 where
  begun : Session k k
  next : {k1 k2 : KFile} → Session k k1 → Step k1 k2 → Session k k2

-- A call comes back, with a sound state.
abbrev pub ComesBack : Done (ℤ × KFile) → Type 0
ComesBack (done (r, k)) = IsSound k
ComesBack overrun = ⊥
ComesBack crashed = ⊥

-- The file is used up and closed, and its pointer is still set.
pub record IsStale (k : KFile) : Type 0 where
  pub pointed : (p : ℕ) × (k.zinptr ≡ some p)
  pub used_up : k.zincnt ≡ 0
  pub closed : k.ifile ≡ none
