-- ===== src/UnixIo/File/Session/Tests.antt =====
-- An empty file opened, closed and then read.
use slate.Base.{ℕ, ◌≡◌, ◌⊎◌, refl, arith, Option, none, some, List, [], ◌∷◌, replicate, pos}
use slate.UnixIo.Packet.{x_ok}
use slate.UnixIo.File.{KFile, crashed, kopenfile, kreadfile, kclosefile, fclose_input}
use slate.UnixIo.File.Session.{IsSound, Session, begun, next, opening, closing, ComesBack, IsStale}
use slate.UnixIo.File.Session.Calls.{session_reads}

abbrev unused : KFile
unused = record {
  rootpath = [];
  binary = 0;
  zinlen = 512;
  zinbuf = replicate 520 0;
  zinptr = none;
  zincnt = 0;
  s_first = 0;
  dummy = 0;
  ikeep = 0;
  filename = none;
  ifile = none;
  ofile = pos 3;
  kfilename = [];
}

unused-IsSound : IsSound unused
unused-IsSound = record { cells = refl; mode = refl; inside = λ p e. ground arith }

abbrev empty_file : List ℕ → Option (List ℕ)
empty_file path = some []

abbrev name : List ℕ
name = b'a' ∷ []

abbrev after_open : KFile
after_open = record unused { ifile = some []; s_first = 1; zinptr = some 0; kfilename = name }

abbrev after_close : KFile
after_close = record after_open { ifile = none }

open_close : Session unused after_close
unfolding kopenfile kclosefile
open_close =
    next (next begun (opening empty_file name 1 x_ok after_open refl))
      (closing (pos 0) 0 1 x_ok after_close (fclose_input ∷ []) refl)

session_reads_example :
    IsSound after_close
    × (ComesBack (kreadfile after_close)
        ⊎ (IsStale after_close × (kreadfile after_close ≡ crashed)))
session_reads_example = session_reads unused after_close unused-IsSound open_close

-- A read behind kclosefile follows the closed file.
read_closed : kreadfile after_close ≡ crashed
unfolding kreadfile
read_closed = refl
