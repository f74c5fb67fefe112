-- ===== src/UnixIo/File/Tests.antt =====
-- A file read and written under the root path "img/".
use slate.Base.{ℕ, ◌≡◌, refl, arith, List, [], ◌∷◌, ◌++◌, some, none, Option, replicate, ℤ, negsuc}
use slate.UnixIo.Packet.{x_ok, x_error}
use slate.UnixIo.File.{done, KFile, kadd_rootpath, kopenfile, kwritefile}
use slate.UnixIo.File.Read.{encoded}
use slate.UnixIo.File.Read.Whole.{read_all, read_whole}
use slate.UnixIo.File.Write.{kwritefile_refused}

abbrev root : List ℕ
root = b'i' ∷ b'm' ∷ b'/' ∷ []

-- A file in the text mode.
abbrev fresh : KFile
fresh = record {
  rootpath = root;
  binary = 0;
  zinlen = 512;
  zinbuf = replicate 520 0;
  zinptr = none;
  zincnt = 0;
  s_first = 0;
  dummy = 0;
  ikeep = 0;
  filename = none;
  ifile = none;
  ofile = negsuc 0;
  kfilename = [];
}

-- Two lines.
abbrev lines : List ℕ
lines = 65 ∷ 10 ∷ 66 ∷ 10 ∷ []

abbrev opens : List ℕ → Option (List ℕ)
opens path = some lines

-- The file is the bytes written so far.
-- write(2) on a descriptor that is not open.
abbrev no_file : ℤ → List ℕ → ℕ → ℤ × ℕ
no_file fd part w = (x_error, w)

read_whole_example :
    (k' : KFile) × (kopenfile opens fresh (b'a' ∷ []) 1 ≡ done (x_ok, k'))
    × (read_all 7 k' ≡ some (encoded 0 lines))
unfolding kadd_rootpath
read_whole_example =
    read_whole opens fresh (b'a' ∷ []) (root ++ (b'a' ∷ [])) lines 7 refl refl
      (omega arith, (omega arith, (omega arith, (omega arith, tt)))) refl refl (omega arith)

kwritefile_refused_example : kwritefile no_file fresh (13 ∷ b'a' ∷ 0 ∷ []) 2 5 ≡ (x_error, 5)
kwritefile_refused_example =
    kwritefile_refused no_file fresh (13 ∷ b'a' ∷ 0 ∷ []) 2 5 (λ part w. refl)
