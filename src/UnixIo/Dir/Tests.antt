-- ===== src/UnixIo/Dir/Tests.antt =====
-- A directory and two files.
use slate.Base.{
  ℕ, ◌+◌, ◌-◌, ◌^◌, ◌≤◌, ◌≡◌, refl, arith, List, [], ◌∷◌, ◌++◌, take, some, none, Option, length,
  replicate, pos,
}
use slate.UnixIo.Packet.{x_ok}
use slate.UnixIo.File.{done, KFile, kadd_rootpath}
use slate.Crc.Segment.{words}
use slate.Crc.Bitwise.{divided}
use slate.Crc.Stream.{stream_crc, crcf_fsize}
use slate.Crc.Stream.Memory.{Open, in_memory, laws}
use slate.UnixIo.Dir.Etag.{stream_etag, stream_etag-divided}
use slate.UnixIo.Dir.{codes, dt_reg, dt_other, Entry, kgetdirdata}
use slate.UnixIo.Dir.Listing.{joined, k_dir_len, listing_fits}
use slate.UnixIo.Dir.Shown.{HoldFiles, shown, kgetdirdata-shown}

abbrev fresh : KFile
fresh = record {
  rootpath = codes "img/";
  binary = 1;
  zinlen = 512;
  zinbuf = replicate 520 0;
  zinptr = none;
  zincnt = 0;
  s_first = 0;
  dummy = 0;
  ikeep = 0;
  filename = none;
  ifile = none;
  ofile = pos 3;
  kfilename = [];
}

abbrev entries : List Entry
entries =
    record { d_type = dt_other; d_name = codes "sub" }
    ∷ record { d_type = dt_reg; d_name = codes "a.png" }
    ∷ record { d_type = dt_reg; d_name = codes "b.png" }
    ∷ []

abbrev opens_dir : List ℕ → Option (List Entry)
opens_dir path = some entries

-- Each file holds one byte.
abbrev opens : List ℕ → Option (List ℕ)
opens path = some (b'x' ∷ [])

abbrev place : List ℕ
place = codes "img/d"

opens-HoldFiles : HoldFiles opens place
opens-HoldFiles name contents e =
    let same : contents ≡ b'x' ∷ [] = cc in rw same (omega arith, omega arith)

kgetdirdata-shown_example :
    let text = (b'[' ∷ []) ++ (joined (take 6 (shown opens place entries)) ++ (b']' ∷ [])) in
    (kgetdirdata opens_dir opens fresh (codes "d")
      ≡ done (x_ok, some text, record fresh { kfilename = place }))
    × (length text + 1 ≤ 302)
unfolding kadd_rootpath
kgetdirdata-shown_example =
    kgetdirdata-shown opens_dir opens fresh (codes "d") place entries refl refl
      (omega arith, (omega arith, (omega arith, tt))) opens-HoldFiles

listing_fits_example :
    (text : List ℕ) × (k' : KFile) × (kgetdirdata opens_dir opens fresh (codes "d")
      ≡ done (x_ok, some text, k'))
    × (length text + 1 ≤ k_dir_len)
unfolding kadd_rootpath
listing_fits_example =
    listing_fits opens_dir opens fresh (codes "d") place entries refl refl
      (omega arith, (omega arith, (omega arith, tt)))

abbrev three : Open
three = record { bytes = 1 ∷ 2 ∷ 3 ∷ []; offset = 0 }

stream_etag-divided_example :
    stream_etag in_memory (codes "a.png") (some three) 0
    ≡ some (divided (2 ^ 32 - 1) (words (1 ∷ 2 ∷ 3 ∷ [])))
stream_etag-divided_example =
    stream_etag-divided in_memory laws (codes "a.png") three.bytes three 0 (refl, refl)
      (omega arith) (omega arith)

-- A file that begins with a dot may be empty.
stream_etag_dot :
    stream_etag in_memory (codes ".x") (some (record { bytes = []; offset = 0 })) 5 ≡ some 0
unfolding stream_etag stream_crc crcf_fsize
stream_etag_dot = refl
