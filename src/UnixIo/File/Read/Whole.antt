-- ===== src/UnixIo/File/Read/Whole.antt =====
-- A file read from kopenfile to the end of the file.
use slate.Base.{
  AllBytes, ℕ, zero, suc, ◌<◌, ◌≡◌, refl, sym, ap, ◌∙◌, Option, none, some, List, [], ◌∷◌, arith,
  length, length-set, ℤ, pos, negsuc, set,
}
use mathlib.Core.Option
use slate.UnixIo.Packet.{x_ok}
use slate.UnixIo.File.{
  Done, done, overrun, crashed, KFile, kadd_rootpath, kfilename_maxsize, with_path, kopenfile,
  kreadfile,
}
use slate.UnixIo.File.Read.{encoded, IsOpen, upcoming}
use slate.UnixIo.File.Read.Step.{Stepped, end, byte, kreadfile-Stepped}

-- What a caller of kreadfile gets that calls it until it returns -1.
abbrev pub collected : (KFile → Option (List ℕ)) → Done (ℤ × KFile) → Option (List ℕ)
collected more (done (pos x, k)) = Option.map (λ xs. x ∷ xs) (more k)
collected more (done (negsuc n, k)) = some []
collected more overrun = none
collected more crashed = none

unfoldable pub read_all : ℕ → KFile → Option (List ℕ)
read_all zero k = none
read_all (suc fuel) k = collected (read_all fuel) (kreadfile k)

-- The calls to come give all of the rest.
Reads : ℕ → Type 0
Reads fuel =
    (k : KFile) (p : ℕ) (rest : List ℕ)
    → IsOpen k p rest
    → length (upcoming k p rest) < fuel
    → read_all fuel k ≡ some (upcoming k p rest)

collected-all :
    (fuel : ℕ) (all : List ℕ) (r : Done (ℤ × KFile))
    → Stepped all r
    → Reads fuel
    → length all < suc fuel
    → collected (read_all fuel) r ≡ some all
unfolding Reads
collected-all fuel all r (end k e) ih h = ap some (sym e)
collected-all fuel all r (byte k p rest x xs e o u) ih h =
    let size : length all ≡ suc (length xs) = ap length e in
    let same : length (upcoming k p rest) ≡ length xs = ap length u in
    ap (Option.map (λ ys. x ∷ ys)) (ih k p rest o (omega arith) ∙ ap some u) ∙ ap some (sym e)

read_all-Reads : (fuel : ℕ) → Reads fuel
unfolding Reads read_all
read_all-Reads zero k p rest o h = absurd (omega arith)
read_all-Reads (suc fuel) k p rest o h =
    collected-all fuel (upcoming k p rest) (kreadfile k) (kreadfile-Stepped k p rest o)
      (read_all-Reads fuel) h

-- When the path fits and fopen opens it, kopenfile for reading returns X_OK, and calling kreadfile until
-- it returns -1 then gives all the bytes of the file, each once and in order: as they are in the binary
-- mode, and with a CR before each LF in the text mode.
pub read_whole :
    (fopen : List ℕ → Option (List ℕ)) (k : KFile) (s path contents : List ℕ) (fuel : ℕ)
    → kadd_rootpath k.rootpath s kfilename_maxsize ≡ done path
    → fopen path ≡ some contents
    → AllBytes contents
    → k.zinlen ≡ 512
    → length k.zinbuf ≡ 520
    → length (encoded k.binary contents) < fuel
    → (k' : KFile) × (kopenfile fopen k s 1 ≡ done (x_ok, k'))
      × (read_all fuel k' ≡ some (encoded k.binary contents))
unfolding kopenfile Reads
read_whole fopen k s path contents fuel p f b z l h =
    let k' = record k {
      kfilename = path;
      ifile = some contents;
      s_first = 1;
      zinbuf = set k.zinbuf 0 0;
      zinptr = some 0;
      zincnt = 0;
    } in
    let o : IsOpen k' 0 contents = record {
      pointer = refl;
      file = refl;
      cells = length-set k.zinbuf 0 0 ∙ l;
      inside = omega arith;
      mode = z;
      bytes = (tt, b);
    } in
    (k', rw (p, with_path) (rw f refl), read_all-Reads fuel k' 0 contents o h)
