-- ===== src/UnixIo/File.antt =====
-- The file functions of src/libe_kermit/unixio_rpi.c: kadd_rootpath, kopenfile, kreadfile, kwritefile,
-- kclosefile and kaccessfile.  A C string is the list of its bytes before the NUL.  The files of the
-- system are a parameter: what fopen, write, fclose, close and stat give.
pub mod Path
pub mod Read
pub mod Write
pub mod Session
mod Tests
use slate.Base.{
  ℕ, zero, suc, ◌+◌, ◌-◌, ◌%◌, Bool, true, false, not, ◌&&◌, Option, none, some, List, [], ◌∷◌,
  ◌++◌, leb, ltb, ◌==◌, if◌then◌else◌, length, get_or, set, take, drop, blit, ℤ, pos, negsuc,
  is_neg,
}
use slate.UnixIo.Packet.{x_ok, x_error}

-- A call comes back, or it writes past a buffer, or it follows a NULL pointer.
pub data Done {ℓ} (A : Type ℓ) : Type ℓ where
  done : A → Done A
  overrun crashed : Done A

abbrev pub kfilename_maxsize : ℕ
kfilename_maxsize = 256

-- The members of `struct k_data` that these functions use, and the statics of the file.  `zinptr` is an
-- index of `zinbuf`; an input file is the bytes that are left of it.
pub record KFile : Type 0 where
  pub rootpath : List ℕ
  pub binary : ℕ
  pub zinlen : ℕ
  pub zinbuf : List ℕ
  pub zinptr : Option ℕ
  pub zincnt : ℕ  -- 0 for a negative count, too: kreadfile asks for less than 1
  pub s_first : ℕ
  pub dummy : ℕ
  pub ikeep : ℕ
  pub filename : Option (List ℕ)
  pub ifile : Option (List ℕ)
  pub ofile : ℤ
  pub kfilename : List ℕ

-- What stands at `dest`.  Without a root path the length of `src` is not looked at.
unfoldable pub kadd_rootpath : List ℕ → List ℕ → ℕ → Done (List ℕ)
kadd_rootpath insert src max_size =
    if length insert == 0
    then if leb max_size (length src) then overrun else done src
    else if leb max_size (length src + length insert)
    then done []
    else done (insert ++ src)

abbrev pub and_then {ℓ κ} : {A : Type ℓ} {B : Type κ} → Done A → (A → Done B) → Done B
and_then (done a) f = f a
and_then overrun f = overrun
and_then crashed f = crashed

-- The call of kadd_rootpath on `kfilename` that four of the functions begin with.
abbrev pub with_path {ℓ} : {B : Type ℓ} → KFile → List ℕ → (KFile → Done B) → Done B
with_path k s f =
    and_then (kadd_rootpath k.rootpath s kfilename_maxsize)
      (λ path. f (record k { kfilename = path }))

-- The case `mode == 1`, by what fopen gives.
abbrev pub opened : KFile → Option (List ℕ) → ℤ × KFile
opened k none = (x_error, record k { ifile = none })
opened k (some contents) = (
  x_ok,
  record k {
    ifile = some contents;
    s_first = 1;
    zinbuf = set k.zinbuf 0 0;
    zinptr = some 0;
    zincnt = 0;
  },
)

unfoldable pub kopenfile : (List ℕ → Option (List ℕ)) → KFile → List ℕ → ℕ → Done (ℤ × KFile)
unfolding kadd_rootpath
kopenfile fopen k s mode =
    with_path k s (λ k'. done (if mode == 1 then opened k' (fopen k'.kfilename) else (x_error, k')))

-- The loop of the text mode: the bytes left, the count and the buffer.
unfoldable pub text_fill : ℕ → List ℕ → ℕ → List ℕ → List ℕ × ℕ × List ℕ
text_fill zinlen [] cnt buf = ([], cnt, buf)
text_fill zinlen (c ∷ rest) cnt buf =
    let next =
      text_fill zinlen rest (if c == 10 then cnt + 2 else cnt + 1)
        (if c == 10 then set (set buf cnt 13) (cnt + 1) c else set buf cnt c) in
    if ltb (cnt + 2) zinlen then next else (c ∷ rest, cnt, buf)

-- A refilled buffer is terminated; none of its bytes is the end of the file.
abbrev pub refilled : KFile → List ℕ × ℕ × List ℕ → Bool × KFile
refilled k (rest, cnt, buf) =
    if cnt == 0
    then (false, record k { ifile = some rest; zincnt = 0; zinbuf = set buf 0 0 })
    else (
      true,
      record k { ifile = some rest; zincnt = cnt; zinbuf = set buf cnt 0; zinptr = some 0 },
    )

-- fread of at most 512 bytes; without any the buffer is not terminated.
abbrev pub binary_fill : KFile → List ℕ → Bool × KFile
binary_fill k rest =
    if length rest == 0
    then (false, record k { zincnt = 0; ifile = some rest })
    else refilled k
        (drop k.zinlen rest, length (take k.zinlen rest), blit k.zinbuf 0 (take k.zinlen rest))

-- The refill: whether there is a byte.
unfoldable pub refill : KFile → Option (List ℕ) → Done (Bool × KFile)
unfolding text_fill
refill k none =
    if k.binary == 0
    then if ltb 2 k.zinlen
      then crashed
      else done (false, record k { zincnt = 0; zinbuf = set k.zinbuf 0 0 })
    else if k.zinlen == 512
    then crashed
    else done (false, record k { dummy = 0 })
refill k (some rest) =
    if k.binary == 0
    then done (refilled k (text_fill k.zinlen rest 0 k.zinbuf))
    else if k.zinlen == 512
    then done (binary_fill (record k { dummy = 0 }) rest)
    else done (false, record k { dummy = 0 })

-- `*(k->zinptr)++ & 0xff`
abbrev pub byte_at : KFile → Option ℕ → Done (ℤ × KFile)
byte_at k none = crashed
byte_at k (some p) =
    done
      (pos (get_or k.zinbuf p 0 % 256), record k { zincnt = k.zincnt - 1; zinptr = some (p + 1) })

abbrev pub next_byte : Bool × KFile → Done (ℤ × KFile)
next_byte (false, k) = done (negsuc 0, k)
next_byte (true, k) = byte_at k k.zinptr

abbrev pub read_at : KFile → Option ℕ → Done (ℤ × KFile)
read_at k none = done (negsuc 0, k)
read_at k (some p) =
    if ltb k.zincnt 1 then and_then (refill k k.ifile) next_byte else next_byte (true, k)

unfoldable pub kreadfile : KFile → Done (ℤ × KFile)
unfolding refill
kreadfile k = read_at k k.zinptr

-- The C string that a buffer begins with.
abbrev pub c_string : List ℕ → List ℕ
c_string [] = []
c_string (c ∷ cs) = if c == 0 then [] else c ∷ c_string cs

-- write(2) on a state `W`: the result and the new state.
module _ {ℓ} {W : Type ℓ} (write : ℤ → List ℕ → W → ℤ × W) where
  -- One write, with the return code so far.
  abbrev pub write_part : ℤ → List ℕ → ℤ × W → ℤ × W
  write_part ofile part (rc, w) =
      let (n, w') = write ofile part w in
      (elim n [ pos m ↦ if m == length part then rc else x_error | negsuc m ↦ x_error ], w')

  abbrev pub write_some : ℤ → List ℕ → ℤ × W → ℤ × W
  write_some ofile [] r = r
  write_some ofile (c ∷ part) r = write_part ofile (c ∷ part) r

  -- The text mode: `part` is what stands since `q`.
  unfoldable pub write_text : ℤ → List ℕ → List ℕ → ℤ × W → ℤ × W
  write_text ofile part [] r = write_some ofile part r
  write_text ofile part (c ∷ s) r =
      let next = write_text ofile [] s (write_some ofile part r) in
      let more = write_text ofile (part ++ (c ∷ [])) s r in if c == 13 then next else more

  -- `s` is the `n` bytes and what follows them: the text mode goes on to a NUL.
  unfoldable pub kwritefile : KFile → List ℕ → ℕ → W → ℤ × W
  unfolding write_text
  kwritefile k s n w =
      if k.binary == 0
      then write_text k.ofile [] (c_string s) (x_ok, w)
      else write_part k.ofile (take n s) (x_ok, w)

-- `stat` is what stat(2) returns.
unfoldable pub kaccessfile : (List ℕ → ℤ) → KFile → List ℕ → Done (ℤ × KFile)
unfolding kadd_rootpath
kaccessfile stat k s = with_path k s (λ k'. done (elim (stat k'.kfilename) [
  | pos n ↦ (if n == 0 then x_ok else x_error, k')
  | negsuc n ↦ (x_error, k')
]))

-- What kclosefile asks of the system, in order.
pub data Request : Type 0 where
  fclose_input : Request
  close_output : ℤ → Request
  unlink : List ℕ → Request

-- The end of the case `mode == 2`: an incomplete file is deleted.
abbrev pub delete_incomplete : KFile → ℕ → ℤ → List Request → Done (ℤ × KFile × List Request)
delete_incomplete k c rc asked =
    if k.ikeep == 0 && c == b'D'
    then elim (k.filename) [
      | none ↦ crashed
      | some name ↦ with_path k name (λ k'. done (rc, k', asked ++ (unlink k'.kfilename ∷ [])))
    ]
    else done (rc, k, asked)

abbrev pub close_code : ℤ → ℤ
close_code n = if is_neg n then x_error else x_ok

-- `closed` is what fclose or close returns.
unfoldable pub kclosefile : ℤ → KFile → ℕ → ℕ → Done (ℤ × KFile × List Request)
unfolding kadd_rootpath
kclosefile closed k c mode =
    if mode == 1
    then elim (k.ifile) [
      | none ↦ done (x_ok, k, [])
      | some rest ↦ done (close_code closed, record k { ifile = none }, fclose_input ∷ [])
    ]
    else if mode == 2
    then if is_neg k.ofile
      then done (x_ok, k, [])
      else delete_incomplete k c (close_code closed) (close_output k.ofile ∷ [])
    else done (x_error, k, [])
