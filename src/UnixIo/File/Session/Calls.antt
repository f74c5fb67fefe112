-- ===== src/UnixIo/File/Session/Calls.antt =====
-- The other file functions of src/libe_kermit/unixio_rpi.c, and the sequences of calls.
use mathlib.Core.Path.{subst}
use slate.Base.{
  ℕ, ◌≡◌, ◌∙◌, Bool-cases, ◌&&◌, inl, inr, ◌⊎◌, Option, none, some, List, [], ◌∷◌, ◌++◌, arith,
  ◌==◌, if◌then◌else◌, length-set, ℤ, pos, negsuc, is_neg,
}
use slate.UnixIo.Packet.{x_ok, x_error}
use slate.UnixIo.File.{
  Done, done, overrun, crashed, KFile, kadd_rootpath, kfilename_maxsize, with_path, kopenfile,
  opened, kreadfile, kaccessfile, kclosefile, Request, fclose_input, close_output, unlink,
  close_code, delete_incomplete, and_then,
}
use slate.UnixIo.File.Session.{
  IsSound, Step, opening, reading, closing, testing, taking, using_up, clearing, setting, Session,
  begun, next, ComesBack, IsStale,
}
use slate.UnixIo.File.Session.Reading.{kreadfile-cases}

-- A call that comes back leaves a sound state; `state` is where it stands in the result.
module _ {B : Type 0} (state : B → KFile) where
  abbrev Keeps : Done B → Type 0
  Keeps (done b) = IsSound (state b)
  Keeps overrun = Unit {0}
  Keeps crashed = Unit {0}

  and_then-Keeps :
      {A : Type 0} (d : Done A) (f : A → Done B) → ((a : A) → Keeps (f a)) → Keeps (and_then d f)
  and_then-Keeps (done a) f h = h a
  and_then-Keeps overrun f h = tt
  and_then-Keeps crashed f h = tt

  -- kadd_rootpath changes `kfilename` alone.
  with_path-Keeps :
      (k : KFile) (s : List ℕ) (f : KFile → Done B)
      → IsSound k
      → ((k' : KFile) → IsSound k' → Keeps (f k'))
      → Keeps (with_path k s f)
  with_path-Keeps k s f h keep =
      and_then-Keeps (kadd_rootpath k.rootpath s kfilename_maxsize)
        (λ path. f (record k { kfilename = path }))
        (λ path.
          keep (record k { kfilename = path })
            (record { cells = h.cells; mode = h.mode; inside = h.inside }))

abbrev second : ℤ × KFile → KFile
second r = r.1

abbrev middle : ℤ × KFile × List Request → KFile
middle r = r.1

opened-IsSound : (k : KFile) (o : Option (List ℕ)) → IsSound k → IsSound (opened k o).1
opened-IsSound k none s = record { cells = s.cells; mode = s.mode; inside = s.inside }
opened-IsSound k (some contents) s = record {
  cells = length-set k.zinbuf 0 0 ∙ s.cells;
  mode = s.mode;
  inside = λ p e. ground arith;
}

kopenfile-Keeps :
    (fopen : List ℕ → Option (List ℕ)) (k : KFile) (s : List ℕ) (mode : ℕ)
    → IsSound k
    → Keeps second (kopenfile fopen k s mode)
unfolding kopenfile
kopenfile-Keeps fopen k s mode h =
    with_path-Keeps second k s
      (λ k'. done (if mode == 1 then opened k' (fopen k'.kfilename) else (x_error, k'))) h
      (λ k' h'. elim (Bool-cases (mode == 1)) [
        | inl e ↦ rw e (opened-IsSound k' (fopen k'.kfilename) h')
        | inr e ↦ rw e h'
      ])

kaccessfile-Keeps :
    (stat : List ℕ → ℤ) (k : KFile) (s : List ℕ) → IsSound k → Keeps second (kaccessfile stat k s)
unfolding kaccessfile
kaccessfile-Keeps stat k s h =
    with_path-Keeps second k s
      (λ k'. done (elim (stat k'.kfilename) [
        | pos n ↦ (if n == 0 then x_ok else x_error, k')
        | negsuc n ↦ (x_error, k')
      ]))
      h
      (λ k' h'.
        elim (stat k'.kfilename)
          as (λ (z : ℤ). IsSound (
            let r : ℤ × KFile = elim z [
              | pos n ↦ (if n == 0 then x_ok else x_error, k')
              | negsuc n ↦ (x_error, k')
            ] in
            r.1)) [ pos n ↦ h' | negsuc n ↦ h' ])

delete_incomplete-Keeps :
    (k : KFile) (c : ℕ) (rc : ℤ) (asked : List Request)
    → IsSound k
    → Keeps middle (delete_incomplete k c rc asked)
delete_incomplete-Keeps k c rc asked h = elim (Bool-cases (k.ikeep == 0 && c == b'D')) [
  | inr e ↦ rw e h
  | inl e ↦
      rw e
        (elim (k.filename)
          as (λ (o : Option (List ℕ)). Keeps middle (elim o [
            | none ↦ crashed
            | some name ↦
                with_path k name (λ k'. done (rc, k', asked ++ (unlink k'.kfilename ∷ [])))
          ])) [
            | none ↦ tt
            | some name ↦
                with_path-Keeps middle k name
                  (λ k'. done (rc, k', asked ++ (unlink k'.kfilename ∷ []))) h (λ k' h'. h')
          ])
]

kclosefile-Keeps :
    (closed : ℤ) (k : KFile) (c mode : ℕ) → IsSound k → Keeps middle (kclosefile closed k c mode)
unfolding kclosefile
kclosefile-Keeps closed k c mode h = elim (Bool-cases (mode == 1)) [
  | inl input ↦
      rw input
        (elim (k.ifile)
          as (λ (o : Option (List ℕ)). Keeps middle (elim o [
            | none ↦ done (x_ok, k, [])
            | some rest ↦ done (close_code closed, record k { ifile = none }, fclose_input ∷ [])
          ])) [
            | none ↦ h
            | some rest ↦ record { cells = h.cells; mode = h.mode; inside = h.inside }
          ])
  | inr other ↦ elim (Bool-cases (mode == 2)) [
    | inr neither ↦ rw (other, neither) h
    | inl output ↦ elim (Bool-cases (is_neg k.ofile)) [
      | inl none_open ↦ rw (other, output, none_open) h
      | inr some_open ↦
          rw (other, output, some_open)
            (delete_incomplete-Keeps k c (close_code closed) (close_output k.ofile ∷ []) h)
    ]
  ]
]

step-IsSound : {k k' : KFile} → Step k k' → IsSound k → IsSound k'
step-IsSound {k} (opening fopen s mode r k' e) h =
    subst (Keeps second) e (kopenfile-Keeps fopen k s mode h)
step-IsSound {k} (reading r k' e) h = elim (kreadfile-cases k h) [
  | inl back ↦ subst ComesBack e back
  | inr (stale, crash) ↦ absurd (ground arith)
]
step-IsSound {k} (closing closed c mode r k' asked e) h =
    subst (Keeps middle) e (kclosefile-Keeps closed k c mode h)
step-IsSound {k} (testing stat s r k' e) h = subst (Keeps second) e (kaccessfile-Keeps stat k s h)
step-IsSound {k} (taking p n at_p some_left) h =
    let room = h.inside p at_p in
    record { cells = h.cells; mode = h.mode; inside = λ q e. ground arith }
step-IsSound (using_up none_left) h = h
step-IsSound {k} clearing h = record {
  cells = h.cells;
  mode = h.mode;
  inside = λ p e. let room = h.inside p e in omega arith;
}
step-IsSound (setting binary ikeep s_first filename) h = record {
  cells = h.cells;
  mode = h.mode;
  inside = h.inside;
}

-- Whatever file calls E-Kermit makes, with whatever arguments and results of the C library, and whatever bytes
-- it takes from the buffer between them by zgetc, with a K_REINIT at any place: the bytes that count stay in
-- the first 512 of the buffer, and a call of kreadfile then comes back and keeps this, unless the pointer is set, the buffer used up and the file closed; there it reads NULL.
pub session_reads :
    (k k' : KFile)
    → IsSound k
    → Session k k'
    → IsSound k' × (ComesBack (kreadfile k') ⊎ (IsStale k' × (kreadfile k' ≡ crashed)))
session_reads k k' h begun = (h, kreadfile-cases k h)
session_reads k k' h (next {k1} r st) =
    let s = step-IsSound st (session_reads k k1 h r).0 in (s, kreadfile-cases k' s)
