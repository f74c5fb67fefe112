-- ===== src/UnixIo/File/Write.antt =====
-- kwritefile of src/libe_kermit/unixio_rpi.c on a descriptor that is not open; no function of the
-- file opens `ofile`.
use slate.Base.{
  ℕ, ◌≡◌, refl, ap, ◌∙◌, Bool-cases, inl, inr, List, [], ◌∷◌, ◌++◌, append-nil, append_assoc, ◌==◌,
  if◌then◌else◌, take, ℤ,
}
use slate.UnixIo.Packet.{x_ok, x_error}
use slate.UnixIo.File.{KFile, c_string, write_part, write_some, write_text, kwritefile}

-- The bytes of a text but its CRs.
abbrev pub without_cr : List ℕ → List ℕ
without_cr [] = []
without_cr (c ∷ cs) = if c == 13 then without_cr cs else c ∷ without_cr cs

-- The return code of a text, before which it was `rc`, where no write succeeds.
abbrev pub refused_code : List ℕ → ℤ → ℤ
refused_code [] rc = rc
refused_code (_ ∷ _) rc = x_error

refused_code-append :
    (part s : List ℕ) (rc : ℤ) → refused_code s (refused_code part rc) ≡ refused_code (part ++ s) rc
refused_code-append [] s rc = refl
refused_code-append (c ∷ part) [] rc = refl
refused_code-append (c ∷ part) (d ∷ s) rc = refl

module _ {ℓ} {W : Type ℓ} (write : ℤ → List ℕ → W → ℤ × W) (fd : ℤ)
    (refuses : (part : List ℕ) (w : W) → write fd part w ≡ (x_error, w)) where
  write_part-refused :
      (part : List ℕ) (rc : ℤ) (w : W) → write_part write fd part (rc, w) ≡ (x_error, w)
  write_part-refused part rc w = rw (refuses part w) refl

  write_some-refused :
      (part : List ℕ) (rc : ℤ) (w : W)
      → write_some write fd part (rc, w) ≡ (refused_code part rc, w)
  write_some-refused [] rc w = refl
  write_some-refused (c ∷ part) rc w = write_part-refused (c ∷ part) rc w

  write_text-refused :
      (part s : List ℕ) (rc : ℤ) (w : W)
      → write_text write fd part s (rc, w) ≡ (refused_code (part ++ without_cr s) rc, w)
  unfolding write_text
  write_text-refused part [] rc w = rw (append-nil part) (write_some-refused part rc w)
  write_text-refused part (c ∷ s) rc w = elim (Bool-cases (c == 13)) [
    | inl cr ↦
        rw (cr, write_some-refused part rc w)
          (write_text-refused [] s (refused_code part rc) w
            ∙ ap (λ e. (e, w)) (refused_code-append part (without_cr s) rc))
    | inr other ↦ rw other (
        write_text-refused (part ++ (c ∷ [])) s rc w
        ∙ ap (λ l. (refused_code l rc, w)) (append_assoc part (c ∷ []) (without_cr s)))
  ]

-- Where write(2) refuses the descriptor, as it does the -1 that `ofile` is initialized with, kwritefile leaves
-- the system as it was; it returns X_ERROR in the binary mode, and in the text mode if there is a byte but
-- CRs before the NUL, and X_OK in the text mode else.
pub kwritefile_refused {ℓ} :
    {W : Type ℓ} (write : ℤ → List ℕ → W → ℤ × W) (k : KFile) (s : List ℕ) (n : ℕ) (w : W)
    → ((part : List ℕ) (w' : W) → write k.ofile part w' ≡ (x_error, w'))
    → kwritefile write k s n w
      ≡ (if k.binary == 0 then refused_code (without_cr (c_string s)) x_ok else x_error, w)
unfolding kwritefile
kwritefile_refused write k s n w refuses = elim (Bool-cases (k.binary == 0)) [
  | inl text ↦ rw text (write_text-refused write k.ofile refuses [] (c_string s) x_ok w)
  | inr raw ↦ rw raw (write_part-refused write k.ofile refuses (take n s) x_ok w)
]
