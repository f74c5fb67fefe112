-- ===== src/Crc/Stream/Memory.antt =====
-- A file in memory, as the tests of src/libcrc32/libcrc32_file.c use it.
use slate.Base.{ℕ, ◌+◌, ◌≡◌, refl, ap, arith, List, length, take, drop, ℤ, pos, negsuc}
use slate.Crc.Stream.{Stdio, Whence, seek_set, seek_end}
use slate.Crc.Stream.Regular.{Regular}

pub record Open : Type 0 where
  pub bytes : List ℕ
  pub offset : ℕ

abbrev pub seek : Open → ℤ → Whence → ℤ × Open
seek f (pos k) seek_set = (pos 0, record f { offset = k })
seek f (pos k) seek_end = (pos 0, record f { offset = length f.bytes + k })
seek f (negsuc k) w = (negsuc 0, f)

abbrev pub read : Open → ℕ → List ℕ × Open
read f n = (
  take n (drop f.offset f.bytes),
  record f { offset = f.offset + length (take n (drop f.offset f.bytes)) },
)

abbrev pub in_memory : Stdio Open
in_memory = record { ftell = λ f. pos f.offset; fseek = seek; fread = read }

abbrev pub HoldsAt : Open → List ℕ → ℕ → Type 0
HoldsAt f bytes p = (f.bytes ≡ bytes) × (f.offset ≡ p)

pub end-length : (xs ys : List ℕ) → xs ≡ ys → length xs + 0 ≡ length ys
end-length xs ys e = omega (arith, ap length e)

abbrev pub laws : Regular in_memory
laws = record {
  Holds = HoldsAt;
  tells = λ f bytes p h low. ap pos h.1;
  seeks = λ f bytes p k h low. (record f { offset = k }, refl, (h.0, refl));
  seeks_end = λ f bytes p h.
      (record f { offset = length f.bytes + 0 }, refl, (h.0, end-length f.bytes bytes h.0));
  reads = λ f bytes p n h. ((read f n).1, rw (h.0, h.1), (h.0, rw (h.0, h.1)));
}
