-- ===== src/UnixIo/File/Path.antt =====
-- The names under the root path.
use slate.Base.{
  ℕ, ◌+◌, ◌≤◌, ◌<◌, ◌≡◌, ◌⊎◌, inl, inr, refl, arith, List, [], ◌++◌, length, length-append,
  Bool-cases, leb,
}
use slate.UnixIo.File.{done, overrun, kadd_rootpath}

-- With a root path, kadd_rootpath never writes past a `dest` of `max_size` bytes: it leaves the path
-- and the name, or an empty text where these do not fit with their NUL.
pub kadd_rootpath_lem :
    (insert src : List ℕ) (max_size : ℕ)
    → 0 < length insert
    → 0 < max_size
    → (path : List ℕ) × (kadd_rootpath insert src max_size ≡ done path)
      × (length path < max_size)
      × ((path ≡ insert ++ src) ⊎ ((path ≡ []) × (max_size ≤ length (insert ++ src))))
unfolding kadd_rootpath
kadd_rootpath_lem insert src max_size h k =
    let whole = length-append insert src in
    elim (Bool-cases (leb max_size (length src + length insert))) [
      | inl long ↦ ([], ground arith, k, inr (refl, ground arith))
      | inr short ↦ (insert ++ src, ground arith, ground arith, inl refl)
    ]

-- Without one, it copies the name alone, past the end of `dest` when the name does not fit.
pub kadd_rootpath_overrun :
    (src : List ℕ) (max_size : ℕ) → max_size ≤ length src → kadd_rootpath [] src max_size ≡ overrun
unfolding kadd_rootpath
kadd_rootpath_overrun src max_size h = ground arith
