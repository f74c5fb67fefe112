-- ===== src/Transfer/Task.antt =====
-- ft_task of src/file_transfer_task.c: serve until a file was fetched or an error comes.
use slate.Base.{ℕ, zero, suc, Bool, true, false, not, ◌||◌, Option, none, some, List, [], ◌∷◌, ◌==◌}
use slate.Kermit.{Engine, Run, finished, crashed, endless, run_map}
use slate.Transfer.{Ft, Reply, FtType, get_type, server, ft_init, ft_deinit, ft_start_server}

abbrev pub is_get : FtType → Bool
is_get get_type = true
is_get _ = false

-- "img/"
abbrev pub file_transfer_path : List ℕ
file_transfer_path = b'i' ∷ b'm' ∷ b'g' ∷ b'/' ∷ []

-- The locals of the loop; `log` holds the transactions that were printed, the newest first.
pub record Locals {ℓ} (K : Type ℓ) : Type ℓ where
  pub type : FtType
  pub flag : Bool
  pub err : ℕ
  pub log : List FtType
  pub ft : Ft K

abbrev pub type_or : FtType → Option FtType → FtType
type_or t none = t
type_or t (some u) = u

module _ {ℓ} {K : Type ℓ} {A : Type 0} (g : Engine K A) where
  -- What the switch on `type` does with the reply.
  abbrev pub noted : Locals K → Reply K A → Locals K
  noted s r =
      let type = type_or s.type r.type in
      record {
        type = type;
        flag = s.flag || is_get type;
        err = r.code;
        log = type ∷ s.log;
        ft = r.ft;
      }

  -- The while loop, with fuel for its rounds and for each run of E-Kermit.
  unfoldable pub serve : ℕ → ℕ → Locals K → Run (Locals K)
  serve zero fuel s = endless
  serve (suc rounds) fuel s = elim (ft_start_server g fuel true true true s.ft) [
    | finished r ↦ elim (not (r.code == 0) || (noted s r).flag) [
      | true ↦ finished (noted s r)
      | false ↦ serve rounds fuel (noted s r)
    ]
    | crashed ↦ crashed
    | endless ↦ endless
  ]

  -- `type` is not initialised in ft_task: `junk` is what it holds.
  unfoldable pub ft_task : ℕ → ℕ → FtType → Ft K → Run (Locals K)
  ft_task rounds fuel junk s =
      run_map (λ (t : Locals K). record t { ft = (ft_deinit g t.ft).1 })
        (serve rounds fuel (record {
          type = junk;
          flag = false;
          err = 0;
          log = [];
          ft = (ft_init g server (some file_transfer_path) true s).1;
        }))
