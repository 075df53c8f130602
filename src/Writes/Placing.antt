-- ===== src/Writes/Placing.antt =====
-- crates/core/src/application/deploy/mod.rs: `write_one` with the backup of what it replaces. A call
-- takes the clock's seconds, the random names that it draws and what the operating system and the
-- database answer to it, which may be another thing for each call. `sha256_hex` and the printer of a
-- backup record are arguments.
use Prim.Native.Char.{code}
use Prim.Native.String.{[], ◌∷◌, ◌++◌}
use mathlib.Core.List.{◌∷◌ as cons}
use agent_dep_platform.Base.{
  ℕ, zero, suc, String, Bool, true, false, Option, none, some, List, CoreResult, ok, err, err_io,
  err_schema_invalid, err_path_outside_root, ◌==◌, string_eq, eqb, any, decimal, if◌then◌else◌,
}
use agent_dep_platform.Urls.Splitting.{slash, has_char, before_last}
use agent_dep_platform.Writes.Disk.{
  Disk, Os, stores_object, exists, create_dir_all, write_file, read_file, rename,
}

pub data WriteOutcome : Type 0 where
  wrote skipped backed_up : WriteOutcome

pub record BackupRecord : Type 0 where
  pub target : String
  pub sha256 : String
  pub captured_at : ℕ

-- What a write draws: the clock, the UUID of the temporary file and the UUID of the backup; and what
-- it meets: the operating system, and whether the database takes the row of the write.
pub record Draws : Type 0 where
  pub ts : ℕ
  pub tmp_uuid : String
  pub backup_uuid : String
  pub os : Os
  pub takes_row : Bool

-- What the code takes from outside.
pub record Tools : Type 0 where
  pub sha256_hex : List ℕ → String
  pub as_bytes : String → List ℕ
  pub to_vec_pretty : BackupRecord → Option (List ℕ)

-- `path.parent()` and `path.file_name()` of a path with a `/`.
abbrev pub parent : String → Option String
parent p = before_last slash p

abbrev file_name : String → String
file_name [] = []
file_name (c ∷ s) =
    let rest = file_name s in
    if has_char slash s then rest else if eqb (code c) slash then s else c ∷ s

-- `.chars().take(n)`
abbrev take_chars : ℕ → String → String
take_chars zero s = []
take_chars (suc n) [] = []
take_chars (suc n) (c ∷ s) = c ∷ take_chars n s

abbrev pub join : String → String → String
join a b = a ++ ("/" ++ b)

abbrev pub backups_dir : String → String
backups_dir dir = join dir ".backups"

abbrev pub tmp_path : String → String → Draws → String
tmp_path dir target draws = join dir ("." ++ (file_name target ++ (".tmp." ++ draws.tmp_uuid)))

abbrev suffix : Draws → String
suffix draws = take_chars 8 draws.backup_uuid

abbrev pub backup_path : String → String → Draws → String
backup_path dir target draws =
    join (backups_dir dir)
      (file_name target ++ ("." ++ (decimal draws.ts ++ ("." ++ suffix draws))))

abbrev pub pointer_path : String → String → Draws → String
pointer_path dir target draws = backup_path dir target draws ++ ".json"

abbrev pub pointer_tmp : String → String → Draws → String
pointer_tmp dir target draws =
    join (backups_dir dir) ("." ++ (file_name target ++ ("." ++ (suffix draws ++ ".tmp"))))

-- The operator `?` on a call that changes the disk.
unfoldable pub and_then :
    {S T : Type 0} → Disk × CoreResult S → (S → Disk → Disk × CoreResult T) → Disk × CoreResult T
and_then (d, err e) next = (d, err e)
and_then (d, ok s) next = next s d

module _ (tools : Tools) where
  open tools use {sha256_hex, to_vec_pretty}

  -- `ContentStore::put`, of objects under their hash.
  unfoldable pub put_object : Os → List ℕ → Disk → Disk × CoreResult String
  put_object os bytes d =
      let hash = sha256_hex bytes in
      if any (λ o. o.0 == hash) d.objects
      then (d, ok hash)
      else if os.permits stores_object hash
      then (record d { objects = cons (hash, bytes) d.objects }, ok hash)
      else (d, err err_io)

  -- `make_backup_path` and the copy.
  unfoldable pub copy_aside : String → String → List ℕ → Draws → Disk → Disk × CoreResult (Unit {0})
  copy_aside dir target old draws d =
      and_then (create_dir_all draws.os (backups_dir dir) d)
        (λ _ d1. write_file draws.os (backup_path dir target draws) old d1)

  -- The pointer, if the record could be printed.
  unfoldable pub write_pointer :
      String → String → Option (List ℕ) → Draws → Disk → Disk × CoreResult (Unit {0})
  write_pointer dir target none draws d = (d, err (err_schema_invalid "BackupRecord"))
  write_pointer dir target (some json) draws d =
      and_then (write_file draws.os (pointer_tmp dir target draws) json d)
        (λ _ d1. rename draws.os (pointer_tmp dir target draws) (pointer_path dir target draws) d1)

  unfoldable pub make_backup_pointer :
      String → String → List ℕ → Draws → Disk → Disk × CoreResult (Unit {0})
  make_backup_pointer dir target old draws d =
      and_then (create_dir_all draws.os (backups_dir dir) d) (λ _ d1.
        and_then (put_object draws.os old d1) (λ sha d2.
          write_pointer dir target
            (to_vec_pretty
              (record { target = file_name target; sha256 = sha; captured_at = draws.ts }))
            draws d2))

  -- The arms of `match cas`.
  unfoldable pub back_up :
      Bool → String → String → List ℕ → Draws → Disk → Disk × CoreResult (Unit {0})
  back_up true dir target old draws d = make_backup_pointer dir target old draws d
  back_up false dir target old draws d = copy_aside dir target old draws d

  -- What is done with the file that is there: whether it has the expected digest already.
  unfoldable pub displace_old :
      String → String → String → Bool → Draws → CoreResult (List ℕ) → Disk → Disk × CoreResult Bool
  displace_old dir target expected_sha with_store draws (err e) d = (d, err e)
  displace_old dir target expected_sha with_store draws (ok old) d =
      if sha256_hex old == expected_sha
      then (d, ok true)
      else and_then (back_up with_store dir target old draws d) (λ _ d1. (d1, ok false))

  -- Makes room for the write: another file is backed up first, in the content store if there is
  -- one.
  unfoldable pub displace : String → String → String → Bool → Draws → Disk → Disk × CoreResult Bool
  displace dir target expected_sha with_store draws d =
      if exists target d
      then displace_old dir target expected_sha with_store draws (read_file draws.os target d) d
      else (d, ok false)

  -- The write to a temporary file, and the rename.
  unfoldable pub place : String → String → List ℕ → Draws → Disk → Disk × CoreResult WriteOutcome
  place dir target bytes draws d =
      let tmp = tmp_path dir target draws in
      and_then (write_file draws.os tmp bytes d) (λ _ d1.
        and_then (rename draws.os tmp target d1)
          (λ _ d2. (d2, ok (if exists (backups_dir dir) d2 then backed_up else wrote))))

  unfoldable pub write_in :
      String → String → List ℕ → String → Bool → Draws → Disk → Disk × CoreResult WriteOutcome
  write_in dir target bytes expected_sha with_store draws d =
      and_then (if exists dir d then (d, ok tt) else create_dir_all draws.os dir d) (λ _ d1.
        and_then (displace dir target expected_sha with_store draws d1)
          (λ same d2. if same then (d2, ok skipped) else place dir target bytes draws d2))

  unfoldable pub write_one :
      String → List ℕ → String → Bool → Draws → Disk → Disk × CoreResult WriteOutcome
  write_one target bytes expected_sha with_store draws d = elim (parent target) [
    | none ↦ (d, err (err_path_outside_root target))
    | some dir ↦ write_in dir target bytes expected_sha with_store draws d
  ]
