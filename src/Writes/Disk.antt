-- ===== src/Writes/Disk.antt =====
-- The file system, as far as crates/core/src/application/deploy/mod.rs uses it: regular files with
-- their bytes, directories, and the objects of the content store by their hash. What the operating
-- system refuses is an argument, by operation and path, with what a refused write leaves.
use agent_dep_platform.Base.{
  ℕ, ◌≡◌, ◌≢◌, refl, String, Bool, not, ◌||◌, ◌⊎◌, Option, none, some, List, [], ◌∷◌, arith,
  CoreResult, ok, err, err_io, ◌==◌, string_eq, eq_iff, contains, select, is_some, if◌then◌else◌,
}

pub record Disk : Type 0 where
  pub files : List (String × List ℕ)
  pub dirs : List String
  pub objects : List (String × List ℕ)

pub data Op : Type 0 where
  makes_dir writes_file reads_file renames_to stores_object : Op

-- How the operating system answers: whether it does an operation on a path, and the bytes that are
-- under the path after a write that failed, where `File::create` had made the file already.
pub record Os : Type 0 where
  pub permits : Op → String → Bool
  pub partial : String → Option (List ℕ)

-- The bytes under a name.
abbrev pub content : String → List (String × List ℕ) → Option (List ℕ)
content p [] = none
content p (f ∷ files) = if f.0 == p then some f.1 else content p files

abbrev pub put : String → List ℕ → List (String × List ℕ) → List (String × List ℕ)
put p bytes files = (p, bytes) ∷ files

abbrev pub remove : String → List (String × List ℕ) → List (String × List ℕ)
remove p files = select (λ f. not (f.0 == p)) files

-- `Path::exists`
abbrev pub exists : String → Disk → Bool
exists p d = is_some (content p d.files) || contains d.dirs p

module _ (os : Os) where
  open os use {permits, partial}

  unfoldable pub create_dir_all : String → Disk → Disk × CoreResult (Unit {0})
  create_dir_all p d =
      if permits makes_dir p then (record d { dirs = p ∷ d.dirs }, ok tt) else (d, err err_io)

  unfoldable pub write_file : String → List ℕ → Disk → Disk × CoreResult (Unit {0})
  write_file p bytes d =
      if permits writes_file p
      then (record d { files = put p bytes d.files }, ok tt)
      else elim (partial p) [
        | none ↦ (d, err err_io)
        | some left ↦ (record d { files = put p left d.files }, err err_io)
      ]

  unfoldable pub read_file : String → Disk → CoreResult (List ℕ)
  read_file p d = elim (content p d.files) [
    | none ↦ err err_io
    | some bytes ↦ if permits reads_file p then ok bytes else err err_io
  ]

  -- `std::fs::rename` of a file replaces the file at the new name in one step.
  unfoldable pub rename : String → String → Disk → Disk × CoreResult (Unit {0})
  rename a b d = elim (content a d.files) [
    | none ↦ (d, err err_io)
    | some bytes ↦
        if permits renames_to b
        then (record d { files = put b bytes (remove a d.files) }, ok tt)
        else (d, err err_io)
  ]

content-remove :
    (p q : String) (files : List (String × List ℕ))
    → p ≢ q
    → content q (remove p files) ≡ content q files
content-remove p q [] h = refl
content-remove p q (f ∷ files) h =
    ground (arith, content-remove p q files h, eq_iff f.0 p, eq_iff f.0 q)

-- What an operation leaves under a name that is not its own.
pub content-create_dir_all :
    (os : Os) (p q : String) (d : Disk)
    → content q (create_dir_all os p d).0.files ≡ content q d.files
unfolding create_dir_all
content-create_dir_all os p q d = ground arith

pub content-write_file :
    (os : Os) (p q : String) (bytes : List ℕ) (d : Disk)
    → p ≢ q
    → content q (write_file os p bytes d).0.files ≡ content q d.files
unfolding write_file
content-write_file os p q bytes d h = ground (arith, eq_iff p q)

pub content-rename :
    (os : Os) (a b q : String) (d : Disk)
    → a ≢ q
    → b ≢ q
    → content q (rename os a b d).0.files ≡ content q d.files
unfolding rename
content-rename os a b q d ha hb = ground (arith, content-remove a q d.files ha, eq_iff b q)

-- A rename that succeeds gives the new name the bytes of the old one, and one that fails leaves
-- everything.
pub rename_cases :
    (os : Os) (a b : String) (bytes : List ℕ) (d : Disk)
    → content a d.files ≡ some bytes
    → (((rename os a b d).1 ≡ ok tt) × (content b (rename os a b d).0.files ≡ some bytes))
      ⊎ (((rename os a b d).1 ≡ err err_io) × ((rename os a b d).0 ≡ d))
unfolding rename
rename_cases os a b bytes d h = ground (arith, (eq_iff b b).1 refl)
