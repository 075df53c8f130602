-- ===== src/Writes/Landing.antt =====
-- What `write_one` of crates/core/src/application/deploy/mod.rs leaves on the disk.
use agent_dep_platform.Base.{
  ℕ, ◌≡◌, ◌≢◌, refl, ◌∙◌, String, Bool, true, false, Option, none, some, List, arith, CoreResult,
  ok, err, ◌==◌, string_eq, if◌then◌else◌,
}
use agent_dep_platform.Writes.Disk.{
  Disk, Os, content, exists, create_dir_all, write_file, rename, content-create_dir_all,
  content-write_file, content-rename,
}
use agent_dep_platform.Writes.Placing.{
  skipped, Draws, Tools, tmp_path, backup_path, pointer_path, pointer_tmp, and_then, put_object,
  copy_aside, write_pointer, make_backup_pointer, back_up, displace_old, displace, place, write_in,
  write_one, parent,
}

-- A call leaves what is under a name.
unfoldable pub Keeps : {T : Type 0} → String → Disk → Disk × CoreResult T → Type 0
Keeps q d r = content q r.0.files ≡ content q d.files

pub content-Keeps :
    {T : Type 0} (q : String) (d : Disk) (r : Disk × CoreResult T)
    → Keeps q d r
    → content q r.0.files ≡ content q d.files
unfolding Keeps
content-Keeps q d r h = h

and_then-Keeps :
    {S T : Type 0} (q : String) (d : Disk) (first : Disk × CoreResult S)
    (next : S → Disk → Disk × CoreResult T)
    → Keeps q d first
    → ((s : S) (d1 : Disk) → Keeps q d1 (next s d1))
    → Keeps q d (and_then first next)
unfolding Keeps and_then
and_then-Keeps q d (d1, err e) next h k = h
and_then-Keeps q d (d1, ok s) next h k = k s d1 ∙ h

pub if-Keeps :
    {T : Type 0} (q : String) (d : Disk) (b : Bool) (x y : Disk × CoreResult T)
    → Keeps q d x
    → Keeps q d y
    → Keeps q d (if b then x else y)
if-Keeps q d true x y hx hy = hx
if-Keeps q d false x y hx hy = hy

pub still : {T : Type 0} (q : String) (d : Disk) (result : CoreResult T) → Keeps q d (d, result)
unfolding Keeps
still q d result = refl

pub create_dir_all-Keeps : (os : Os) (p q : String) (d : Disk) → Keeps q d (create_dir_all os p d)
unfolding Keeps
create_dir_all-Keeps os p q d = content-create_dir_all os p q d

pub write_file-Keeps :
    (os : Os) (p q : String) (bytes : List ℕ) (d : Disk)
    → p ≢ q
    → Keeps q d (write_file os p bytes d)
unfolding Keeps
write_file-Keeps os p q bytes d h = content-write_file os p q bytes d h

rename-Keeps : (os : Os) (a b q : String) (d : Disk) → a ≢ q → b ≢ q → Keeps q d (rename os a b d)
unfolding Keeps
rename-Keeps os a b q d ha hb = content-rename os a b q d ha hb

-- A name that a write does not use for itself.
abbrev pub IsAside : String → String → Draws → String → Type 0
IsAside dir target draws q =
    (tmp_path dir target draws ≢ q)
    × (backup_path dir target draws ≢ q)
    × (pointer_path dir target draws ≢ q)
    × (pointer_tmp dir target draws ≢ q)

module _ (tools : Tools) (dir target : String) (draws : Draws) (q : String) where
  put_object-Keeps : (bytes : List ℕ) (d : Disk) → Keeps q d (put_object tools draws.os bytes d)
  unfolding put_object Keeps
  put_object-Keeps bytes d = ground arith

  copy_aside-Keeps :
      (old : List ℕ) (d : Disk)
      → IsAside dir target draws q
      → Keeps q d (copy_aside tools dir target old draws d)
  unfolding copy_aside
  copy_aside-Keeps old d (t, b, p, pt) =
      and_then-Keeps q d _ _ (create_dir_all-Keeps draws.os _ q d)
        (λ u d1. write_file-Keeps draws.os _ q old d1 b)

  write_pointer-Keeps :
      (json : Option (List ℕ)) (d : Disk)
      → IsAside dir target draws q
      → Keeps q d (write_pointer tools dir target json draws d)
  unfolding write_pointer
  write_pointer-Keeps none d aside = still q d _
  write_pointer-Keeps (some json) d (t, b, p, pt) =
      and_then-Keeps q d _ _ (write_file-Keeps draws.os _ q json d pt)
        (λ u d1. rename-Keeps draws.os _ _ q d1 pt p)

  make_backup_pointer-Keeps :
      (old : List ℕ) (d : Disk)
      → IsAside dir target draws q
      → Keeps q d (make_backup_pointer tools dir target old draws d)
  unfolding make_backup_pointer
  make_backup_pointer-Keeps old d aside =
      and_then-Keeps q d _ _ (create_dir_all-Keeps draws.os _ q d) (λ u d1.
        and_then-Keeps q d1 _ _ (put_object-Keeps old d1)
          (λ sha d2. write_pointer-Keeps _ d2 aside))

  pub back_up-Keeps :
      (with_store : Bool) (old : List ℕ) (d : Disk)
      → IsAside dir target draws q
      → Keeps q d (back_up tools with_store dir target old draws d)
  unfolding back_up
  back_up-Keeps true old d aside = make_backup_pointer-Keeps old d aside
  back_up-Keeps false old d aside = copy_aside-Keeps old d aside

  displace_old-Keeps :
      (expected : String) (with_store : Bool) (old : CoreResult (List ℕ)) (d : Disk)
      → IsAside dir target draws q
      → Keeps q d (displace_old tools dir target expected with_store draws old d)
  unfolding displace_old
  displace_old-Keeps expected with_store (err e) d aside = still q d _
  displace_old-Keeps expected with_store (ok old) d aside =
      if-Keeps q d (tools.sha256_hex old == expected) _ _ (still q d (ok true)) (
        and_then-Keeps q d _ _ (back_up-Keeps with_store old d aside)
          (λ u d1. still q d1 (ok false)))

  pub displace-Keeps :
      (expected : String) (with_store : Bool) (d : Disk)
      → IsAside dir target draws q
      → Keeps q d (displace tools dir target expected with_store draws d)
  unfolding displace
  displace-Keeps expected with_store d aside =
      if-Keeps q d (exists target d) _ _ (displace_old-Keeps expected with_store _ d aside)
        (still q d (ok false))

  place-Keeps :
      (bytes : List ℕ) (d : Disk)
      → IsAside dir target draws q
      → target ≢ q
      → Keeps q d (place tools dir target bytes draws d)
  unfolding place
  place-Keeps bytes d (t, b, p, pt) other =
      and_then-Keeps q d _ _ (write_file-Keeps draws.os _ q bytes d t) (λ u d1.
        and_then-Keeps q d1 _ _ (rename-Keeps draws.os _ _ q d1 t other) (λ u2 d2. still q d2 _))

  pub write_in-Keeps :
      (bytes : List ℕ) (expected : String) (with_store : Bool) (d : Disk)
      → IsAside dir target draws q
      → target ≢ q
      → Keeps q d (write_in tools dir target bytes expected with_store draws d)
  unfolding write_in
  write_in-Keeps bytes expected with_store d aside other =
      and_then-Keeps q d _ _
        (if-Keeps q d (exists dir d) _ _ (still q d (ok tt)) (create_dir_all-Keeps draws.os _ q d))
        (λ u d1. and_then-Keeps q d1 _ _ (displace-Keeps expected with_store d1 aside) (λ same d2.
          if-Keeps q d2 same _ _ (still q d2 (ok skipped)) (place-Keeps bytes d2 aside other)))

pub write_one-Keeps :
    (tools : Tools) (dir target : String) (draws : Draws) (q : String) (bytes : List ℕ)
    (expected : String) (with_store : Bool) (d : Disk)
    → parent target ≡ some dir
    → IsAside dir target draws q
    → target ≢ q
    → Keeps q d (write_one tools target bytes expected with_store draws d)
unfolding write_one
write_one-Keeps tools dir target draws q bytes expected with_store d inside aside other =
    rw (write_one, inside)
      (write_in-Keeps tools dir target draws q bytes expected with_store d aside other)
