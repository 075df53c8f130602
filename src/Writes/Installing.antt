-- ===== src/Writes/Installing.antt =====
-- That `write_one` of crates/core/src/application/deploy/mod.rs puts the content in place as a
-- whole or leaves the target as it was.
use agent_dep_platform.Base.{
  ℕ, ◌≡◌, ◌≢◌, ◌⊎◌, inl, inr, refl, ◌∙◌, ap, String, Bool, true, false, some, List, arith,
  CoreResult, ok, err, err_io, ◌==◌, string_eq, eq_iff, Bool-cases, if◌then◌else◌,
}
use agent_dep_platform.Writes.Disk.{
  Disk, Os, content, exists, create_dir_all, write_file, read_file, rename, rename_cases,
}
use agent_dep_platform.Writes.Placing.{
  WriteOutcome, wrote, skipped, backed_up, Draws, Tools, tmp_path, and_then, displace_old, displace,
  place, write_in, write_one, parent, backups_dir, back_up,
}
use agent_dep_platform.Writes.Landing.{
  content-Keeps, IsAside, displace-Keeps, write_file-Keeps, create_dir_all-Keeps, if-Keeps, still,
}

-- The file under a name has a digest.
abbrev pub HasDigest : Tools → String → String → Disk → Type 0
HasDigest tools target digest d =
    (b : List ℕ) × (content target d.files ≡ some b) × (tools.sha256_hex b ≡ digest)

-- A success leaves the file with the digest, an error leaves what was there.
unfoldable pub Lands : Tools → String → String → Disk → Disk × CoreResult WriteOutcome → Type 0
Lands tools target digest before (after, ok o) = HasDigest tools target digest after
Lands tools target digest before (after, err e) =
    content target after.files ≡ content target before.files

written_there :
    (os : Os) (p : String) (bytes : List ℕ) (d : Disk)
    → (write_file os p bytes d).1 ≡ ok tt
    → content p (write_file os p bytes d).0.files ≡ some bytes
unfolding write_file
written_there os p bytes d h = ground (arith, (eq_iff p p).1 refl, h)

module _ (tools : Tools) (dir target : String) (draws : Draws) (bytes : List ℕ)
    (before : Disk) where
  abbrev digest : String
  digest = tools.sha256_hex bytes

  abbrev SameTarget : Disk → Type 0
  SameTarget d = content target d.files ≡ content target before.files

  renamed_Lands :
      (r : Disk × CoreResult (Unit {0}))
      → ((r.1 ≡ ok tt) × (content target r.0.files ≡ some bytes))
        ⊎ ((r.1 ≡ err err_io) × SameTarget r.0)
      → Lands tools target digest before
          (and_then r (λ _ d2. (d2, ok (if exists (backups_dir dir) d2 then backed_up else wrote))))
  unfolding Lands and_then
  renamed_Lands (d, ok u) (inl (won, there)) = (bytes, there, refl)
  renamed_Lands (d, ok u) (inr (lost, same)) = cc
  renamed_Lands (d, err e) (inl (won, there)) = cc
  renamed_Lands (d, err e) (inr (lost, same)) = same

  written_Lands :
      (r : Disk × CoreResult (Unit {0}))
      → SameTarget r.0
      → (r.1 ≡ ok tt → content (tmp_path dir target draws) r.0.files ≡ some bytes)
      → Lands tools target digest before (
          and_then r (λ _ d1.
            and_then
              (rename draws.os (tmp_path dir target draws) target d1)
              (λ _ d2. (d2, ok (if exists (backups_dir dir) d2 then backed_up else wrote)))))
  unfolding and_then
  written_Lands (d, err e) same there = unfold Lands in same
  written_Lands (d, ok u) same there =
      elim (rename_cases draws.os (tmp_path dir target draws) target bytes d (there refl)) [
        | inl won ↦ renamed_Lands (rename draws.os (tmp_path dir target draws) target d) (inl won)
        | inr (lost, back) ↦
            renamed_Lands (rename draws.os (tmp_path dir target draws) target d)
              (inr (lost, ap (λ x. content target x.files) back ∙ same))
      ]

  place-Lands :
      (d : Disk)
      → tmp_path dir target draws ≢ target
      → SameTarget d
      → Lands tools target digest before (place tools dir target bytes draws d)
  unfolding place
  place-Lands d apart same =
      written_Lands (write_file draws.os (tmp_path dir target draws) bytes d)
        (content-Keeps target d _
            (write_file-Keeps draws.os (tmp_path dir target draws) target bytes d apart)
          ∙ same)
        (written_there draws.os (tmp_path dir target draws) bytes d)

  -- What the room is made of: the digest was there, or the target is as it was.
  displaced_Lands :
      (r : Disk × CoreResult Bool)
      → IsAside dir target draws target
      → SameTarget r.0
      → (r.1 ≡ ok true → HasDigest tools target digest r.0)
      → Lands tools target digest before (
          and_then r
            (λ same d2. if same then (d2, ok skipped) else place tools dir target bytes draws d2))
  unfolding and_then
  displaced_Lands (d, err e) aside same there = unfold Lands in same
  displaced_Lands (d, ok true) aside same there = unfold Lands in there refl
  displaced_Lands (d, ok false) aside same there = place-Lands d aside.0 same

content-read_file :
    (os : Os) (p : String) (d : Disk) (b : List ℕ)
    → read_file os p d ≡ ok b
    → content p d.files ≡ some b
unfolding read_file
content-read_file os p d b h = ground (arith, h)

never_same : (r : Disk × CoreResult (Unit {0})) → (and_then r (λ _ d1. (d1, ok false))).1 ≢ ok true
unfolding and_then
never_same (d, err e) h = cc
never_same (d, ok u) h = cc

module _ (tools : Tools) (dir target : String) (draws : Draws) (with_store : Bool)
    (expected : String) where
  displace_old-HasDigest :
      (old : CoreResult (List ℕ)) (d : Disk)
      → ((b : List ℕ) → old ≡ ok b → content target d.files ≡ some b)
      → (displace_old tools dir target expected with_store draws old d).1 ≡ ok true
      → HasDigest tools target expected
          (displace_old tools dir target expected with_store draws old d).0
  unfolding displace_old
  displace_old-HasDigest (err e) d there h = cc
  displace_old-HasDigest (ok old) d there h = elim (Bool-cases (tools.sha256_hex old == expected)) [
    | inl same ↦ rw same (old, there old refl, (eq_iff (tools.sha256_hex old) expected).0 same)
    | inr other ↦
        absurd (never_same (back_up tools with_store dir target old draws d) (rw other at h))
  ]

  displace-HasDigest :
      (d : Disk)
      → (displace tools dir target expected with_store draws d).1 ≡ ok true
      → HasDigest tools target expected (displace tools dir target expected with_store draws d).0
  unfolding displace
  displace-HasDigest d h = elim (Bool-cases (exists target d)) [
    | inl there ↦ rw there (
        displace_old-HasDigest (read_file draws.os target d) d
          (λ b e. content-read_file draws.os target d b e) (rw there at h))
    | inr absent ↦ absurd (ground (arith, absent, h))
  ]

-- The directory is made first.
prepared_Lands :
    (tools : Tools) (dir target : String) (draws : Draws) (with_store : Bool) (bytes : List ℕ)
    (before : Disk) (r : Disk × CoreResult (Unit {0}))
    → IsAside dir target draws target
    → content target r.0.files ≡ content target before.files
    → Lands tools target (tools.sha256_hex bytes) before (
        and_then r (λ _ d1.
          and_then
            (displace tools dir target (tools.sha256_hex bytes) with_store draws d1)
            (λ same d2. if same then (d2, ok skipped) else place tools dir target bytes draws d2)))
unfolding and_then
prepared_Lands tools dir target draws with_store bytes before (d, err e) aside same =
    unfold Lands in same
prepared_Lands tools dir target draws with_store bytes before (d, ok u) aside same =
    let digest = tools.sha256_hex bytes in
    displaced_Lands tools dir target draws bytes before
      (displace tools dir target digest with_store draws d) aside
      (content-Keeps target d _
          (displace-Keeps tools dir target draws target digest with_store d aside)
        ∙ same)
      (displace-HasDigest tools dir target draws with_store digest d)

-- Whatever the operating system refuses at each step, a write either succeeds, and the target is a file with
-- the digest of the content, or fails, and what was at the target is there as before.
pub write_one_lem :
    (tools : Tools) (dir target : String) (draws : Draws) (with_store : Bool) (bytes : List ℕ)
    (d : Disk)
    → parent target ≡ some dir
    → IsAside dir target draws target
    → Lands tools target
        (tools.sha256_hex bytes)
        d
        (write_one tools target bytes (tools.sha256_hex bytes) with_store draws d)
unfolding write_one write_in
write_one_lem tools dir target draws with_store bytes d inside aside =
    rw (write_one, inside)
      (prepared_Lands tools dir target draws with_store bytes d
        (if exists dir d then (d, ok tt) else create_dir_all draws.os dir d) aside
        (content-Keeps target d _ (
          if-Keeps target d (exists dir d) (d, ok tt) (create_dir_all draws.os dir d)
            (still target d (ok tt)) (create_dir_all-Keeps draws.os dir target d))))
