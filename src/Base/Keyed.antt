-- ===== src/Base/Keyed.antt =====
-- Tables with a primary key that is a number: no two rows have the same key.
use Prim.Native.Nat.{ℕ}
use mathlib.Core.Path.{◌≡◌, refl}
use mathlib.Core.Bool.{Bool, false}
use mathlib.Core.List.{List, [], ◌∷◌, ◌++◌}
use mathlib.Core.Option.{Option, none, some}
use native.Mathlib.Omega.{arith}
use mathlib.Core.Logic.{◌⊎◌, inl, inr}
use agent_dep_platform.Base.Tests.{eqb, eqb_iff, Bool-cases, if◌then◌else◌}
use agent_dep_platform.Base.Lists.{any, find, update, All}

-- `Option::map`, under a test: what an update leaves of the row that was found.
abbrev pub map_if {ℓ} : {A : Type ℓ} → Bool → (A → A) → Option A → Option A
map_if b f none = none
map_if b f (some a) = some (if b then f a else a)

module _ {ℓ} {A : Type ℓ} (key : A → ℕ) where
  abbrev pub has_key : ℕ → A → Bool
  has_key k x = eqb (key x) k

  abbrev pub IsKeyed : List A → Type 0
  IsKeyed [] = Unit
  IsKeyed (x ∷ xs) = (any (has_key (key x)) xs ≡ false) × IsKeyed xs

  pub any-has_key-update :
      (p : A → Bool) (f : A → A) (k : ℕ) (xs : List A)
      → ((x : A) → key (f x) ≡ key x)
      → any (has_key k) (update p f xs) ≡ any (has_key k) xs
  any-has_key-update p f k [] h = refl
  any-has_key-update p f k (x ∷ xs) h = ground (arith, h x, any-has_key-update p f k xs h)

  pub update-IsKeyed :
      (p : A → Bool) (f : A → A) (xs : List A)
      → ((x : A) → key (f x) ≡ key x)
      → IsKeyed xs
      → IsKeyed (update p f xs)
  update-IsKeyed p f [] h k = tt
  update-IsKeyed p f (x ∷ xs) h k =
      ground (arith, h x, any-has_key-update p f (key x) xs h, update-IsKeyed p f xs h k.1)

  any-has_key-append :
      (k : ℕ) (xs : List A) (a : A)
      → any (has_key k) xs ≡ false
      → eqb (key a) k ≡ false
      → any (has_key k) (xs ++ a ∷ []) ≡ false
  any-has_key-append k [] a h e = ground arith
  any-has_key-append k (x ∷ xs) a h e = ground (arith, any-has_key-append k xs a)

  pub append-IsKeyed :
      (xs : List A) (a : A) → any (has_key (key a)) xs ≡ false → IsKeyed xs → IsKeyed (xs ++ a ∷ [])
  append-IsKeyed [] a h k = (refl, tt)
  append-IsKeyed (x ∷ xs) a h k =
      ground (arith, any-has_key-append (key x) xs a, append-IsKeyed xs a)

  find-none : (k : ℕ) (xs : List A) → any (has_key k) xs ≡ false → find (has_key k) xs ≡ none
  find-none k [] h = refl
  find-none k (x ∷ xs) h = ground (arith, find-none k xs)

  pub key-find : (k : ℕ) (xs : List A) (a : A) → find (has_key k) xs ≡ some a → key a ≡ k
  key-find k [] a h = cc
  key-find k (x ∷ xs) a h = ground (arith, key-find k xs a)

  -- An update of rows, as a reader of one key sees it.
  pub find-update :
      (p : A → Bool) (f : A → A) (k : ℕ) (xs : List A) (a : A)
      → ((x : A) → key (f x) ≡ key x)
      → find (has_key k) xs ≡ some a
      → find (has_key k) (update p f xs) ≡ some (if p a then f a else a)
  find-update p f k [] a h e = cc
  find-update p f k (x ∷ xs) a h e = ground (arith, h x, find-update p f k xs a h)

  pub find-append :
      (k : ℕ) (xs ys : List A) (a : A)
      → find (has_key k) xs ≡ some a
      → find (has_key k) (xs ++ ys) ≡ some a
  find-append k [] ys a e = cc
  find-append k (x ∷ xs) ys a e = ground (arith, find-append k xs ys a)

  pub find-append_fresh :
      (xs : List A) (a : A)
      → any (has_key (key a)) xs ≡ false
      → find (has_key (key a)) (xs ++ a ∷ []) ≡ some a
  find-append_fresh [] a e = ground arith
  find-append_fresh (x ∷ xs) a e = ground (arith, find-append_fresh xs a)

  update_absent :
      (k : ℕ) (f : A → A) (xs : List A) → any (has_key k) xs ≡ false → update (has_key k) f xs ≡ xs
  update_absent k f [] h = refl
  update_absent k f (x ∷ xs) h = ground (arith, update_absent k f xs)

  -- With a key, an update by key changes one row, the one that a reader finds.
  pub All-update_found {κ} :
      (P : A → Type κ) (k : ℕ) (f : A → A) (xs : List A) (a : A)
      → IsKeyed xs
      → find (has_key k) xs ≡ some a
      → P (f a)
      → All P xs
      → All P (update (has_key k) f xs)
  All-update_found P k f [] a d e pf h = tt
  All-update_found P k f (x ∷ xs) a d e pf h =
      let tail = All-update_found P k f xs a d.1 in
      ground (arith, eqb_iff (key x) k, update_absent k f xs, tail)

  -- What a reader of one key sees, taken back to what was there before.
  pub find-update_inv :
      (p : A → Bool) (f : A → A) (k : ℕ) (xs : List A) (y : A)
      → ((x : A) → key (f x) ≡ key x)
      → find (has_key k) (update p f xs) ≡ some y
      → (x : A) × (find (has_key k) xs ≡ some x) × (y ≡ (if p x then f x else x))
  find-update_inv p f k [] y h e = cc
  find-update_inv p f k (x ∷ xs) y h e = elim (Bool-cases (has_key k x)) [
    | inl here ↦ (x, ground arith, ground (arith, h x))
    | inr there ↦
        let (z, found, same) = find-update_inv p f k xs y h (ground (arith, h x)) in
        (z, ground arith, same)
  ]

  pub find-append_inv :
      (k : ℕ) (xs : List A) (a y : A)
      → find (has_key k) (xs ++ a ∷ []) ≡ some y
      → (find (has_key k) xs ≡ some y) ⊎ ((y ≡ a) × (k ≡ key a))
  find-append_inv k [] a y e = ground arith
  find-append_inv k (x ∷ xs) a y e = ground (arith, find-append_inv k xs a y)

-- No row that is found passes a test that no row passes.
pub test-find {ℓ} :
    {A : Type ℓ} (p q : A → Bool) (xs : List A) (a : A)
    → any p xs ≡ false
    → find q xs ≡ some a
    → p a ≡ false
test-find p q [] a h e = cc
test-find p q (x ∷ xs) a h e = ground (arith, test-find p q xs a)
