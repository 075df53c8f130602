-- ===== src/Base/Lookup.antt =====
-- The first row that passes a test, after the statements that change a table.
use mathlib.Core.Path.{◌≡◌, refl}
use mathlib.Core.Bool.{Bool, true, false, ◌&&◌}
use mathlib.Core.List.{List, [], ◌∷◌, ◌++◌}
use mathlib.Core.Option.{none, some}
use native.Mathlib.Omega.{arith}
use agent_dep_platform.Base.Tests.{if◌then◌else◌}
use agent_dep_platform.Base.Lists.{any, find, select, update, All}

module _ {ℓ} {A : Type ℓ} (p : A → Bool) where
  pub find-passes : (xs : List A) (a : A) → find p xs ≡ some a → p a ≡ true
  find-passes [] a e = cc
  find-passes (x ∷ xs) a e = ground (arith, find-passes xs a)

  -- `UPDATE` that keeps what the test reads.
  pub find-update_kept :
      (q : A → Bool) (f : A → A) (xs : List A) (a : A)
      → ((x : A) → p (f x) ≡ p x)
      → find p xs ≡ some a
      → find p (update q f xs) ≡ some (if q a then f a else a)
  find-update_kept q f [] a h e = cc
  find-update_kept q f (x ∷ xs) a h e = ground (arith, h x, find-update_kept q f xs a h)

  pub find-append_kept : (xs ys : List A) (a : A) → find p xs ≡ some a → find p (xs ++ ys) ≡ some a
  find-append_kept [] ys a e = cc
  find-append_kept (x ∷ xs) ys a e = ground (arith, find-append_kept xs ys a)

  -- `DELETE` of rows other than the one that is found.
  pub find-select_kept :
      (keep : A → Bool) (xs : List A) (a : A)
      → find p xs ≡ some a
      → keep a ≡ true
      → find p (select keep xs) ≡ some a
  find-select_kept keep [] a e k = cc
  find-select_kept keep (x ∷ xs) a e k = ground (arith, find-select_kept keep xs a)

  -- `DELETE` of rows that the test does not see.
  pub find-select :
      (keep : A → Bool) (xs : List A)
      → ((x : A) → p x ≡ true → keep x ≡ true)
      → find p (select keep xs) ≡ find p xs
  find-select keep [] h = refl
  find-select keep (x ∷ xs) h = ground (arith, h x, find-select keep xs h)

  -- A test that the found row passes too narrows nothing.
  pub find-and :
      (q : A → Bool) (xs : List A) (a : A)
      → find p xs ≡ some a
      → q a ≡ true
      → find (λ x. p x && q x) xs ≡ some a
  find-and q [] a e h = cc
  find-and q (x ∷ xs) a e h = ground (arith, find-and q xs a)

  pub find-absent : (xs : List A) → All (λ x. p x ≡ false) xs → find p xs ≡ none
  find-absent [] h = refl
  find-absent (x ∷ xs) h = ground (arith, find-absent xs)

  pub find-absent_any : (xs : List A) → any p xs ≡ false → find p xs ≡ none
  find-absent_any [] h = refl
  find-absent_any (x ∷ xs) h = ground (arith, find-absent_any xs)

  -- `INSERT` of the first row that the test sees.
  pub find-append_absent :
      (xs : List A) (a : A) → any p xs ≡ false → p a ≡ true → find p (xs ++ (a ∷ [])) ≡ some a
  find-append_absent [] a h e = ground arith
  find-append_absent (x ∷ xs) a h e = ground (arith, find-append_absent xs a)

  pub All-select {κ} : (P : A → Type κ) (xs : List A) → All P xs → All P (select p xs)
  All-select P [] h = tt
  All-select P (x ∷ xs) h = ground (arith, All-select P xs h.1)

pub All-imp {ℓ κ μ} :
    {A : Type ℓ} (P : A → Type κ) (Q : A → Type μ) (xs : List A)
    → ((x : A) → P x → Q x)
    → All P xs
    → All Q xs
All-imp P Q [] f h = tt
All-imp P Q (x ∷ xs) f h = (f x h.0, All-imp P Q xs f h.1)
