-- ===== src/Access/Concrete.antt =====
-- What the layers take from outside, as concrete functions: one that Access/Requests allows.
use Prim.Native.Char.{code}
use Prim.Native.String.{[] as nil, ◌∷◌ as cons}
use text.Mathlib.TextEquality.{Char-path}
use agent_dep_platform.Base.{
  ℕ, zero, suc, ◌<◌, ◌≡◌, ◌≢◌, refl, sym, String, none, List, [], ◌∷◌, arith, All, ap,
}
use agent_dep_platform.Access.Requests.{Outside}

-- Bytes of a text: each code in unary, then a zero.
abbrev ones : ℕ → List ℕ → List ℕ
ones zero xs = 0 ∷ xs
ones (suc n) xs = 1 ∷ ones n xs

abbrev bytes : String → List ℕ
bytes nil = []
bytes (cons c s) = ones (code c) (bytes s)

ones-bounded : (n : ℕ) (xs : List ℕ) → All (λ b. b < 256) xs → All (λ b. b < 256) (ones n xs)
ones-bounded zero xs h = (omega arith, h)
ones-bounded (suc n) xs h = (omega arith, ones-bounded n xs h)

pub bytes-bounded : (s : String) → All (λ b. b < 256) (bytes s)
bytes-bounded nil = tt
bytes-bounded (cons c s) = ones-bounded (code c) (bytes s) (bytes-bounded s)

ones-injective : (m n : ℕ) (xs ys : List ℕ) → ones m xs ≡ ones n ys → (m ≡ n) × (xs ≡ ys)
ones-injective zero zero xs ys h = (refl, cc)
ones-injective zero (suc n) xs ys h = cc
ones-injective (suc m) zero xs ys h = cc
ones-injective (suc m) (suc n) xs ys h =
    let tails : ones m xs ≡ ones n ys = cc in
    let (e, f) = ones-injective m n xs ys tails in (ap suc e, f)

ones-full : (n : ℕ) (xs : List ℕ) → [] ≢ ones n xs
ones-full zero xs h = cc
ones-full (suc n) xs h = cc

pub bytes-injective : (s t : String) → bytes s ≡ bytes t → s ≡ t
bytes-injective nil nil h = refl
bytes-injective nil (cons d t) h = absurd (ones-full (code d) (bytes t) h)
bytes-injective (cons c s) nil h = absurd (ones-full (code c) (bytes s) (sym h))
bytes-injective (cons c s) (cons d t) h =
    let (e, f) = ones-injective (code c) (code d) (bytes s) (bytes t) h in
    let heads = Char-path c d e in let tails = bytes-injective s t f in cc

abbrev pub outside : Outside
outside = record {
  sha256_hex = λ b. "digest";
  parse_from_rfc3339 = λ s. none;
  as_bytes = bytes;
  from_utf8_lossy = λ b. "text";
  json_object = λ fields. [];
  agency_bearer_fallback = none;
  as_bytes-injective = bytes-injective;
  as_bytes-bounded = bytes-bounded;
}
