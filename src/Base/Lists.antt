-- ===== src/Base/Lists.antt =====
-- Lists measured and cut by native numbers, under the library's names.
use Prim.Native.Nat.{ℕ, zero, suc, ◌+◌, ◌-◌, ◌≤◌, min}
use mathlib.Core.Path.{◌≡◌, refl, ap, ap₂, ◌∙◌}
use mathlib.Core.List.{List, [], ◌∷◌, ◌++◌}
use native.Mathlib.Omega.{arith}

module _ {ℓ} {A : Type ℓ} where
  abbrev pub length : List A → ℕ
  length [] = 0
  length (x ∷ xs) = suc (length xs)

  abbrev pub take : ℕ → List A → List A
  take zero xs = []
  take (suc n) [] = []
  take (suc n) (x ∷ xs) = x ∷ take n xs

  abbrev pub drop : ℕ → List A → List A
  drop zero xs = xs
  drop (suc n) [] = []
  drop (suc n) (x ∷ xs) = drop n xs

  abbrev pub replicate : ℕ → A → List A
  replicate zero a = []
  replicate (suc n) a = a ∷ replicate n a

module _ {ℓ} {A : Type ℓ} where
  pub length-append : (xs ys : List A) → length (xs ++ ys) ≡ length xs + length ys
  length-append [] ys = omega arith
  length-append (x ∷ xs) ys = omega (arith, length-append xs ys)

  pub length-take : (n : ℕ) (xs : List A) → length (take n xs) ≡ min n (length xs)
  length-take zero xs = omega arith
  length-take (suc n) [] = omega arith
  length-take (suc n) (x ∷ xs) = omega (arith, length-take n xs)

  pub length-drop : (n : ℕ) (xs : List A) → length (drop n xs) ≡ length xs - n
  length-drop zero xs = omega arith
  length-drop (suc n) [] = omega arith
  length-drop (suc n) (x ∷ xs) = omega (arith, length-drop n xs)

  pub length-replicate : (n : ℕ) (a : A) → length (replicate n a) ≡ n
  length-replicate zero a = refl
  length-replicate (suc n) a = ap suc (length-replicate n a)

  pub take-append-drop : (n : ℕ) (xs : List A) → take n xs ++ drop n xs ≡ xs
  take-append-drop zero xs = refl
  take-append-drop (suc n) [] = refl
  take-append-drop (suc n) (x ∷ xs) = ap (λ l. x ∷ l) (take-append-drop n xs)

  -- A cut at the end of the first part.
  pub take-append_at : (n : ℕ) (xs ys : List A) → length xs ≡ n → take n (xs ++ ys) ≡ xs
  take-append_at zero [] ys h = refl
  take-append_at zero (x ∷ xs) ys h = absurd (omega arith)
  take-append_at (suc n) [] ys h = absurd (omega arith)
  take-append_at (suc n) (x ∷ xs) ys h = ap (λ l. x ∷ l) (take-append_at n xs ys (omega arith))

  pub drop-append_at : (n : ℕ) (xs ys : List A) → length xs ≡ n → drop n (xs ++ ys) ≡ ys
  drop-append_at zero [] ys h = refl
  drop-append_at zero (x ∷ xs) ys h = absurd (omega arith)
  drop-append_at (suc n) [] ys h = absurd (omega arith)
  drop-append_at (suc n) (x ∷ xs) ys h = drop-append_at n xs ys (omega arith)

  -- A cut past the first part goes on in the second.
  pub drop-append_past :
      (n : ℕ) (xs ys : List A) → length xs ≤ n → drop n (xs ++ ys) ≡ drop (n - length xs) ys
  drop-append_past n [] ys h = ap (λ k. drop k ys) (omega arith)
  drop-append_past zero (x ∷ xs) ys h = absurd (omega arith)
  drop-append_past (suc n) (x ∷ xs) ys h =
      drop-append_past n xs ys (omega arith) ∙ ap (λ k. drop k ys) (omega arith)

  pub take_all : (n : ℕ) (xs : List A) → length xs ≤ n → take n xs ≡ xs
  take_all zero [] h = refl
  take_all zero (x ∷ xs) h = absurd (omega arith)
  take_all (suc n) [] h = refl
  take_all (suc n) (x ∷ xs) h = ap (λ l. x ∷ l) (take_all n xs (omega arith))

  -- `l[i:j]`
  unfoldable pub slice : ℕ → ℕ → List A → List A
  slice i j xs = take (j - i) (drop i xs)

  pub length-slice : (i j : ℕ) (xs : List A) → i ≤ j → j ≤ length xs → length (slice i j xs) ≡ j - i
  unfolding slice
  length-slice i j xs h k = omega (arith, length-take (j - i) (drop i xs), length-drop i xs)

  -- The part that stands between two others.
  pub slice-append :
      (i j : ℕ) (xs ys zs : List A)
      → length xs ≡ i
      → length ys ≡ j - i
      → slice i j (xs ++ (ys ++ zs)) ≡ ys
  unfolding slice
  slice-append i j xs ys zs h k =
      ap (take (j - i)) (drop-append_at i xs (ys ++ zs) h) ∙ take-append_at (j - i) ys zs k

  -- A slice that starts past the first part is a slice of the second.
  pub slice_past :
      (n i j : ℕ) (xs ys : List A) → length xs ≡ n → slice (n + i) (n + j) (xs ++ ys) ≡ slice i j ys
  unfolding slice
  slice_past n i j xs ys h =
      ap (take (n + j - (n + i))) (drop-append_past (n + i) xs ys (omega arith))
      ∙ ap₂ (λ k l. take k (drop l ys)) (omega arith) (omega arith)

  pub slice_at : (i i' j j' : ℕ) (xs : List A) → i ≡ i' → j ≡ j' → slice i j xs ≡ slice i' j' xs
  slice_at i i' j j' xs p q = ap₂ (λ k l. slice k l xs) p q

  -- The first part.
  pub slice_first : (n : ℕ) (xs ys : List A) → length xs ≡ n → slice 0 n (xs ++ ys) ≡ xs
  unfolding slice
  slice_first n xs ys h = ap (λ k. take k (xs ++ ys)) (omega arith) ∙ take-append_at n xs ys h

  pub slice_all : (n : ℕ) (xs : List A) → length xs ≡ n → slice 0 n xs ≡ xs
  unfolding slice
  slice_all n xs h = take_all (n - 0) xs (omega arith)

-- A predicate on every item.
abbrev pub All {ℓ κ} : {A : Type ℓ} → (A → Type κ) → List A → Type κ
All P [] = Unit
All P (x ∷ xs) = P x × All P xs

pub All-append {ℓ κ} :
    {A : Type ℓ} (P : A → Type κ) (xs ys : List A) → All P xs → All P ys → All P (xs ++ ys)
All-append P [] ys h k = k
All-append P (x ∷ xs) ys (hx, hs) k = (hx, All-append P xs ys hs k)
