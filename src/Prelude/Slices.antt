-- ===== src/Prelude/Slices.antt =====
-- Parts of lists: `take` and `drop` across an append, past the end and of nothing.
use Prim.Native.Nat.{ℕ, zero, suc, ◌+◌, ◌-◌, ◌≤◌}
use mathlib.Core.Path.{◌≡◌, refl, sym, ap, ◌∙◌}
use mathlib.Core.List.{List, [], ◌∷◌, ◌++◌}
use native.Mathlib.Omega.{arith}
use void_cache.Prelude.Lists.{length, take, drop}

-- taking from one list and then from the next
pub take-append_rest {ℓ} :
    {A : Type ℓ} (n : ℕ) (xs ys : List A)
    → take n (xs ++ ys) ≡ take n xs ++ take (n - length (take n xs)) ys
take-append_rest zero [] ys = refl
take-append_rest zero (x ∷ xs) ys = refl
take-append_rest (suc n) [] ys = ap (λ k. take k ys) {x = suc n} {y = suc n - 0} (omega arith)
take-append_rest (suc n) (x ∷ xs) ys =
    ap (λ zs. x ∷ zs) (take-append_rest n xs ys ∙ ap (λ k. take n xs ++ take k ys) (omega arith))

pub drop_suc {ℓ} :
    {A : Type ℓ} (stop from : ℕ) (x : A) (xs : List A)
    → from + 1 ≤ stop
    → drop (stop - from) (x ∷ xs) ≡ drop (stop - (from + 1)) xs
drop_suc stop from x xs h =
    let e : stop - from ≡ suc (stop - (from + 1)) = omega arith in ap (λ k. drop k (x ∷ xs)) e

pub drop_zero {ℓ} : {A : Type ℓ} (xs : List A) → drop 0 xs ≡ xs
drop_zero [] = refl
drop_zero (x ∷ xs) = refl

pub drop_none {ℓ} : {A : Type ℓ} (n : ℕ) (xs : List A) → drop (n - n) xs ≡ xs
drop_none n xs = ap (λ k. drop k xs) {x = n - n} {y = 0} (omega arith) ∙ drop_zero xs

-- what a list has behind its first elements, across an append
pub drop-append_rest {ℓ} :
    {A : Type ℓ} (n : ℕ) (xs ys : List A) → drop n (xs ++ ys) ≡ drop n xs ++ drop (n - length xs) ys
drop-append_rest zero [] ys = refl
drop-append_rest zero (x ∷ xs) ys =
    let none_left : 0 ≡ 0 - suc (length xs) = omega arith in
    ap (λ zs. x ∷ (xs ++ zs)) (sym (drop_zero ys) ∙ ap (λ k. drop k ys) none_left)
drop-append_rest (suc n) [] ys = ap (λ k. drop k ys) {x = suc n} {y = suc n - 0} (omega arith)
drop-append_rest (suc n) (x ∷ xs) ys =
    let same : n - length xs ≡ suc n - suc (length xs) = omega arith in
    drop-append_rest n xs ys ∙ ap (λ k. drop n xs ++ drop k ys) same

pub drop-past {ℓ} : {A : Type ℓ} (n : ℕ) (xs : List A) → length xs ≤ n → drop n xs ≡ []
drop-past zero [] h = refl
drop-past (suc n) [] h = refl
drop-past zero (x ∷ xs) h = absurd (omega (arith, h))
drop-past (suc n) (x ∷ xs) h = drop-past n xs (omega (arith, h))

pub take-nil {ℓ} : {A : Type ℓ} (n : ℕ) (xs : List A) → xs ≡ [] → take n xs ≡ []
take-nil zero [] e = refl
take-nil (suc n) [] e = refl
take-nil n (x ∷ xs) e = absurd (cc)

pub take-none {ℓ} : {A : Type ℓ} (n : ℕ) (xs : List A) → n ≡ 0 → take n xs ≡ []
take-none zero [] e = refl
take-none zero (x ∷ xs) e = refl
take-none (suc n) xs e = absurd (omega arith)

pub drop-nil {ℓ} : {A : Type ℓ} (n : ℕ) → drop n (let xs : List A = [] in xs) ≡ []
drop-nil zero = refl
drop-nil (suc n) = refl

pub drop-drop {ℓ} : {A : Type ℓ} (a b : ℕ) (xs : List A) → drop a (drop b xs) ≡ drop (b + a) xs
drop-drop a zero [] = drop-nil a ∙ sym (drop-nil (0 + a))
drop-drop a (suc b) [] = drop-nil a ∙ sym (drop-nil (suc b + a))
drop-drop a zero (x ∷ xs) = ap (λ k. drop k (x ∷ xs)) {x = a} {y = 0 + a} (omega arith)
drop-drop a (suc b) (x ∷ xs) =
    drop-drop a b xs ∙ ap (λ k. drop k (x ∷ xs)) {x = suc (b + a)} {y = suc b + a} (omega arith)
