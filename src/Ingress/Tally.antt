-- ===== src/Ingress/Tally.antt =====
-- Sums over the work of the workers and over the calls of Admit.
use project1_iot_server.Prelude.{
  ◌∙◌, ℕ, suc, ◌+◌, ◌≡◌, refl, ap, List, [], ◌∷◌, ◌++◌, arith, length,
}

unfoldable pub tally : {A : Type 0} → (A → ℕ) → List A → ℕ
tally f [] = 0
tally f (x ∷ xs) = f x + tally f xs

pub tally-remove :
    {A : Type 0} (f : A → ℕ) (a : A) (xs ys : List A)
    → tally f (xs ++ (a ∷ ys)) ≡ f a + tally f (xs ++ ys)
unfolding tally
tally-remove f a [] ys = refl
tally-remove f a (x ∷ xs) ys = omega (arith, tally-remove f a xs ys)

pub length-remove :
    {A : Type 0} (a : A) (xs ys : List A) → length (xs ++ (a ∷ ys)) ≡ suc (length (xs ++ ys))
length-remove a [] ys = refl
length-remove a (x ∷ xs) ys = ap suc (length-remove a xs ys)

pub tally-removed :
    {A : Type 0} (f : A → ℕ) (a : A) (xs ys : List A) {l : List A}
    → l ≡ xs ++ (a ∷ ys)
    → tally f l ≡ f a + tally f (xs ++ ys)
tally-removed f a xs ys h = ap (tally f) h ∙ tally-remove f a xs ys

pub length-removed :
    {A : Type 0} (a : A) (xs ys : List A) {l : List A}
    → l ≡ xs ++ (a ∷ ys)
    → length l ≡ suc (length (xs ++ ys))
length-removed a xs ys h = ap length h ∙ length-remove a xs ys

pub tally-none : {A : Type 0} (f : A → ℕ) (xs : List A) → length xs ≡ 0 → tally f xs ≡ 0
unfolding tally
tally-none f [] h = refl
tally-none f (x ∷ xs) h = omega arith
