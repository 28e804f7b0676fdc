-- ===== src/Prelude/Lists.antt =====
-- Lists with Boolean predicates and native lengths, and predicates on their elements.
use Prim.Native.Nat.{ℕ, suc, ◌+◌, ◌<◌}
use mathlib.Core.Path.{◌≡◌, refl}
use mathlib.Core.Logic.{◌⊎◌, inl, inr}
use mathlib.Core.Bool.{Bool, true, false, ◌&&◌, ◌||◌}
use mathlib.Core.Option.{Option, none, some}
use mathlib.Core.List.{List, [], ◌∷◌, ◌++◌}
use native.Mathlib.Omega.{arith}
use swim_flow_api.Prelude.Tests.{if◌then◌else◌, Bool-cases}

module _ {ℓ} {A : Type ℓ} where
  abbrev pub length : List A → ℕ
  length [] = 0
  length (x ∷ xs) = suc (length xs)

  abbrev pub any : (A → Bool) → List A → Bool
  any p [] = false
  any p (x ∷ xs) = p x || any p xs

  abbrev pub every : (A → Bool) → List A → Bool
  every p [] = true
  every p (x ∷ xs) = p x && every p xs

  abbrev pub find : (A → Bool) → List A → Option A
  find p [] = none
  find p (x ∷ xs) = if p x then some x else find p xs

  abbrev pub filter : (A → Bool) → List A → List A
  filter p [] = []
  filter p (x ∷ xs) = let rest = filter p xs in if p x then x ∷ rest else rest

  abbrev pub count : (A → Bool) → List A → ℕ
  count p [] = 0
  count p (x ∷ xs) = (if p x then 1 else 0) + count p xs

  abbrev pub All {κ} : (A → Type κ) → List A → Type κ
  All P [] = Unit
  All P (x ∷ xs) = P x × All P xs

-- Membership, by recursion: the equation with the element stands at its place.
abbrev pub IsIn : {A : Type 0} → A → List A → Type 0
IsIn a [] = ⊥
IsIn a (x ∷ xs) = (a ≡ x) ⊎ IsIn a xs

-- The rows that satisfy `p` are replaced by `f` of them.
abbrev pub update_rows : {A : Type 0} → (A → Bool) → (A → A) → List A → List A
update_rows p f [] = []
update_rows p f (x ∷ xs) = (if p x then f x else x) ∷ update_rows p f xs

module _ {A : Type 0} where
  pub All-append : (P : A → Type 0) (xs ys : List A) → All P xs → All P ys → All P (xs ++ ys)
  All-append P [] ys hx hy = hy
  All-append P (x ∷ xs) ys hx hy = (hx.0, All-append P xs ys hx.1 hy)

  pub All-at : (P : A → Type 0) (xs : List A) (a : A) → All P xs → IsIn a xs → P a
  All-at P [] a h m = elim m [ ]
  All-at P (x ∷ xs) a h (inl e) = rw e h.0
  All-at P (x ∷ xs) a h (inr m) = All-at P xs a h.1 m

  pub All-of_each : (P : A → Type 0) (xs : List A) → ((a : A) → IsIn a xs → P a) → All P xs
  All-of_each P [] h = tt
  All-of_each P (x ∷ xs) h = (h x (inl refl), All-of_each P xs (λ a m. h a (inr m)))

  pub All-map : (P Q : A → Type 0) (xs : List A) → ((a : A) → P a → Q a) → All P xs → All Q xs
  All-map P Q [] f h = tt
  All-map P Q (x ∷ xs) f h = (f x h.0, All-map P Q xs f h.1)

  pub All-update_rows :
      (P Q : A → Type 0) (p : A → Bool) (f : A → A) (xs : List A)
      → ((a : A) → P a → p a ≡ true → Q (f a))
      → ((a : A) → P a → p a ≡ false → Q a)
      → All P xs
      → All Q (update_rows p f xs)
  All-update_rows P Q p f [] hit miss h = tt
  All-update_rows P Q p f (x ∷ xs) hit miss h =
      (step (p x) (hit x h.0) (miss x h.0), All-update_rows P Q p f xs hit miss h.1)
    where
      step : (b : Bool) → (b ≡ true → Q (f x)) → (b ≡ false → Q x) → Q (if b then f x else x)
      step true s t = s refl
      step false s t = t refl

  pub All-filter : (P : A → Type 0) (p : A → Bool) (xs : List A) → All P xs → All P (filter p xs)
  All-filter P p [] h = tt
  All-filter P p (x ∷ xs) h = elim (Bool-cases (p x)) [
    | inl hit ↦ rw hit (h.0, All-filter P p xs h.1)
    | inr miss ↦ rw miss (All-filter P p xs h.1)
  ]

  pub IsIn-append_left : (a : A) (xs ys : List A) → IsIn a xs → IsIn a (xs ++ ys)
  IsIn-append_left a [] ys m = elim m [ ]
  IsIn-append_left a (x ∷ xs) ys (inl e) = inl e
  IsIn-append_left a (x ∷ xs) ys (inr m) = inr (IsIn-append_left a xs ys m)

  pub IsIn-append_right : (a : A) (xs ys : List A) → IsIn a ys → IsIn a (xs ++ ys)
  IsIn-append_right a [] ys m = m
  IsIn-append_right a (x ∷ xs) ys m = inr (IsIn-append_right a xs ys m)

  pub IsIn-update_rows :
      (p : A → Bool) (f : A → A) (a : A) (xs : List A)
      → IsIn a xs
      → IsIn (if p a then f a else a) (update_rows p f xs)
  IsIn-update_rows p f a [] m = elim m [ ]
  IsIn-update_rows p f a (x ∷ xs) (inl e) = inl (rw e refl)
  IsIn-update_rows p f a (x ∷ xs) (inr m) = inr (IsIn-update_rows p f a xs m)

  pub any-append : (p : A → Bool) (xs ys : List A) → any p (xs ++ ys) ≡ (any p xs || any p ys)
  any-append p [] ys = refl
  any-append p (x ∷ xs) ys = ground (arith, any-append p xs ys)

  pub any-update_rows :
      (q p : A → Bool) (f : A → A) (xs : List A)
      → ((a : A) → q (f a) ≡ q a)
      → any q (update_rows p f xs) ≡ any q xs
  any-update_rows q p f [] same = refl
  any-update_rows q p f (x ∷ xs) same = ground (arith, same x, any-update_rows q p f xs same)

  pub count-append : (p : A → Bool) (xs ys : List A) → count p (xs ++ ys) ≡ count p xs + count p ys
  count-append p [] ys = omega arith
  count-append p (x ∷ xs) ys = ground (arith, count-append p xs ys)

  -- An update that takes the rows of `p` out of `q` lowers the count of `q` by that of `p`.
  pub count-update_rows :
      (q p : A → Bool) (f : A → A) (xs : List A)
      → ((a : A) → p a ≡ true → q a ≡ true)
      → ((a : A) → q (f a) ≡ false)
      → count q (update_rows p f xs) + count p xs ≡ count q xs
  count-update_rows q p f [] sub out = refl
  count-update_rows q p f (x ∷ xs) sub out =
      ground (arith, sub x, out x, count-update_rows q p f xs sub out)

  pub All-of_any : (p : A → Bool) (xs : List A) → any p xs ≡ false → All (λ a. p a ≡ false) xs
  All-of_any p [] h = tt
  All-of_any p (x ∷ xs) h = (ground arith, All-of_any p xs (ground arith))

  pub any_of_IsIn : (p : A → Bool) (xs : List A) (a : A) → IsIn a xs → p a ≡ true → any p xs ≡ true
  any_of_IsIn p [] a m h = elim m [ ]
  any_of_IsIn p (x ∷ xs) a (inl e) h = ground arith
  any_of_IsIn p (x ∷ xs) a (inr m) h = ground (arith, any_of_IsIn p xs a m h)

  pub count-pos : (p : A → Bool) (xs : List A) (a : A) → IsIn a xs → p a ≡ true → 0 < count p xs
  count-pos p [] a m h = elim m [ ]
  count-pos p (x ∷ xs) a (inl e) h = ground arith
  count-pos p (x ∷ xs) a (inr m) h = ground (arith, count-pos p xs a m h)

  pub count_none : (p : A → Bool) (xs : List A) → All (λ a. p a ≡ false) xs → count p xs ≡ 0
  count_none p [] h = refl
  count_none p (x ∷ xs) h = ground (arith, count_none p xs h.1)

  pub find_found :
      (p : A → Bool) (xs : List A) (a : A) → find p xs ≡ some a → IsIn a xs × (p a ≡ true)
  find_found p [] a h = cc
  find_found p (x ∷ xs) a h = elim (Bool-cases (p x)) [
    | inl hit ↦ (inl (ground arith), ground arith)
    | inr miss ↦ let (m, e) = find_found p xs a (ground arith) in (inr m, e)
  ]

  pub find_missing : (p : A → Bool) (xs : List A) → find p xs ≡ none → any p xs ≡ false
  find_missing p [] h = refl
  find_missing p (x ∷ xs) h = ground (arith, find_missing p xs)

  pub All-of_every : (p : A → Bool) (xs : List A) → every p xs ≡ true → All (λ a. p a ≡ true) xs
  All-of_every p [] h = tt
  All-of_every p (x ∷ xs) h = (ground arith, All-of_every p xs (ground arith))

  pub every_of_All : (p : A → Bool) (xs : List A) → All (λ a. p a ≡ true) xs → every p xs ≡ true
  every_of_All p [] h = refl
  every_of_All p (x ∷ xs) h = ground (arith, h.0, every_of_All p xs h.1)

  pub any-filter : (q p : A → Bool) (xs : List A) → any q xs ≡ false → any q (filter p xs) ≡ false
  any-filter q p [] h = refl
  any-filter q p (x ∷ xs) h = ground (arith, any-filter q p xs)

  -- An element of `q` that `p` does not hit is still there after the update.
  pub any-kept :
      (q p : A → Bool) (f : A → A) (xs : List A)
      → ((a : A) → q a ≡ true → p a ≡ false)
      → any q xs ≡ true
      → any q (update_rows p f xs) ≡ true
  any-kept q p f [] out h = h
  any-kept q p f (x ∷ xs) out h = ground (arith, out x, any-kept q p f xs out)

  pub All-both : (P Q : A → Type 0) (xs : List A) → All P xs → All Q xs → All (λ a. P a × Q a) xs
  All-both P Q [] h k = tt
  All-both P Q (x ∷ xs) h k = ((h.0, k.0), All-both P Q xs h.1 k.1)

  pub count_same :
      (p q : A → Bool) (xs : List A) → All (λ a. p a ≡ q a) xs → count p xs ≡ count q xs
  count_same p q [] h = refl
  count_same p q (x ∷ xs) h = ground (arith, h.0, count_same p q xs h.1)

  pub update_rows_none :
      (p : A → Bool) (f : A → A) (xs : List A) → any p xs ≡ false → update_rows p f xs ≡ xs
  update_rows_none p f [] h = refl
  update_rows_none p f (x ∷ xs) h = ground (arith, update_rows_none p f xs)

  pub any-map :
      (p q : A → Bool) (xs : List A)
      → ((a : A) → p a ≡ true → q a ≡ true)
      → any p xs ≡ true
      → any q xs ≡ true
  any-map p q [] sub h = h
  any-map p q (x ∷ xs) sub h = ground (arith, sub x, any-map p q xs sub)

  pub IsIn-filter :
      (p : A → Bool) (a : A) (xs : List A) → IsIn a xs → p a ≡ true → IsIn a (filter p xs)
  IsIn-filter p a [] m h = elim m [ ]
  IsIn-filter p a (x ∷ xs) (inl e) h = let hit : p x ≡ true = cc (h, e) in rw hit (inl e)
  IsIn-filter p a (x ∷ xs) (inr m) h = elim (Bool-cases (p x)) [
    | inl hit ↦ rw hit (inr (IsIn-filter p a xs m h))
    | inr miss ↦ rw miss (IsIn-filter p a xs m h)
  ]

  pub count_kept :
      (q p : A → Bool) (f : A → A) (xs : List A)
      → ((a : A) → p a ≡ true → q (f a) ≡ q a)
      → count q (update_rows p f xs) ≡ count q xs
  count_kept q p f [] same = refl
  count_kept q p f (x ∷ xs) same = ground (arith, same x, count_kept q p f xs same)

  -- An update that takes the rows of `p` into `q` raises the count of `q` by that of `p`.
  pub count_gained :
      (q p : A → Bool) (f : A → A) (xs : List A)
      → ((a : A) → p a ≡ true → q a ≡ false)
      → ((a : A) → q (f a) ≡ true)
      → count q (update_rows p f xs) ≡ count q xs + count p xs
  count_gained q p f [] out into = refl
  count_gained q p f (x ∷ xs) out into =
      ground (arith, out x, into x, count_gained q p f xs out into)

  pub update_rows_same :
      (p q : A → Bool) (f : A → A) (xs : List A)
      → All (λ a. p a ≡ q a) xs
      → update_rows p f xs ≡ update_rows q f xs
  update_rows_same p q f [] h = refl
  update_rows_same p q f (x ∷ xs) h = ground (arith, h.0, update_rows_same p q f xs h.1)
