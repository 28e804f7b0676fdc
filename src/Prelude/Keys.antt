-- ===== src/Prelude/Keys.antt =====
-- Rows of a keyed table: no two rows have the same key.
use Prim.Native.Nat.{◌<◌}
use Prim.Native.String.{String}
use mathlib.Core.Path.{◌≡◌, refl, sym, ap, ◌∙◌, subst}
use mathlib.Core.Logic.{◌≢◌, inl, inr}
use mathlib.Core.Bool.{Bool, true, false}
use mathlib.Core.List.{List, [], ◌∷◌, ◌++◌}
use native.Mathlib.Omega.{arith}
use text.Mathlib.Text.{◌==◌ as str_eq}
use text.Mathlib.TextEquality.{eq_iff}
use swim_flow_api.Prelude.Tests.{if◌then◌else◌, Bool-cases}
use swim_flow_api.Prelude.Lists.{
  filter, All-filter, count-pos, any, count, All, All-append, All-update_rows, All-map, All-at,
  All-of_any, IsIn, update_rows, count_none,
}

abbrev pub HasUnique : {A : Type 0} → (A → String) → List A → Type 0
HasUnique k [] = Unit
HasUnique k (x ∷ xs) = All (λ y. k y ≢ k x) xs × HasUnique k xs

module _ {A : Type 0} (k : A → String) where
  pub HasUnique-append :
      (xs : List A) (a : A) → HasUnique k xs → All (λ x. k x ≢ k a) xs → HasUnique k (xs ++ a ∷ [])
  HasUnique-append [] a h f = (tt, tt)
  HasUnique-append (x ∷ xs) a (hx, h) (fx, f) =
      (All-append _ xs (a ∷ []) hx ((λ e. fx (sym e)), tt), HasUnique-append xs a h f)

  pub HasUnique-update_rows :
      (p : A → Bool) (f : A → A) (xs : List A)
      → ((a : A) → k (f a) ≡ k a)
      → HasUnique k xs
      → HasUnique k (update_rows p f xs)
  HasUnique-update_rows p f [] same h = tt
  HasUnique-update_rows p f (x ∷ xs) same (hx, h) = (
    All-update_rows (λ y. k y ≢ k x) _ p f xs (λ a d _ e. d (cc (kept x, same a)))
        (λ a d _ e. d (cc (kept x))) hx,
    HasUnique-update_rows p f xs same h,
  )
    where
      kept : (a : A) → k (if p a then f a else a) ≡ k a
      kept a = ground (arith, same a)

  pub fresh_key :
      (a : A) (xs : List A) → any (λ x. str_eq (k x) (k a)) xs ≡ false → All (λ x. k x ≢ k a) xs
  fresh_key a xs h = All-map _ _ xs (λ x e d. cc (e, (eq_iff (k x) (k a)).1 d)) (All-of_any _ xs h)

module _ {A : Type 0} where
  pub counted_at :
      (p : A → Bool) (xs : List A) → 0 < count p xs → (a : A) × IsIn a xs × (p a ≡ true)
  counted_at p [] h = absurd (omega arith)
  counted_at p (x ∷ xs) h = elim (Bool-cases (p x)) [
    | inl hit ↦ (x, inl refl, hit)
    | inr miss ↦ let (a, m, e) = counted_at p xs (ground arith) in (a, inr m, e)
  ]

  -- Where keys are unique and the rows of `p` all have the key `i`, a row of `p` is the row of `i`.
  pub hit_of_key :
      (k : A → String) (i : String) (p : A → Bool) (xs : List A)
      → ((a : A) → p a ≡ true → k a ≡ i)
      → HasUnique k xs
      → 0 < count p xs
      → All (λ a. k a ≡ i → p a ≡ true) xs
  hit_of_key k i p [] key h c = tt
  hit_of_key k i p (x ∷ xs) key (hx, h) c = elim (Bool-cases (p x)) [
    | inl hit ↦ ((λ _. hit), All-map _ _ xs (λ a d e. absurd (d (e ∙ sym (key x hit)))) hx)
    | inr miss ↦
        let more : 0 < count p xs = ground arith in
        let (a, m, e) = counted_at p xs more in
        ((λ d. absurd (All-at _ xs a hx m (key a e ∙ sym d))), hit_of_key k i p xs key h more)
  ]

  -- Where keys are unique, at most one row satisfies a predicate that fixes the key.
  pub count_of_key :
      (k : A → String) (i : String) (p : A → Bool) (xs : List A)
      → ((a : A) → p a ≡ true → k a ≡ i)
      → HasUnique k xs
      → count p xs ≡ (if any p xs then 1 else 0)
  count_of_key k i p [] key h = refl
  count_of_key k i p (x ∷ xs) key (hx, h) = elim (Bool-cases (p x)) [
    | inr miss ↦ ground (arith, count_of_key k i p xs key h)
    | inl hit ↦
        let others : count p xs ≡ 0 = count_none p xs (
          All-map _ _ xs
            (λ a d. elim (Bool-cases (p a)) [
              | inl also ↦ absurd (d (key a also ∙ sym (key x hit)))
              | inr other ↦ other
            ])
            hx) in
        ground arith
  ]

  -- Where one element at most satisfies a predicate, two that do are the same.
  pub one_hit :
      (p : A → Bool) (xs : List A) (a b : A)
      → count p xs < 2
      → IsIn a xs
      → IsIn b xs
      → p a ≡ true
      → p b ≡ true
      → a ≡ b
  one_hit p [] a b le ma mb ha hb = elim ma [ ]
  one_hit p (x ∷ xs) a b le (inl ea) (inl eb) ha hb = ea ∙ sym eb
  one_hit p (x ∷ xs) a b le (inl ea) (inr mb) ha hb =
      absurd (ground (arith, count-pos p xs b mb hb, (ap p (sym ea)) ∙ ha))
  one_hit p (x ∷ xs) a b le (inr ma) (inl eb) ha hb =
      absurd (ground (arith, count-pos p xs a ma ha, (ap p (sym eb)) ∙ hb))
  one_hit p (x ∷ xs) a b le (inr ma) (inr mb) ha hb = one_hit p xs a b (ground arith) ma mb ha hb

  pub HasUnique-same :
      (k : A → String) (xs : List A) (a b : A)
      → HasUnique k xs
      → IsIn a xs
      → IsIn b xs
      → k a ≡ k b
      → a ≡ b
  HasUnique-same k [] a b h ma mb e = elim ma [ ]
  HasUnique-same k (x ∷ xs) a b (hx, h) (inl ea) (inl eb) e = ea ∙ sym eb
  HasUnique-same k (x ∷ xs) a b (hx, h) (inl ea) (inr mb) e =
      absurd (All-at _ xs b hx mb (sym e ∙ ap k ea))
  HasUnique-same k (x ∷ xs) a b (hx, h) (inr ma) (inl eb) e =
      absurd (All-at _ xs a hx ma (e ∙ ap k eb))
  HasUnique-same k (x ∷ xs) a b (hx, h) (inr ma) (inr mb) e = HasUnique-same k xs a b h ma mb e

  pub HasUnique-filter :
      (k : A → String) (p : A → Bool) (xs : List A) → HasUnique k xs → HasUnique k (filter p xs)
  HasUnique-filter k p [] h = tt
  HasUnique-filter k p (x ∷ xs) (hx, h) = elim (Bool-cases (p x)) [
    | inl hit ↦ rw hit (All-filter _ p xs hx, HasUnique-filter k p xs h)
    | inr miss ↦ rw miss (HasUnique-filter k p xs h)
  ]

  pub any_at : (p : A → Bool) (xs : List A) → any p xs ≡ true → (a : A) × IsIn a xs × (p a ≡ true)
  any_at p [] h = absurd (ground arith)
  any_at p (x ∷ xs) h = elim (Bool-cases (p x)) [
    | inl hit ↦ (x, inl refl, hit)
    | inr miss ↦ let (a, m, e) = any_at p xs (ground arith) in (a, inr m, e)
  ]

  -- Where keys are unique and the rows of `p` have the key of `r`, one that is there is `r`.
  pub unique_hit :
      (k : A → String) (p : A → Bool) (xs : List A) (r : A)
      → ((a : A) → p a ≡ true → k a ≡ k r)
      → HasUnique k xs
      → IsIn r xs
      → any p xs ≡ true
      → p r ≡ true
  unique_hit k p xs r key unique m h =
      let (a, ma, e) = any_at p xs h in
      subst (λ x. p x ≡ true) (HasUnique-same k xs a r unique ma m (key a e)) e
