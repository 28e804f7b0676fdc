-- ===== src/Policies/Sets.antt =====
-- JavaScript's Set of texts, in the order of insertion.
use swim_flow_api.Prelude.{
  String, ◌≡◌, ap, ◌∙◌, Bool, true, ◌||◌, List, [], ◌∷◌, ◌++◌, any, str_eq, eq_iff, arith,
  Bool-cases, inl, inr, if◌then◌else◌, any-append,
}

abbrev pub includes : String → List String → Bool
includes s xs = any (λ x. str_eq x s) xs

-- Set.prototype.add
abbrev pub add : String → List String → List String
add s xs = if includes s xs then xs else xs ++ s ∷ []

abbrev pub add_all : List String → List String → List String
add_all acc [] = acc
add_all acc (s ∷ xs) = add_all (add s acc) xs

-- `new Set(xs)`
abbrev pub set_of : List String → List String
set_of xs = add_all [] xs

module _ (p : String → Bool) where
  includes-any :
      (s : String) (xs : List String) → includes s xs ≡ true → p s ≡ true → any p xs ≡ true
  includes-any s [] h e = absurd (ground arith)
  includes-any s (x ∷ xs) h e = elim (Bool-cases (str_eq x s)) [
    | inl same ↦ let here : p x ≡ true = ap p ((eq_iff x s).0 same) ∙ e in ground arith
    | inr other ↦ ground (arith, includes-any s xs)
  ]

  pub any-add : (s : String) (xs : List String) → any p (add s xs) ≡ (any p xs || p s)
  any-add s xs = elim (Bool-cases (includes s xs)) [
    | inl there ↦ rw there (ground (arith, includes-any s xs))
    | inr fresh ↦ rw fresh (ground (arith, any-append p xs (s ∷ [])))
  ]

  any-add_all : (acc xs : List String) → any p (add_all acc xs) ≡ (any p acc || any p xs)
  any-add_all acc [] = ground arith
  any-add_all acc (s ∷ xs) = ground (arith, any-add s acc, any-add_all (add s acc) xs)

  -- A set has an element of `p` exactly when the list has one.
  pub any-set_of : (xs : List String) → any p (set_of xs) ≡ any p xs
  any-set_of xs = any-add_all [] xs
