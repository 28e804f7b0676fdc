-- ===== src/Database/Conflicts.antt =====
-- Tables without two rows that a unique index refuses, and transactions that return.
use swim_flow_api.Prelude.{
  ◌≡◌, refl, Bool, false, List, [], ◌∷◌, ◌++◌, any, filter, arith, any-append, any-filter, sym, ◌∙◌,
  IsIn, any_of_IsIn, update_rows, inl, inr, if◌then◌else◌, true, Outcome, ok, err, Option-cases,
  some,
}
use swim_flow_api.Database.Reference.{Table, has_conflict, settle}

module _ {Row : Type 0} (conflicts : Row → Row → Bool) where
  pub has_conflict-append :
      (rows : List Row) (r : Row)
      → any (conflicts r) rows ≡ false
      → has_conflict conflicts rows ≡ false
      → has_conflict conflicts (rows ++ r ∷ []) ≡ false
  has_conflict-append [] r fresh h = h
  has_conflict-append (s ∷ rows) r fresh h =
      ground (arith, any-append (λ q. conflicts q s) rows (r ∷ []), has_conflict-append rows r)

  pub has_conflict-filter :
      (p : Row → Bool) (rows : List Row)
      → has_conflict conflicts rows ≡ false
      → has_conflict conflicts (filter p rows) ≡ false
  has_conflict-filter p [] h = h
  has_conflict-filter p (s ∷ rows) h =
      ground (arith, any-filter (λ q. conflicts q s) p rows, has_conflict-filter p rows)

  -- Where no two rows conflict, two that do are one.
  pub no_conflict_same :
      (rows : List Row) (a b : Row)
      → has_conflict conflicts rows ≡ false
      → IsIn a rows
      → IsIn b rows
      → conflicts a b ≡ true
      → conflicts b a ≡ true
      → a ≡ b
  no_conflict_same [] a b h ma mb ab ba = elim ma [ ]
  no_conflict_same (r ∷ rows) a b h (inl ea) (inl eb) ab ba = ea ∙ sym eb
  no_conflict_same (r ∷ rows) a b h (inl ea) (inr mb) ab ba =
      let clash : conflicts b r ≡ true = rw ea at ba in
      absurd (ground (arith, any_of_IsIn (λ q. conflicts q r) rows b mb clash, h))
  no_conflict_same (r ∷ rows) a b h (inr ma) (inl eb) ab ba =
      let clash : conflicts a r ≡ true = rw eb at ab in
      absurd (ground (arith, any_of_IsIn (λ q. conflicts q r) rows a ma clash, h))
  no_conflict_same (r ∷ rows) a b h (inr ma) (inr mb) ab ba =
      no_conflict_same rows a b (ground (arith, h)) ma mb ab ba

  -- An update after which a row conflicts with no more rows is not refused.
  pub has_conflict-update_rows :
      (p : Row → Bool) (f : Row → Row) (rows : List Row)
      → ((r s : Row) → conflicts (f r) s ≡ true → conflicts r s ≡ true)
      → ((r s : Row) → conflicts r (f s) ≡ true → conflicts r s ≡ true)
      → has_conflict conflicts rows ≡ false
      → has_conflict conflicts (update_rows p f rows) ≡ false
  has_conflict-update_rows p f [] left right h = h
  has_conflict-update_rows p f (s ∷ rows) left right h =
      ground (arith, kept rows (ground (arith, h)), has_conflict-update_rows p f rows left right)
    where
      one :
          (r : Row)
          → conflicts r s ≡ false
          → conflicts (if p r then f r else r) (if p s then f s else s) ≡ false
      one r h = ground (arith, h, left r s, left r (f s), right r s, right (f r) s)

      kept :
          (rows : List Row)
          → any (λ q. conflicts q s) rows ≡ false
          → any (λ q. conflicts q (if p s then f s else s)) (update_rows p f rows) ≡ false
      kept [] h = refl
      kept (r ∷ rows) h = ground (arith, one r (ground (arith, h)), kept rows (ground (arith, h)))

-- What a transaction returns, its body has returned.
pub settle-ok :
    {E A S : Type 0} (s s' : S) (a : A) (x : Outcome E A × S)
    → settle s x ≡ (ok a, s')
    → x ≡ (ok a, s')
settle-ok s s' a (ok b, r) h = h
settle-ok s s' a (err e, r) h = absurd (ground arith)

pub find_first_hit :
    {Row : Type 0} {conflicts : Row → Row → Bool} (t : Table Row conflicts) (p : Row → Bool)
    (rows : List Row)
    → any p rows ≡ true
    → (r : Row) × (t.find_first p rows ≡ some r) × IsIn r rows × (p r ≡ true)
find_first_hit t p rows h = elim (Option-cases (t.find_first p rows)) [
  | inl missing ↦ absurd (ground (arith, t.find_first_missing p rows missing, h))
  | inr (r, found) ↦ let (m, e) = t.find_first_found p rows r found in (r, found, m, e)
]
