-- ===== src/Media/Decided.antt =====
-- Calls on a media object that answer whether they have changed it.
use swim_flow_api.Prelude.{
  String, ◌≡◌, ◌⊎◌, ◌∙◌, refl, sym, ap, Bool, true, false, not, ◌&&◌, List, [], ◌∷◌, ok, Outcome,
  arith, any, update_rows, update_rows_same, IsIn, any_of_IsIn, any_at, All-map, All-of_each,
  hit_of_key, count-pos, str_eq, eq_iff, Bool-cases, inl, inr, if◌then◌else◌,
}
use swim_flow_api.Media.Store.{MediaObject, MediaDb, MediaError}
use swim_flow_api.Media.Effects.{with_objects}
use swim_flow_api.Media.Sound.{Sound}

-- A call that answers true where a listed object has a property, and then changes the object of
-- the id alone, and that answers false and changes nothing where none has it.
abbrev pub Decides :
    String
    → (MediaObject → Type 0)
    → (MediaObject → MediaObject)
    → MediaDb
    → Outcome MediaError Bool × MediaDb
    → Type 0
Decides id P f db result =
    ((o : MediaObject) × IsIn o db.objects
      × P o
      × (result ≡ (ok true, with_objects db (update_rows (λ q. str_eq q.id id) f db.objects))))
    ⊎ (((o : MediaObject) → IsIn o db.objects → P o → ⊥) × (result ≡ (ok false, db)))

pub decided :
    (id : String) (p : MediaObject → Bool) (f : MediaObject → MediaObject)
    (P : MediaObject → Type 0) (db : MediaDb) (result : Outcome MediaError Bool × MediaDb)
    → Sound db
    → ((o : MediaObject) → p o ≡ true → P o)
    → ((o : MediaObject) → P o → p o ≡ true)
    → ((o : MediaObject) → P o → o.id ≡ id)
    → result ≡ (
        if any p db.objects
        then (ok true, with_objects db (update_rows p f db.objects))
        else (ok false, db))
    → Decides id P f db result
decided id p f P db result sound into back key e = elim (Bool-cases (any p db.objects)) [
  | inr miss ↦ inr ((λ o m h. cc (any_of_IsIn p db.objects o m (back o h), miss)), e ∙ rw miss refl)
  | inl hit ↦
      let (o, m, w) = any_at p db.objects hit in
      let hits =
        hit_of_key (λ q. q.id) id p db.objects (λ q v. key q (into q v)) sound.ids
          (count-pos p db.objects o m w) in
      let same : update_rows p f db.objects ≡ update_rows (λ q. str_eq q.id id) f db.objects =
        update_rows_same p (λ q. str_eq q.id id) f db.objects
          (All-map _ _ db.objects (λ q at. agree q at) hits) in
      inl (o, m, into o w, e ∙ rw hit (ap (λ rows. (ok true, with_objects db rows)) same))
]
  where
    agree : (q : MediaObject) → (q.id ≡ id → p q ≡ true) → p q ≡ str_eq q.id id
    agree q at = elim (Bool-cases (str_eq q.id id)) [
      | inl named ↦ at ((eq_iff _ _).0 named) ∙ sym named
      | inr other ↦ elim (Bool-cases (p q)) [
        | inr miss ↦ miss ∙ sym other
        | inl hit ↦ hit ∙ sym ((eq_iff q.id id).1 (key q (into q hit)))
      ]
    ]

any_and :
    (p : MediaObject → Bool) (b : Bool) (rows : List MediaObject)
    → any (λ o. p o && b) rows ≡ (any p rows && b)
any_and p b [] = refl
any_and p b (o ∷ rows) = let ih = any_and p b rows in ground (arith, ih)

-- What a conditional update answers when its test has come out as given.
abbrev Tested : Type 0
Tested = Outcome MediaError Bool × MediaDb

abbrev updated_if : (MediaObject → Bool) → (MediaObject → MediaObject) → MediaDb → Bool → Tested
updated_if p f db hit =
    if hit then (ok true, with_objects db (update_rows p f db.objects)) else (ok false, db)

-- A test that no row takes part in moves into the condition on the rows.
pub both_tests :
    (p : MediaObject → Bool) (f : MediaObject → MediaObject) (db : MediaDb) (bound : Bool)
    → updated_if (λ o. p o && not bound) f db (any (λ o. p o && not bound) db.objects)
      ≡ updated_if p f db (any p db.objects && not bound)
both_tests p f db true =
    let none_hit : any (λ o. p o && false) db.objects ≡ false =
      any_and p false db.objects ∙ ground arith in
    let other : (any p db.objects && false) ≡ false = ground arith in
    ap (updated_if (λ o. p o && false) f db) none_hit ∙ sym (ap (updated_if p f db) other)
both_tests p f db false =
    ap (updated_if (λ o. p o && true) f db) (any_and p true db.objects)
    ∙ ap
        (λ rows.
          if any p db.objects && true then (ok true, with_objects db rows) else (ok false, db))
        (update_rows_same (λ o. p o && true) p f db.objects
          (All-of_each _ db.objects (λ o m. ground arith)))
