-- ===== src/Policies/BatchKeys.antt =====
-- An attendance batch is accepted exactly when its records are apart, known and linked, for ids
-- that the joined keys of the policy keep apart.
use Prim.Native.Char.{Char, code}
use Prim.Native.String
use text.Mathlib.TextLemmas.{nil-append, cons-append}
use swim_flow_api.Prelude.{
  String, ◌≡◌, ◌↔◌, ◌∙◌, refl, sym, ap, true, false, List, [], ◌∷◌, any, ok, str_eq, eq_iff, arith,
  ◌==◌, All, All-map, All-both, HasUnique, IsIn, any_of_IsIn, any_at, All-at, subst,
}
use swim_flow_api.Policies.Sets.{includes}
use swim_flow_api.Policies.Attendance.{
  AttendanceRecord, StudentClassLink, BatchContext, joined, link_key, record_key, is_linked,
  assert_valid_batch,
}
use swim_flow_api.Policies.BatchValidity.{assert_valid_batch_iff, any-map_list}

-- The text has no ':', as no UUID has.
abbrev pub HasNoColon : String → Type 0
HasNoColon String.[] = Unit
HasNoColon (String.◌∷◌ c s) = ((code c == b':') ≡ false) × HasNoColon s

rest_of : String → String
rest_of String.[] = String.[]
rest_of (String.◌∷◌ c s) = s

first_or : Char → String → Char
first_or d String.[] = d
first_or d (String.◌∷◌ c s) = c

joined_nil : (x : String) → joined String.[] x ≡ String.◌∷◌ ":" x
joined_nil x =
    nil-append (String.◌++◌ ":" x)
    ∙ cons-append ":" String.[] x
    ∙ ap (String.◌∷◌ ":") (nil-append x)

joined_cons : (c : Char) (a x : String) → joined (String.◌∷◌ c a) x ≡ String.◌∷◌ c (joined a x)
joined_cons c a x = cons-append c a (String.◌++◌ ":" x)

-- A text without ':' and what follows it are read back from the joined key.
joined_inj :
    (a b x y : String) → HasNoColon a → HasNoColon b → joined a x ≡ joined b y → (a ≡ b) × (x ≡ y)
unfolding rest_of first_or
joined_inj String.[] String.[] x y _ _ e =
    let keys = sym (joined_nil x) ∙ e ∙ joined_nil y in (refl, ap rest_of keys)
joined_inj String.[] (String.◌∷◌ d b) x y _ (h, _) e =
    let keys = sym (joined_nil x) ∙ e ∙ joined_cons d b y in
    let same = ap code (ap (first_or ":") keys) in absurd (ground (arith, h, same))
joined_inj (String.◌∷◌ c a) String.[] x y (h, _) _ e =
    let keys = sym (joined_cons c a x) ∙ e ∙ joined_nil y in
    let same = ap code (ap (first_or ":") keys) in absurd (ground (arith, h, same))
joined_inj (String.◌∷◌ c a) (String.◌∷◌ d b) x y (_, ha) (_, hb) e =
    let keys = sym (joined_cons c a x) ∙ e ∙ joined_cons d b y in
    let (rest, after) = joined_inj a b x y ha hb (ap rest_of keys) in
    let same : c ≡ d = ap (first_or ":") keys in (cc (same, rest), after)

-- No two of the records have the same student, class and date.
abbrev pub AreApart : List AttendanceRecord → Type 0
AreApart [] = Unit
AreApart (r ∷ rs) =
    All (λ q. q.student_id ≡ r.student_id → q.class_id ≡ r.class_id → q.date ≡ r.date → ⊥) rs
    × AreApart rs

-- The ids of a record have no ':'.
abbrev pub HasPlainIds : AttendanceRecord → Type 0
HasPlainIds r = HasNoColon r.student_id × HasNoColon r.class_id

-- An active link of the record's student to its class.
abbrev pub ActiveLink : BatchContext → AttendanceRecord → Type 0
ActiveLink context r =
    (l : StudentClassLink) × IsIn l context.active_links
    × (l.student_id ≡ r.student_id)
    × (l.class_id ≡ r.class_id)

apart-HasUnique :
    (rs : List AttendanceRecord) → All HasPlainIds rs → AreApart rs ↔ HasUnique record_key rs
apart-HasUnique [] h = ((λ _. tt), (λ _. tt))
apart-HasUnique (r ∷ rs) (plain, h) = (
  (λ (away, rest). (
    All-map _ _ rs
        (λ q (own, free) e.
          let (student, tail) =
            joined_inj q.student_id r.student_id (joined q.class_id q.date)
              (joined r.class_id r.date) own.0 plain.0 e in
          let (class, date) = joined_inj q.class_id r.class_id q.date r.date own.1 plain.1 tail in
          free student class date)
        (All-both _ _ rs h away),
    (apart-HasUnique rs h).0 rest,
  )),
  (λ (away, rest). (
    All-map _ _ rs (λ q free student class date. free (cc (student, class, date))) away,
    (apart-HasUnique rs h).1 rest,
  )),
)

includes_iff : (s : String) (xs : List String) → (includes s xs ≡ true) ↔ IsIn s xs
includes_iff s xs = (
  (λ h.
      let (x, m, e) = any_at (λ y. str_eq y s) xs h in subst (λ y. IsIn y xs) ((eq_iff x s).0 e) m),
  (λ m. any_of_IsIn (λ y. str_eq y s) xs s m ((eq_iff s s).1 refl)),
)

linked_iff :
    (context : BatchContext) (r : AttendanceRecord)
    → HasPlainIds r
    → All (λ l. HasNoColon l.student_id) context.active_links
    → (is_linked context r ≡ true) ↔ ActiveLink context r
linked_iff context r plain links = (
  (λ h.
      let (l, m, e) =
        any_at (λ l. str_eq (link_key l.student_id l.class_id) key) context.active_links
          (sym keys ∙ h) in
      let (student, class) =
        joined_inj l.student_id r.student_id l.class_id r.class_id
          (All-at _ context.active_links l links m) plain.0 ((eq_iff _ _).0 e) in
      (l, m, student, class)),
  (λ (l, m, student, class).
      keys
      ∙ any_of_IsIn (λ l. str_eq (link_key l.student_id l.class_id) key) context.active_links l m
          ((eq_iff _ _).1 (cc (student, class)))),
)
  where
    key : String
    key = link_key r.student_id r.class_id

    keys :
        is_linked context r
        ≡ any (λ l. str_eq (link_key l.student_id l.class_id) key) context.active_links
    keys =
        any-map_list (λ x. str_eq x key) (λ l. link_key l.student_id l.class_id)
          context.active_links

each_iff :
    {A : Type 0} {P Q R : A → Type 0}
    → ((a : A) → P a → (Q a ↔ R a))
    → (xs : List A) → All P xs
    → All Q xs ↔ All R xs
each_iff f [] h = ((λ _. tt), (λ _. tt))
each_iff f (x ∷ xs) (p, h) = (
  (λ (q, rest). ((f x p).0 q, (each_iff f xs h).0 rest)),
  (λ (r, rest). ((f x p).1 r, (each_iff f xs h).1 rest)),
)

-- Where the ids have no ':', a batch is accepted exactly when no two records have the same student,
-- class and date, the student and the class of every record exist, and its student has an active
-- link to its class.
pub assert_valid_batch_accepts :
    (rs : List AttendanceRecord) (context : BatchContext)
    → All HasPlainIds rs
    → All (λ l. HasNoColon l.student_id) context.active_links
    → (assert_valid_batch rs context ≡ ok tt) ↔ (
        AreApart rs
        × All (λ r. IsIn r.student_id context.existing_student_ids) rs
        × All (λ r. IsIn r.class_id context.existing_class_ids) rs
        × All (ActiveLink context) rs)
assert_valid_batch_accepts rs context plain links =
    let valid = assert_valid_batch_iff rs context in
    let apart = apart-HasUnique rs plain in
    let students =
      each_iff (λ r _. includes_iff r.student_id context.existing_student_ids) rs plain in
    let classes = each_iff (λ r _. includes_iff r.class_id context.existing_class_ids) rs plain in
    let linked = each_iff (λ r own. linked_iff context r own links) rs plain in
    (
      (λ h. let (a, b, c, d) = valid.0 h in (apart.1 a, students.0 b, classes.0 c, linked.0 d)),
      (λ (a, b, c, d). valid.1 (apart.0 a, students.1 b, classes.1 c, linked.1 d)),
    )
