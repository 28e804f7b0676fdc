-- ===== src/Policies/BatchValidity.antt =====
-- An attendance batch is accepted exactly when it is valid.
use swim_flow_api.Prelude.{
  String, ◌≡◌, ◌↔◌, ◌∙◌, refl, sym, ap, Bool, true, false, not, ◌&&◌, ◌||◌, List, [], ◌∷◌, any,
  filter, map, Outcome, ok, str_eq, eq_iff, arith, Bool-cases, inl, inr, All, All-map, All-both,
  All-of_each, HasUnique,
}
use swim_flow_api.Policies.Sets.{includes, add, set_of, any-add, any-set_of}
use swim_flow_api.Policies.Attendance.{
  AttendanceRecord, BatchContext, BatchError, duplicated_records, missing_students, missing_classes,
  no_active_link, record_key, duplicated_from, find_duplicated_keys, missing, is_linked, unless_any,
  assert_valid_batch,
}

is_empty : {A : Type 0} → List A → Bool
is_empty [] = true
is_empty (x ∷ xs) = false

empty_start : is_empty {A = String} [] ≡ true
unfolding is_empty
empty_start = refl

add-is_empty : (s : String) (xs : List String) → is_empty (add s xs) ≡ false
unfolding is_empty
add-is_empty s [] = refl
add-is_empty s (x ∷ xs) = ground arith

filter-is_empty :
    {A : Type 0} (p : A → Bool) (xs : List A) → is_empty (filter p xs) ≡ not (any p xs)
unfolding is_empty
filter-is_empty p [] = refl
filter-is_empty p (x ∷ xs) = ground (arith, filter-is_empty p xs)

pub any-map_list :
    {A : Type 0} (p : String → Bool) (f : A → String) (xs : List A)
    → any p (map f xs) ≡ any (λ a. p (f a)) xs
any-map_list p f [] = refl
any-map_list p f (x ∷ xs) = ground (arith, any-map_list p f xs)

missing-is_empty :
    {A : Type 0} (existing : List String) (f : A → String) (xs : List A)
    → is_empty (missing existing (map f xs)) ≡ not (any (λ a. not (includes (f a) existing)) xs)
missing-is_empty existing f xs =
    filter-is_empty (λ i. not (includes i existing)) (set_of (map f xs))
    ∙ ap not (
        any-set_of (λ i. not (includes i existing)) (map f xs)
        ∙ any-map_list (λ i. not (includes i existing)) f xs)

unless_any_iff :
    {A : Type 0} (xs : List A) (e : BatchError) (next : Outcome BatchError Unit)
    → (unless_any xs e next ≡ ok tt) ↔ ((is_empty xs ≡ true) × (next ≡ ok tt))
unfolding is_empty
unless_any_iff [] e next = ((λ h. (refl, h)), (λ h. h.1))
unless_any_iff (x ∷ xs) e next = ((λ h. absurd (ground arith)), (λ h. absurd (ground (arith, h.0))))

-- The keys of the records are new to `seen` and to each other.
fresh : List String → List AttendanceRecord → Bool
fresh seen [] = true
fresh seen (r ∷ rs) =
    let rest = fresh (add (record_key r) seen) rs in not (includes (record_key r) seen) && rest

duplicated-fresh :
    (seen duplicated : List String) (rs : List AttendanceRecord)
    → is_empty (duplicated_from seen duplicated rs) ≡ (is_empty duplicated && fresh seen rs)
unfolding fresh
duplicated-fresh seen duplicated [] = ground arith
duplicated-fresh seen duplicated (r ∷ rs) = elim (Bool-cases (includes (record_key r) seen)) [
  | inl again ↦ rw again (
      ground (
        arith,
        duplicated-fresh (add (record_key r) seen) (add (record_key r) duplicated) rs,
        add-is_empty (record_key r) duplicated,
      ))
  | inr new ↦ rw new (rw new at (duplicated-fresh (add (record_key r) seen) duplicated rs))
]

includes-add :
    (k s : String) (seen : List String) → includes k (add s seen) ≡ (includes k seen || str_eq s k)
includes-add k s seen = any-add (λ x. str_eq x k) s seen

fresh_iff :
    (seen : List String) (rs : List AttendanceRecord)
    → (fresh seen rs ≡ true)
      ↔ (HasUnique record_key rs × All (λ r. includes (record_key r) seen ≡ false) rs)
unfolding fresh
fresh_iff seen [] = ((λ _. (tt, tt)), (λ _. refl))
fresh_iff seen (r ∷ rs) = (
  (λ h.
      let (u, out) = (fresh_iff (add (record_key r) seen) rs).0 (ground (arith, h)) in
      (
        (
          All-map _ _ rs
              (λ q o e. absurd (
                ground (
                  arith,
                  includes-add (record_key q) (record_key r) seen,
                  (eq_iff (record_key r) (record_key q)).1 (sym e),
                  o,
                )))
              out,
          u,
        ),
        (
          ground (arith, h),
          All-map _ _ rs (λ q o. ground (arith, includes-add (record_key q) (record_key r) seen, o))
              out,
        ),
      )),
  (λ h.
      let ((apart, u), (new, out)) = h in
      let rest : fresh (add (record_key r) seen) rs ≡ true =
        (fresh_iff (add (record_key r) seen) rs).1 (
          u,
          All-map _ _ rs
              (λ q o.
                let other : str_eq (record_key r) (record_key q) ≡ false =
                  elim (Bool-cases (str_eq (record_key r) (record_key q))) [
                    | inl same ↦ absurd (o.0 (sym ((eq_iff _ _).0 same)))
                    | inr differs ↦ differs
                  ] in
                ground (arith, includes-add (record_key q) (record_key r) seen, o.1, other))
              (All-both _ _ rs apart out),
        ) in
      ground (arith, new, rest)),
)

none_missing :
    {A : Type 0} (q : A → Bool) (xs : List A)
    → (not (any (λ a. not (q a)) xs) ≡ true) ↔ All (λ a. q a ≡ true) xs
none_missing q [] = ((λ _. tt), (λ _. refl))
none_missing q (x ∷ xs) = (
  (λ h. (ground (arith, h), (none_missing q xs).0 (ground (arith, h)))),
  (λ h. ground (arith, h.0, (none_missing q xs).1 h.1)),
)

-- A batch is accepted exactly when no two records have the same student, class and date in their
-- keys, every student and class of a record exists, and the student of every record has an active
-- link to its class.
pub assert_valid_batch_iff :
    (rs : List AttendanceRecord) (context : BatchContext)
    → (assert_valid_batch rs context ≡ ok tt) ↔ (
        HasUnique record_key rs
        × All (λ r. includes r.student_id context.existing_student_ids ≡ true) rs
        × All (λ r. includes r.class_id context.existing_class_ids ≡ true) rs
        × All (λ r. is_linked context r ≡ true) rs)
unfolding assert_valid_batch find_duplicated_keys
assert_valid_batch_iff rs context =
    let students = missing-is_empty context.existing_student_ids (λ r. r.student_id) rs in
    let classes = missing-is_empty context.existing_class_ids (λ r. r.class_id) rs in
    let links = filter-is_empty (λ r. not (is_linked context r)) rs in
    let keys = duplicated-fresh [] [] rs in
    let start : is_empty {A = String} [] ≡ true = empty_start in
    let ds = find_duplicated_keys rs in
    let ms = missing context.existing_student_ids (map (λ r. r.student_id) rs) in
    let mc = missing context.existing_class_ids (map (λ r. r.class_id) rs) in
    let un = filter (λ r. not (is_linked context r)) rs in
    let n3 = unless_any un (no_active_link un) (ok tt) in
    let n2 = unless_any mc (missing_classes mc) n3 in
    let n1 = unless_any ms (missing_students ms) n2 in
    let i1 = unless_any_iff ds duplicated_records n1 in
    let i2 = unless_any_iff ms (missing_students ms) n2 in
    let i3 = unless_any_iff mc (missing_classes mc) n3 in
    let i4 = unless_any_iff un (no_active_link un) (ok tt) in
    (
      (λ h.
          let (a, h1) = i1.0 h in
          let (b, h2) = i2.0 h1 in
          let (c, h3) = i3.0 h2 in
          let (d, h4) = i4.0 h3 in
          (
            ((fresh_iff [] rs).0 (ground (arith, keys, a))).0,
            (none_missing _ rs).0 (sym students ∙ b),
            (none_missing _ rs).0 (sym classes ∙ c),
            (none_missing _ rs).0 (sym links ∙ d),
          )),
      (λ h. i1.1 (
        keys ∙ ground (arith, start, (fresh_iff [] rs).1 (h.0, All-of_each _ rs (λ r m. refl))),
        i2.1 (
          students ∙ (none_missing _ rs).1 h.1,
          i3.1
              (classes ∙ (none_missing _ rs).1 h.2, i4.1 (links ∙ (none_missing _ rs).1 h.3, refl)),
        ),
      )),
    )
