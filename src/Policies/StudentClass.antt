-- ===== src/Policies/StudentClass.antt =====
-- StudentClassAssignmentPolicy
-- (src/domain/students/application/services/student-class-assignment-policy.ts): which class links
-- of a student are closed, kept or created. `trim` is JavaScript's.
use swim_flow_api.Prelude.{
  String, ◌≡◌, ◌∙◌, sym, ap, refl, Bool, true, false, not, ◌&&◌, ◌||◌, Option, none, some, List, [],
  ◌∷◌, filter, str_eq, eq_iff, arith, Bool-cases, inl, inr, if◌then◌else◌,
}
use swim_flow_api.Policies.Sets.{includes, set_of, any-set_of}

pub record AssignmentPlan : Type 0 where
  pub class_ids_to_close : List String
  pub next_class_id : Option String
  pub should_create_next_class_link : Bool
  pub should_promote_existing_link : Bool

abbrev pub is_nonempty : String → Bool
is_nonempty s = if str_eq s "" then false else true

abbrev pub current_class_ids : List String → List String
current_class_ids active = set_of (filter is_nonempty active)

-- `requestedClassId?.trim() || null`
abbrev pub requested_id : (String → String) → Option String → Option String
requested_id trim none = none
requested_id trim (some s) = if str_eq (trim s) "" then none else some (trim s)

abbrev pub plan_for : List String → Option String → AssignmentPlan
plan_for current none = record {
  class_ids_to_close = current;
  next_class_id = none;
  should_create_next_class_link = false;
  should_promote_existing_link = false;
}
plan_for current (some next) =
    if includes next current
    then record {
      class_ids_to_close = filter (λ c. not (str_eq c next)) current;
      next_class_id = some next;
      should_create_next_class_link = false;
      should_promote_existing_link = true;
    }
    else record {
      class_ids_to_close = current;
      next_class_id = some next;
      should_create_next_class_link = true;
      should_promote_existing_link = false;
    }

-- plan
unfoldable pub plan_assignment : (String → String) → List String → Option String → AssignmentPlan
plan_assignment trim active requested =
    plan_for (current_class_ids active) (requested_id trim requested)

-- Whether a class is the next one of a plan.
abbrev pub is_next : Option String → String → Bool
is_next none c = false
is_next (some next) c = str_eq next c

-- The links that are open once the plan has been carried out, as an independent description: those
-- that were open and are not closed, and the created one.
abbrev pub is_open_after : AssignmentPlan → List String → String → Bool
is_open_after plan active c =
    includes c active && not (includes c plan.class_ids_to_close)
    || plan.should_create_next_class_link && is_next plan.next_class_id c

includes-filter :
    (p : String → Bool) (c : String) (xs : List String)
    → includes c (filter p xs) ≡ (includes c xs && p c)
includes-filter p c [] = refl
includes-filter p c (x ∷ xs) = elim (Bool-cases (str_eq x c)) [
  | inl same ↦ ground (arith, same, ap p ((eq_iff x c).0 same), includes-filter p c xs)
  | inr other ↦ ground (arith, other, includes-filter p c xs)
]

includes-current :
    (c : String) (active : List String)
    → is_nonempty c ≡ true
    → includes c (current_class_ids active) ≡ includes c active
includes-current c active h =
    any-set_of (λ x. str_eq x c) (filter is_nonempty active)
    ∙ includes-filter is_nonempty c active
    ∙ ground (arith, h)

plan_for_opens :
    (active current : List String) (next : Option String) (c : String)
    → includes c current ≡ includes c active
    → is_open_after (plan_for current next) active c ≡ is_next next c
plan_for_opens active current none c same = ground (arith, same)
plan_for_opens active current (some next) c same = elim (Bool-cases (includes next current)) [
  | inl there ↦
      let closed = includes-filter (λ x. not (str_eq x next)) c current in
      elim (Bool-cases (str_eq next c)) [
        | inl own ↦
            let equal : next ≡ c = (eq_iff next c).0 own in
            let open_now : includes c current ≡ true =
              ap (λ x. includes x current) (sym equal) ∙ there in
            let back : str_eq c next ≡ true = (eq_iff c next).1 (sym equal) in
            rw (there, closed) (ground (arith, same, own, open_now, back))
        | inr other ↦
            let back : str_eq c next ≡ false = elim (Bool-cases (str_eq c next)) [
              | inl equal ↦ absurd (cc ((eq_iff next c).1 (sym ((eq_iff c next).0 equal)), other))
              | inr differs ↦ differs
            ] in
            rw (there, closed) (ground (arith, same, other, back))
      ]
  | inr new ↦ rw new (ground (arith, same))
]

-- Once the plan has been carried out, the open links of the student are exactly the link to the
-- requested class, or none where no class is requested. The class has a nonempty id.
pub plan_assignment_opens :
    (trim : String → String) (active : List String) (requested : Option String) (c : String)
    → is_nonempty c ≡ true
    → is_open_after (plan_assignment trim active requested) active c
      ≡ is_next (requested_id trim requested) c
unfolding plan_assignment
plan_assignment_opens trim active requested c h =
    plan_for_opens active (current_class_ids active) (requested_id trim requested) c
      (includes-current c active h)
