-- ===== src/Prelude/Uuids.antt =====
-- The text in which PostgreSQL keeps a UUID: hexadecimal digits in lower case.
use Prim.Native.Nat.{◌+◌}
use Prim.Native.Char.{Char, code}
use Prim.Native.String.{String}
use mathlib.Core.Path.{◌≡◌, refl}
use mathlib.Core.Bool.{◌&&◌}
use mathlib.Core.Logic.{inl, inr}
use native.Mathlib.Omega.{arith}
use swim_flow_api.Prelude.Tests.{◌==◌, leb, if◌then◌else◌, Bool-cases}

unfoldable pub lower_digit : Char → Char
lower_digit c =
    if code c == b'A'
    then "a"
    else if code c == b'B'
    then "b"
    else if code c == b'C'
    then "c"
    else if code c == b'D'
    then "d"
    else if code c == b'E'
    then "e"
    else if code c == b'F'
    then "f"
    else c

abbrev pub uuid_of : String → String
uuid_of String.[] = String.[]
uuid_of (String.◌∷◌ c s) = String.◌∷◌ (lower_digit c) (uuid_of s)

-- A letter is lowered once, by 32.
lower_digit_facts :
    (c : Char)
    → (lower_digit (lower_digit c) ≡ lower_digit c)
      × (code (lower_digit c)
          ≡ (if leb b'A' (code c) && leb (code c) b'F' then code c + 32 else code c))
unfolding lower_digit
lower_digit_facts c = elim (Bool-cases (code c == b'A')) [
  | inl e0 ↦ (rw (e0) (refl, ground arith))
  | inr e0 ↦ elim (Bool-cases (code c == b'B')) [
    | inl e1 ↦ (rw (e0, e1) (refl, ground arith))
    | inr e1 ↦ elim (Bool-cases (code c == b'C')) [
      | inl e2 ↦ (rw (e0, e1, e2) (refl, ground arith))
      | inr e2 ↦ elim (Bool-cases (code c == b'D')) [
        | inl e3 ↦ (rw (e0, e1, e2, e3) (refl, ground arith))
        | inr e3 ↦ elim (Bool-cases (code c == b'E')) [
          | inl e4 ↦ (rw (e0, e1, e2, e3, e4) (refl, ground arith))
          | inr e4 ↦ elim (Bool-cases (code c == b'F')) [
            | inl e5 ↦ (rw (e0, e1, e2, e3, e4, e5) (refl, ground arith))
            | inr e5 ↦
                (rw (e0, e1, e2, e3, e4, e5) (rw (e0, e1, e2, e3, e4, e5) refl, ground arith))
          ]
        ]
      ]
    ]
  ]
]

pub uuid_of_idem : (s : String) → uuid_of (uuid_of s) ≡ uuid_of s
uuid_of_idem String.[] = refl
uuid_of_idem (String.◌∷◌ c s) = cc ((lower_digit_facts c).0, uuid_of_idem s)

pub code-lower_digit :
    (c : Char)
    → code (lower_digit c)
      ≡ (if leb b'A' (code c) && leb (code c) b'F' then code c + 32 else code c)
code-lower_digit c = (lower_digit_facts c).1
