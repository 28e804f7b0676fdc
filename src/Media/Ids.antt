-- ===== src/Media/Ids.antt =====
-- A well-formed id keeps its form when PostgreSQL reads it.
use Prim.Native.Nat.{ℕ}
use Prim.Native.Char.{Char, code}
use Prim.Native.String.{String}
use swim_flow_api.Prelude.{
  ◌≡◌, refl, Bool, List, [], ◌∷◌, All, arith, zero, suc, codes, uuid_of, lower_digit,
  code-lower_digit,
}
use swim_flow_api.Media.Keys.{matches_classes}
use swim_flow_api.Media.Objects.{
  is_hex, is_dash, is_version, is_variant, hex_times, uuid_classes, is_uuid,
}

-- A class of characters that lowering a digit does not leave or enter.
abbrev IsCaseless : (ℕ → Bool) → Type 0
IsCaseless p = (c : Char) → p (code (lower_digit c)) ≡ p (code c)

caseless-match :
    (ps : List (ℕ → Bool)) (s : String)
    → All IsCaseless ps
    → matches_classes ps (codes (uuid_of s)) ≡ matches_classes ps (codes s)
caseless-match [] String.[] h = refl
caseless-match [] (String.◌∷◌ c s) h = refl
caseless-match (p ∷ ps) String.[] h = refl
caseless-match (p ∷ ps) (String.◌∷◌ c s) h = ground (arith, h.0 c, caseless-match ps s h.1)

hex-IsCaseless : IsCaseless is_hex
hex-IsCaseless c = ground (arith, code-lower_digit c)

dash-IsCaseless : IsCaseless is_dash
dash-IsCaseless c = ground (arith, code-lower_digit c)

version-IsCaseless : IsCaseless is_version
version-IsCaseless c = ground (arith, code-lower_digit c)

variant-IsCaseless : IsCaseless is_variant
variant-IsCaseless c = ground (arith, code-lower_digit c)

hex_times-All :
    (n : ℕ) (rest : List (ℕ → Bool)) → All IsCaseless rest → All IsCaseless (hex_times n rest)
hex_times-All zero rest h = h
hex_times-All (suc n) rest h = (hex-IsCaseless, hex_times-All n rest h)

pub is_uuid-uuid_of : (s : String) → is_uuid (uuid_of s) ≡ is_uuid s
unfolding is_uuid
is_uuid-uuid_of s =
    let r1 = is_dash ∷ hex_times 12 [] in
    let h1 : All IsCaseless r1 = (dash-IsCaseless, hex_times-All 12 [] tt) in
    let r2 = is_dash ∷ is_variant ∷ hex_times 3 r1 in
    let h2 : All IsCaseless r2 = (dash-IsCaseless, (variant-IsCaseless, hex_times-All 3 r1 h1)) in
    let r3 = is_dash ∷ is_version ∷ hex_times 3 r2 in
    let h3 : All IsCaseless r3 = (dash-IsCaseless, (version-IsCaseless, hex_times-All 3 r2 h2)) in
    let r4 = is_dash ∷ hex_times 4 r3 in
    let h4 : All IsCaseless r4 = (dash-IsCaseless, hex_times-All 4 r3 h3) in
    caseless-match uuid_classes s (hex_times-All 8 r4 h4)
