-- ===== src/Media/Keys.antt =====
-- The CHECKs on what an object declares and on its key
-- (prisma/migrations/20261025000000_private_media_object_metadata/migration.sql).
use swim_flow_api.Prelude.{
  ℕ, String, Bool, true, false, ◌&&◌, ◌||◌, List, [], ◌∷◌, ◌++◌, any, leb, str_eq, codes, ◌==◌,
  zero, suc,
}

abbrev pub matches_classes : List (ℕ → Bool) → List ℕ → Bool
matches_classes [] [] = true
matches_classes (p ∷ ps) (c ∷ cs) = p c && matches_classes ps cs
matches_classes _ _ = false

-- private_media_mime_chk and private_media_size_chk
unfoldable pub upload_chk : String → ℕ → Bool
upload_chk content_type size =
    (str_eq content_type "image/jpeg"
      || str_eq content_type "image/png"
      || str_eq content_type "image/webp"
      || str_eq content_type "image/gif")
    && leb 1 size
    && leb size 5242880

literal : List ℕ → List (ℕ → Bool)
literal [] = []
literal (c ∷ cs) = (λ d. d == c) ∷ literal cs

-- [0-9a-f-]
is_id_code : ℕ → Bool
is_id_code c = (leb b'0' c && leb c b'9') || (leb b'a' c && leb c b'f') || c == b'-'

id_codes : ℕ → List (ℕ → Bool)
unfolding is_id_code
id_codes zero = []
id_codes (suc n) = is_id_code ∷ id_codes n

-- private/<folder>/[0-9a-f-]{36}/[0-9a-f-]{36}.<extension>
key_classes : String → String → List (ℕ → Bool)
unfolding literal id_codes
key_classes folder extension =
    literal (codes "private/")
    ++ literal (codes folder)
    ++ literal (codes "/")
    ++ id_codes 36
    ++ literal (codes "/")
    ++ id_codes 36
    ++ literal (codes ".")
    ++ literal (codes extension)

-- private_media_private_key_chk, for the folder of the target
unfoldable pub key_chk : String → String → Bool
unfolding key_classes
key_chk folder key =
    any (λ extension. matches_classes (key_classes folder extension) (codes key))
      ("jpg" ∷ "png" ∷ "gif" ∷ "webp" ∷ [])
