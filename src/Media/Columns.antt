-- ===== src/Media/Columns.antt =====
-- Which media objects each transition of the cleanup concerns, by their columns
-- (the WHERE clauses of prisma-private-media-objects-repository.ts).
use swim_flow_api.Prelude.{
  ℕ, String, ◌≡◌, ◌≢◌, refl, ap, true, false, Option, none, some, arith, IsIn, any_of_IsIn, any_at,
  str_eq, eq_iff, ◌≤◌, is_none, opt_eq, Bool-cases, inl, inr,
}
use swim_flow_api.Media.Store.{
  Status, Provider, status_eq, provider_eq, MediaObject, Binding, MediaDb, opt_le, opt_is,
}
use swim_flow_api.Media.Cleanup.{is_bound}

pub status_eq_sound : (a b : Status) → status_eq a b ≡ true → a ≡ b
status_eq_sound Status.pending Status.pending h = refl
status_eq_sound Status.verified Status.verified h = refl
status_eq_sound Status.gc_claimed Status.gc_claimed h = refl
status_eq_sound Status.rejected Status.rejected h = refl
status_eq_sound Status.deleted Status.deleted h = refl
status_eq_sound _ _ h = absurd (ground arith)

pub provider_eq_sound : (a b : Provider) → provider_eq a b ≡ true → a ≡ b
provider_eq_sound Provider.r2 Provider.r2 h = refl
provider_eq_sound Provider.blob Provider.blob h = refl
provider_eq_sound _ _ h = absurd (ground arith)

pub none_sound : {A : Type 0} (o : Option A) → is_none o ≡ true → o ≡ none
none_sound none h = refl
none_sound (some a) h = absurd (ground arith)

-- A time that is there and not after another.
abbrev pub IsBy : Option ℕ → ℕ → Type 0
IsBy o t = (s : ℕ) × (o ≡ some s) × (s ≤ t)

pub read-IsBy : (o : Option ℕ) (t : ℕ) → opt_le o t ≡ true → IsBy o t
read-IsBy none t h = absurd (ground arith)
read-IsBy (some s) t h = (s, refl, ground (arith, h))

pub is_sound : (o : Option ℕ) (t : ℕ) → opt_is o t ≡ true → o ≡ some t
is_sound none t h = absurd (ground arith)
is_sound (some s) t h = ap some (ground (arith, h))

pub text_sound : (o : Option String) (t : String) → opt_eq o (some t) ≡ true → o ≡ some t
text_sound none t h = absurd (ground arith)
text_sound (some s) t h = ap some ((eq_iff s t).0 h)

-- No binding shows the image.
abbrev pub IsUnbound : String → MediaDb → Type 0
IsUnbound id db = (b : Binding) → IsIn b db.bindings → b.media_id ≢ id

pub read-IsUnbound : (id : String) (db : MediaDb) → is_bound id db ≡ false → IsUnbound id db
read-IsUnbound id db h b m e =
    cc (any_of_IsIn (λ c. str_eq c.media_id id) db.bindings b m ((eq_iff _ _).1 e), h)

pub written_unbound : (id : String) (db : MediaDb) → IsUnbound id db → is_bound id db ≡ false
written_unbound id db free = elim (Bool-cases (is_bound id db)) [
  | inr h ↦ h
  | inl bound ↦
      let (b, m, e) = any_at (λ c. str_eq c.media_id id) db.bindings bound in
      absurd (free b m ((eq_iff _ _).0 e))
]

-- An unclaimed verified blob that is old enough and that no binding shows.
pub record Claimable (id : String) (cutoff : ℕ) (db : MediaDb) (o : MediaObject) : Type 0 where
  pub named : o.id ≡ id
  pub provider : o.storage_provider ≡ Provider.blob
  pub status : o.status ≡ Status.verified
  pub no_ticket : o.ticket_expires_at ≡ none
  pub unclaimed : o.cleanup_claimed_at ≡ none
  pub created : o.created_at ≤ cutoff
  pub verified : IsBy o.verified_at cutoff
  pub unbound : IsUnbound id db

-- A blob that was claimed at a time with an ETag, is not completed, and that no binding shows.
pub record Completable (id etag : String) (claimed_at : ℕ) (db : MediaDb) (o : MediaObject)
    : Type 0 where
  pub named : o.id ≡ id
  pub provider : o.storage_provider ≡ Provider.blob
  pub status : o.status ≡ Status.gc_claimed
  pub claimed : o.cleanup_claimed_at ≡ some claimed_at
  pub unfinished : o.cleanup_completed_at ≡ none
  pub no_ticket : o.ticket_expires_at ≡ none
  pub tag : o.verified_etag ≡ some etag
  pub unbound : IsUnbound id db

-- A pending signed upload whose ticket has expired by the cutoff.
pub record Settleable (id : String) (cutoff : ℕ) (o : MediaObject) : Type 0 where
  pub named : o.id ≡ id
  pub provider : o.storage_provider ≡ Provider.r2
  pub status : o.status ≡ Status.pending
  pub expired : IsBy o.ticket_expires_at cutoff

-- A rejected signed upload.
pub record Deletable (id : String) (o : MediaObject) : Type 0 where
  pub named : o.id ≡ id
  pub provider : o.storage_provider ≡ Provider.r2
  pub status : o.status ≡ Status.rejected
