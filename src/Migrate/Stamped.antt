-- ===== src/Migrate/Stamped.antt =====
-- What `stamp_all_known` of src/kayak/cli/migrate.py records.
use kayak_python.Base.{
  ◌≡◌, refl, ap, ◌∙◌, true, ◌||◌, Option, some, List, [], ◌∷◌, if◌then◌else◌, arith, Bool-cases,
  inl, inr, keep_if,
}
use mathlib.Core.List.{map-append}
use kayak_python.Base.Chars.{mem_chars, Chars, eq_chars, eq_chars_self, eq_chars→≡}
use kayak_python.Migrate.Manifest.{Migration}
use kayak_python.Migrate.Apply.{
  Database, versions, is_pending, pending_migrations, stamp, stamp_all,
}
use kayak_python.Migrate.Resume.{mem-append}

mem-same : (w v : Chars) (xs : List Chars) → eq_chars w v ≡ true → mem_chars w xs ≡ mem_chars v xs
mem-same w v xs e = ap (λ u. mem_chars u xs) (eq_chars→≡ w v e)

module _ {ℓ} {S : Type ℓ} where
  mem-stamp :
      (w v : Chars) (digest : Option Chars) (db : Database S)
      → mem_chars w (versions (stamp v digest db)) ≡ (mem_chars w (versions db) || eq_chars w v)
  unfolding stamp
  mem-stamp w v digest db = elim (Bool-cases (mem_chars v (versions db))) [
    | inl e ↦ rw (e, if◌then◌else◌) (ground (arith, mem-same w v (versions db)))
    | inr e ↦
        rw (e, if◌then◌else◌)
          (ap (mem_chars w) (map-append (λ s. s.version) db.stamps _)
            ∙ mem-append w (versions db) (v ∷ [])
            ∙ ground arith)
  ]

  stamp_all_keeps :
      (w : Chars) (already : List Chars) (ms : List Migration) (db : Database S)
      → mem_chars w (versions db) ≡ true
      → mem_chars w (versions (stamp_all already ms db)) ≡ true
  unfolding stamp_all
  stamp_all_keeps w already [] db h = h
  stamp_all_keeps w already (m ∷ ms) db h =
      stamp_all_keeps w already ms _ (ground (arith, mem-stamp w m.version (some m.digest) db))

  stamp_all-stamps :
      (already : List Chars) (ms : List Migration) (db : Database S)
      → ((w : Chars) → mem_chars w already ≡ true → mem_chars w (versions db) ≡ true)
      → (keep : List Chars)
      → ((w : Chars)
          → mem_chars w (versions (stamp_all already ms db)) ≡ true
          → mem_chars w keep ≡ true)
      → keep_if (is_pending keep) ms ≡ []
  unfolding stamp_all
  stamp_all-stamps already [] db h keep k = refl
  stamp_all-stamps already (m ∷ ms) db h keep k =
      let db' = if mem_chars m.version already then db else stamp m.version (some m.digest) db in
      let there : mem_chars m.version (versions db') ≡ true = ground (
        arith,
        h m.version,
        mem-stamp m.version m.version (some m.digest) db,
        eq_chars_self m.version,
      ) in
      rw (k m.version (stamp_all_keeps m.version already ms db' there), keep_if)
        (stamp_all-stamps already ms db'
          (λ w q. ground (arith, h w q, mem-stamp w m.version (some m.digest) db)) keep k)

  -- After `stamp_all_known` no migration is pending.
  pub pending-stamp_all :
      (ms : List Migration) (db : Database S)
      → pending_migrations (versions (stamp_all (versions db) ms db)) ms ≡ []
  unfolding pending_migrations
  pending-stamp_all ms db = stamp_all-stamps (versions db) ms db (λ w h. h) _ (λ w h. h)
