-- ===== src/Decimate/Again.antt =====
-- A second run of src/kayak/cli/decimate.py at the same moment.
use kayak_python.Base.{
  ◌≤◌, ◌≡◌, refl, sym, ap, ◌∙◌, Bool, true, false, ◌&&◌, ℕ, List, [], ◌∷◌, any, keep_if, arith,
}
use kayak_python.Base.Search.{any-keep_if, keep_if-All, All-mono, All-keep_if}
use kayak_python.Observations.Store.{Observation}
use kayak_python.Calculator.Run.{Tables}
use kayak_python.Decimate.Thin.{Thinning, hourly, six_hourly, beats}
use kayak_python.Decimate.Run.{Args, cutoff, Database, decimate}
use kayak_python.Decimate.Survivors.{stays}
use kayak_python.Decimate.Whole.{is_kept, decimate-keep_if}

any_and :
    {A : Type 0} (f p : A → Bool) (xs : List A)
    → any p xs ≡ false
    → any (λ x. f x && p x) xs ≡ false
any_and f p [] h = refl
any_and f p (x ∷ xs) h = ground (arith, any_and f p xs)

both_stay :
    (a b c d : Bool)
    → (a ≡ true → c ≡ true)
    → (b ≡ true → d ≡ true)
    → (a && b) ≡ true
    → (c && d) ≡ true
both_stay true true c d f g h = rw (f refl, g refl) refl
both_stay false b c d f g h = absurd (ground arith)
both_stay true false c d f g h = absurd (ground arith)

-- A row that was not beaten in the whole table is not beaten in a part of it.
stays-keep_if :
    {V : Type 0} (tie : ℕ → ℕ → Bool) (w : Thinning) (f : Observation ℕ V → Bool)
    (obs : List (Observation ℕ V)) (o : Observation ℕ V)
    → stays tie w obs o ≡ true
    → stays tie w (keep_if f obs) o ≡ true
stays-keep_if tie w f obs o h =
    let p = λ (q : Observation _ _). w.within q.observed_at && beats tie w q o in
    ground (arith, h, any-keep_if p f obs, any_and f p obs)

module _ {V : Type 0} (c : Database V) (args : Args) (now : ℕ) (db : Tables V) where
  -- A second run at the same moment, with the same arguments, deletes nothing, whatever they are but
  -- for the order of the cutoffs.
  pub decimate-decimate :
      args.dry_run ≡ false
      → args.recent_days ≤ args.archive_days
      → (decimate c args now (decimate c args now db)).observations
        ≡ (decimate c args now db).observations
  decimate-decimate h k =
      let once = decimate-keep_if c args now db h k in
      let medium = cutoff now args.recent_days in
      let archive = cutoff now args.archive_days in
      let kept = is_kept c args now db.observations in
      decimate-keep_if c args now (decimate c args now db) h k
      ∙ ap (λ os. keep_if (is_kept c args now os) os) once
      ∙ keep_if-All _ (keep_if kept db.observations) (
          All-mono
            (λ o e.
              both_stay _ _ _ _ (stays-keep_if c.tie (hourly medium archive) kept db.observations o)
                (stays-keep_if c.tie (six_hourly archive) kept db.observations o) e)
            (keep_if kept db.observations) (All-keep_if kept db.observations))
      ∙ sym once
