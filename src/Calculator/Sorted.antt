-- ===== src/Calculator/Sorted.antt =====
-- What `_topo_sort_calc_sources` of src/kayak/cli/calculator.py returns, and when it raises.
use kayak_python.Base.{
  ℕ, zero, suc, ◌+◌, ◌≤◌, ◌<◌, ◌≡◌, refl, sym, ◌∙◌, subst, ap, true, false, List, [], ◌∷◌, ◌++◌,
  length, map, if◌then◌else◌, All, arith, Bool-cases, inl, inr,
}
use mathlib.Core.List.{Perm, perm_middle}
use mathlib.Core.List.Perm
use mathlib.Core.List.{append-nil, append_assoc}
use kayak_python.Base.Chars.{Chars}
use kayak_python.Base.Attempt.{Attempt, ok, raised}
use kayak_python.Calculator.Order.{Round, is_ready, resolve, round, after_round, rounds, topo_sort}

module _ {ℓ} {A : Type ℓ} (deps : A → List Chars) (gauge_of : A → Chars) where
  -- The gauges that are resolved after the sources, the last one first.
  abbrev pub after : List Chars → List A → List Chars
  after resolved [] = resolved
  after resolved (s ∷ ss) = after (resolve deps gauge_of s resolved) ss

  -- Each source comes after sources that feed all the gauges that it depends on.
  abbrev pub IsReady : List Chars → List A → Type 0
  IsReady resolved [] = Unit
  IsReady resolved (s ∷ ss) =
      (is_ready deps gauge_of resolved s ≡ true) × IsReady (resolve deps gauge_of s resolved) ss

  -- Each of the sources depends on a gauge that is not resolved.
  abbrev pub Waits : List Chars → List A → Type 0
  Waits resolved = All (λ s. is_ready deps gauge_of resolved s ≡ false)

  after-append :
      (resolved : List Chars) (xs ys : List A)
      → after resolved (xs ++ ys) ≡ after (after resolved xs) ys
  after-append resolved [] ys = refl
  after-append resolved (x ∷ xs) ys = after-append (resolve deps gauge_of x resolved) xs ys

  IsReady-append :
      (resolved : List Chars) (xs ys : List A)
      → IsReady resolved xs
      → IsReady (after resolved xs) ys
      → IsReady resolved (xs ++ ys)
  IsReady-append resolved [] ys h k = k
  IsReady-append resolved (x ∷ xs) ys h k =
      (h.0, IsReady-append (resolve deps gauge_of x resolved) xs ys h.1 k)

  -- What a round does with the sources that remain.
  record Split (resolved : List Chars) (ss : List A) (r : Round A) : Type ℓ where
    parts : Perm ss (r.ready ++ r.waiting)
    in_order : IsReady resolved r.ready
    learnt : r.resolved ≡ after resolved r.ready
    no_progress : r.ready ≡ [] → Waits resolved r.waiting

  round-Split :
      (resolved : List Chars) (ss : List A) → Split resolved ss (round deps gauge_of ss resolved)
  unfolding round
  round-Split resolved [] = record {
    parts = Perm.refl [];
    in_order = tt;
    learnt = refl;
    no_progress = λ h. tt;
  }
  round-Split resolved (s ∷ ss) = elim (Bool-cases (is_ready deps gauge_of resolved s)) [
    | inl e ↦
        (let h = round-Split (resolve deps gauge_of s resolved) ss in
          rw (e, if◌then◌else◌)
            record {
              parts = Perm.cons s h.parts;
              in_order = (e, h.in_order);
              learnt = h.learnt;
              no_progress = λ k. absurd (ground arith);
            })
    | inr e ↦
        (let h = round-Split resolved ss in
          let r = round deps gauge_of ss resolved in
          rw (e, if◌then◌else◌)
            record {
              parts = Perm.trans (Perm.cons s h.parts) (Perm.symm (perm_middle r.ready r.waiting));
              in_order = h.in_order;
              learnt = h.learnt;
              no_progress = λ k. (e, h.no_progress k);
            })
  ]

  round-fewer :
      (resolved : List Chars) (ss : List A)
      → length (round deps gauge_of ss resolved).ready
          + length (round deps gauge_of ss resolved).waiting
        ≡ length ss
  unfolding round
  round-fewer resolved [] = refl
  round-fewer resolved (s ∷ ss) =
      ground (arith, round-fewer (resolve deps gauge_of s resolved) ss, round-fewer resolved ss)

  module _ (label : A → Chars) where
    -- The two ways that the sort ends. Either the sources are in an order in which each one comes
    -- after those that feed what it depends on; or some of them are, and every other one depends
    -- on a gauge that none of these feeds, and the error names those others.
    pub data Outcome (sources : List A) : Attempt (List Chars) (List A) → Type ℓ where
      sorted : (out : List A) → Perm sources out → IsReady [] out → Outcome sources (ok out)
      circular :
          (done : List A) (s : A) (rest : List A)
          → Perm sources (done ++ s ∷ rest)
          → IsReady [] done
          → Waits (after [] done) (s ∷ rest)
          → Outcome sources (raised (map label (s ∷ rest)))

    after_round-Outcome :
        (sources : List A) (n : ℕ)
        (again : List A → List A → List Chars → Attempt (List Chars) (List A))
        (done ready waiting : List A) (resolved later : List Chars)
        → Perm sources (done ++ (ready ++ waiting))
        → IsReady [] done
        → resolved ≡ after [] done
        → length ready + length waiting ≡ suc n
        → IsReady resolved ready
        → later ≡ after resolved ready
        → (ready ≡ [] → Waits resolved waiting)
        → ((out rest : List A) (known : List Chars)
            → length rest ≤ n
            → Perm sources (out ++ rest)
            → IsReady [] out
            → known ≡ after [] out
            → Outcome sources (again out rest known))
        → Outcome sources (after_round deps gauge_of label again done ready waiting later)
    after_round-Outcome sources n again done [] [] resolved later p o k l i e w next =
        absurd (omega arith)
    after_round-Outcome sources n again done [] (s ∷ rest) resolved later p o k l i e w next =
        circular done s rest p o (subst (λ r. Waits r (s ∷ rest)) k (w refl))
    after_round-Outcome sources n again done (t ∷ ts) waiting resolved later p o k l i e w next =
        next (done ++ t ∷ ts) waiting later (omega arith)
          (subst (Perm sources) (sym (append_assoc done (t ∷ ts) waiting)) p)
          (IsReady-append [] done (t ∷ ts) o (subst (λ r. IsReady r (t ∷ ts)) k i))
          (e ∙ ap (λ r. after r (t ∷ ts)) k ∙ sym (after-append [] done (t ∷ ts)))

    rounds-Outcome :
        (sources : List A) (fuel : ℕ) (done remaining : List A) (resolved : List Chars)
        → length remaining < fuel
        → Perm sources (done ++ remaining)
        → IsReady [] done
        → resolved ≡ after [] done
        → Outcome sources (rounds deps gauge_of label fuel done remaining resolved)
    unfolding rounds
    rounds-Outcome sources fuel done [] resolved f p o k =
        sorted done (subst (Perm sources) (append-nil done) p) o
    rounds-Outcome sources zero done (s ∷ ss) resolved f p o k = absurd (omega arith)
    rounds-Outcome sources (suc fuel) done (s ∷ ss) resolved f p o k =
        let r = round deps gauge_of (s ∷ ss) resolved in
        let h = round-Split resolved (s ∷ ss) in
        after_round-Outcome sources (length ss) (rounds deps gauge_of label fuel) done r.ready
          r.waiting resolved r.resolved (Perm.trans p (Perm.append_left done h.parts)) o k
          (round-fewer resolved (s ∷ ss)) h.in_order h.learnt h.no_progress
          (λ out rest known m q o' k'.
            rounds-Outcome sources fuel out rest known (omega arith) q o' k')

    -- The bound on the rounds never cuts the sort short: it returns all the sources, each one after
    -- sources that feed the gauges it depends on, or it raises with the names of the sources that
    -- are left over, each of which depends on a gauge that none of the others feeds.
    pub topo_sort-Outcome :
        (sources : List A) → Outcome sources (topo_sort deps gauge_of label sources)
    unfolding topo_sort
    topo_sort-Outcome sources =
        rounds-Outcome sources (suc (length sources)) [] sources [] (omega arith)
          (Perm.refl sources) tt refl
