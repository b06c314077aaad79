-- ===== src/Calculator/Solvable.antt =====
-- When `_topo_sort_calc_sources` of src/kayak/cli/calculator.py finds an order.
use kayak_python.Base.{
  ◌≡◌, refl, subst, sym, true, false, List, [], ◌∷◌, ◌++◌, all, if◌then◌else◌, is_empty, arith,
  Bool-cases, inl, inr, ◌↔◌,
}
use mathlib.Core.List.{
  Perm, Mem, not-mem-nil, eq-or-mem_of_mem-cons, mem-cons_self, mem-cons_of_mem, mem-append,
  mem-append_right,
}
use mathlib.Core.List.Perm
use mathlib.Core.Logic.Or
use mathlib.Core.Bool.{Bool-set}
use kayak_python.Base.Chars.{Chars, mem_chars, eq_chars, eq_chars→≡, eq_chars_self}
use kayak_python.Base.Attempt.{Attempt, ok}
use kayak_python.Calculator.Order.{is_ready, resolve, topo_sort}
use kayak_python.Calculator.Sorted.{
  after, IsReady, Waits, Outcome, sorted, circular, topo_sort-Outcome,
}

-- Every name of the first list is in the second.
abbrev Within : List Chars → List Chars → Type 0
Within ns ms = (d : Chars) → mem_chars d ns ≡ true → mem_chars d ms ≡ true

all-Within :
    (ds ns ms : List Chars)
    → Within ns ms
    → all (λ d. mem_chars d ns) ds ≡ true
    → all (λ d. mem_chars d ms) ds ≡ true
all-Within [] ns ms w h = refl
all-Within (d ∷ ds) ns ms w h = ground (arith, w d, all-Within ds ns ms w)

module _ {ℓ} {A : Type ℓ} (deps : A → List Chars) (gauge_of : A → Chars) where
  resolve-Within :
      (s : A) (ns ms : List Chars)
      → Within ns ms
      → (is_empty (gauge_of s) ≡ false → mem_chars (gauge_of s) ms ≡ true)
      → Within (resolve deps gauge_of s ns) ms
  resolve-Within s ns ms w h = elim (Bool-cases (is_empty (gauge_of s))) [
    | inl e ↦ rw (e, if◌then◌else◌) w
    | inr e ↦
        rw (e, if◌then◌else◌)
          (λ d m. elim (Bool-cases (eq_chars d (gauge_of s))) [
            | inl q ↦ subst (λ x. mem_chars x ms ≡ true) (sym (eq_chars→≡ d (gauge_of s) q)) (h e)
            | inr q ↦ w d (ground (arith, q))
          ])
  ]

  Within-resolve : (s : A) (ns : List Chars) → Within ns (resolve deps gauge_of s ns)
  Within-resolve s ns = elim (Bool-cases (is_empty (gauge_of s))) [
    | inl e ↦ rw (e, if◌then◌else◌) (λ d m. m)
    | inr e ↦ rw (e, if◌then◌else◌) (λ d m. ground (arith, m))
  ]

  resolve-mem :
      (s : A) (ns : List Chars)
      → is_empty (gauge_of s) ≡ false
      → mem_chars (gauge_of s) (resolve deps gauge_of s ns) ≡ true
  resolve-mem s ns e = rw (e, if◌then◌else◌) (ground (arith, eq_chars_self (gauge_of s)))

  Within-after : (ns : List Chars) (ss : List A) → Within ns (after deps gauge_of ns ss)
  Within-after ns [] d m = m
  Within-after ns (s ∷ ss) d m =
      Within-after (resolve deps gauge_of s ns) ss d (Within-resolve s ns d m)

  after-mem :
      (ns : List Chars) (ss : List A) (s : A)
      → Mem s ss
      → is_empty (gauge_of s) ≡ false
      → mem_chars (gauge_of s) (after deps gauge_of ns ss) ≡ true
  after-mem ns [] s m e = absurd (not-mem-nil m)
  after-mem ns (t ∷ ts) s m e =
      Or.elim (Bool-set _ _) (eq-or-mem_of_mem-cons m)
        (λ q. Within-after (resolve deps gauge_of t ns) ts (gauge_of s) (
          subst (λ x. mem_chars (gauge_of s) (resolve deps gauge_of x ns) ≡ true) q
            (resolve-mem s ns e)))
        (λ m'. after-mem (resolve deps gauge_of t ns) ts s m' e)

  Waits-mem :
      (ns : List Chars) (ss : List A) (s : A)
      → Waits deps gauge_of ns ss
      → Mem s ss
      → is_ready deps gauge_of ns s ≡ false
  Waits-mem ns [] s w m = absurd (not-mem-nil m)
  Waits-mem ns (t ∷ ts) s w m =
      Or.elim (Bool-set _ _) (eq-or-mem_of_mem-cons m)
        (λ q. subst (λ x. is_ready deps gauge_of ns x ≡ false) (sym q) w.0)
        (λ m'. Waits-mem ns ts s w.1 m')

  -- No order contains a source that waits for a gauge that no other source feeds.
  order-done :
      (done waiting : List A)
      → Waits deps gauge_of (after deps gauge_of [] done) waiting
      → (known : List Chars) (order : List A) → ((x : A) → Mem x order → Mem x (done ++ waiting))
      → Within known (after deps gauge_of [] done)
      → IsReady deps gauge_of known order
      → (x : A) → Mem x order
      → Mem x waiting
      → ⊥
  order-done done waiting w known [] sub k r x m n = not-mem-nil m
  order-done done waiting w known (y ∷ ys) sub k r x m n =
      let ready = all-Within (deps y) known (after deps gauge_of [] done) k r.0 in
      let out : Mem y waiting → ⊥ = λ q.
        absurd (ground (arith, ready, Waits-mem (after deps gauge_of [] done) waiting y w q)) in
      let fed : is_empty (gauge_of y) ≡ false
          → mem_chars (gauge_of y) (after deps gauge_of [] done) ≡ true =
        λ e.
          Or.elim (Bool-set _ _) (mem-append.0 (sub y mem-cons_self)) (λ q. after-mem [] done y q e)
            (λ q. absurd (out q)) in
      Or.elim (λ a b. absurd a) (eq-or-mem_of_mem-cons m)
        (λ q. out (subst (λ z. Mem z waiting) q n))
        (λ q.
          order-done done waiting w (resolve deps gauge_of y known) ys
            (λ z p. sub z (mem-cons_of_mem y p)) (resolve-Within y known _ k fed) r.1 x q n)

  -- An order of the sources in which each one comes after those that feed what it depends on.
  pub record Order (sources : List A) : Type ℓ where
    pub out : List A
    pub same : Perm sources out
    pub ready : IsReady deps gauge_of [] out

  Outcome-found :
      (label : A → Chars) (sources out : List A) (r : Attempt (List Chars) (List A))
      → Outcome deps gauge_of label sources r
      → r ≡ ok out
      → Order sources
  Outcome-found label sources out _ (sorted out' p i) e = record { out = out'; same = p; ready = i }
  Outcome-found label sources out _ (circular done s rest p i w) e = cc

  Outcome-given :
      (label : A → Chars) (sources : List A) (r : Attempt (List Chars) (List A))
      → Outcome deps gauge_of label sources r
      → Order sources
      → (out : List A) × (r ≡ ok out)
  Outcome-given label sources _ (sorted out p i) o = (out, refl)
  Outcome-given label sources _ (circular done s rest p i w) o = absurd (
      order-done done (s ∷ rest) w [] o.out (λ x m. (Perm.mem_iff p).0 ((Perm.mem_iff o.same).1 m))
        (λ d h. ground arith) o.ready s
        ((Perm.mem_iff o.same).0 ((Perm.mem_iff p).1 (mem-append_right done mem-cons_self)))
        mem-cons_self)

  -- The sort returns an order exactly when there is one; otherwise it raises.
  pub topo_sort_iff :
      (label : A → Chars) (sources : List A)
      → ((out : List A) × (topo_sort deps gauge_of label sources ≡ ok out)) ↔ Order sources
  topo_sort_iff label sources = (
    λ h.
        Outcome-found label sources h.0 (topo_sort deps gauge_of label sources)
          (topo_sort-Outcome deps gauge_of label sources) h.1,
    λ o.
        Outcome-given label sources (topo_sort deps gauge_of label sources)
          (topo_sort-Outcome deps gauge_of label sources) o,
  )
