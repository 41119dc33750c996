-- ===== src/Scheduler/Reports.antt =====
-- The monitoring reminders of the scheduler.
use mathlib.Core.List.{append-nil, append_assoc, perm_middle}
use mathlib.Core.List.Perm
use stars.Prelude.{
  ℕ, ◌+◌, ◌<◌, ◌≡◌, inl, inr, false, List, [], ◌∷◌, ◌++◌, map, Perm, arith, Bool-cases, sym, ◌∙◌,
  All,
}
use stars.Address.{Address, value, below}
use stars.Address.Order.{IsAddress}
use stars.Scheduler.Interface.{Task, Backend, Policy}
use stars.Scheduler.Handlers.{remind, send_reports, handle_monitor_timer}
use stars.Scheduler.{
  Report, report, add_report, group_reports, Effect, send_monitor, Env, Scheduler,
}

-- The reports of a group of messages, each with the node that it goes to.
abbrev pub deliveries : List (Address × List Report) → List (Address × Report)
deliveries [] = []
deliveries ((owner, reports) ∷ rest) = map (λ r. (owner, r)) reports ++ deliveries rest

abbrev pub due : Task → Address × Report
due t = (t.owner, report t)

-- The messages go to different nodes, in the order of their addresses, all above a lower bound.
abbrev pub IsOrdered : ℕ → List (Address × List Report) → Type 0
IsOrdered low [] = Unit
IsOrdered low ((owner, reports) ∷ rest) =
    (low < value owner + 1) × IsAddress owner × IsOrdered (value owner + 1) rest

owner_eq :
    (a b : Address) → IsAddress a → IsAddress b → below a b ≡ false → below b a ≡ false → a ≡ b
unfolding below
owner_eq a b ha hb h k = ground arith

one_more :
    (owner : Address) (reports : List Report) (r : Report) (rest : List (Address × Report))
    → Perm
        (map (λ x. (owner, x)) (reports ++ r ∷ []) ++ rest)
        ((owner, r) ∷ (map (λ x. (owner, x)) reports ++ rest))
one_more owner [] r rest = Perm.refl ((owner, r) ∷ rest)
one_more owner (x ∷ xs) r rest =
    Perm.trans (Perm.cons (owner, x) (one_more owner xs r rest))
      (Perm.swap (owner, r) (owner, x) (map (λ y. (owner, y)) xs ++ rest))

add_report-perm :
    (t : Task) (dsts : List (Address × List Report)) (low : ℕ)
    → IsAddress t.owner
    → IsOrdered low dsts
    → Perm (deliveries (add_report t dsts)) (due t ∷ deliveries dsts)
unfolding add_report
add_report-perm t [] low h o = Perm.refl (due t ∷ [])
add_report-perm t ((owner, reports) ∷ rest) low h (_, ho, o) =
    elim (Bool-cases (below t.owner owner)) [
      | inl e ↦ rw e (Perm.refl (due t ∷ deliveries ((owner, reports) ∷ rest)))
      | inr e ↦ elim (Bool-cases (below owner t.owner)) [
        | inl e' ↦
            rw (e, e')
              (Perm.trans
                (Perm.append_left (map (λ r. (owner, r)) reports)
                  (add_report-perm t rest (value owner + 1) h o))
                (perm_middle (map (λ r. (owner, r)) reports) (deliveries rest)))
        | inr e' ↦
            rw (e, e', owner_eq t.owner owner h ho e e')
              (one_more owner reports (report t) (deliveries rest))
      ]
    ]

add_report-IsOrdered :
    (t : Task) (dsts : List (Address × List Report)) (low : ℕ)
    → IsAddress t.owner
    → low < value t.owner + 1
    → IsOrdered low dsts
    → IsOrdered low (add_report t dsts)
unfolding add_report below
add_report-IsOrdered t [] low h l o = (l, h, tt)
add_report-IsOrdered t ((owner, reports) ∷ rest) low h l (lo, ho, o) =
    ground (arith, add_report-IsOrdered t rest (value owner + 1) h)

group_reports-perm :
    (ts : List Task) (dsts : List (Address × List Report))
    → All (λ t. IsAddress t.owner) ts
    → IsOrdered 0 dsts
    → Perm (deliveries (group_reports ts dsts)) (map due ts ++ deliveries dsts)
unfolding group_reports
group_reports-perm [] dsts h o = Perm.refl (deliveries dsts)
group_reports-perm (t ∷ ts) dsts (ht, h) o =
    Perm.trans
      (group_reports-perm ts (add_report t dsts) h
        (add_report-IsOrdered t dsts 0 ht (ground arith) o))
      (Perm.trans (Perm.append_left (map due ts) (add_report-perm t dsts 0 ht o))
        (perm_middle (map due ts) (deliveries dsts)))

group_reports-IsOrdered :
    (ts : List Task) (dsts : List (Address × List Report))
    → All (λ t. IsAddress t.owner) ts
    → IsOrdered 0 dsts
    → IsOrdered 0 (group_reports ts dsts)
unfolding group_reports
group_reports-IsOrdered [] dsts h o = o
group_reports-IsOrdered (t ∷ ts) dsts (ht, h) o =
    group_reports-IsOrdered ts (add_report t dsts) h
      (add_report-IsOrdered t dsts 0 ht (ground arith) o)

-- The monitoring messages that left the node, the first sent first.
abbrev pub monitors : {I : Type 0} → List (Effect I) → List (Address × List Report)
monitors [] = []
monitors (send_monitor owner reports ∷ out) = monitors out ++ (owner, reports) ∷ []
monitors (_ ∷ out) = monitors out

module _ {I : Type 0} (b : Backend) (p : Policy I) where
  monitors-send_reports :
      (groups : List (Address × List Report)) (out : List (Effect I))
      → monitors (send_reports b p groups out) ≡ monitors out ++ groups
  unfolding send_reports
  monitors-send_reports [] out = sym (append-nil (monitors out))
  monitors-send_reports ((owner, reports) ∷ rest) out =
      monitors-send_reports rest (send_monitor owner reports ∷ out)
      ∙ append_assoc (monitors out) ((owner, reports) ∷ []) rest

  -- When the monitoring timer runs out, the scheduler sends to each owner of a queued task at most one
  -- message, in the order of the addresses; together the messages report every task of the queue exactly
  -- once, to its owner, with its request, its id there and its state. The addresses are 32 bits and the
  -- ports 16.
  pub handle_monitor_timer-reports :
      (env : Env) (s : Scheduler I)
      → All (λ t. IsAddress t.owner) s.tasks
      → (groups : List (Address × List Report)) × ((monitors (handle_monitor_timer b p env s).out
            ≡ monitors s.out ++ groups)
          × (IsOrdered 0 groups × Perm (deliveries groups) (map due s.tasks)))
  unfolding handle_monitor_timer
  handle_monitor_timer-reports env s h = reports_of s.tasks h
    where
      reports_of :
          (ts : List Task)
          → All (λ t. IsAddress t.owner) ts
          → (groups : List (Address × List Report)) × ((monitors (remind b p env s ts).out
                ≡ monitors s.out ++ groups)
              × (IsOrdered 0 groups × Perm (deliveries groups) (map due ts)))
      reports_of [] h = ([], (sym (append-nil (monitors s.out)), (tt, Perm.nil)))
      reports_of (t ∷ ts) h = (
        group_reports (t ∷ ts) [],
        (
          monitors-send_reports (group_reports (t ∷ ts) []) s.out,
          (
            group_reports-IsOrdered (t ∷ ts) [] h tt,
            coe 0 1
                (i. Perm (deliveries (group_reports (t ∷ ts) [])) (append-nil (map due (t ∷ ts)) i))
                (group_reports-perm (t ∷ ts) [] h tt),
          ),
        ),
      )
