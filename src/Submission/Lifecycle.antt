-- ===== src/Submission/Lifecycle.antt =====
-- The life of a task in the database of Submission.Database, as an abstract machine that its statements implement.
use stars.Prelude.{
  ℕ, ◌≡◌, refl, inl, inr, sym, ◌∙◌, ap, subst, Bool, true, false, false≢true, ◌&&◌, some, List, [],
  ◌∷◌, All, ◌==◌, is_some, Bool-cases,
}
use stars.Address.{Address}
use stars.Submission.Tables.{
  TaskRow, TaskState, ready, searching, executing, finished, same_state, update_where,
}
use stars.Submission.Database.{free}
use stars.Submission.Keys.{IsKeyed, same_key}

-- What may happen to a task.
pub data Step (t u : TaskRow) : Type 0 where
  stays : u ≡ t → Step t u
  is_searched_for : t.state ≡ ready → u ≡ record t { state = searching } → Step t u
  is_not_found : t.state ≡ searching → u ≡ record t { state = ready } → Step t u
  starts :
      (a : Address) (now : ℕ)
      → t.state ≡ searching
      → u ≡ record t { state = executing; atime = some now; host = some a }
      → Step t u
  finishes :
      (now : ℕ)
      → t.state ≡ executing
      → u ≡ record t { state = finished; ftime = some now }
      → Step t u
  is_lost : t.state ≡ executing → u ≡ free t → Step t u

-- Each task of the table has made a step.
abbrev pub Steps : List TaskRow → List TaskRow → Type 0
Steps [] [] = Unit
Steps [] (u ∷ us) = ⊥
Steps (t ∷ ts) [] = ⊥
Steps (t ∷ ts) (u ∷ us) = Step t u × Steps ts us

-- A task has a node exactly when it runs or has run.
abbrev pub on_node : TaskState → Bool
on_node executing = true
on_node finished = true
on_node _ = false

abbrev pub IsHosted : TaskRow → Type 0
IsHosted t = is_some t.host ≡ on_node t.state

abbrev key : TaskRow → ℕ × ℕ
key t = (t.tid, t.app_instance)

Step-key : (t u : TaskRow) → Step t u → key u ≡ key t
Step-key t u (stays e) = ap key e
Step-key t u (is_searched_for h e) = ap key e
Step-key t u (is_not_found h e) = ap key e
Step-key t u (starts a now h e) = ap key e
Step-key t u (finishes now h e) = ap key e
Step-key t u (is_lost h e) = ap key e

pub IsHosted-Step : (t u : TaskRow) → Step t u → IsHosted t → IsHosted u
IsHosted-Step t u (stays e) h = subst IsHosted (sym e) h
IsHosted-Step t u (is_searched_for s e) h = subst IsHosted (sym e) (h ∙ ap on_node s)
IsHosted-Step t u (is_not_found s e) h = subst IsHosted (sym e) (h ∙ ap on_node s)
IsHosted-Step t u (starts a now s e) h = subst IsHosted (sym e) refl
IsHosted-Step t u (finishes now s e) h = subst IsHosted (sym e) (h ∙ ap on_node s)
IsHosted-Step t u (is_lost s e) h = subst IsHosted (sym e) refl

pub Steps-update :
    (p : TaskRow → Bool) (f : TaskRow → TaskRow) (ts : List TaskRow)
    → All (λ t. p t ≡ true → Step t (f t)) ts
    → Steps ts (update_where p f ts)
Steps-update p f [] h = tt
Steps-update p f (t ∷ ts) h = (
  elim (Bool-cases (p t)) [ inl e ↦ rw e (h.0 e) | inr e ↦ rw e (stays refl) ],
  Steps-update p f ts h.1,
)

pub is_state : (s r : TaskState) → same_state s r ≡ true → s ≡ r
is_state ready ready h = refl
is_state ready searching h = absurd (false≢true h)
is_state ready executing h = absurd (false≢true h)
is_state ready finished h = absurd (false≢true h)
is_state searching ready h = absurd (false≢true h)
is_state searching searching h = refl
is_state searching executing h = absurd (false≢true h)
is_state searching finished h = absurd (false≢true h)
is_state executing ready h = absurd (false≢true h)
is_state executing searching h = absurd (false≢true h)
is_state executing executing h = refl
is_state executing finished h = absurd (false≢true h)
is_state finished ready h = absurd (false≢true h)
is_state finished searching h = absurd (false≢true h)
is_state finished executing h = absurd (false≢true h)
is_state finished finished h = refl

-- The rows of a table of which the steps are known.
pub Steps-All :
    (P : TaskRow → Type 0) (ts us : List TaskRow)
    → ((t u : TaskRow) → Step t u → P t → P u)
    → Steps ts us
    → All P ts
    → All P us
Steps-All P [] [] f s h = tt
Steps-All P [] (u ∷ us) f s h = absurd s
Steps-All P (t ∷ ts) [] f s h = absurd s
Steps-All P (t ∷ ts) (u ∷ us) f s h = (f t u s.0 h.0, Steps-All P ts us f s.1 h.1)

Steps-differ :
    (t u : TaskRow) (ts us : List TaskRow)
    → key u ≡ key t
    → Steps ts us
    → All (λ x. same_key t x ≡ false) ts
    → All (λ x. same_key u x ≡ false) us
Steps-differ t u [] [] e s h = tt
Steps-differ t u [] (y ∷ ys) e s h = absurd s
Steps-differ t u (x ∷ xs) [] e s h = absurd s
Steps-differ t u (x ∷ xs) (y ∷ ys) e s h =
    let k = Step-key x y s.0 in
    let same_keys : same_key u y ≡ same_key t x =
      ap (λ a. a.0 == y.tid && a.1 == y.app_instance) e
      ∙ ap (λ a. t.tid == a.0 && t.app_instance == a.1) k in
    (same_keys ∙ h.0, Steps-differ t u xs ys e s.1 h.1)

pub IsKeyed-Steps : (ts us : List TaskRow) → Steps ts us → IsKeyed ts → IsKeyed us
IsKeyed-Steps [] [] s h = tt
IsKeyed-Steps [] (u ∷ us) s h = absurd s
IsKeyed-Steps (t ∷ ts) [] s h = absurd s
IsKeyed-Steps (t ∷ ts) (u ∷ us) s h =
    (Steps-differ t u ts us (Step-key t u s.0) s.1 h.0, IsKeyed-Steps ts us s.1 h.1)
