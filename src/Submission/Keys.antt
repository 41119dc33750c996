-- ===== src/Submission/Keys.antt =====
-- The keys of the tables of Submission.Tables, and the rows that a new request finds.
use stars.Prelude.{
  ℕ, ◌+◌, ◌<◌, ◌≡◌, refl, inl, inr, ◌∙◌, ap, Bool, false, ◌&&◌, ◌||◌, Option, none, some, List, [],
  ◌∷◌, ◌++◌, All, any, keep_if, ◌==◌, if◌then◌else◌, Bool-cases, if-both, arith,
}
use stars.Submission.Tables.{
  Database, TaskRow, TaskRequest, RequestRow, equals, first_of, update_where, get_instance_id,
  is_in,
}
use stars.Submission.Database.{is_ready_of, associate, start_search}
use stars.Submission.Counts.{any-append, All-zip}

abbrev pub same_key : TaskRow → TaskRow → Bool
same_key t u = t.tid == u.tid && t.app_instance == u.app_instance

-- The primary key of tb_task.
abbrev pub IsKeyed : List TaskRow → Type 0
IsKeyed [] = Unit
IsKeyed (t ∷ ts) = All (λ u. same_key t u ≡ false) ts × IsKeyed ts

-- The ids of requests to come are not used yet.
pub record IsValid (db : Database) : Type 0 where
  pub keyed : IsKeyed db.tasks
  pub old_requests : All (λ r. r.rid < db.next_request) db.requests
  pub old_associations : All (λ r. r.of_request < db.next_request) db.task_requests

-- Whether a task of an application has the number of a ready one.
abbrev pub chosen : ℕ → List TaskRow → TaskRow → Bool
chosen app ts t = t.app_instance == app && any (λ u. u.tid == t.tid) (keep_if (is_ready_of app) ts)

chosen-none :
    (app : ℕ) (t : TaskRow) (ts : List TaskRow)
    → All (λ u. same_key t u ≡ false) ts
    → chosen app ts t ≡ false
chosen-none app t [] h = ground arith
chosen-none app t (u ∷ us) h = ground (arith, chosen-none app t us h.1, h.0)

chosen-cons :
    (app : ℕ) (x t : TaskRow) (xs : List TaskRow)
    → same_key x t ≡ false
    → chosen app xs t ≡ is_ready_of app t
    → chosen app (x ∷ xs) t ≡ is_ready_of app t
chosen-cons app x t xs h e = ground (arith, h, e)

chosen-head :
    (app : ℕ) (x : TaskRow) (xs : List TaskRow)
    → chosen app xs x ≡ false
    → chosen app (x ∷ xs) x ≡ is_ready_of app x
chosen-head app x xs h = ground (arith, h)

pub chosen-ready :
    (app : ℕ) (ts : List TaskRow) → IsKeyed ts → All (λ t. chosen app ts t ≡ is_ready_of app t) ts
chosen-ready app [] h = tt
chosen-ready app (x ∷ xs) (new, rest) = (
  chosen-head app x xs (chosen-none app x xs new),
  All-zip xs (λ t. chosen-cons app x t xs) new (chosen-ready app xs rest),
)

-- The new associations, and the old ones.
is_in-associate :
    (id n : ℕ) (us : List TaskRow) (t : TaskRow)
    → is_in id (associate id n us) t ≡ any (λ u. u.tid == t.tid) us
unfolding is_in associate
is_in-associate id n [] t = refl
is_in-associate id n (u ∷ us) t = ground (arith, is_in-associate id (n + 1) us t)

is_in-old :
    (id : ℕ) (rs : List TaskRequest) (t : TaskRow)
    → All (λ r. r.of_request < id) rs
    → is_in id rs t ≡ false
unfolding is_in
is_in-old id [] t h = refl
is_in-old id (r ∷ rs) t h = ground (arith, h.0, is_in-old id rs t h.1)

is_in-append :
    (id : ℕ) (rs ss : List TaskRequest) (t : TaskRow)
    → is_in id (rs ++ ss) t ≡ (is_in id rs t || is_in id ss t)
unfolding is_in
is_in-append id rs ss t =
    any-append (λ (r : TaskRequest). r.of_request == id && r.of_task == t.tid) rs ss

pub is_in-new :
    (id : ℕ) (rs : List TaskRequest) (us : List TaskRow) (t : TaskRow)
    → All (λ r. r.of_request < id) rs
    → is_in id (rs ++ associate id 1 us) t ≡ any (λ u. u.tid == t.tid) us
is_in-new id rs us t h =
    let both : is_in id (rs ++ associate id 1 us) t
        ≡ (is_in id rs t || is_in id (associate id 1 us) t) =
      is_in-append id rs (associate id 1 us) t in
    both
    ∙ ap (λ b. b || is_in id (associate id 1 us) t) (is_in-old id rs t h)
    ∙ is_in-associate id 1 us t

first_of-new :
    (id app : ℕ) (rs : List RequestRow)
    → All (λ r. r.rid < id) rs
    → let new : RequestRow = record { rid = id; request_app = app; timeout = none } in
      first_of (λ r. r.rid == id) (rs ++ new ∷ []) ≡ some new
first_of-new id app [] h = ground arith
first_of-new id app (r ∷ rs) h = ground (arith, h.0, first_of-new id app rs h.1)

-- The database after a request for the ready tasks `us`.
abbrev pub requested : ℕ → List TaskRow → Database → Database
requested app us db = record db {
  requests =
      db.requests ++ (record { rid = db.next_request; request_app = app; timeout = none }) ∷ [];
  task_requests = db.task_requests ++ associate db.next_request 1 us;
  next_request = db.next_request + 1;
}

pub requested-app :
    (app : ℕ) (us : List TaskRow) (db : Database)
    → IsValid db
    → get_instance_id db.next_request (requested app us db) ≡ some app
unfolding get_instance_id
requested-app app us db v =
    ap (λ o. elim o [ none ↦ none | some r ↦ some r.request_app ])
      (first_of-new db.next_request app db.requests v.old_requests)

abbrev app_of : ℕ → List RequestRow → Option ℕ
app_of id rs = elim (first_of (λ r. r.rid == id) rs) [ none ↦ none | some r ↦ some r.request_app ]

app_of-head :
    (id : ℕ) (r q : RequestRow) (rs qs : List RequestRow)
    → q.rid ≡ r.rid
    → q.request_app ≡ r.request_app
    → app_of id qs ≡ app_of id rs
    → app_of id (q ∷ qs) ≡ app_of id (r ∷ rs)
app_of-head id r q rs qs e e' h =
    ap
      (λ n. elim (if n == id then some q else first_of (λ r. r.rid == id) qs) [
        | none ↦ none
        | some r ↦ some r.request_app
      ])
      e
    ∙ (elim (Bool-cases (r.rid == id)) [
      | inl z ↦ rw (app_of, z) (ap some e')
      | inr z ↦ rw (app_of, z) h
    ])

-- The time of a request does not matter for its instance.
app_of-timeout :
    (id timeout : ℕ) (rs : List RequestRow)
    → app_of id (update_where (λ r. r.rid == id) (λ r. record r { timeout = some timeout }) rs)
      ≡ app_of id rs
app_of-timeout id timeout [] = refl
app_of-timeout id timeout (r ∷ rs) =
    let rest = app_of-timeout id timeout rs in
    let later = update_where (λ q. q.rid == id) (λ q. record q { timeout = some timeout }) rs in
    if-both (λ (q : RequestRow). app_of id (q ∷ later) ≡ app_of id (r ∷ rs)) (r.rid == id)
      (app_of-head id r (record r { timeout = some timeout }) rs later refl refl rest)
      (app_of-head id r r rs later refl refl rest)

pub start_search-app :
    (id timeout now : ℕ) (db : Database)
    → get_instance_id id (start_search id timeout now db) ≡ get_instance_id id db
unfolding start_search get_instance_id
start_search-app id timeout now db = app_of-timeout id timeout db.requests

-- A row that has the key of a ready task of the application.
pub picks :
    (app : ℕ) (ts : List TaskRow) (o : Option ℕ) (b : Bool) (t : TaskRow)
    → o ≡ some app
    → b ≡ any (λ u. u.tid == t.tid) (keep_if (is_ready_of app) ts)
    → (equals o t.app_instance && b) ≡ chosen app ts t
picks app ts o b t e e' =
    let swap : (app == t.app_instance) ≡ (t.app_instance == app) = ground arith in
    ap (λ o. equals o t.app_instance && b) e
    ∙ ap (λ c. (app == t.app_instance) && c) e'
    ∙ ap (λ c. c && any (λ u. u.tid == t.tid) (keep_if (is_ready_of app) ts)) swap
