-- ===== src/Submission/Tables.antt =====
-- src/lib/db/TaskBagAppDatabase.cpp: the tables of the database as lists of rows, and the statements as functions of them. A
-- scalar subquery is an Option, none for NULL, which is equal to nothing. The statements are read in the order of the
-- tables and do not fail, but for a primary key that is taken. A name is compared only, and so is a number.
use stars.Prelude.{
  ℕ, ◌+◌, Bool, true, false, ◌&&◌, Option, none, some, List, [], ◌∷◌, any, leb, ◌==◌, if◌then◌else◌,
}
use stars.Address.{Address, same}

-- A row of tb_app_description; the sizes of input and output are left out, as nothing reads them here.
pub record AppDescription : Type 0 where
  pub name : ℕ
  pub num_tasks : ℕ
  pub app_length : ℕ
  pub memory : ℕ
  pub disk : ℕ

-- tb_app_instance
pub record AppInstance : Type 0 where
  pub id : ℕ
  pub app_type : ℕ
  pub ctime : ℕ
  pub rtime : Option ℕ
  pub app_deadline : ℕ

pub data TaskState : Type 0 where
  ready searching executing finished : TaskState

abbrev pub same_state : TaskState → TaskState → Bool
same_state ready s = elim s [ ready ↦ true | _ ↦ false ]
same_state searching s = elim s [ searching ↦ true | _ ↦ false ]
same_state executing s = elim s [ executing ↦ true | _ ↦ false ]
same_state finished s = elim s [ finished ↦ true | _ ↦ false ]

-- tb_task
pub record TaskRow : Type 0 where
  pub tid : ℕ
  pub app_instance : ℕ
  pub state : TaskState
  pub atime : Option ℕ
  pub ftime : Option ℕ
  pub host : Option Address

-- tb_request
pub record RequestRow : Type 0 where
  pub rid : ℕ
  pub request_app : ℕ
  pub timeout : Option ℕ

-- tb_task_request
pub record TaskRequest : Type 0 where
  pub of_request : ℕ
  pub rtid : ℕ
  pub of_task : ℕ

-- The tables, and the next ids of the instances and of the requests.
pub record Database : Type 0 where
  pub descriptions : List AppDescription
  pub instances : List AppInstance
  pub tasks : List TaskRow
  pub requests : List RequestRow
  pub task_requests : List TaskRequest
  pub next_instance : ℕ
  pub next_request : ℕ

-- The first row that a test selects.
abbrev pub first_of {ℓ} : {A : Type ℓ} → (A → Bool) → List A → Option A
first_of p [] = none
first_of p (x ∷ xs) = if p x then some x else first_of p xs

-- `update ... set ... where ...`
abbrev pub update_where {ℓ} : {A : Type ℓ} → (A → Bool) → (A → A) → List A → List A
update_where p f [] = []
update_where p f (x ∷ xs) = (if p x then f x else x) ∷ update_where p f xs

-- sqlite3_changes() of that update.
abbrev pub count_where {ℓ} : {A : Type ℓ} → (A → Bool) → List A → ℕ
count_where p [] = 0
count_where p (x ∷ xs) = (if p x then 1 else 0) + count_where p xs

-- `e = (select ...)`
abbrev pub equals : Option ℕ → ℕ → Bool
equals none n = false
equals (some m) n = m == n

abbrev pub is_host : Address → TaskRow → Bool
is_host a t = elim t.host [ none ↦ false | some h ↦ same h a ]

abbrev pub request_app_where : (RequestRow → Bool) → Database → Option ℕ
request_app_where p db = elim (first_of p db.requests) [ none ↦ none | some r ↦ some r.request_app ]

-- `select app_instance from tb_request where rid = ?`, which is also getInstanceId(), with none for -1.
unfoldable pub get_instance_id : ℕ → Database → Option ℕ
get_instance_id id db = elim (first_of (λ r. r.rid == id) db.requests) [
  | none ↦ none
  | some r ↦ some r.request_app
]

-- `app_instance = (select app_instance from tb_request where rid = ?)`
unfoldable pub of_app_of : ℕ → Database → TaskRow → Bool
unfolding get_instance_id
of_app_of id db t = equals (get_instance_id id db) t.app_instance

-- `tid in (select tid from tb_task_request where rid = ? and rtid between ? and ?)`; the whole request
-- without the bounds.
unfoldable pub is_between : ℕ → ℕ → ℕ → List TaskRequest → TaskRow → Bool
is_between id first last rs t =
    any (λ r. r.of_request == id && leb first r.rtid && leb r.rtid last && r.of_task == t.tid) rs

unfoldable pub is_in : ℕ → List TaskRequest → TaskRow → Bool
is_in id rs t = any (λ r. r.of_request == id && r.of_task == t.tid) rs

-- `tid = (select tid from tb_task_request where rid = ? and rtid = ?)`
unfoldable pub is_task : ℕ → ℕ → List TaskRequest → TaskRow → Bool
is_task id n rs t = elim (first_of (λ r. r.of_request == id && r.rtid == n) rs) [
  | none ↦ false
  | some r ↦ r.of_task == t.tid
]
