-- ===== src/Db/Projects/Reads.antt =====
-- services/sa_common/sa_common/db/projects.py: the reads of the table without the code archives.
use Prim.Native.String.{String}
use snake_arena.Prelude.{
  ℕ, Bool, true, false, not, Option, none, some, List, [], ◌∷◌, map, ltb, ltb, ◌==◌, nat_key,
  string_key, if◌then◌else◌,
}
use snake_arena.Prelude.Dict.{Dict}
use snake_arena.Db.Rows.{select_where, count_where, order_by}
use snake_arena.Db.Projects.{Project, Projects, Source, BuildStatus, get_project}

-- `ProjectMeta`, the columns `_META_COLUMNS`
pub record ProjectMeta : Type 0 where
  pub id : ℕ
  pub user_id : Option ℕ
  pub guest_session_id : Option String
  pub name : String
  pub language : String
  pub source : Source
  pub dev_image_tag : Option ℕ
  pub dev_build_status : Option BuildStatus
  pub dev_built_at : Option ℕ
  pub submitted_image_tag : Option ℕ
  pub submitted_version : ℕ
  pub submitted_at : Option ℕ
  pub submitted_crashed : Bool
  pub created_at : ℕ
  pub updated_at : ℕ

abbrev meta_of : Project → ProjectMeta
meta_of p = record {
  id = p.id;
  user_id = p.user_id;
  guest_session_id = p.guest_session_id;
  name = p.name;
  language = p.language;
  source = p.source;
  dev_image_tag = p.dev_image_tag;
  dev_build_status = p.dev_build_status;
  dev_built_at = p.dev_built_at;
  submitted_image_tag = p.submitted_image_tag;
  submitted_version = p.submitted_version;
  submitted_at = p.submitted_at;
  submitted_crashed = p.submitted_crashed;
  created_at = p.created_at;
  updated_at = p.updated_at;
}

-- `get_project_meta`
unfoldable pub get_project_meta : ℕ → Projects → Option ProjectMeta
unfolding get_project
get_project_meta i rows = elim (get_project i rows) [ none ↦ none | some p ↦ some (meta_of p) ]

abbrev of_user : ℕ → Project → Bool
of_user user p = elim p.user_id [ none ↦ false | some u ↦ u == user ]

abbrev of_session : String → Project → Bool
of_session session p = elim p.guest_session_id [ none ↦ false | some s ↦ s == session ]

-- `count_projects_for_user`
unfoldable pub count_projects_for_user : ℕ → Projects → ℕ
unfolding count_where
count_projects_for_user user rows = count_where (of_user user) rows

-- `count_projects_for_guest_session`
unfoldable pub count_projects_for_guest_session : String → Projects → ℕ
unfolding count_where
count_projects_for_guest_session session rows = count_where (of_session session) rows

-- `ORDER BY updated_at DESC`
abbrev updated_later : Project → Project → Bool
updated_later p q = not (ltb p.updated_at q.updated_at)

-- `list_projects_for_user`
unfoldable pub list_projects_for_user : ℕ → Projects → List ProjectMeta
unfolding order_by select_where
list_projects_for_user user rows =
    map meta_of (order_by updated_later (select_where (of_user user) rows))

-- `list_projects_for_guest_session`
unfoldable pub list_projects_for_guest_session : String → Projects → List ProjectMeta
unfolding order_by select_where
list_projects_for_guest_session session rows =
    map meta_of (order_by updated_later (select_where (of_session session) rows))

-- `get_project_names`
abbrev is_one_of : List ℕ → ℕ → Bool
is_one_of [] i = false
is_one_of (k ∷ ks) i = if k == i then true else is_one_of ks i

unfoldable pub get_project_names : List ℕ → Projects → Dict ℕ String
get_project_names ids [] = []
get_project_names ids (p ∷ ps) =
    let rest = get_project_names ids ps in
    if is_one_of ids p.id then (p.id, p.name) ∷ rest else rest

-- `project_name_exists`
unfoldable pub project_name_exists : String → Projects → Bool
unfolding count_where
project_name_exists name rows = ltb 0 (count_where (λ p. p.name == name) rows)
