-- ===== src/Db/Projects.antt =====
-- services/sa_common/sa_common/db/projects.py: the table `projects` with the dev and the submitted
-- build of each project, and services/builder/builder/build.py: `build_project`. Archives and image
-- tags are only stored, copied and compared, so numbers and strings stand for them.
pub mod Freshness
pub mod Builds
pub mod Overlap
pub mod Reads
use Prim.Native.String.{String}
use snake_arena.Prelude.{
  ℕ, ◌+◌, Bool, true, false, ◌&&◌, not, Option, none, some, List, [], ◌∷◌, ◌++◌, ◌==◌, nat_key, ltb,
  leb, if◌then◌else◌,
}
use snake_arena.Prelude.Result.{Result, ok, err}
use snake_arena.Db.Rows.{update_where, select_where, count_where}

-- `ProjectSource`
pub data Source : Type 0 where
  browser external_image : Source

-- The values of the column `dev_build_status` that are not NULL.
pub data BuildStatus : Type 0 where
  saved building built ready crashed failed : BuildStatus

abbrev pub is_ready : Option BuildStatus → Bool
is_ready (some ready) = true
is_ready _ = false

abbrev pub is_building : Option BuildStatus → Bool
is_building (some building) = true
is_building _ = false

abbrev pub is_browser : Source → Bool
is_browser browser = true
is_browser external_image = false

-- `Project`
pub record Project : Type 0 where
  pub id : ℕ
  pub user_id : Option ℕ
  pub guest_session_id : Option String
  pub name : String
  pub language : String
  pub source : Source
  pub dev_code_archive : Option ℕ
  pub dev_image_tag : Option ℕ
  pub dev_build_status : Option BuildStatus
  pub dev_built_at : Option ℕ
  pub submitted_code_archive : Option ℕ
  pub submitted_image_tag : Option ℕ
  pub submitted_version : ℕ
  pub submitted_at : Option ℕ
  pub submitted_crashed : Bool
  pub created_at : ℕ
  pub updated_at : ℕ

abbrev pub Projects : Type 0
Projects = List Project

abbrev pub has_id : ℕ → Project → Bool
has_id i p = p.id == i

-- `create_project`: exactly one owner, or a `ValueError`; `i` is the id that the database gives.
pub data CreateError : Type 0 where
  one_owner : CreateError

abbrev is_none {ℓ} : {A : Type ℓ} → Option A → Bool
is_none none = true
is_none (some a) = false

abbrev same : Bool → Bool → Bool
same true b = b
same false b = not b

unfoldable pub create_project :
    ℕ
    → ℕ
    → String
    → String
    → Source
    → Option ℕ
    → Option ℕ
    → Option String
    → Projects
    → Result CreateError (ℕ × Projects)
create_project now i name language source archive user_id guest rows =
    if same (is_none user_id) (is_none guest)
    then err one_owner
    else ok (
      i,
      rows
          ++ record {
            id = i;
            user_id = user_id;
            guest_session_id = guest;
            name = name;
            language = language;
            source = source;
            dev_code_archive = archive;
            dev_image_tag = none;
            dev_build_status = none;
            dev_built_at = none;
            submitted_code_archive = none;
            submitted_image_tag = none;
            submitted_version = 0;
            submitted_at = none;
            submitted_crashed = false;
            created_at = now;
            updated_at = now;
          }
            ∷ [],
    )

-- `get_project`
abbrev first : Projects → Option Project
first [] = none
first (p ∷ ps) = some p

unfoldable pub get_project : ℕ → Projects → Option Project
unfolding select_where
get_project i rows = first (select_where (has_id i) rows)

abbrev pub is_submitted : ℕ → Project → Bool
is_submitted i p = has_id i p && ltb 0 p.submitted_version

-- `restore_dev_from_submitted`
unfoldable pub restore_dev_from_submitted : ℕ → ℕ → Projects → Bool × Projects
unfolding update_where count_where
restore_dev_from_submitted now i rows = (
  ltb 0 (count_where (is_submitted i) rows),
  update_where (is_submitted i)
      (λ p. record p {
        dev_code_archive = p.submitted_code_archive;
        dev_build_status = some saved;
        updated_at = now;
      })
      rows,
)

-- `delete_project`, where no match refers to the project
unfoldable pub delete_project : ℕ → Projects → Bool × Projects
unfolding select_where count_where
delete_project i rows =
    (ltb 0 (count_where (has_id i) rows), select_where (λ p. not (has_id i p)) rows)

-- `save_dev_code`: a no-op for projects that are not from the browser.
unfoldable pub save_dev_code : ℕ → ℕ → ℕ → Projects → Projects
unfolding update_where
save_dev_code now i archive rows =
    update_where (λ p. has_id i p && is_browser p.source)
      (λ p. record p {
        dev_code_archive = some archive;
        dev_build_status = some saved;
        updated_at = now;
      })
      rows

abbrev pub with_status : BuildStatus → Project → Project
with_status s p = record p { dev_build_status = some s }

-- `record_dev_build_start`, `…_validated`, `…_crashed` and `…_failure`
unfoldable pub record_dev_build_start : ℕ → Projects → Projects
unfolding update_where
record_dev_build_start i rows = update_where (has_id i) (with_status building) rows

unfoldable pub record_dev_build_validated : ℕ → Projects → Projects
unfolding update_where
record_dev_build_validated i rows = update_where (has_id i) (with_status ready) rows

unfoldable pub record_dev_build_crashed : ℕ → Projects → Projects
unfolding update_where
record_dev_build_crashed i rows = update_where (has_id i) (with_status crashed) rows

unfoldable pub record_dev_build_failure : ℕ → Projects → Projects
unfolding update_where
record_dev_build_failure i rows = update_where (has_id i) (with_status failed) rows

-- `record_dev_build_success`
unfoldable pub record_dev_build_success : ℕ → ℕ → ℕ → Projects → Projects
unfolding update_where
record_dev_build_success now i tag rows =
    update_where (has_id i)
      (λ p. record p {
        dev_image_tag = some tag;
        dev_build_status = some built;
        dev_built_at = some now;
      })
      rows

-- `mark_submitted_crashed`
unfoldable pub mark_submitted_crashed : ℕ → Projects → Projects
unfolding update_where
mark_submitted_crashed i rows =
    update_where (is_submitted i) (λ p. record p { submitted_crashed = true }) rows

-- `dev_build_status = 'ready' AND dev_built_at >= updated_at`
abbrev pub is_promotable : ℕ → Project → Bool
is_promotable i p =
    has_id i p
    && (is_ready p.dev_build_status
        && elim p.dev_built_at [ none ↦ false | some b ↦ leb p.updated_at b ])

abbrev pub promoted : ℕ → Project → Project
promoted now p = record p {
  submitted_code_archive = p.dev_code_archive;
  submitted_image_tag = p.dev_image_tag;
  submitted_version = p.submitted_version + 1;
  submitted_at = some now;
  submitted_crashed = false;
}

-- `promote_to_submitted`: the new version, of the first row that is returned.
abbrev next_version : Projects → Option ℕ
next_version [] = none
next_version (p ∷ ps) = some (p.submitted_version + 1)

unfoldable pub promote_to_submitted : ℕ → ℕ → Projects → Option ℕ × Projects
unfolding update_where select_where
promote_to_submitted now i rows = (
  next_version (select_where (is_promotable i) rows),
  update_where (is_promotable i) (promoted now) rows,
)
