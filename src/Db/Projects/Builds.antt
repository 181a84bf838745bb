-- ===== src/Db/Projects/Builds.antt =====
-- services/builder/builder/build.py: `build_project`, the walk of the build status. What
-- `_run_build` comes to is given: it calls docker.
use snake_arena.Prelude.{
  ℕ, ◌≡◌, refl, Bool, true, false, ◌&&◌, none, some, [], ◌∷◌, arith, nat_key, if◌then◌else◌,
}
use snake_arena.Db.Rows.{update_where, count_where}
use snake_arena.Db.Projects.{
  Project, Projects, is_building, is_browser, has_id, get_project, record_dev_build_start,
  record_dev_build_success, record_dev_build_failure,
}

-- What `_run_build` does: it returns a result with an image or without, or raises.
pub data BuildRun : Type 0 where
  image : ℕ → BuildRun
  build_error raises : BuildRun

-- `BuildResult`, by its field `success` and the image tag.
pub data BuildResult : Type 0 where
  succeeded : ℕ → BuildResult
  failed_with : BuildRun → BuildResult
  not_found external_project : BuildResult

-- The last part: an exception is a failure too.
abbrev pub record_run : ℕ → ℕ → BuildRun → Projects → BuildResult × Projects
record_run now i (image tag) rows = (succeeded tag, record_dev_build_success now i tag rows)
record_run now i r rows = (failed_with r, record_dev_build_failure i rows)

unfoldable pub build_project : ℕ → ℕ → (Project → BuildRun) → Projects → BuildResult × Projects
unfolding get_project record_dev_build_start record_dev_build_success record_dev_build_failure
build_project now i run rows = elim (get_project i rows) [
  | none ↦ (not_found, rows)
  | some p ↦
      if is_browser p.source
      then record_run now i (run p) (record_dev_build_start i rows)
      else (external_project, record_dev_build_start i rows)
]

abbrev pub stuck : ℕ → Project → Bool
stuck i p = has_id i p && is_building p.dev_build_status

settled :
    (i : ℕ) (f : Project → Project) (rows : Projects)
    → ((p : Project) → has_id i (f p) ≡ has_id i p)
    → ((p : Project) → is_building (f p).dev_build_status ≡ false)
    → count_where (stuck i) (update_where (has_id i) f rows) ≡ 0
unfolding update_where count_where
settled i f [] same quiet = refl
settled i f (p ∷ ps) same quiet = ground (arith, same p, quiet p, settled i f ps same quiet)

started :
    (i : ℕ) (rows : Projects)
    → count_where (stuck i) (record_dev_build_start i rows) ≡ count_where (has_id i) rows
unfolding record_dev_build_start update_where count_where
started i [] = refl
started i (p ∷ ps) = ground (arith, started i ps)

run-settled :
    (now i : ℕ) (r : BuildRun) (rows : Projects)
    → count_where (stuck i) (record_run now i r rows).1 ≡ 0
unfolding record_dev_build_success record_dev_build_failure
run-settled now i (image tag) rows = settled i _ rows (λ p. refl) (λ p. refl)
run-settled now i build_error rows = settled i _ rows (λ p. refl) (λ p. refl)
run-settled now i raises rows = settled i _ rows (λ p. refl) (λ p. refl)

by_source :
    (now i : ℕ) (run : Project → BuildRun) (rows : Projects) (p : Project)
    → get_project i rows ≡ some p
    → build_project now i run rows ≡ (
        if is_browser p.source
        then record_run now i (run p) (record_dev_build_start i rows)
        else (external_project, record_dev_build_start i rows))
unfolding build_project
by_source now i run rows p found = rw (found, build_project)

-- A build of a browser project never leaves it at 'building', whether the build succeeds, fails or
-- raises.
pub build_project-settles :
    (now i : ℕ) (run : Project → BuildRun) (rows : Projects) (p : Project)
    → get_project i rows ≡ some p
    → is_browser p.source ≡ true
    → count_where (stuck i) (build_project now i run rows).1 ≡ 0
build_project-settles now i run rows p found source =
    rw (by_source now i run rows p found, source)
      (run-settled now i (run p) (record_dev_build_start i rows))

-- A build of an external image project leaves every row of the project at 'building'.
pub build_project-external :
    (now i : ℕ) (run : Project → BuildRun) (rows : Projects) (p : Project)
    → get_project i rows ≡ some p
    → is_browser p.source ≡ false
    → count_where (stuck i) (build_project now i run rows).1 ≡ count_where (has_id i) rows
build_project-external now i run rows p found source =
    rw (by_source now i run rows p found, source) (started i rows)
