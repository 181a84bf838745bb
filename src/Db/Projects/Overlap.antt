-- ===== src/Db/Projects/Overlap.antt =====
-- services/sa_common/sa_common/db/projects.py: an edit that is saved while a build runs. The guard
-- of `promote_to_submitted` compares the edit with the end of the build, not with its start.
use snake_arena.Prelude.{
  ℕ, ◌+◌, ◌≤◌, ◌≡◌, true, Option, none, some, [], ◌∷◌, arith, leb, nat_key, same_self,
}
use snake_arena.Db.Projects.{
  Project, Projects, is_browser, save_dev_code, record_dev_build_start, record_dev_build_validated,
  record_dev_build_success, promote_to_submitted,
}

-- A build starts, new code is saved, the build ends with the image of the old code, its test run
-- validates it, and the user submits.
abbrev pub save_during_build : ℕ → ℕ → ℕ → ℕ → ℕ → Projects → Option ℕ × Projects
save_during_build i saved_at archive built_at tag rows = promote_to_submitted built_at i (
    record_dev_build_validated i (
      record_dev_build_success built_at i tag
        (save_dev_code saved_at i archive (record_dev_build_start i rows))))

abbrev pub submitted_pair : Projects → Option ℕ × Option ℕ
submitted_pair [] = (none, none)
submitted_pair (p ∷ ps) = (p.submitted_code_archive, p.submitted_image_tag)

-- The promotion is granted although the code was saved after the build had started: the new code is
-- submitted with the image that was built before it.
pub save_during_build-promotes :
    (p : Project) (saved_at archive built_at tag : ℕ)
    → is_browser p.source ≡ true
    → saved_at ≤ built_at
    → let (version, rows) = save_during_build p.id saved_at archive built_at tag (p ∷ []) in
      (version ≡ some (p.submitted_version + 1)) × (submitted_pair rows ≡ (some archive, some tag))
unfolding save_dev_code record_dev_build_start record_dev_build_validated record_dev_build_success
    promote_to_submitted
save_during_build-promotes p saved_at archive built_at tag source le =
    let own = same_self {K = ℕ} p.id in
    let on_time : leb saved_at built_at ≡ true = ground arith in
    ground (arith, own, source, on_time)
