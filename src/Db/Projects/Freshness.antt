-- ===== src/Db/Projects/Freshness.antt =====
-- services/sa_common/sa_common/db/projects.py: the code from which a submitted image was built.
-- `code_of` says which code an image was built from; the clock of the events never stands.
use snake_arena.Prelude.{
  ℕ, ◌≤◌, ◌<◌, ◌≡◌, Bool, true, Option, none, some, [], ◌∷◌, arith, nat_key, All,
}
use snake_arena.Db.Rows.{update_where, All-update_where}
use snake_arena.Db.Projects.{
  Project, Projects, BuildStatus, saved, building, built, ready, crashed, failed, has_id,
  is_promotable, promoted, with_status, restore_dev_from_submitted, save_dev_code,
  record_dev_build_start, record_dev_build_validated, record_dev_build_crashed,
  record_dev_build_failure, record_dev_build_success, mark_submitted_crashed, promote_to_submitted,
}

module _ (code_of : ℕ → Option ℕ) where
  -- The image, if there is one, was built from the archive.
  abbrev pub IsBuiltFrom : Option ℕ → Option ℕ → Type 0
  IsBuiltFrom none archive = Unit
  IsBuiltFrom (some tag) archive = code_of tag ≡ archive

  -- The dev image is as recent as the last edit only if it was built from the current code.
  abbrev IsCurrent : ℕ → Option ℕ → ℕ → Option ℕ → Option ℕ → Type 0
  IsCurrent now none edit tag archive = Unit
  IsCurrent now (some b) edit tag archive = (b ≤ now) × (edit ≤ b → IsBuiltFrom tag archive)

  record IsFresh (now : ℕ) (p : Project) : Type 0 where
    edited : p.updated_at ≤ now
    current : IsCurrent now p.dev_built_at p.updated_at p.dev_image_tag p.dev_code_archive
    submitted : IsBuiltFrom p.submitted_image_tag p.submitted_code_archive

  -- The events on the table, at increasing times. A build is recorded for the code that the row
  -- still holds: nothing was saved while it ran.
  pub data Step : ℕ → Projects → ℕ → Projects → Type 0 where
    create :
        {t now : ℕ} {rows : Projects} (p : Project)
        → t < now
        → p.updated_at ≡ now
        → p.dev_built_at ≡ none
        → p.submitted_image_tag ≡ none
        → Step t rows now (p ∷ rows)
    save :
        {t now : ℕ} {rows : Projects} (i archive : ℕ)
        → t < now
        → Step t rows now (save_dev_code now i archive rows)
    restore :
        {t now : ℕ} {rows : Projects} (i : ℕ)
        → t < now
        → Step t rows now (restore_dev_from_submitted now i rows).1
    start :
        {t now : ℕ} {rows : Projects} (i : ℕ)
        → t < now
        → Step t rows now (record_dev_build_start i rows)
    finish :
        {t now : ℕ} {rows : Projects} (i tag : ℕ)
        → t < now
        → All (λ p. has_id i p ≡ true → code_of tag ≡ p.dev_code_archive) rows
        → Step t rows now (record_dev_build_success now i tag rows)
    fail :
        {t now : ℕ} {rows : Projects} (i : ℕ)
        → t < now
        → Step t rows now (record_dev_build_failure i rows)
    validate :
        {t now : ℕ} {rows : Projects} (i : ℕ)
        → t < now
        → Step t rows now (record_dev_build_validated i rows)
    crash :
        {t now : ℕ} {rows : Projects} (i : ℕ)
        → t < now
        → Step t rows now (record_dev_build_crashed i rows)
    crash_submitted :
        {t now : ℕ} {rows : Projects} (i : ℕ)
        → t < now
        → Step t rows now (mark_submitted_crashed i rows)
    promote :
        {t now : ℕ} {rows : Projects} (i : ℕ)
        → t < now
        → Step t rows now (promote_to_submitted now i rows).1

  pub data Reach : ℕ → Projects → Type 0 where
    empty : Reach 0 []
    next : {t u : ℕ} {rows rows' : Projects} → Reach t rows → Step t rows u rows' → Reach u rows'

  later : (t now : ℕ) (p : Project) → t < now → IsFresh t p → IsFresh now p
  later t now p h f = grind (arith, f)

  All-later :
      (t now : ℕ) (rows : Projects) → t < now → All (IsFresh t) rows → All (IsFresh now) rows
  All-later t now [] h all = tt
  All-later t now (p ∷ ps) h all = (later t now p h all.0, All-later t now ps h all.1)

  All-both :
      (P Q : Project → Type 0) (rows : Projects)
      → All P rows
      → All Q rows
      → All (λ p. P p × Q p) rows
  All-both P Q [] hp hq = tt
  All-both P Q (p ∷ ps) hp hq = ((hp.0, hq.0), All-both P Q ps hp.1 hq.1)

  module _ (t now : ℕ) (h : t < now) where
    -- An edit makes the dev image older than the code.
    edited-IsFresh :
        (archive : Option ℕ) (p : Project)
        → IsFresh t p
        → IsFresh now (record p {
          dev_code_archive = archive;
          dev_build_status = some saved;
          updated_at = now;
        })
    edited-IsFresh archive p f = grind (arith, f)

    finished-IsFresh :
        (tag : ℕ) (p : Project)
        → IsFresh t p
        → code_of tag ≡ p.dev_code_archive
        → IsFresh now (record p {
          dev_image_tag = some tag;
          dev_build_status = some built;
          dev_built_at = some now;
        })
    finished-IsFresh tag p f e = record {
      edited = omega (arith, f.edited);
      current = (omega arith, λ _. e);
      submitted = f.submitted;
    }

    -- A new status, or the crash flag, changes nothing else.
    status-IsFresh : (s : BuildStatus) (p : Project) → IsFresh t p → IsFresh now (with_status s p)
    status-IsFresh s p f =
        let g = later t now p h f in
        record { edited = g.edited; current = g.current; submitted = g.submitted }

    flag-IsFresh : (p : Project) → IsFresh t p → IsFresh now (record p { submitted_crashed = true })
    flag-IsFresh p f =
        let g = later t now p h f in
        record { edited = g.edited; current = g.current; submitted = g.submitted }

    created-IsFresh :
        (p : Project)
        → p.updated_at ≡ now
        → p.dev_built_at ≡ none
        → p.submitted_image_tag ≡ none
        → IsFresh now p
    created-IsFresh p e b s = grind arith

    -- An UPDATE whose rows stay fresh.
    update-IsFresh :
        (c : Project → Bool) (f : Project → Project) (rows : Projects)
        → ((p : Project) → IsFresh t p → c p ≡ true → IsFresh now (f p))
        → All (IsFresh t) rows
        → All (IsFresh now) (update_where c f rows)
    update-IsFresh c f rows hit all =
        All-update_where (IsFresh t) (IsFresh now) c f hit (λ p g _. later t now p h g) rows all

    promoted-IsFresh :
        (i : ℕ) (p : Project)
        → IsFresh t p
        → is_promotable i p ≡ true
        → IsFresh now (promoted now p)
    promoted-IsFresh i p f ok = grind (arith, f)

  Step-IsFresh :
      {t u : ℕ} {rows rows' : Projects}
      → Step t rows u rows'
      → All (IsFresh t) rows
      → All (IsFresh u) rows'
  unfolding save_dev_code restore_dev_from_submitted record_dev_build_start
      record_dev_build_validated record_dev_build_crashed record_dev_build_failure
      record_dev_build_success mark_submitted_crashed promote_to_submitted
  Step-IsFresh {t} {u} (create {rows = rows} p h e b s) all =
      (created-IsFresh t u h p e b s, All-later t u rows h all)
  Step-IsFresh {t} {u} (save {rows = rows} i archive h) all =
      update-IsFresh t u h _ _ rows (λ p f _. edited-IsFresh t u h (some archive) p f) all
  Step-IsFresh {t} {u} (restore {rows = rows} i h) all =
      update-IsFresh t u h _ _ rows (λ p f _. edited-IsFresh t u h p.submitted_code_archive p f) all
  Step-IsFresh {t} {u} (start {rows = rows} i h) all =
      update-IsFresh t u h _ _ rows (λ p f _. status-IsFresh t u h building p f) all
  Step-IsFresh {t} {u} (finish {rows = rows} i tag h code) all =
      All-update_where _ (IsFresh u) _ _ (λ p f hit. finished-IsFresh t u h tag p f.0 (f.1 hit))
        (λ p f _. later t u p h f.0) rows (All-both (IsFresh t) _ rows all code)
  Step-IsFresh {t} {u} (fail {rows = rows} i h) all =
      update-IsFresh t u h _ _ rows (λ p f _. status-IsFresh t u h failed p f) all
  Step-IsFresh {t} {u} (validate {rows = rows} i h) all =
      update-IsFresh t u h _ _ rows (λ p f _. status-IsFresh t u h ready p f) all
  Step-IsFresh {t} {u} (crash {rows = rows} i h) all =
      update-IsFresh t u h _ _ rows (λ p f _. status-IsFresh t u h crashed p f) all
  Step-IsFresh {t} {u} (crash_submitted {rows = rows} i h) all =
      update-IsFresh t u h _ _ rows (λ p f _. flag-IsFresh t u h p f) all
  Step-IsFresh {t} {u} (promote {rows = rows} i h) all =
      update-IsFresh t u h _ _ rows (λ p f hit. promoted-IsFresh t u h i p f hit) all

  Reach-IsFresh : {t : ℕ} {rows : Projects} → Reach t rows → All (IsFresh t) rows
  Reach-IsFresh empty = tt
  Reach-IsFresh (next r s) = Step-IsFresh s (Reach-IsFresh r)

  -- A submitted image was built from the code that was submitted with it.
  abbrev pub IsConsistent : Project → Type 0
  IsConsistent p = IsBuiltFrom p.submitted_image_tag p.submitted_code_archive

  All-IsConsistent : (t : ℕ) (rows : Projects) → All (IsFresh t) rows → All IsConsistent rows
  All-IsConsistent t [] all = tt
  All-IsConsistent t (p ∷ ps) all = (all.0.submitted, All-IsConsistent t ps all.1)

  -- Where each build is recorded while its row still holds the code that was built, so that nothing is
  -- saved during a build: in every table that these events reach at increasing times, every submitted
  -- image was built from the code that was submitted with it.
  pub Reach-IsConsistent : {t : ℕ} {rows : Projects} → Reach t rows → All IsConsistent rows
  Reach-IsConsistent {t} {rows} r = All-IsConsistent t rows (Reach-IsFresh r)
