-- ===== src/Controllers/ZoneVersion/Latest.antt =====
-- controllers/zonek8sversion_controller.go: which version is extracted.
use appuio_cloud_agent.Base.{
  ℕ, ◌≤◌, String, true, false, ◌≡◌, ◌≢◌, ap, ◌∙◌, if_else, eq_of_ne, ◌⊎◌, List, ◌∷◌, some, All, Any,
  ◌==◌, if◌then◌else◌, split, split-Lacks, Lacks,
}
use appuio_cloud_agent.Controllers.ZoneVersion.{
  done, panicked, Update, ClusterVersion, is_candidate, find_latest, parse_version, first_parts,
  extract_open_shift_version,
}

-- The update is a completed and verified one, of this version and completed at this time.
abbrev pub IsCompleted : String → ℕ → Update → Type 0
IsCompleted v t h = (is_candidate h ≡ true) × (h.completion_time ≡ some t) × (h.version ≡ v)

-- The update is none that counts, or one that was completed by that time.
abbrev pub IsBy : ℕ → Update → Type 0
IsBy t h =
    (is_candidate h ≡ false)
    ⊎ ((is_candidate h ≡ true) × ((s : ℕ) × (h.completion_time ≡ some s) × (s ≤ t)))

-- An update that counts has a time.
abbrev pub HasTime : Update → Type 0
HasTime h = (is_candidate h ≡ false) ⊎ ((t : ℕ) × (h.completion_time ≡ some t))

-- The version and the time are those that the search began with, or those of an update that counts.
abbrev pub IsFrom : String → ℕ → List Update → String → ℕ → Type 0
IsFrom v t hs v' t' = ((v' ≡ v) × (t' ≡ t)) ⊎ Any (IsCompleted v' t') hs

-- The search ends, and its result is the version and the time of the last update that counts.
abbrev pub IsNewest : String → ℕ → List Update → Type 0
IsNewest v t hs =
    (v' : String) × (t' : ℕ) × (find_latest hs (v, t) ≡ done (v', t'))
    × (t ≤ t')
    × All (IsBy t') hs
    × IsFrom v t hs v' t'

-- A version that has at least two parts is read as its first two.
pub parse_version-parts :
    (a b rest : String) (v : String)
    → v ≢ ""
    → split b'.' v ≡ a ∷ b ∷ split b'.' rest
    → parse_version v ≡ done (record { major = a; minor = b })
unfolding parse_version
parse_version-parts a b rest v set parts =
    if_else (v == "") _ _ (eq_of_ne v "" set) ∙ ap first_parts parts

parse_version_panics : (v : String) → v ≢ "" → Lacks b'.' v → parse_version v ≡ panicked
unfolding parse_version
parse_version_panics v set lacks =
    if_else (v == "") _ _ (eq_of_ne v "" set) ∙ ap first_parts (split-Lacks b'.' v lacks)

-- When the search yields a version, and that version or, where it is empty, the desired one has no
-- dot in it and is not empty, the extraction panics.
pub extract_open_shift_version_panics :
    (cv : ClusterVersion) (v : String) (t : ℕ)
    → find_latest cv.history ("", 0) ≡ done (v, t)
    → (if v == "" then cv.desired else v) ≢ ""
    → Lacks b'.' (if v == "" then cv.desired else v)
    → extract_open_shift_version cv ≡ panicked
unfolding extract_open_shift_version
extract_open_shift_version_panics cv v t found set lacks =
    rw found (parse_version_panics (if v == "" then cv.desired else v) set lacks)
