-- ===== src/Controllers/ZoneVersion.antt =====
-- controllers/zonek8sversion_controller.go. An index out of range, a nil pointer that is read and a
-- write to a nil map are panics. Times are counted from the zero `time.Time`. The REST client and
-- `json.Unmarshal` are fields of the reconciler; the state is what the foreign API server holds.
pub mod Latest
pub mod Laws
mod Tests
use Prim.Native.String.{◌++◌ as str_append}
use appuio_cloud_agent.Base.{
  ℕ, String, Bool, true, false, ◌&&◌, List, [], ◌∷◌, Option, none, some, Dict, insert, ltb, ◌==◌,
  if◌then◌else◌, split,
}
use appuio_cloud_agent.Kube.{Error, errorf, text, Result, ok, err, Client, Multierr}

-- What a call comes to.
pub data Run (A : Type 0) : Type 0 where
  done : A → Run A
  failed : Error → Run A
  panicked : Run A

infixl 5 ◌>>=◌
abbrev pub ◌>>=◌ : {A B : Type 0} → Run A → (A → Run B) → Run B
done a >>= f = f a
failed e >>= f = failed e
panicked >>= f = panicked

abbrev pub checked : {A : Type 0} → Result A → Run A
checked (ok a) = done a
checked (err e) = failed e

-- An entry of `.status.history`.
pub record Update : Type 0 where
  pub state : String
  pub version : String
  pub verified : Bool
  pub completion_time : Option ℕ

pub record ClusterVersion : Type 0 where
  pub history : List Update
  pub desired : String

pub record Version : Type 0 where
  pub major : String
  pub minor : String

-- `currentVersion` and `lastUpdate`
abbrev pub LastUpdate : Type 0
LastUpdate = String × ℕ

abbrev pub is_candidate : Update → Bool
is_candidate h = h.state == "Completed" && h.verified

-- The body of the loop for a candidate.
abbrev pub later_of : Update → Option ℕ → LastUpdate → Run LastUpdate
later_of h none latest = panicked
later_of h (some t) (v, last) = done (if ltb last t then (h.version, t) else (v, last))

abbrev pub visit : Update → LastUpdate → Run LastUpdate
visit h latest = if is_candidate h then later_of h h.completion_time latest else done latest

unfoldable pub find_latest : List Update → LastUpdate → Run LastUpdate
find_latest [] latest = done latest
find_latest (h ∷ hs) latest = visit h latest >>= find_latest hs

abbrev pub first_parts : List String → Run Version
first_parts (a ∷ b ∷ _) = done (record { major = a; minor = b })
first_parts _ = panicked

unfoldable pub parse_version : String → Run Version
parse_version v =
    if v == ""
    then failed (errorf (text "Unable to extract current OpenShift version"))
    else first_parts (split b'.' v)

unfoldable pub extract_open_shift_version : ClusterVersion → Run Version
extract_open_shift_version cv =
    find_latest cv.history ("", 0) >>= λ (v, _). parse_version (if v == "" then cv.desired else v)

abbrev pub format_version : Version → String
format_version v = str_append v.major (str_append "." v.minor)

-- A zone of the control API. `none` is a nil map.
pub record Zone : Type 0 where
  pub name : String
  pub features : Option (Dict String)

abbrev pub kubernetes_version_feature_key : String
kubernetes_version_feature_key = "kubernetesVersion"

abbrev pub openshift_version_feature_key : String
openshift_version_feature_key = "openshiftVersion"

abbrev pub with_versions : Version → Version → Dict String → Dict String
with_versions k8s ocp features =
    insert openshift_version_feature_key (format_version ocp)
      (insert kubernetes_version_feature_key (format_version k8s) features)

pub record ZoneK8sVersionReconciler : Type 1 where
  pub get_cluster_version : Result ClusterVersion
  -- the body of `/version`, and how it is decoded
  pub get_body : Result String
  pub unmarshal : String → Result Version
  pub zones : Client String Zone
  -- the zones that carry the label with the zone's id
  pub list_zones : zones.Store → Result (List Zone)

abbrev pub append_error : Option Error → List Error → List Error
append_error none es = es
append_error (some e) es = e ∷ es

module _ (multierr : Multierr) (r : ZoneK8sVersionReconciler) where
  open r use {zones}

  abbrev pub after_update :
      zones.Store × Run (List Error) → Option Error → zones.Store × Run (List Error)
  after_update (s, rest) e = (s, rest >>= λ es. done (append_error e es))

  -- The body of the loop, by the features of the zone, before the rest of the loop.
  abbrev pub update_zone :
      Version
      → Version
      → Zone
      → Option (Dict String)
      → (zones.Store → zones.Store × Run (List Error))
      → zones.Store
      → zones.Store × Run (List Error)
  update_zone k8s ocp z none rest s = (s, panicked)
  update_zone k8s ocp z (some features) rest s =
      let (s', e) =
        zones.update z.name (record z { features = some (with_versions k8s ocp features) }) s in
      after_update (rest s') e

  -- The loop over the zones: the store, and the errors or a panic.
  unfoldable pub update_zones :
      Version → Version → List Zone → zones.Store → zones.Store × Run (List Error)
  update_zones k8s ocp [] s = (s, done [])
  update_zones k8s ocp (z ∷ zs) s = update_zone k8s ocp z z.features (update_zones k8s ocp zs) s

  abbrev pub combined : List Error → Run (Option Error)
  combined es = done (multierr.combine es)

  abbrev pub finish : zones.Store × Run (List Error) → zones.Store × Run (Option Error)
  finish (s, rest) = (s, rest >>= combined)

  abbrev pub on_zones :
      Version → Version → Result (List Zone) → zones.Store → zones.Store × Run (Option Error)
  on_zones k8s ocp (err e) s = (s, done (some e))
  on_zones k8s ocp (ok zs) s = finish (update_zones k8s ocp zs s)

  abbrev pub on_versions : Run (Version × Version) → zones.Store → zones.Store × Run (Option Error)
  on_versions (done (ocp, k8s)) s = on_zones k8s ocp (r.list_zones s) s
  on_versions (failed e) s = (s, done (some e))
  on_versions panicked s = (s, panicked)

  -- Both versions, in the order in which they are asked for.
  abbrev pub versions : Run (Version × Version)
  versions = checked r.get_cluster_version >>= λ cv. extract_open_shift_version cv >>= λ ocp.
      checked r.get_body >>= λ body. checked (r.unmarshal body) >>= λ k8s. done (ocp, k8s)

  unfoldable pub reconcile : zones.Store → zones.Store × Run (Option Error)
  reconcile s = on_versions versions s
