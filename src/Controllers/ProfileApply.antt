-- ===== src/Controllers/ProfileApply.antt =====
-- controllers/zoneusageprofileapply_controller.go. The state is the objects that the API server holds
-- and the watches of the controller. Parameters are the rest of an object's content, the conversion
-- of a resource, the transformers, `SetControllerReference`, and the outcome of `Watch`.
pub mod Laws
pub mod Watches
pub mod Kept
pub mod Owned
pub mod Success
pub mod Content
pub mod Put
pub mod Complete
mod Tests
use Prim.Native.String.{◌++◌ as str_append}
use appuio_cloud_agent.Base.{
  String, Bool, true, false, not, ◌&&◌, List, [], ◌∷◌, Option, none, some, Dict, lookup, insert,
  any, map, ◌==◌, if◌then◌else◌,
}
use appuio_cloud_agent.Kube.{
  Error, errorf, wrapf, text, lit, str, quoted, end, ignore_not_found, Result, ok, err, ◌>>=◌,
  Client, Multierr, Namespace,
}

abbrev pub resource_owner_label : String
resource_owner_label = "cloud-agent.appuio.io/usage-profile"

pub record GroupVersionKind : Type 0 where
  pub group : String
  pub version : String
  pub kind : String

abbrev pub gvk_beq : GroupVersionKind → GroupVersionKind → Bool
gvk_beq a b = a.group == b.group && (a.version == b.version && a.kind == b.kind)

-- `GroupVersionKind.Empty`
abbrev pub is_empty : GroupVersionKind → Bool
is_empty g = gvk_beq g (record { group = ""; version = ""; kind = "" })

-- `GroupVersionKind.String`
abbrev gvk_string : GroupVersionKind → String
gvk_string g =
    str_append g.group (str_append "/" (str_append g.version (str_append ", Kind=" g.kind)))

pub record ObjectKey : Type 0 where
  pub gvk : GroupVersionKind
  pub namespace : String
  pub name : String

-- An unstructured object; `content` is all that the agent does not look at. `none` is an object
-- without an owner.
pub record Object (C : Type 0) : Type 0 where
  pub gvk : GroupVersionKind
  pub namespace : String
  pub name : String
  pub labels : Dict String
  pub owner : Option String
  pub content : C

-- Which kinds had their `sync.Once` run, and which are watched.
pub record WatchTracker : Type 0 where
  pub tried : List GroupVersionKind
  pub watched : List GroupVersionKind

-- A profile, with the resources that it names.
pub record Profile (R : Type 0) : Type 0 where
  pub name : String
  pub resources : Dict R

abbrev pub after_watch :
    GroupVersionKind → WatchTracker → Option Error → WatchTracker × Option Error
after_watch g t none = (record { tried = g ∷ t.tried; watched = g ∷ t.watched }, none)
after_watch g t (some e) = (record t { tried = g ∷ t.tried }, some e)

-- `is_ready` is whether the cache and the controller are set; `watch` is `controller.Watch`.
unfoldable pub ensure_watch :
    Bool
    → (GroupVersionKind → Option Error)
    → GroupVersionKind
    → WatchTracker
    → WatchTracker × Option Error
ensure_watch is_ready watch g t =
    if not is_ready
    then (
      t,
      some (errorf (text "no cache or controller available, unable to install dynamic watch")),
    )
    else (if is_empty g
        then (t, some (errorf (text "unable to watch empty GroupVersionKind")))
        else (if any (gvk_beq g) t.tried then (t, none) else after_watch g t (watch g)))

-- The fields of the reconciler, and of `unstructured` and `controllerutil` what it calls.
pub record ZoneUsageProfileApplyReconciler (C : Type 0) (R : Type 0) : Type 1 where
  pub objects : Client ObjectKey (Object C)
  pub get_profile : String → Result (Profile R)
  -- the namespaces that carry the organization's label
  pub list_namespaces : Result (List Namespace)
  -- whether the time of the deletion has passed
  pub is_past : Namespace → Bool
  pub is_ready : Bool
  pub watch : GroupVersionKind → Option Error
  pub transformers : List (Object C → Namespace → Object C × Option Error)
  pub selected_profile : String
  pub to_unstructured : R → Result (Object C)
  -- the content of an empty object
  pub zero : C
  pub set_controller_reference : String → Object C → Result (Object C)

module _ {C R : Type 0} (multierr : Multierr) (r : ZoneUsageProfileApplyReconciler C R) where
  open r use {objects}

  pub record World : Type 0 where
    pub store : objects.Store
    pub tracker : WatchTracker

  -- The loop over the transformers, whose errors are only logged.
  abbrev pub transform :
      List (Object C → Namespace → Object C × Option Error) → Namespace → Object C → Object C
  transform [] ns u = u
  transform (t ∷ ts) ns u = transform ts ns (t u ns).0

  -- The end of the function that `CreateOrUpdate` calls, on the labels that the object had.
  abbrev pub set_labels : String → Dict String → Object C → Object C
  set_labels profile lbls u = record u { labels = insert resource_owner_label profile lbls }

  abbrev pub labelled_as :
      String → Option String → String → Namespace → Dict String → Object C → Result (Object C)
  labelled_as profile none name ns lbls u = ok (set_labels profile lbls u)
  labelled_as profile (some p) name ns lbls u =
      if not (p == profile)
      then err (
          errorf (
            lit "conflict: resource " (
              quoted (gvk_string u.gvk) (
                lit "/" (
                  quoted name (
                    lit " in " (
                      quoted ns.name
                        (lit " already has a different UsageProfile applied: " (str p end)))))))))
      else ok (set_labels profile lbls u)

  abbrev pub labelled : String → String → Namespace → Dict String → Object C → Result (Object C)
  labelled profile name ns lbls u =
      labelled_as profile (lookup resource_owner_label lbls) name ns lbls u

  abbrev pub owned : Result (Object C) → Result (Object C)
  owned (ok u) = ok u
  owned (err e) = err (wrapf (text "unable to set controller reference: ") e)

  -- The function that `CreateOrUpdate` calls.
  abbrev pub mutate : String → Namespace → Object C → String → Object C → Result (Object C)
  mutate name ns raw profile existing =
      owned (r.set_controller_reference profile (record raw { namespace = ns.name; name = name }))
      >>= λ u. labelled profile name ns existing.labels (transform r.transformers ns u)

  abbrev pub object_key : String → Namespace → Object C → ObjectKey
  object_key name ns raw = record { gvk = raw.gvk; namespace = ns.name; name = name }

  abbrev pub watch_error : Option Error → Option Error → Option Error
  watch_error none e = e
  watch_error (some w) e = some (wrapf (text "unable to watch, object might not be reconciled: ") w)

  -- What is read into, before `CreateOrUpdate` gets the object.
  abbrev pub empty_object : String → Namespace → Object C → Object C
  empty_object name ns raw = record {
    gvk = raw.gvk;
    namespace = ns.name;
    name = name;
    labels = [];
    owner = none;
    content = r.zero;
  }

  -- The kind that is watched is that of the resource.
  abbrev pub apply_raw : String → Namespace → Object C → String → World → World × Option Error
  apply_raw name ns raw profile w =
      let (store', e) =
        objects.create_or_update (object_key name ns raw) (empty_object name ns raw)
          (mutate name ns raw profile) w.store in
      let (tracker', watch_failed) = ensure_watch r.is_ready r.watch raw.gvk w.tracker in
      (record { store = store'; tracker = tracker' }, watch_error watch_failed e)

  abbrev pub apply_converted :
      String → Namespace → Result (Object C) → String → World → World × Option Error
  apply_converted name ns (err e) profile w =
      (w, some (wrapf (text "unable to convert RawExtension to Unstructured: ") e))
  apply_converted name ns (ok raw) profile w = apply_raw name ns raw profile w

  unfoldable pub apply_resource_to_namespace :
      String → Namespace → R → String → World → World × Option Error
  apply_resource_to_namespace name ns resource profile w =
      apply_converted name ns (r.to_unstructured resource) profile w

  -- The world, the errors, and for each event the names of the resource and of the namespace.
  pub record Progress : Type 0 where
    pub world : World
    pub errors : List Error
    pub events : List (String × String)

  abbrev pub with_error : String → String → Option Error → Progress → Progress
  with_error name ns none p = p
  with_error name ns (some e) p = record {
    world = p.world;
    errors = e ∷ p.errors;
    events = (name, ns) ∷ p.events;
  }

  -- The two loops, over the resources and over the namespaces, each before what follows it.
  unfoldable pub apply_all : String → Namespace → Dict R → (World → Progress) → World → Progress
  apply_all profile ns [] rest w = rest w
  apply_all profile ns ((name, resource) ∷ rs) rest w =
      let (w', e) = apply_resource_to_namespace name ns resource profile w in
      with_error name ns.name e (apply_all profile ns rs rest w')

  unfoldable pub visit : Profile R → List Namespace → World → Progress
  visit profile [] w = record { world = w; errors = []; events = [] }
  visit profile (ns ∷ nss) w =
      let rest = visit profile nss in
      if ns.deleting && r.is_past ns
      then rest w
      else apply_all profile.name ns profile.resources rest w

  pub record Outcome : Type 0 where
    pub world : World
    pub error : Option Error
    pub events : List (String × String)

  abbrev pub unchanged : World → Option Error → Outcome
  unchanged w e = record { world = w; error = e; events = [] }

  abbrev pub combined : Progress → Outcome
  combined p = record { world = p.world; error = multierr.combine p.errors; events = p.events }

  abbrev pub on_namespaces : Profile R → Result (List Namespace) → World → Outcome
  on_namespaces profile (err e) w = unchanged w (some e)
  on_namespaces profile (ok nss) w = combined (visit profile nss w)

  abbrev pub on_profile : Result (Profile R) → World → Outcome
  on_profile (err e) w = unchanged w (ignore_not_found e)
  on_profile (ok profile) w = on_namespaces profile r.list_namespaces w

  unfoldable pub reconcile : String → World → Outcome
  reconcile name w =
      if not (r.selected_profile == "") && not (r.selected_profile == name)
      then unchanged w none
      else on_profile (r.get_profile name) w

-- `mapToAllUsageProfiles`: the profiles to reconcile when a namespace changes.
abbrev pub map_to_all_usage_profiles : {R : Type 0} → Result (List (Profile R)) → List String
map_to_all_usage_profiles (err e) = []
map_to_all_usage_profiles (ok profiles) = map (λ p. p.name) profiles
