-- ===== src/Controllers/GroupSync.antt =====
-- controllers/groupsync_controller.go. The state is what two API servers hold: the groups of the
-- cluster, and upstream the teams and the lists of organization members. `strings.SplitN` at the
-- first "+" is `cut`.
pub mod Key
pub mod Laws
pub mod Finalizer
pub mod Others
pub mod Steps
pub mod Progress
pub mod Samples
mod Tests
use Prim.Native.String.{◌++◌ as str_append}
use appuio_cloud_agent.Base.{
  ℕ, String, Bool, true, false, List, [], ◌∷◌, Option, none, some, if◌then◌else◌, cut,
}
use appuio_cloud_agent.Kube.{
  Error, is_not_found, ignore_not_found, Result, ok, err, Client, Finalizers, Sorting,
}

abbrev pub organization_members_manifest_name : String
organization_members_manifest_name = "members"

abbrev pub upstream_finalizer_prefix : String
upstream_finalizer_prefix = "agent.appuio.io/group-zone-"

pub data Kind : Type 0 where
  team organization_members : Kind

-- Which object upstream belongs to a group.
pub record UpstreamKey : Type 0 where
  pub kind : Kind
  pub namespace : String
  pub name : String

-- A team, or the members of an organization. `members` are the names in `ResolvedUserRefs`.
pub record Upstream : Type 0 where
  pub deleting : Bool
  pub finalizers : List String
  pub members : List String

abbrev pub organization_key : String → UpstreamKey
organization_key name = record {
  kind = organization_members;
  namespace = name;
  name = organization_members_manifest_name;
}

abbrev pub key_of_cut : String → Option (String × String) → UpstreamKey
key_of_cut name none = organization_key name
key_of_cut name (some (ns, team_name)) = record { kind = team; namespace = ns; name = team_name }

unfoldable pub upstream_key : String → UpstreamKey
upstream_key name = key_of_cut name (cut b'+' name)

-- `teamMapper` and `organizationMembersMapper`: the group that a change upstream is about.
unfoldable pub group_of : UpstreamKey → String
group_of k = elim k.kind [
  | team ↦ str_append k.namespace (str_append "+" k.name)
  | organization_members ↦ k.namespace
]

-- `groups` is the client of the cluster, `upstreams` the foreign one; the rest is the library's.
pub record GroupSyncReconciler : Type 1 where
  pub groups : Client String (List String)
  pub upstreams : Client UpstreamKey Upstream
  pub control_api_finalizer_zone_name : String
  pub fin : Finalizers
  pub sorting : Sorting

module _ (r : GroupSyncReconciler) where
  open r use {groups, upstreams, control_api_finalizer_zone_name, fin, sorting}

  pub record World : Type 0 where
    pub local : groups.Store
    pub foreign : upstreams.Store

  abbrev pub finalizer_name : String
  finalizer_name = str_append upstream_finalizer_prefix control_api_finalizer_zone_name

  -- The update of the finalizers, if they changed.
  abbrev pub update_finalizers :
      UpstreamKey → Upstream → List String × Bool → World → World × Option Error
  update_finalizers k u (fs, false) w = (w, none)
  update_finalizers k u (fs, true) w =
      let (foreign', e) = upstreams.update k (record u { finalizers = fs }) w.foreign in
      (record w { foreign = foreign' }, e)

  -- After the call that deletes the group.
  abbrev pub after_delete : UpstreamKey → Upstream → World → Option Error → World × Option Error
  after_delete k u w none = update_finalizers k u (fin.remove finalizer_name u.finalizers) w
  after_delete k u w (some e) =
      if is_not_found e
      then update_finalizers k u (fin.remove finalizer_name u.finalizers) w
      else (w, some e)

  abbrev pub on_deleting : String → UpstreamKey → Upstream → World → World × Option Error
  on_deleting name k u w =
      let (local', e) = groups.delete name w.local in
      after_delete k u (record w { local = local' }) e

  -- The users of the group, whatever they were.
  abbrev pub users_of : Upstream → List String → Result (List String)
  users_of u old = ok (sorting.sort u.members)

  abbrev pub after_put : UpstreamKey → Upstream → World → Option Error → World × Option Error
  after_put k u w (some e) = (w, some e)
  after_put k u w none = update_finalizers k u (fin.add finalizer_name u.finalizers) w

  abbrev pub on_present : String → UpstreamKey → Upstream → World → World × Option Error
  on_present name k u w =
      let (local', e) = groups.create_or_update name [] (users_of u) w.local in
      after_put k u (record w { local = local' }) e

  abbrev pub on_upstream : String → Result Upstream → World → World × Option Error
  on_upstream name (err e) w = (w, ignore_not_found e)
  on_upstream name (ok u) w =
      if u.deleting
      then on_deleting name (upstream_key name) u w
      else on_present name (upstream_key name) u w

  unfoldable pub reconcile : String → World → World × Option Error
  reconcile name w = on_upstream name (upstreams.get (upstream_key name) w.foreign) w
