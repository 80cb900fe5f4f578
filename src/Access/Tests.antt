-- ===== src/Access/Tests.antt =====
-- A group that is synchronised, and the request of one of its members.

use appuio_cloud_agent.Base.{
  String, true, false, ◌≡◌, ◌≢◌, refl, ap, ◌↔◌, List, [], ◌∷◌, In, Option, none, some, cut, ◌==◌,
  arith,
}
use appuio_cloud_agent.Kube.{not_found, Result, ok, err, is_allowed, Group}
use appuio_cloud_agent.Webhooks.Samples.{reader, always, bare, no_skip}
use appuio_cloud_agent.Webhooks.Organization.{
  NamespaceProjectOrganizationMutator, handle_user_requested,
}
use appuio_cloud_agent.Controllers.GroupSync.{upstream_key, reconcile}
use appuio_cloud_agent.Controllers.GroupSync.Laws.{W, run, group_in}
use appuio_cloud_agent.Controllers.GroupSync.Samples.{reconciler, keeps, acme, empty}
use appuio_cloud_agent.Access.{handle_user_requested-reconcile_iff}

-- What a client reads of a group that is held or not.
abbrev read : Option (List String) → Result Group
read none = err (not_found "group")
read (some us) = ok (record { users = us })

read_iff : (o : Option (List String)) (g : Group) → (read o ≡ ok g) ↔ (o ≡ some g.users)
read_iff none g = (λ h. absurd (ground arith), λ h. absurd (ground arith))
read_iff (some us) g = (
  λ h. (let e : record { users = us } ≡ g = ground arith in ap (λ z. some z.users) e),
  λ h. (let e : us ≡ g.users = ground arith in ap (λ z. ok (record { users = z })) e),
)

abbrev synced : W reconciler keeps
synced = (run reconciler keeps "acme" empty).0

-- The webhook reads the groups after the synchronisation.
abbrev mutator : NamespaceProjectOrganizationMutator
mutator = record {
  decoder = always (bare "Namespace");
  client = record reader { get_group = λ g. read (group_in reconciler keeps g synced) };
  skipper = no_skip;
  organization_label = "appuio.io/organization";
  user_default_organization_annotation = "default-organization";
}

succeeds : (run reconciler keeps "acme" empty).1 ≡ none
unfolding reconcile upstream_key cut
succeeds = refl

acme-ne-empty : ◌≢◌ {A = String} "acme" ""
acme-ne-empty h = let e : false ≡ true = ap (λ s. s == "") h in absurd (ground arith)

handle_user_requested-reconcile_iff_example :
    (is_allowed (handle_user_requested mutator "jane" (bare "Namespace")) ≡ true)
    ↔ ((false ≡ false) × In {A = String} "jane" ("jane" ∷ "joe" ∷ []))
handle_user_requested-reconcile_iff_example =
    handle_user_requested-reconcile_iff reconciler keeps mutator "acme" "jane" (bare "Namespace")
      (record { annotations = ("default-organization", "acme") ∷ [] }) empty acme refl succeeds
      (read_iff (group_in reconciler keeps "acme" synced)) refl refl acme-ne-empty
