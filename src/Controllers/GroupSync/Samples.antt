-- ===== src/Controllers/GroupSync/Samples.antt =====
-- A cluster and a foreign cluster in memory, for tests.

use appuio_cloud_agent.Base.{
  String, Bool, true, false, ◌≡◌, refl, ◌↔◌, ◌&&◌, List, [], ◌∷◌, Option, none, some, In, ◌==◌,
  eq_iff, arith,
}
use appuio_cloud_agent.Kube.Memory.{
  Keys, string_keys, memory, memory_without_updates, list_finalizers, unsorted,
}
use appuio_cloud_agent.Controllers.GroupSync.{
  Kind, team, organization_members, UpstreamKey, Upstream, GroupSyncReconciler,
}
use appuio_cloud_agent.Controllers.GroupSync.Laws.{KeepsUpstream, W}

abbrev pub kind_beq : Kind → Kind → Bool
kind_beq team team = true
kind_beq organization_members organization_members = true
kind_beq _ _ = false

pub kind_beq_iff : (k j : Kind) → (kind_beq k j ≡ true) ↔ (k ≡ j)
kind_beq_iff team team = (λ h. refl, λ h. refl)
kind_beq_iff team organization_members = (λ h. absurd (ground arith), λ h. absurd (ground arith))
kind_beq_iff organization_members team = (λ h. absurd (ground arith), λ h. absurd (ground arith))
kind_beq_iff organization_members organization_members = (λ h. refl, λ h. refl)

abbrev pub key_beq : UpstreamKey → UpstreamKey → Bool
key_beq k j = kind_beq k.kind j.kind && (k.namespace == j.namespace && k.name == j.name)

pub key_beq_iff : (k j : UpstreamKey) → (key_beq k j ≡ true) ↔ (k ≡ j)
key_beq_iff k j =
    ground (arith, kind_beq_iff k.kind j.kind, eq_iff k.namespace j.namespace, eq_iff k.name j.name)

abbrev pub keys : Keys UpstreamKey
keys = record { beq = key_beq; beq_iff = key_beq_iff }

-- An object that is being deleted goes with its last finalizer.
abbrev pub held : Bool → List String → Upstream → Option Upstream
held false fs u = some u
held true [] u = none
held true (f ∷ fs) u = some u

abbrev pub kept : Upstream → Option Upstream
kept u = held u.deleting u.finalizers u

pub held_present : (b : Bool) (fs : List String) (u : Upstream) → b ≡ false → held b fs u ≡ some u
held_present false fs u h = refl
held_present true fs u h = absurd (ground arith)

pub held_finalized :
    (b : Bool) (fs : List String) (u : Upstream) (f : String) → In f fs → held b fs u ≡ some u
held_finalized false fs u f h = refl
held_finalized true [] u f h = absurd h
held_finalized true (g ∷ fs) u f h = refl

pub held_same : (b : Bool) (fs : List String) (u v : Upstream) → held b fs u ≡ some v → v ≡ u
held_same false fs u v h = ground arith
held_same true [] u v h = absurd (ground arith)
held_same true (g ∷ fs) u v h = ground arith

abbrev pub keeps : KeepsUpstream kept
keeps = record {
  kept_present = λ u h. held_present u.deleting u.finalizers u h;
  kept_finalized = λ u f h. held_finalized u.deleting u.finalizers u f h;
  kept_same = λ u v h. held_same u.deleting u.finalizers u v h;
}

abbrev pub reconciler : GroupSyncReconciler
reconciler = record {
  groups = memory string_keys (λ us. some us);
  upstreams = memory keys kept;
  control_api_finalizer_zone_name = "zone";
  fin = list_finalizers;
  sorting = unsorted;
}

-- The same with a foreign cluster that refuses updates.
abbrev pub refused : GroupSyncReconciler
refused = record reconciler { upstreams = memory_without_updates keys kept }

abbrev pub acme : Upstream
acme = record { deleting = false; finalizers = []; members = "jane" ∷ "joe" ∷ [] }

-- Upstream there is one object under every key.
abbrev pub empty : W reconciler keeps
empty = record { local = λ _. none; foreign = λ _. some acme }

abbrev pub empty_refused : W refused keeps
empty_refused = record { local = λ _. none; foreign = λ _. some acme }
