-- ===== src/Controllers/GroupSync/Steps.antt =====
-- controllers/groupsync_controller.go: reconciliations interleaved with what happens on both API
-- servers.
use mathlib.Core.Path.{subst, sym}
use appuio_cloud_agent.Base.{
  String, String-cases, eq_iff, ◌≡◌, ◌≢◌, ap, ◌∙◌, ◌⊎◌, inl, inr, none, some, In, arith,
}
use appuio_cloud_agent.Controllers.GroupSync.{
  GroupSyncReconciler, Upstream, UpstreamKey, upstream_key,
}
use appuio_cloud_agent.Controllers.GroupSync.Laws.{KeepsUpstream, W, run, finalizer, group_in}
use appuio_cloud_agent.Controllers.GroupSync.Finalizer.{IsGuarded, IsCovered, reconcile-IsGuarded}
use appuio_cloud_agent.Controllers.GroupSync.Others.{reconcile-IsUntouched}

module _ (r : GroupSyncReconciler) (keeps : KeepsUpstream r.upstreams.kept) where
  open r use {groups, upstreams}

  -- Upstream, objects come, change and go, but one with the finalizer stays, with the finalizer.
  abbrev pub RespectsFinalizers : upstreams.Store → upstreams.Store → Type 0
  RespectsFinalizers before after =
      (k : UpstreamKey) (u : Upstream)
      → upstreams.find k before ≡ some u
      → In (finalizer r keeps) u.finalizers
      → (u' : Upstream) × (upstreams.find k after ≡ some u') × In (finalizer r keeps) u'.finalizers

  -- In the cluster, no one else creates groups.
  abbrev pub CreatesNone : groups.Store → groups.Store → Type 0
  CreatesNone before after =
      (name : String) → groups.find name before ≡ none → groups.find name after ≡ none

  -- A reconciliation, unless it fails before the object upstream that it found carries the finalizer;
  -- a change upstream; a change in the cluster.
  pub data Step (w : W r keeps) (w' : W r keeps) : Type 0 where
    reconciled :
        (name : String)
        → w' ≡ (run r keeps name w).0
        → ((run r keeps name w).1 ≡ none) ⊎ IsCovered r keeps name w
        → Step w w'
    changed_upstream : w'.local ≡ w.local → RespectsFinalizers w.foreign w'.foreign → Step w w'
    changed_groups : w'.foreign ≡ w.foreign → CreatesNone w.local w'.local → Step w w'

  pub data Reach (w : W r keeps) : W r keeps → Type 0 where
    here : Reach w w
    next : {u v : W r keeps} → Reach w u → Step u v → Reach w v

  Step-IsGuarded :
      (name : String) (w w' : W r keeps)
      → Step w w'
      → IsGuarded r keeps name w
      → IsGuarded r keeps name w'
  Step-IsGuarded name w w' (reconciled i e fine) guarded = elim (String-cases i name) [
    | inl same ↦
        let fine' : ((run r keeps name w).1 ≡ none) ⊎ IsCovered r keeps name w =
          subst (λ x. ((run r keeps x w).1 ≡ none) ⊎ IsCovered r keeps x w) same fine in
        subst (IsGuarded r keeps name) (ap (λ x. (run r keeps x w).0) (sym same) ∙ sym e)
          (reconcile-IsGuarded r keeps name w guarded fine')
    | inr other ↦
        let ne : i ≢ name = λ same. absurd (ground (arith, eq_iff i name)) in
        let (group_same, upstream_same) = reconcile-IsUntouched r keeps i name ne w in
        subst (IsGuarded r keeps name) (sym e) (elim guarded [
          | inl gone ↦ inl (group_same ∙ gone)
          | inr (u, held, there) ↦ inr (u, upstream_same ∙ held, there)
        ])
  ]
  Step-IsGuarded name w w' (changed_upstream same respects) guarded = elim guarded [
    | inl gone ↦ inl (ap (groups.find name) same ∙ gone)
    | inr (u, held, there) ↦ inr (respects (upstream_key name) u held there)
  ]
  Step-IsGuarded name w w' (changed_groups same creates_none) guarded = elim guarded [
    | inl gone ↦ inl (creates_none name gone)
    | inr (u, held, there) ↦ inr (u, ap (upstreams.find (upstream_key name)) same ∙ held, there)
  ]

  -- From a state without groups, as long as no one else creates groups, upstream no object with the
  -- finalizer goes or loses it, and no reconciliation fails unless the object upstream that it reads
  -- carries the finalizer, every group that exists is protected: its object upstream exists and
  -- carries the finalizer.
  pub Reach-IsGuarded :
      (w w' : W r keeps)
      → ((name : String) → group_in r keeps name w ≡ none)
      → Reach w w'
      → (name : String) → IsGuarded r keeps name w'
  Reach-IsGuarded w w' empty here name = inl (empty name)
  Reach-IsGuarded w w' empty (next {u} reach step) name =
      Step-IsGuarded name u w' step (Reach-IsGuarded w u empty reach name)
