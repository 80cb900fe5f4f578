-- ===== src/Controllers/LegacyQuota.antt =====
-- controllers/legacy_resource_quota_controller.go. The state is the quotas and the limit ranges that
-- the API server holds. Parameters are quantities and their parser, the parser of the annotation for
-- storage classes, the rest of a quota's specification, the specification of a limit range, and
-- `SetControllerReference`.
pub mod Hard
pub mod Put
pub mod Laws
mod Tests
use Prim.Native.String.{◌++◌ as str_append}
use appuio_cloud_agent.Base.{
  String, Bool, true, false, List, [], ◌∷◌, ◌++◌, Option, none, some, Dict, lookup, index, ◌==◌,
  if◌then◌else◌, contains_text, replace_all,
}
use appuio_cloud_agent.Kube.{
  Error, errorf, wrapf, text, lit, str, end, is_not_found, ignore_not_found, Result, ok, err, ◌>>=◌,
  Client, or_given, Multierr, Namespace,
}

pub record QuotaSpec (Q : Type 0) (S : Type 0) : Type 0 where
  pub hard : Dict Q
  pub rest : S

pub record ResourceQuota (Q : Type 0) (S : Type 0) : Type 0 where
  pub spec : QuotaSpec Q S
  pub owners : List String

pub record LimitRange (L : Type 0) : Type 0 where
  pub spec : L
  pub owners : List String

-- The fields of the reconciler, and what it calls. Objects are held by namespace and name.
pub record LegacyResourceQuotaReconciler (Q : Type 0) (S : Type 0) (L : Type 0) : Type 1 where
  pub quotas : Client (String × String) (ResourceQuota Q S)
  pub limits : Client (String × String) (LimitRange L)
  pub get_namespace : String → Result Namespace
  pub parse_quantity : String → Result Q
  pub unmarshal : String → Result (Dict Q)
  pub set_controller_reference : String → List String → Result (List String)
  -- the specifications of the empty objects
  pub no_quota : QuotaSpec Q S
  pub no_limit : L
  pub organization_label : String
  pub resource_quota_annotation_base : String
  pub default_resource_quotas : Dict (QuotaSpec Q S)
  pub limit_range_name : String
  pub default_limit_range : L

-- `fmt.Sprintf("%s/%s.%s", …)`
abbrev pub annotation : String → String → String → String
annotation base name key = str_append base (str_append "/" (str_append name (str_append "." key)))

-- `strings.ReplaceAll(k, "/", "_")`
abbrev pub underscored : String → String
underscored k = replace_all b'/' "_" k

module _ {Q S L : Type 0} (multierr : Multierr) (r : LegacyResourceQuotaReconciler Q S L) where
  open r use {quotas, limits}

  pub record World : Type 0 where
    pub quota_store : quotas.Store
    pub limit_store : limits.Store

  abbrev pub on_storage : Result (Dict Q) → Dict Q × List Error
  on_storage (ok q) = (q, [])
  on_storage (err e) = ([], wrapf (text "failed to unmarshal storage classes: ") e ∷ [])

  abbrev pub storage_annotation : String → Namespace → String
  storage_annotation name ns =
      index (annotation r.resource_quota_annotation_base name "storageclasses") ns.annotations

  abbrev pub storage_quotas : String → Namespace → Dict Q × List Error
  storage_quotas name ns =
      let sqa = storage_annotation name ns in
      if sqa == "" then ([], []) else on_storage (r.unmarshal sqa)

  abbrev pub on_quantity : String → String → Q → Result Q → Q × List Error
  on_quantity an a q (ok p) = (p, [])
  on_quantity an a q (err e) =
      (q, wrapf (lit "failed to parse quantity " (str an (lit "=" (str a (lit ": " end))))) e ∷ [])

  -- The body of the loop over `spec.Hard`, for one resource and its default.
  abbrev pub quantity_for : String → Namespace → Dict Q → String → Q → Q × List Error
  quantity_for name ns storage k q =
      let an = annotation r.resource_quota_annotation_base name (underscored k) in
      let a = index an ns.annotations in
      if contains_text "storageclass.storage.k8s.io" k
      then (or_given q (lookup k storage), [])
      else (if a == "" then (q, []) else on_quantity an a q (r.parse_quantity a))

  abbrev pub hard_for : String → Namespace → Dict Q → Dict Q → Dict Q × List Error
  hard_for name ns storage [] = ([], [])
  hard_for name ns storage ((k, q) ∷ h) =
      let (p, es) = quantity_for name ns storage k q in
      let (h', es') = hard_for name ns storage h in ((k, p) ∷ h', es ++ es')

  -- What the functions that `CreateOrUpdate` calls make of the object, without their errors.
  abbrev pub set_quota : Namespace → QuotaSpec Q S → ResourceQuota Q S → Result (ResourceQuota Q S)
  set_quota ns spec rq = r.set_controller_reference ns.name rq.owners >>= λ os.
      ok (record { spec = spec; owners = os })

  abbrev pub set_limit : Namespace → LimitRange L → Result (LimitRange L)
  set_limit ns lr = r.set_controller_reference ns.name lr.owners >>= λ os.
      ok (record { spec = r.default_limit_range; owners = os })

  -- `CreateOrUpdate` gets the object first, and calls the function unless that fails.
  abbrev pub calls {ℓ} : {A : Type ℓ} → Result A → Bool
  calls (ok a) = true
  calls (err e) = is_not_found e

  abbrev pub failed_quota : String → Option Error → List Error
  failed_quota name none = []
  failed_quota name (some e) =
      wrapf (lit "failed to reconcile ResourceQuota " (str name (lit ": " end))) e ∷ []

  abbrev pub failed_limit : Option Error → List Error
  failed_limit none = []
  failed_limit (some e) =
      wrapf (lit "failed to reconcile LimitRange " (str r.limit_range_name (lit ": " end))) e ∷ []

  abbrev pub with_hard : QuotaSpec Q S → Dict Q → QuotaSpec Q S
  with_hard spec h = record spec { hard = h }

  -- The loop over the default quotas.
  unfoldable pub apply_quotas :
      Namespace → Dict (QuotaSpec Q S) → quotas.Store → quotas.Store × List Error
  apply_quotas ns [] s = (s, [])
  apply_quotas ns ((name, spec) ∷ specs) s =
      let (storage, storage_errors) = storage_quotas name ns in
      let (h, hard_errors) = hard_for name ns storage spec.hard in
      let (s', e) =
        quotas.create_or_update (ns.name, name) (record { spec = r.no_quota; owners = [] })
          (set_quota ns (with_hard spec h)) s in
      let (s'', es) = apply_quotas ns specs s' in
      (
        s'',
        storage_errors
            ++ ((if calls (quotas.get (ns.name, name) s) then hard_errors else [])
                ++ (failed_quota name e ++ es)),
      )

  unfoldable pub apply_limits : Namespace → limits.Store → limits.Store × List Error
  apply_limits ns s =
      let (s', e) =
        limits.create_or_update (ns.name, r.limit_range_name)
          (record { spec = r.no_limit; owners = [] }) (set_limit ns) s in
      (s', failed_limit e)

  -- The world, the returned error, and the errors that were recorded as events.
  pub record Outcome : Type 0 where
    pub world : World
    pub error : Option Error
    pub events : List Error

  abbrev pub unchanged : World → Option Error → Outcome
  unchanged w e = record { world = w; error = e; events = [] }

  abbrev pub reported : World → Option Error → Outcome
  reported w none = unchanged w none
  reported w (some e) = record {
    world = w;
    error = some (wrapf (text "failed to reconcile ResourceQuotas and LimitRanges: ") e);
    events = e ∷ [];
  }

  abbrev pub on_organization : Namespace → World → Outcome
  on_organization ns w =
      let (s, es) = apply_quotas ns r.default_resource_quotas w.quota_store in
      let (t, fs) = apply_limits ns w.limit_store in
      reported (record { quota_store = s; limit_store = t }) (multierr.combine (es ++ fs))

  abbrev pub if_labelled : Option String → Namespace → World → Outcome
  if_labelled none ns w = unchanged w none
  if_labelled (some organization) ns w = on_organization ns w

  abbrev pub on_namespace : Result Namespace → World → Outcome
  on_namespace (err e) w = unchanged w (ignore_not_found e)
  on_namespace (ok ns) w =
      if ns.deleting
      then unchanged w none
      else if_labelled (lookup r.organization_label ns.labels) ns w

  unfoldable pub reconcile : String → World → Outcome
  reconcile name w = on_namespace (r.get_namespace name) w
