-- ===== src/Controllers/ProfileApply/Tests.antt =====
-- The profiles of a zone applied to namespaces, and the theorems there.
use Prim.Native.String.{◌++◌ as str_append}
use appuio_cloud_agent.Base.{
  String, Bool, true, false, ◌≡◌, ◌≢◌, refl, sym, ap, ◌∙◌, ◌↔◌, ◌&&◌, [], ◌∷◌, Option, none, some,
  any, All, In, inl, inr, ◌==◌, eq_iff, arith,
}
use appuio_cloud_agent.Kube.{Client, Error, external, Result, ok, Namespace, first_only}
use appuio_cloud_agent.Kube.Memory.{Keys, memory, memory_works}
use appuio_cloud_agent.Controllers.ProfileApply.Put.{IsProvided}
use appuio_cloud_agent.Controllers.ProfileApply.Complete.{reconcile-IsProvided_always}
use appuio_cloud_agent.Controllers.ProfileApply.{
  resource_owner_label, GroupVersionKind, gvk_beq, ObjectKey, Object, Profile, WatchTracker,
  ZoneUsageProfileApplyReconciler, World, ensure_watch, object_key, apply_resource_to_namespace,
  apply_all, visit, reconcile,
}
use appuio_cloud_agent.Controllers.ProfileApply.Watches.{gvk_beq_iff, ensure_watch_never_again}
use appuio_cloud_agent.Controllers.ProfileApply.Kept.{reconcile-find_other}

abbrev key_beq : ObjectKey → ObjectKey → Bool
key_beq k j = gvk_beq k.gvk j.gvk && (k.namespace == j.namespace && k.name == j.name)

key_beq_iff : (k j : ObjectKey) → (key_beq k j ≡ true) ↔ (k ≡ j)
key_beq_iff k j =
    ground (arith, gvk_beq_iff k.gvk j.gvk, eq_iff k.namespace j.namespace, eq_iff k.name j.name)

abbrev config_map : GroupVersionKind
config_map = record { group = ""; version = "v1"; kind = "ConfigMap" }

-- An object whose content is a text.
abbrev object : String → GroupVersionKind → Object String
object content g = record {
  gvk = g;
  namespace = "";
  name = "";
  labels = [];
  owner = none;
  content = content;
}

abbrev own : String → Object String → Result (Object String)
own p u = ok (record u { owner = some p })

abbrev acme : Namespace
acme = record { name = "acme"; labels = []; annotations = []; deleting = false }

abbrev gold : Profile String
gold = record { name = "gold"; resources = ("settings", "a=b") ∷ [] }

abbrev object_keys : Keys ObjectKey
object_keys = record { beq = key_beq; beq_iff = key_beq_iff }

abbrev objects : Client ObjectKey (Object String)
objects = memory object_keys (λ u. some u)

-- A transformer that adds the name of the namespace to the content.
abbrev tagged : Object String → Namespace → Object String × Option Error
tagged u ns = (record u { content = str_append u.content ns.name }, none)

abbrev reconciler : ZoneUsageProfileApplyReconciler String String
reconciler = record {
  objects = objects;
  get_profile = λ _. ok gold;
  list_namespaces = ok (acme ∷ []);
  is_past = λ _. true;
  is_ready = true;
  watch = λ _. none;
  transformers = tagged ∷ [];
  selected_profile = "gold";
  to_unstructured = λ x. ok (object x config_map);
  zero = "";
  set_controller_reference = own;
}

abbrev key : ObjectKey
key = object_key first_only reconciler "settings" acme (object "a=b" config_map)

abbrev untried : WatchTracker
untried = record { tried = []; watched = [] }

abbrev empty : World first_only reconciler
empty = record { store = λ _. none; tracker = untried }

-- The object is there, and belongs to the profile "silver".
abbrev foreign : Object String
foreign = record (object "c=d" config_map) { labels = (resource_owner_label, "silver") ∷ [] }

abbrev taken : World first_only reconciler
taken = record { store = λ _. some foreign; tracker = untried }

succeeds : (reconcile first_only reconciler "gold" empty).error ≡ none
unfolding reconcile visit apply_all apply_resource_to_namespace ensure_watch
succeeds = refl

applies :
    objects.find key (reconcile first_only reconciler "gold" empty).world.store
    ≡ some (record {
      gvk = config_map;
      namespace = "acme";
      name = "settings";
      labels = (resource_owner_label, "gold") ∷ [];
      owner = some "gold";
      content = "a=bacme";
    })
unfolding reconcile visit apply_all apply_resource_to_namespace ensure_watch
applies = refl

other_name : ◌≢◌ {A = String} "silver" "gold"
other_name h = let e : true ≡ false = ap (λ s. s == "silver") h in absurd (ground arith)

reads_gold :
    (p : Profile String) → ◌≡◌ {A = Result (Profile String)} (ok gold) (ok p) → "silver" ≢ p.name
reads_gold p h e =
    let same : gold ≡ p = ground arith in other_name (e ∙ ap (λ z. z.name) (sym same))

reconcile-find_other_example :
    objects.find key (reconcile first_only reconciler "gold" taken).world.store ≡ some foreign
reconcile-find_other_example =
    reconcile-find_other first_only reconciler "gold" taken key foreign "silver" refl refl
      reads_gold

-- A watch that fails.
abbrev failing : GroupVersionKind → Option Error
failing _ = some (external "no match")

ensure_watch_never_again_example :
    let t' = (ensure_watch true failing config_map untried).0 in
    ((ensure_watch true failing config_map untried).1 ≡ some (external "no match"))
    × ((later : GroupVersionKind → Option Error)
        → ensure_watch true later config_map t' ≡ (t', none))
    × (any (gvk_beq config_map) t'.watched ≡ false)
ensure_watch_never_again_example =
    ensure_watch_never_again failing config_map untried (external "no match") refl (tt, tt) refl
      refl

only_settings :
    (name x y : String) → In (name, x) gold.resources → In (name, y) gold.resources → x ≡ y
only_settings name x y (inl a) (inl b) =
    sym (ap (λ (p : String × String). p.1) a) ∙ ap (λ (p : String × String). p.1) b
only_settings name x y (inl a) (inr never) = absurd never
only_settings name x y (inr never) b = absurd never

only_acme : (a b : Namespace) → In a (acme ∷ []) → In b (acme ∷ []) → a.name ≡ b.name → a ≡ b
only_acme a b (inl x) (inl y) same = sym x ∙ y
only_acme a b (inl x) (inr never) same = absurd never
only_acme a b (inr never) y same = absurd never

reconcile-IsProvided_always_example :
    ((reconcile first_only reconciler "gold" empty).error ≡ none)
    × All
        (IsProvided first_only reconciler gold
          (reconcile first_only reconciler "gold" empty).world.store)
        (acme ∷ [])
reconcile-IsProvided_always_example =
    reconcile-IsProvided_always first_only reconciler gold (memory_works object_keys (λ u. some u))
      (refl, λ g. refl, λ p u. (record u { owner = some p }, refl)) (acme ∷ [])
      (only_settings, only_acme) "gold" empty refl refl refl
      ((object "a=b" config_map, refl, refl), tt) (λ k o q h carries. absurd (ground arith))
