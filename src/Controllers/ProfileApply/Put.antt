-- ===== src/Controllers/ProfileApply/Put.antt =====
-- controllers/zoneusageprofileapply_controller.go: what one resource is after its call, and stays.
use mathlib.Core.Path.{subst}
use appuio_cloud_agent.Base.{
  String, ◌&&◌, ◌≡◌, refl, sym, ap, ◌∙◌, ◌⊎◌, inl, inr, List, some, In, All, true, arith,
}
use appuio_cloud_agent.Kube.{ok, or_given, Multierr, Namespace, Works}
use appuio_cloud_agent.Controllers.ProfileApply.{
  ObjectKey, Object, Profile, ZoneUsageProfileApplyReconciler, mutate, object_key,
}
use appuio_cloud_agent.Controllers.ProfileApply.Laws.{key_cases, zero_of, applied}
use appuio_cloud_agent.Controllers.ProfileApply.Success.{IsUncontested, IsWorking, applied_works}
use appuio_cloud_agent.Controllers.ProfileApply.Content.{IsMade, mutate-IsMade}

module _ {C R : Type 0} (multierr : Multierr) (r : ZoneUsageProfileApplyReconciler C R) where
  open r use {objects}

  module _ (profile : Profile R) where
    -- The resource converts, and the object under its kind and name in the namespace is this resource.
    abbrev pub IsComplete : objects.Store → Namespace → String × R → Type 0
    IsComplete s ns (name, x) =
        (raw : Object C) × (r.to_unstructured x ≡ ok raw)
        × ((o : Object C) × (objects.find
                (record { gvk = raw.gvk; namespace = ns.name; name = name }) s
              ≡ some o)
            × IsMade multierr r profile.name name ns raw o)

    abbrev pub IsProvided : objects.Store → Namespace → Type 0
    IsProvided s ns =
        ((ns.deleting && r.is_past ns) ≡ true) ⊎ All (IsComplete s ns) profile.resources

    -- Names are those of one resource, or of one namespace.
    abbrev pub IsNamed : List Namespace → Type 0
    IsNamed nss =
        ((name : String) (x y : R)
          → In (name, x) profile.resources
          → In (name, y) profile.resources
          → x ≡ y)
        × ((a b : Namespace) → In a nss → In b nss → a.name ≡ b.name → a ≡ b)

    -- The object under the key is one of the resources in one of the namespaces.
    abbrev pub IsPut : List Namespace → ObjectKey → objects.Store → Type 0
    IsPut nss k s =
        (name : String) × (x : R) × (ns : Namespace) × (raw : Object C) × (o : Object C) × In
          (name, x) profile.resources
        × In ns nss
        × (r.to_unstructured x ≡ ok raw)
        × (object_key multierr r name ns raw ≡ k)
        × (objects.find k s ≡ some o)
        × IsMade multierr r profile.name name ns raw o

    module _ (works : Works objects) (working : IsWorking multierr r) (nss : List Namespace)
        (named : IsNamed nss) where
      pub IsPut-IsComplete :
          (name : String) (x : R) (ns : Namespace) (raw : Object C) (s : objects.Store)
          → In (name, x) profile.resources
          → In ns nss
          → r.to_unstructured x ≡ ok raw
          → IsPut nss (object_key multierr r name ns raw) s
          → IsComplete s ns (name, x)
      IsPut-IsComplete name x ns raw s there here converts
            (name', x', ns', raw', o, there', here', converts', same, held, made) =
          let name_same : name' ≡ name = ap (λ (k : ObjectKey). k.name) same in
          let ns_same : ns' ≡ ns =
            named.1 ns' ns here' here (ap (λ (k : ObjectKey). k.namespace) same) in
          let x_same : x' ≡ x =
            named.0 name x' x
              (subst (λ (n : String). In (n, x') profile.resources) name_same there') there in
          let raws : ok raw' ≡ ok raw = sym converts' ∙ ap r.to_unstructured x_same ∙ converts in
          let raw_same : raw' ≡ raw = ground arith in
          let at_name =
            subst (λ (n : String). IsMade multierr r profile.name n ns' raw' o) name_same made in
          let at_namespace =
            subst (λ (m : Namespace). IsMade multierr r profile.name name m raw' o) ns_same
              at_name in
          (
            raw,
            converts,
            (
              o,
              held,
              subst (λ (z : Object C). IsMade multierr r profile.name name ns z o) raw_same
                  at_namespace,
            ),
          )

      module _ (name : String) (ns : Namespace) (x : R) (raw : Object C)
          (there : In (name, x) profile.resources) (here : In ns nss)
          (converts : r.to_unstructured x ≡ ok raw) where
        pub applied-IsPut :
            (s : objects.Store)
            → IsUncontested multierr r profile.name s
            → IsPut nss
                (object_key multierr r name ns raw)
                (applied multierr r name ns raw profile.name s).0
        applied-IsPut s own =
            let k = object_key multierr r name ns raw in
            let zero = zero_of multierr r name ns raw in
            let (new, made, held) =
              objects.create_or_update-find k zero (mutate multierr r name ns raw profile.name) s
                (applied_works multierr r works working profile name ns raw s own) in
            (
              name,
              x,
              ns,
              raw,
              new,
              there,
              here,
              converts,
              refl,
              held,
              mutate-IsMade multierr r name ns raw profile.name (or_given zero (objects.find k s))
                  new made,
            )

        pub applied-IsPut_stays :
            (j : ObjectKey) (s : objects.Store)
            → IsPut nss j s
            → IsPut nss j (applied multierr r name ns raw profile.name s).0
        applied-IsPut_stays j s (n, y, m, z, o, a, b, c, d, held, made) =
            let k = object_key multierr r name ns raw in
            let zero = zero_of multierr r name ns raw in
            let f = mutate multierr r name ns raw profile.name in
            elim (key_cases k j) [
              | inr ne ↦ (
                n,
                y,
                m,
                z,
                o,
                a,
                b,
                c,
                d,
                objects.create_or_update-find_ne k j zero f s ne ∙ held,
                made,
              )
              | inl same ↦
                  subst
                    (λ (i : ObjectKey).
                      IsPut nss i (applied multierr r name ns raw profile.name s).0)
                    same
                    (elim (objects.create_or_update-find_or k zero f s) [
                      | inl old ↦ (
                        n,
                        y,
                        m,
                        z,
                        o,
                        a,
                        b,
                        c,
                        d ∙ sym same,
                        old ∙ ap (λ (i : ObjectKey). objects.find i s) same ∙ held,
                        made,
                      )
                      | inr (new, is, held_new) ↦ (
                        name,
                        x,
                        ns,
                        raw,
                        new,
                        there,
                        here,
                        converts,
                        refl,
                        held_new,
                        mutate-IsMade multierr r name ns raw profile.name
                            (or_given zero (objects.find k s)) new is,
                      )
                    ])
            ]
