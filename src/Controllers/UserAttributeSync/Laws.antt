-- ===== src/Controllers/UserAttributeSync/Laws.antt =====
-- controllers/userattributesync_controller.go: the annotations of a user afterwards.
use mathlib.Core.Path.{subst}
use appuio_cloud_agent.Base.{
  String, Bool-cases, if_else, true, ◌≡◌, ◌≢◌, refl, sym, ap, ◌∙◌, inl, inr, [], Option, none, some,
  Dict, lookup, index, insert, lookup-insert, or_empty, ◌==◌, eq_iff, eq_of_ne, arith,
}
use appuio_cloud_agent.Kube.{Error, ok, or_given}
use appuio_cloud_agent.Controllers.UserAttributeSync.{
  default_organization_annotation, UserAttributeSyncReconciler, after_patch, is_correct, on_local,
  on_upstream, reconcile,
}

module _ (r : UserAttributeSyncReconciler) where
  open r use {users}

  -- The user has the preferred default organization, and all other annotations as in `m`.
  abbrev pub IsSynced : String → String → Option (Dict String) → users.Store → Type 0
  IsSynced name upstream m s =
      (m' : Dict String) × (users.annotations name s ≡ some (some m'))
      × (index default_organization_annotation m' ≡ upstream)
      × ((k : String)
          → default_organization_annotation ≢ k
          → lookup k m' ≡ lookup k (or_given [] m))

  insert-others :
      (upstream k : String) (m : Dict String)
      → default_organization_annotation ≢ k
      → lookup k (insert default_organization_annotation upstream m) ≡ lookup k m
  insert-others upstream k m other =
      lookup-insert default_organization_annotation k upstream m
      ∙ if_else (default_organization_annotation == k) _ _
          (eq_of_ne default_organization_annotation k other)

  is_correct-index :
      (upstream : String) (m : Option (Dict String))
      → is_correct r upstream m ≡ true
      → (m' : Dict String) × (m ≡ some m') × (index default_organization_annotation m' ≡ upstream)
  is_correct-index upstream none h = absurd (ground arith)
  is_correct-index upstream (some m) h =
      (m, refl, (eq_iff (index default_organization_annotation m) upstream).0 h)

  after_patch-none :
      (p : users.Store × Option Error)
      → (after_patch r p).error ≡ none
      → (p.1 ≡ none) × ((after_patch r p).store ≡ p.0)
  after_patch-none (s, none) h = (refl, refl)
  after_patch-none (s, some e) h = absurd (ground arith)

  patched-IsSynced :
      (name upstream : String) (s : users.Store) (m : Option (Dict String))
      → users.annotations name s ≡ some m
      → (after_patch r (users.patch name default_organization_annotation upstream s)).error ≡ none
      → IsSynced name upstream m
          (after_patch r (users.patch name default_organization_annotation upstream s)).store
  patched-IsSynced name upstream s m held fine =
      let (patch_fine, same) =
        after_patch-none (users.patch name default_organization_annotation upstream s) fine in
      subst (IsSynced name upstream m) (sym same) (
        insert default_organization_annotation upstream (or_given [] m),
        users.patch-annotations name default_organization_annotation upstream s m held patch_fine,
        ap or_empty (
            lookup-insert default_organization_annotation default_organization_annotation upstream
              (or_given [] m)),
        λ k other. insert-others upstream k (or_given [] m) other,
      )

  -- After a reconciliation without an error, where both users can be read, the annotation is the
  -- organization that is preferred upstream, and no other annotation has changed.
  pub reconcile-IsSynced :
      (name upstream : String) (s : users.Store) (m : Option (Dict String))
      → r.get_upstream name ≡ ok upstream
      → users.get name s ≡ ok m
      → (reconcile r name s).error ≡ none
      → IsSynced name upstream m (reconcile r name s).store
  unfolding reconcile
  reconcile-IsSynced name upstream s m got read =
      subst (λ o. o.error ≡ none → IsSynced name upstream m o.store)
        (sym (ap (λ x. on_upstream r name x s) got ∙ ap (λ x. on_local r name upstream x s) read))
        (elim (Bool-cases (is_correct r upstream m)) [
          | inl correct ↦ rw correct (λ fine.
              let (m', is_map, same) = is_correct-index upstream m correct in
              (
                m',
                users.get-annotations name s m read ∙ ap some is_map,
                same,
                λ k other. ap (λ x. lookup k (or_given [] x)) (sym is_map),
              ))
          | inr wrong ↦ rw wrong (λ fine.
              patched-IsSynced name upstream s m (users.get-annotations name s m read) fine)
        ])
