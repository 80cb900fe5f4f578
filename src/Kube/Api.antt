-- ===== src/Kube/Api.antt =====
-- A client for the objects of one kind, and `controllerutil` on them, as interfaces: the calls, and
-- what their documentation promises. A store is what the API server holds.
use appuio_cloud_agent.Base.{
  String, Bool, true, false, ◌≡◌, ◌≢◌, ◌↔◌, ◌⊎◌, List, [], Dict, insert, Option, none, some, In,
  if◌then◌else◌,
}
use appuio_cloud_agent.Kube.Errors.{Error, is_not_found, Result, ok, err}

-- `client.IgnoreNotFound`
abbrev pub ignore_not_found : Error → Option Error
ignore_not_found e = if is_not_found e then none else some e

-- The object that `CreateOrUpdate` hands to its function.
abbrev pub or_given {ℓ} : {A : Type ℓ} → A → Option A → A
or_given a none = a
or_given a (some old) = old

-- A call either succeeds, or returns an error.
pub record Client (K : Type 0) (A : Type 0) : Type 1 where
  pub Store : Type 0
  -- the object that is held under the key
  pub find : K → Store → Option A
  pub get : K → Store → Result A
  pub update : K → A → Store → Store × Option Error
  pub delete : K → Store → Store × Option Error
  pub create_or_update : K → A → (A → Result A) → Store → Store × Option Error
  -- what is held of an object that was updated: none if it is being deleted and nothing keeps it
  pub kept : A → Option A
  pub get-find : (k : K) (s : Store) (a : A) → get k s ≡ ok a → find k s ≡ some a
  pub get-missing :
      (k : K) (s : Store) (e : Error) → get k s ≡ err e → is_not_found e ≡ true → find k s ≡ none
  pub update-find :
      (k : K) (a : A) (s : Store) → (update k a s).1 ≡ none → find k (update k a s).0 ≡ kept a
  -- an update that returns an error may have been made all the same
  pub update-find_or :
      (k : K) (a : A) (s : Store)
      → (find k (update k a s).0 ≡ find k s) ⊎ (find k (update k a s).0 ≡ kept a)
  pub update-find_ne : (k j : K) (a : A) (s : Store) → k ≢ j → find j (update k a s).0 ≡ find j s
  -- nothing else keeps the objects that the agent deletes
  pub delete-find :
      (k : K) (s : Store) (e : Option Error)
      → (delete k s).1 ≡ e
      → (e ≡ none) ⊎ ((f : Error) × (e ≡ some f) × (is_not_found f ≡ true))
      → find k (delete k s).0 ≡ none
  pub delete-find_or :
      (k : K) (s : Store) → (find k (delete k s).0 ≡ find k s) ⊎ (find k (delete k s).0 ≡ none)
  pub delete-find_ne : (k j : K) (s : Store) → k ≢ j → find j (delete k s).0 ≡ find j s
  -- without an error, the object is what the function made of the existing one, or of the given one
  -- where there was none
  pub create_or_update-find :
      (k : K) (a : A) (f : A → Result A) (s : Store)
      → (create_or_update k a f s).1 ≡ none
      → (new : A) × (f (or_given a (find k s)) ≡ ok new)
        × (find k (create_or_update k a f s).0 ≡ some new)
  -- if the function fails, so does the call, and nothing is written
  pub create_or_update-failed :
      (k : K) (a : A) (f : A → Result A) (s : Store) (e : Error)
      → f (or_given a (find k s)) ≡ err e
      → ((create_or_update k a f s).1 ≢ none) × (find k (create_or_update k a f s).0 ≡ find k s)
  -- it gets the object first, and returns an error of that unless the object is not found
  pub create_or_update-get :
      (k : K) (a : A) (f : A → Result A) (s : Store) (e : Error)
      → get k s ≡ err e
      → is_not_found e ≡ false
      → (create_or_update k a f s).1 ≢ none
  -- a call that returns an error may have written what the function made all the same
  pub create_or_update-find_or :
      (k : K) (a : A) (f : A → Result A) (s : Store)
      → (find k (create_or_update k a f s).0 ≡ find k s)
        ⊎ ((new : A) × (f (or_given a (find k s)) ≡ ok new)
            × (find k (create_or_update k a f s).0 ≡ some new))
  pub create_or_update-find_ne :
      (k j : K) (a : A) (f : A → Result A) (s : Store)
      → k ≢ j
      → find j (create_or_update k a f s).0 ≡ find j s

-- The calls do not fail, but to delete a missing object, and to write what the function refuses to
-- make.
pub record Works {K A : Type 0} (c : Client K A) : Type 0 where
  pub update_works : (k : K) (a : A) (s : c.Store) → (c.update k a s).1 ≡ none
  pub delete_works :
      (k : K) (s : c.Store)
      → ((c.delete k s).1 ≡ none)
        ⊎ ((f : Error) × ((c.delete k s).1 ≡ some f) × (is_not_found f ≡ true))
  pub create_or_update_works :
      (k : K) (a : A) (f : A → Result A) (s : c.Store) (new : A)
      → f (or_given a (c.find k s)) ≡ ok new
      → (c.create_or_update k a f s).1 ≡ none

-- `controllerutil.AddFinalizer` and `RemoveFinalizer` on the list of finalizers, each with whether it
-- changed the list.
pub record Finalizers : Type 0 where
  pub add : String → List String → List String × Bool
  pub remove : String → List String → List String × Bool
  pub In-add_iff : (f k : String) (fs : List String) → In k (add f fs).0 ↔ ((f ≡ k) ⊎ In k fs)
  pub add-unchanged : (f : String) (fs : List String) → (add f fs).1 ≡ false → In f fs
  pub In-remove_iff : (f k : String) (fs : List String) → In k (remove f fs).0 ↔ ((f ≢ k) × In k fs)
  pub remove-unchanged :
      (f : String) (fs : List String) → (remove f fs).1 ≡ false → (remove f fs).0 ≡ fs

-- `slices.Sort` on strings, by what it lists.
pub record Sorting : Type 0 where
  pub sort : List String → List String
  pub In-sort_iff : (k : String) (xs : List String) → In k (sort xs) ↔ In k xs

-- A client that patches the annotations of objects. `none` is a map that is `nil`.
pub record Patching : Type 1 where
  pub Store : Type 0
  -- the annotations of the object, if there is one
  pub annotations : String → Store → Option (Option (Dict String))
  pub get : String → Store → Result (Option (Dict String))
  -- sets one annotation
  pub patch : String → String → String → Store → Store × Option Error
  pub get-annotations :
      (name : String) (s : Store) (m : Option (Dict String))
      → get name s ≡ ok m
      → annotations name s ≡ some m
  pub patch-annotations :
      (name k v : String) (s : Store) (m : Option (Dict String))
      → annotations name s ≡ some m
      → (patch name k v s).1 ≡ none
      → annotations name (patch name k v s).0 ≡ some (some (insert k v (or_given [] m)))
