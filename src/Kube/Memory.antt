-- ===== src/Kube/Memory.antt =====
-- Instances of the clients' interfaces: a store in memory, whose calls fail only where they must.
use mathlib.Core.Path.{subst}
use appuio_cloud_agent.Base.{
  String, Bool, true, false, ◌&&◌, if_then, ap, Dict, insert, ◌≡◌, ◌≢◌, refl, ◌∙◌, ◌↔◌, ◌⊎◌, inl,
  inr, List, [], ◌∷◌, Option, none, some, In, ◌==◌, eq_iff, String-cases, if◌then◌else◌, Bool-cases,
  contains, contains_iff, arith,
}
use appuio_cloud_agent.Kube.Errors.{
  Error, not_found, external, disabled, errorf, wrapf, is_not_found, Result, ok, err,
}
use appuio_cloud_agent.Kube.Api.{Client, Works, or_given, Finalizers, Sorting, Patching}

-- Keys with a Boolean test for equality.
pub record Keys (K : Type 0) : Type 0 where
  pub beq : K → K → Bool
  pub beq_iff : (k j : K) → (beq k j ≡ true) ↔ (k ≡ j)

abbrev pub string_keys : Keys String
string_keys = record { beq = ◌==◌; beq_iff = eq_iff }

abbrev pair_beq : String × String → String × String → Bool
pair_beq (a, b) (c, d) = a == c && b == d

pub pair_beq_iff : (k j : String × String) → (pair_beq k j ≡ true) ↔ (k ≡ j)
pair_beq_iff (a, b) (c, d) = ground (arith, eq_iff a c, eq_iff b d)

abbrev pub pair_keys : Keys (String × String)
pair_keys = record { beq = pair_beq; beq_iff = pair_beq_iff }

module _ {K A : Type 0} (keys : Keys K) where
  open keys use {beq, beq_iff}

  abbrev write : K → Option A → (K → Option A) → K → Option A
  write k v s j = if beq k j then v else s j

  abbrev found : Option A → Result A
  found none = err (not_found "")
  found (some a) = ok a

  abbrev put : K → Result A → (K → Option A) → (K → Option A) × Option Error
  put k (ok a) s = (write k (some a) s, none)
  put k (err e) s = (s, some e)

  pub write_self : (k : K) (v : Option A) (s : K → Option A) → write k v s k ≡ v
  write_self k v s = rw ((beq_iff k k).1 refl) refl

  pub write_ne : (k j : K) (v : Option A) (s : K → Option A) → k ≢ j → write k v s j ≡ s j
  write_ne k j v s h = elim (Bool-cases (beq k j)) [
    | inl same ↦ absurd (h ((beq_iff k j).0 same))
    | inr other ↦ rw other refl
  ]

  pub found-ok : (o : Option A) (a : A) → found o ≡ ok a → o ≡ some a
  found-ok none a h = absurd (ground arith)
  found-ok (some b) a h = ground arith

  pub found-err : (o : Option A) (e : Error) → found o ≡ err e → o ≡ none
  found-err none e h = refl
  found-err (some b) e h = absurd (ground arith)

  pub found-err_missing : (o : Option A) (e : Error) → found o ≡ err e → is_not_found e ≡ true
  found-err_missing none (not_found x) h = refl
  found-err_missing none (external x) h = absurd (ground arith)
  found-err_missing none disabled h = absurd (ground arith)
  found-err_missing none (errorf x) h = absurd (ground arith)
  found-err_missing none (wrapf x e) h = absurd (ground arith)
  found-err_missing (some a) e h = absurd (ground arith)

  pub get_fails_missing :
      (o : Option A) (e : Error) (x : Option Error)
      → found o ≡ err e
      → is_not_found e ≡ false
      → x ≢ none
  get_fails_missing o e x h n = let there = found-err_missing o e h in absurd (ground arith)

  pub put-ok :
      (k : K) (r : Result A) (s : K → Option A)
      → (put k r s).1 ≡ none
      → (new : A) × (r ≡ ok new) × ((put k r s).0 k ≡ some new)
  put-ok k (ok a) s h = (a, refl, write_self k (some a) s)
  put-ok k (err e) s h = absurd (ground arith)

  pub put_failed :
      (k : K) (r : Result A) (s : K → Option A) (e : Error)
      → r ≡ err e
      → ((put k r s).1 ≢ none) × ((put k r s).0 k ≡ s k)
  put_failed k (ok a) s e h = absurd (ground arith)
  put_failed k (err f) s e h = (λ n. absurd (ground arith), refl)

  pub put_or :
      (k : K) (r : Result A) (s : K → Option A)
      → ((put k r s).0 k ≡ s k) ⊎ ((new : A) × (r ≡ ok new) × ((put k r s).0 k ≡ some new))
  put_or k (ok a) s = inr (a, refl, write_self k (some a) s)
  put_or k (err e) s = inl refl

  pub put_ne : (k j : K) (r : Result A) (s : K → Option A) → k ≢ j → (put k r s).0 j ≡ s j
  put_ne k j (ok a) s h = write_ne k j (some a) s h
  put_ne k j (err e) s h = refl

  abbrev pub memory : (A → Option A) → Client K A
  memory kept = record {
    Store = K → Option A;
    find = λ k s. s k;
    get = λ k s. found (s k);
    update = λ k a s. (write k (kept a) s, none);
    delete = λ k s. (write k none s, none);
    create_or_update = λ k a f s. put k (f (or_given a (s k))) s;
    kept = kept;
    get-find = λ k s a h. found-ok (s k) a h;
    get-missing = λ k s e h _. found-err (s k) e h;
    update-find = λ k a s _. write_self k (kept a) s;
    update-find_or = λ k a s. inr (write_self k (kept a) s);
    update-find_ne = λ k j a s h. write_ne k j (kept a) s h;
    delete-find = λ k s e _ _. write_self k none s;
    delete-find_or = λ k s. inr (write_self k none s);
    delete-find_ne = λ k j s h. write_ne k j none s h;
    create_or_update-find = λ k a f s h. put-ok k (f (or_given a (s k))) s h;
    create_or_update-failed = λ k a f s e h. put_failed k (f (or_given a (s k))) s e h;
    create_or_update-get =
        λ k a f s e h n. get_fails_missing (s k) e (put k (f (or_given a (s k))) s).1 h n;
    create_or_update-find_or = λ k a f s. put_or k (f (or_given a (s k))) s;
    create_or_update-find_ne = λ k j a f s h. put_ne k j (f (or_given a (s k))) s h;
  }

  pub put_works :
      (k : K) (r : Result A) (s : K → Option A) (new : A) → r ≡ ok new → (put k r s).1 ≡ none
  put_works k (ok a) s new h = refl
  put_works k (err e) s new h = absurd (ground arith)

  abbrev pub memory_works : (kept : A → Option A) → Works (memory kept)
  memory_works kept = record {
    update_works = λ k a s. refl;
    delete_works = λ k s. inl refl;
    create_or_update_works = λ k a f s new h. put_works k (f (or_given a (s k))) s new h;
  }

  -- The same, where every update fails and writes nothing.
  pub no_update-find :
      (kept : A → Option A) (k : K) (a : A) (s : K → Option A)
      → ◌≡◌ {A = Option Error} (some (not_found "")) none
      → s k ≡ kept a
  no_update-find kept k a s h = absurd (ground arith)

  abbrev pub memory_without_updates : (A → Option A) → Client K A
  memory_without_updates kept = record (memory kept) {
    update = λ k a s. (s, some (not_found ""));
    update-find = λ k a s h. no_update-find kept k a s h;
    update-find_or = λ k a s. inl refl;
    update-find_ne = λ k j a s h. refl;
  }

-- Lists with at most one more entry, and without one.
abbrev drop_all : String → List String → List String
drop_all f [] = []
drop_all f (x ∷ xs) = if f == x then drop_all f xs else x ∷ drop_all f xs

abbrev add_once : String → List String → List String × Bool
add_once f fs = if contains fs f then (fs, false) else (f ∷ fs, true)

pub In-add_once_iff :
    (f k : String) (fs : List String) → In k (add_once f fs).0 ↔ ((f ≡ k) ⊎ In k fs)
In-add_once_iff f k fs = elim (Bool-cases (contains fs f)) [
  | inl there ↦ rw there (
    λ h. inr h,
    λ h. elim h [ inl e ↦ subst (λ x. In x fs) e ((contains_iff fs f).0 there) | inr m ↦ m ],
  )
  | inr new ↦ rw new (λ h. h, λ h. h)
]

pub add_once-unchanged : (f : String) (fs : List String) → (add_once f fs).1 ≡ false → In f fs
add_once-unchanged f fs h = elim (Bool-cases (contains fs f)) [
  | inl there ↦ (contains_iff fs f).0 there
  | inr new ↦ let h' : true ≡ false = rw new at h in absurd (ground arith)
]

pub In-drop_all_iff : (f k : String) (fs : List String) → In k (drop_all f fs) ↔ ((f ≢ k) × In k fs)
In-drop_all_iff f k [] = (λ h. absurd h, λ h. h.1)
In-drop_all_iff f k (x ∷ fs) =
    let (to, from) = In-drop_all_iff f k fs in
    elim (String-cases f x) [
      | inl same ↦ rw ((eq_iff f x).1 same) (
        λ h. let (n, m) = to h in (n, inr m),
        λ (n, m). elim m [ inl e ↦ absurd (n (same ∙ e)) | inr i ↦ from (n, i) ],
      )
      | inr other ↦ rw other (
        λ h. elim h [
          | inl e ↦ (λ fk. absurd (ground (arith, eq_iff f x)), inl e)
          | inr m ↦ let (n, i) = to m in (n, inr i)
        ],
        λ (n, m). elim m [ inl e ↦ inl e | inr i ↦ inr (from (n, i)) ],
      )
    ]

pub drop_all-absent : (f : String) (fs : List String) → contains fs f ≡ false → drop_all f fs ≡ fs
drop_all-absent f [] h = refl
drop_all-absent f (x ∷ fs) h = ground (arith, eq_iff f x, eq_iff x f, drop_all-absent f fs)

abbrev pub list_finalizers : Finalizers
list_finalizers = record {
  add = add_once;
  remove = λ f fs. (drop_all f fs, contains fs f);
  In-add_iff = In-add_once_iff;
  add-unchanged = add_once-unchanged;
  In-remove_iff = In-drop_all_iff;
  remove-unchanged = drop_all-absent;
}

-- What a list holds does not depend on its order.
abbrev pub unsorted : Sorting
unsorted = record { sort = λ xs. xs; In-sort_iff = λ k xs. (λ h. h, λ h. h) }

-- The annotations of objects in memory.
abbrev with_annotation :
    String → String → Option (Option (Dict String)) → Option (Option (Dict String))
with_annotation k v none = none
with_annotation k v (some m) = some (some (insert k v (or_given [] m)))

abbrev annotated :
    String
    → String
    → String
    → (String → Option (Option (Dict String)))
    → String
    → Option (Option (Dict String))
annotated name k v s j = if name == j then with_annotation k v (s j) else s j

pub annotated_self :
    (name k v : String) (s : String → Option (Option (Dict String))) (m : Option (Dict String))
    → s name ≡ some m
    → annotated name k v s name ≡ some (some (insert k v (or_given [] m)))
annotated_self name k v s m h =
    if_then (name == name) _ _ ((eq_iff name name).1 refl) ∙ ap (with_annotation k v) h

abbrev pub memory_annotations : Patching
memory_annotations = record {
  Store = String → Option (Option (Dict String));
  annotations = λ name s. s name;
  get = λ name s. found string_keys (s name);
  patch = λ name k v s. (annotated name k v s, none);
  get-annotations = λ name s m h. found-ok string_keys (s name) m h;
  patch-annotations = λ name k v s m h _. annotated_self name k v s m h;
}
