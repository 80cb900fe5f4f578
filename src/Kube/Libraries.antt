-- ===== src/Kube/Libraries.antt =====
-- Libraries that the agent calls, as interfaces: the operations, and what their documentation
-- promises.
use appuio_cloud_agent.Base.{
  String, ◌≡◌, ◌≢◌, refl, ◌↔◌, ◌⊎◌, List, [], ◌∷◌, Option, none, some, In,
}
use appuio_cloud_agent.Kube.Errors.{Error}

-- `k8s.io/apimachinery/pkg/util/sets`, at strings. `list` is `sets.List`.
pub record StringSet : Type 1 where
  pub Carrier : Type 0
  pub empty : Carrier
  pub insert : String → Carrier → Carrier
  pub list : Carrier → List String
  pub list-empty : list empty ≡ []
  pub list-insert_iff :
      (x k : String) (s : Carrier) → In k (list (insert x s)) ↔ ((x ≡ k) ⊎ In k (list s))

-- `go.uber.org/multierr`. `combine` is `multierr.Combine` on errors that are not nil.
pub record Multierr : Type 0 where
  pub combine : List Error → Option Error
  pub combine-nil : combine [] ≡ none
  pub combine-cons : (e : Error) (es : List Error) → combine (e ∷ es) ≢ none

pub combine-none : (multierr : Multierr) (es : List Error) → multierr.combine es ≡ none → es ≡ []
combine-none multierr [] h = refl
combine-none multierr (e ∷ es) h = absurd (multierr.combine-cons e es h)

-- A set as the list of its insertions.
abbrev pub list_set : StringSet
list_set = record {
  Carrier = List String;
  empty = [];
  insert = λ x s. x ∷ s;
  list = λ s. s;
  list-empty = refl;
  list-insert_iff = λ x k s. (λ h. h, λ h. h);
}

pub some-ne-none {ℓ} : {A : Type ℓ} (a : A) → some a ≢ none
some-ne-none a h = cc

abbrev first_error : List Error → Option Error
first_error [] = none
first_error (e ∷ es) = some e

-- Keeps the first of the errors.
abbrev pub first_only : Multierr
first_only = record {
  combine = first_error;
  combine-nil = refl;
  combine-cons = λ e es. some-ne-none e;
}
