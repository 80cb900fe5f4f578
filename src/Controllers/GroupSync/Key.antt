-- ===== src/Controllers/GroupSync/Key.antt =====
-- controllers/groupsync_controller.go: the names of groups and the objects upstream.
use Prim.Native.String.{◌++◌ as str_append, ◌∷◌ as str_cons, [] as str_nil}
use Prim.Native.Char.{Char, code}
use text.Mathlib.TextLemmas.{nil-append, cons-append}
use text.Mathlib.TextEquality.{codes_equal}
use appuio_cloud_agent.Base.{
  ◌≢◌, Option, Bool-cases, nat_beq, inl, inr, cut_after, sym, String, ◌≡◌, refl, ap, ◌∙◌, cut,
  cut-append, cut-Lacks, Lacks, some, none, arith,
}
use appuio_cloud_agent.Controllers.GroupSync.{
  Kind, team, organization_members, UpstreamKey, key_of_cut, upstream_key, group_of,
}

-- A key as they occur upstream: its namespace has no "+", and the members' object has its one name.
abbrev pub IsKey : UpstreamKey → Type 0
IsKey k = Lacks b'+' k.namespace × ((k.kind ≡ organization_members) → k.name ≡ "members")

plus_append : (s : String) → ◌≡◌ {A = String} (str_append "+" s) (str_cons "+" s)
plus_append s = rw cons-append (rw nil-append refl)

by_kind :
    (kind : Kind) (ns name : String)
    → Lacks b'+' ns
    → (kind ≡ organization_members → name ≡ "members")
    → upstream_key (group_of (record { kind = kind; namespace = ns; name = name }))
      ≡ record { kind = kind; namespace = ns; name = name }
unfolding group_of upstream_key
by_kind team ns name lacks only =
    rw (plus_append name) (ap (key_of_cut _) (cut-append b'+' ns "+" name lacks refl))
by_kind organization_members ns name lacks only =
    ap (key_of_cut ns) (cut-Lacks b'+' ns lacks)
    ∙ ap (λ n. record { kind = organization_members; namespace = ns; name = n }) (sym (only refl))

-- For an object upstream whose namespace has no "+", and whose name is the one that is read if it
-- lists the members of an organization, a change makes the controller reconcile the group whose
-- reconciliation reads that very object.
pub upstream_key-group_of : (k : UpstreamKey) → IsKey k → upstream_key (group_of k) ≡ k
upstream_key-group_of k (lacks, only) = by_kind k.kind k.namespace k.name lacks only

group_of-cons :
    (c : Char) (s : String) (r : Option (String × String))
    → group_of (key_of_cut s r) ≡ s
    → group_of (key_of_cut (str_cons c s) (cut_after c r)) ≡ str_cons c s
unfolding group_of
group_of-cons c s none e = refl
group_of-cons c s (some (a, b)) e = rw cons-append (ap (str_cons c) e)

-- The key of a group leads back to the group.
pub group_of-upstream_key : (name : String) → group_of (upstream_key name) ≡ name
unfolding upstream_key group_of cut
group_of-upstream_key str_nil = refl
group_of-upstream_key (str_cons c s) = elim (Bool-cases (nat_beq (code c) b'+')) [
  | inl plus ↦ rw plus (
      rw nil-append
        (plus_append s ∙ ap (λ d. str_cons d s) (sym (codes_equal c "+" (ground arith)))))
  | inr other ↦ rw other (group_of-cons c s (cut b'+' s) (group_of-upstream_key s))
]

pub upstream_key_ne : (i j : String) → i ≢ j → upstream_key i ≢ upstream_key j
upstream_key_ne i j h e =
    h (sym (group_of-upstream_key i) ∙ ap group_of e ∙ group_of-upstream_key j)
