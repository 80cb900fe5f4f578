-- ===== src/Controllers/ProfileApply/Watches.antt =====
-- controllers/zoneusageprofileapply_controller.go: the watches that are installed.
use appuio_cloud_agent.Base.{
  Bool, Bool-cases, true, false, ◌≡◌, refl, ap, ◌∙◌, ◌↔◌, inl, inr, List, [], ◌∷◌, Option, none,
  some, All, All-map, All-In, any, any_iff, Any-In, eq_iff, arith,
}
use appuio_cloud_agent.Kube.{Error}
use appuio_cloud_agent.Controllers.ProfileApply.{
  GroupVersionKind, gvk_beq, is_empty, WatchTracker, after_watch, ensure_watch,
}

pub gvk_beq_iff : (g h : GroupVersionKind) → (gvk_beq g h ≡ true) ↔ (g ≡ h)
gvk_beq_iff g h =
    ground (arith, eq_iff g.group h.group, eq_iff g.version h.version, eq_iff g.kind h.kind)

-- No kind is listed twice.
abbrev pub IsNodup : List GroupVersionKind → Type 0
IsNodup [] = Unit
IsNodup (g ∷ gs) = (any (gvk_beq g) gs ≡ false) × IsNodup gs

-- Each kind is watched at most once, and only if its `sync.Once` has run.
abbrev pub IsTracked : WatchTracker → Type 0
IsTracked t = IsNodup t.watched × All (λ g. any (gvk_beq g) t.tried ≡ true) t.watched

-- A kind that was never tried is not watched.
untried_unwatched :
    (g : GroupVersionKind) (t : WatchTracker)
    → IsTracked t
    → any (gvk_beq g) t.tried ≡ false
    → any (gvk_beq g) t.watched ≡ false
untried_unwatched g t (_, tracked) untried = elim (Bool-cases (any (gvk_beq g) t.watched)) [
  | inr absent ↦ absent
  | inl there ↦
      let (h, listed, same) =
        Any-In (λ x. gvk_beq g x ≡ true) t.watched ((any_iff (gvk_beq g) t.watched).0 there) in
      let e : g ≡ h = (gvk_beq_iff g h).0 same in
      let tried = All-In (λ x. any (gvk_beq x) t.tried ≡ true) t.watched tracked listed in
      let tried' : any (gvk_beq g) t.tried ≡ true = ap (λ x. any (gvk_beq x) t.tried) e ∙ tried in
      absurd (ground arith)
]

tried_more :
    (g : GroupVersionKind) (gs hs : List GroupVersionKind)
    → All (λ x. any (gvk_beq x) gs ≡ true) hs
    → All (λ x. any (gvk_beq x) (g ∷ gs) ≡ true) hs
tried_more g gs hs = All-map (λ x e. ground arith) hs

after_watch-IsTracked :
    (g : GroupVersionKind) (t : WatchTracker) (e : Option Error)
    → IsTracked t
    → any (gvk_beq g) t.tried ≡ false
    → IsTracked (after_watch g t e).0
after_watch-IsTracked g t none tracked untried = (
  (untried_unwatched g t tracked untried, tracked.0),
  (rw ((gvk_beq_iff g g).1 refl) refl, tried_more g t.tried t.watched tracked.1),
)
after_watch-IsTracked g t (some e) tracked untried =
    (tracked.0, tried_more g t.tried t.watched tracked.1)

-- Whatever the outcome of the call that watches, afterwards still every kind is watched at most once.
pub ensure_watch-IsTracked :
    (is_ready : Bool) (watch : GroupVersionKind → Option Error) (g : GroupVersionKind)
    (t : WatchTracker)
    → IsTracked t
    → IsTracked (ensure_watch is_ready watch g t).0
unfolding ensure_watch
ensure_watch-IsTracked false watch g t tracked = tracked
ensure_watch-IsTracked true watch g t tracked = elim (Bool-cases (is_empty g)) [
  | inl empty ↦ rw empty tracked
  | inr set ↦ rw set (elim (Bool-cases (any (gvk_beq g) t.tried)) [
    | inl tried ↦ rw tried tracked
    | inr untried ↦ rw untried (after_watch-IsTracked g t (watch g) tracked untried)
  ])
]

-- When the first attempt to watch a kind fails, the error is returned that once; every later call
-- for this kind, whatever the watch would come to, returns no error, and the kind stays unwatched.
pub ensure_watch_never_again :
    (watch : GroupVersionKind → Option Error) (g : GroupVersionKind) (t : WatchTracker) (e : Error)
    → is_empty g ≡ false
    → IsTracked t
    → any (gvk_beq g) t.tried ≡ false
    → watch g ≡ some e
    → let t' = (ensure_watch true watch g t).0 in
      ((ensure_watch true watch g t).1 ≡ some e)
      × ((later : GroupVersionKind → Option Error) → ensure_watch true later g t' ≡ (t', none))
      × (any (gvk_beq g) t'.watched ≡ false)
unfolding ensure_watch
ensure_watch_never_again watch g t e set tracked untried failed =
    rw (set, untried, failed)
      (refl, λ later. rw ((gvk_beq_iff g g).1 refl) refl, untried_unwatched g t tracked untried)
