-- ===== src/Daemon/Workspace/Sweep.antt =====
-- The age-based sweep spares what runs and what is young.
use sinfonia.Base.{
  ℕ, ◌≡◌, ◌+◌, ◌≤◌, min, Option, none, ◌*◌, ◌↔◌, ◌||◌, any, ◌≢◌, refl, ◌==◌, String, true, false,
  ◌&&◌, not, some, List, [], ◌∷◌, Map, StringSet, lookup, member, Any, any_iff, sym, ◌∙◌, str_eq,
  eq_iff, eq_refl, u64_saturating_mul, arith, Bool-cases, inl, inr, ap,
}
use sinfonia.Domain.{RunningEntry, sanitize_workspace_key}
use sinfonia.Daemon.Workspace.{
  WorkspaceEntry, is_old, select_stale_workspaces, running_keys, reaped_keys,
}

-- The key of a run is among the running keys.
running_keys-member :
    (running : Map RunningEntry) (id : String) (r : RunningEntry)
    → lookup id running ≡ some r
    → member (sanitize_workspace_key r.identifier) (running_keys running) ≡ true
unfolding lookup member running_keys
running_keys-member [] id r h = cc h
running_keys-member ((j, v) ∷ rest) id r h = elim (Bool-cases (str_eq j id)) [
  | inl e ↦
      let same : v ≡ r = ground (arith, h, e) in
      ground (
        arith,
        ap (λ (x : RunningEntry). sanitize_workspace_key x.identifier) same,
        eq_refl (sanitize_workspace_key r.identifier),
      )
  | inr e ↦ ground (arith, running_keys-member rest id r (ground (arith, h, e)))
]

-- A workspace that may go: it has the key, and has not changed within the hours
abbrev pub Reapable : ℕ → ℕ → String → WorkspaceEntry → Type 0
Reapable now hours k w =
    (w.key ≡ k)
    × (m : ℕ) × (w.modified ≡ some m)
    × (m + min (hours * 3600) 18446744073709551615 * 1000000000 ≤ now)

is_old_iff :
    (now age : ℕ) (o : Option ℕ)
    → (is_old now age o ≡ true) ↔ ((m : ℕ) × (o ≡ some m) × (m + age ≤ now))
is_old_iff now age none = (λ h. cc h, λ h. cc h.1)
is_old_iff now age (some m) = (
  λ h. (m, refl, ground (arith, h)),
  λ h. let same : m ≡ h.0 = cc h.1 in ground (arith, same, h.2),
)

Reapable-iff :
    (now hours : ℕ) (k : String) (w : WorkspaceEntry)
    → ((str_eq w.key k && is_old now (u64_saturating_mul hours 3600 * 1000000000) w.modified)
        ≡ true)
      ↔ Reapable now hours k w
Reapable-iff now hours k w =
    let old = is_old_iff now (u64_saturating_mul hours 3600 * 1000000000) w.modified in
    (
      λ h.
          let o = old.0 (ground (arith, h)) in
          ((eq_iff w.key k).0 (ground (arith, h)), o.0, o.1, o.2),
      λ r. let e = (eq_iff w.key k).1 r.0 in let o = old.1 (r.1, r.2, r.3) in rw (e) o,
    )

Any-map :
    {A : Type 0} (P Q : A → Type 0) (f : (a : A) → P a → Q a) (xs : List A) → Any P xs → Any Q xs
Any-map P Q f [] h = h
Any-map P Q f (x ∷ xs) (inl h) = inl (f x h)
Any-map P Q f (x ∷ xs) (inr h) = inr (Any-map P Q f xs h)

select_step :
    (w : WorkspaceEntry) (rest : List WorkspaceEntry) (keys : StringSet) (now max_age : ℕ)
    (k : String)
    → member k (select_stale_workspaces (w ∷ rest) keys now max_age)
      ≡ (str_eq w.key k && is_old now max_age w.modified && not (member k keys))
        || member k (select_stale_workspaces rest keys now max_age)
unfolding member select_stale_workspaces
select_step w rest keys now max_age k = elim (Bool-cases (str_eq w.key k)) [
  | inl e ↦
      let same : w.key ≡ k = (eq_iff w.key k).0 e in
      rw (same, eq_refl k)
        (elim (Bool-cases (member k keys)) [
          | inl m ↦ rw (m) (elim (Bool-cases (is_old now max_age w.modified)) [
            | inl o ↦ rw (o) refl
            | inr o ↦ rw (o) refl
          ])
          | inr m ↦ rw (m) (elim (Bool-cases (is_old now max_age w.modified)) [
            | inl o ↦ rw (o) (rw (eq_refl k) refl)
            | inr o ↦ rw (o) refl
          ])
        ])
  | inr e ↦ rw (e) (elim (Bool-cases (member w.key keys)) [
    | inl m ↦ rw (m) refl
    | inr m ↦ rw (m) (elim (Bool-cases (is_old now max_age w.modified)) [
      | inl o ↦ rw (o) (rw (e) refl)
      | inr o ↦ rw (o) refl
    ])
  ])
]

select_none :
    (keys : StringSet) (now max_age : ℕ) (k : String)
    → member k (select_stale_workspaces [] keys now max_age) ≡ not (member k keys) && false
unfolding member select_stale_workspaces
select_none keys now max_age k = ground arith

-- Of the workspaces, the selected keys are those of the old ones that do not run.
select-member :
    (entries : List WorkspaceEntry) (keys : StringSet) (now max_age : ℕ) (k : String)
    → member k (select_stale_workspaces entries keys now max_age)
      ≡ not (member k keys) && any (λ w. str_eq w.key k && is_old now max_age w.modified) entries
select-member [] keys now max_age k = select_none keys now max_age k
select-member (w ∷ entries) keys now max_age k =
    rw (select_step w entries keys now max_age k, select-member entries keys now max_age k)
      (ground arith)

no_member : (k : String) → member k [] ≡ false
unfolding member
no_member k = refl

-- The test that the sweep makes of a key
reaped_test :
    (max_age_hours now : ℕ) (running : Map RunningEntry) (entries : List WorkspaceEntry)
    (k : String)
    → member k (reaped_keys max_age_hours now running entries)
      ≡ not (max_age_hours == 0)
        && not (member k (running_keys running))
        && any
            (λ w.
              str_eq w.key k
              && is_old now (u64_saturating_mul max_age_hours 3600 * 1000000000) w.modified)
            entries
unfolding reaped_keys
reaped_test h now running entries k = elim (Bool-cases (h == 0)) [
  | inl e ↦ rw (e) (no_member k)
  | inr e ↦
      rw
        (
          e,
          select-member entries (running_keys running) now (u64_saturating_mul h 3600 * 1000000000)
              k,
        )
        refl
]

-- Whatever the workspaces and the age, the key of an issue in the map of runs that the sweep read is not
-- among those handed to the removal.
pub reaped_spares_runs :
    (max_age_hours now : ℕ) (running : Map RunningEntry) (entries : List WorkspaceEntry)
    (id : String) (r : RunningEntry)
    → lookup id running ≡ some r
    → member (sanitize_workspace_key r.identifier) (reaped_keys max_age_hours now running entries)
      ≡ false
reaped_spares_runs h now running entries id r found =
    rw
      (
        reaped_test h now running entries (sanitize_workspace_key r.identifier),
        running_keys-member running id r found,
      )
      (ground arith)

-- A key is handed to the removal exactly when the sweep is on, no run that the sweep read has the key,
-- and a workspace with the key was last changed at a known time, at least the hours ago; the seconds
-- of the hours saturate.
pub reaped_iff :
    (max_age_hours now : ℕ) (running : Map RunningEntry) (entries : List WorkspaceEntry)
    (k : String)
    → (member k (reaped_keys max_age_hours now running entries) ≡ true) ↔ (
        (max_age_hours ≢ 0)
        × (member k (running_keys running) ≡ false)
        × Any (Reapable now max_age_hours k) entries)
reaped_iff h now running entries k =
    let old =
      any_iff
        (λ (w : WorkspaceEntry).
          str_eq w.key k && is_old now (u64_saturating_mul h 3600 * 1000000000) w.modified)
        entries in
    (
      λ m.
          let t = sym (reaped_test h now running entries k) ∙ m in
          (
            ground (arith, t),
            ground (arith, t),
            Any-map _ _ (λ w. (Reapable-iff now h k w).0) entries (old.0 (ground (arith, t))),
          ),
      λ s.
          rw
            (
              reaped_test h now running entries k,
              s.1,
              old.1 (Any-map _ _ (λ w. (Reapable-iff now h k w).1) entries s.2),
            )
            (ground (arith, s.0)),
    )
