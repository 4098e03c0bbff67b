-- ===== src/Bridge/Merge/Queue.antt =====
-- The head of a repository's queue: a row of the table. What the statements leave of the rows.
use sinfonia.Base.{
  ℕ, ◌≡◌, refl, String, Bool, true, Option, some, List, [], ◌∷◌, All, any, find, str_eq, eq_iff,
  eq_refl, inl, inr, Bool-cases, arith, subst, sym, ap,
}
use sinfonia.Base.Order.{sort_by, insert_sorted, gt_or_not}
use sinfonia.Bridge.Types.{LandingRow, LandingStatus}
use sinfonia.Bridge.World.{Environment, World, sql, note}
use sinfonia.Bridge.World.Triple.{Triple, bind_triple, pure_triple, execute_triple, weaken_triple}
use sinfonia.Bridge.Store.{is_row, update_rows, landing_order, list_landings}
use sinfonia.Bridge.Labels.{LabelManager}
use sinfonia.Bridge.Types.{BridgeConfig}
use sinfonia.Bridge.Merge.{rows_of, head_of_queue}
use Prim.Native.Nat.{Ordering}

module _ {κ} {A : Type 0} (cmp : A → A → Ordering) (P : A → Type κ) where
  All-insert_sorted : (a : A) (xs : List A) → P a → All P xs → All P (insert_sorted cmp a xs)
  unfolding insert_sorted
  All-insert_sorted a [] p ps = (p, tt)
  All-insert_sorted a (b ∷ rest) p ps = elim (gt_or_not (cmp a b)) [
    | inl e ↦ rw (e, insert_sorted) (ps.0, All-insert_sorted a rest p ps.1)
    | inr n ↦ subst (All P) (sym (first a b rest n)) (p, ps)
  ]
    where
      first :
          (a b : A) (rest : List A)
          → (cmp a b ≡ Ordering.gt → ⊥)
          → insert_sorted cmp a (b ∷ rest) ≡ a ∷ b ∷ rest
      first a b rest n = ground (arith, n)

  pub All-sort_by : (xs : List A) → All P xs → All P (sort_by cmp xs)
  unfolding sort_by
  All-sort_by [] ps = tt
  All-sort_by (a ∷ rest) ps = All-insert_sorted a (sort_by cmp rest) ps.0 (All-sort_by rest ps.1)

module _ {κ} {A : Type 0} (P : A → Type κ) (p : A → Bool) where
  pub find-All : (xs : List A) (x : A) → All P xs → find p xs ≡ some x → P x × (p x ≡ true)
  find-All [] x ps e = cc
  find-All (y ∷ ys) x ps e = elim (Bool-cases (p y)) [
    | inl q ↦
        let same : y ≡ x = ground (arith, q, e) in subst (λ z. P z × (p z ≡ true)) same (ps.0, q)
    | inr q ↦ find-All ys x ps.1 (ground (arith, q, e))
  ]

-- Nothing is asked of the elements.
pub every : {A : Type 0} (xs : List A) → All (λ _. Unit {0}) xs
every [] = tt
every (x ∷ xs) = (tt, every xs)

-- Every row is in the table.
rows_are_in :
    (table rows : List LandingRow)
    → ((repo : String) (pr : ℕ)
        → any (is_row repo pr) rows ≡ true
        → any (is_row repo pr) table ≡ true)
    → All (λ l. any (is_row l.repo l.pr_number) table ≡ true) rows
rows_are_in table [] sub = tt
rows_are_in table (l ∷ rest) sub = (
  sub l.repo l.pr_number (ground (arith, eq_refl l.repo)),
  rows_are_in table rest (λ repo pr h. sub repo pr (ground (arith, h))),
)

abbrev pub the_head : String → List LandingRow → Option LandingRow
the_head repo rows = find (λ l. str_eq l.repo repo) (sort_by landing_order rows)

-- The head is a row of the repository, and has what all rows have.
pub the_head-All {κ} :
    (P : LandingRow → Type κ) (repo : String) (rows : List LandingRow) (l : LandingRow)
    → All P rows
    → the_head repo rows ≡ some l
    → P l × (l.repo ≡ repo)
the_head-All P repo rows l ps e =
    let (p, same) =
      find-All P (λ l. str_eq l.repo repo) (sort_by landing_order rows) l
        (All-sort_by landing_order P rows ps) e in
    (p, ground (arith, eq_iff l.repo repo, same))

pub the_head-any :
    (repo : String) (rows : List LandingRow) (l : LandingRow)
    → the_head repo rows ≡ some l
    → (any (is_row l.repo l.pr_number) rows ≡ true) × (l.repo ≡ repo)
the_head-any repo rows l e =
    the_head-All (λ l. any (is_row l.repo l.pr_number) rows ≡ true) repo rows l
      (rows_are_in rows rows (λ _ _ h. h)) e

module _ (env : Environment) (cfg : BridgeConfig) (labels : LabelManager) where
  pub head_of_queue-triple :
      {I : World → Type 0} (repo : String)
      → ((w : World) → I w → I (note w (sql "list_landings")))
      → Triple I
          (head_of_queue env cfg labels repo)
          (λ o w. I w × (the_head repo w.tables.landing_queue ≡ o))
          I
  unfolding head_of_queue list_landings
  head_of_queue-triple {I} repo quiet =
      bind_triple {Q = λ ls w. I w × (sort_by landing_order w.tables.landing_queue ≡ ls)}
        (execute_triple env "list_landings" _ (λ w p. (quiet w p, refl)) quiet)
        (λ ls.
          weaken_triple
            (λ w (p : I w × (sort_by landing_order w.tables.landing_queue ≡ ls)).
              (p.0, ap (find (λ l. str_eq l.repo repo)) p.1))
            (λ a w q. q) (λ w e. e) (pure_triple (find (λ l. str_eq l.repo repo) ls)))

pub rows_of-update :
    (now : ℕ) (repo repo' : String) (pr : ℕ) (status : LandingStatus) (sha : String) (attempt : ℕ)
    (rows : List LandingRow)
    → rows_of repo' (update_rows now repo pr status sha attempt rows) ≡ rows_of repo' rows
unfolding update_rows
rows_of-update now repo repo' pr status sha attempt [] = refl
rows_of-update now repo repo' pr status sha attempt (r ∷ rest) =
    ground (arith, rows_of-update now repo repo' pr status sha attempt rest)

pub any-update :
    (now : ℕ) (repo : String) (pr : ℕ) (status : LandingStatus) (sha : String) (attempt : ℕ)
    (rows : List LandingRow)
    → any (is_row repo pr) (update_rows now repo pr status sha attempt rows)
      ≡ any (is_row repo pr) rows
unfolding update_rows
any-update now repo pr status sha attempt [] = refl
any-update now repo pr status sha attempt (r ∷ rest) =
    ground (arith, any-update now repo pr status sha attempt rest)
