-- ===== src/Bridge/Store/Rows.antt =====
-- What the statements do to the rows.
use sinfonia.Base.{
  ℕ, ◌≤◌, ◌<◌, ◌≡◌, refl, String, true, ◌&&◌, none, some, List, [], ◌∷◌, any, find, filter, length,
  str_eq, eq_iff, if◌then◌else◌, arith, All, Bool-cases, inl, inr, ◌==◌,
}
use sinfonia.Bridge.Types.{LandingRow, LandingStatus}
use sinfonia.Bridge.Store.{is_row, ticket_of, upsert_row, update_rows, delete_rows}

-- A mapping that was written is read, and those of other pull requests stay.
pub ticket_of-upsert :
    (repo repo' : String) (pr pr' : ℕ) (ticket : String) (rows : List (String × ℕ × String))
    → ticket_of repo' pr' (upsert_row repo pr ticket rows)
      ≡ (if str_eq repo repo' && pr == pr' then some ticket else ticket_of repo' pr' rows)
unfolding upsert_row
ticket_of-upsert repo repo' pr pr' ticket [] = refl
ticket_of-upsert repo repo' pr pr' ticket ((r, n, t) ∷ rest) = ground (
  arith,
  ticket_of-upsert repo repo' pr pr' ticket rest,
  eq_iff repo repo',
  eq_iff r repo,
  eq_iff r repo',
)

-- The number of rows of a repository.
abbrev pub rows_of : String → List LandingRow → ℕ
rows_of repo rows = length (filter (λ r. str_eq r.repo repo) rows)

pub find-delete :
    (repo : String) (pr : ℕ) (rows : List LandingRow)
    → find (is_row repo pr) (delete_rows repo pr rows) ≡ none
unfolding delete_rows
find-delete repo pr [] = refl
find-delete repo pr (r ∷ rest) = ground (arith, find-delete repo pr rest)

pub rows_of-delete-le :
    (repo repo' : String) (pr : ℕ) (rows : List LandingRow)
    → rows_of repo' (delete_rows repo pr rows) ≤ rows_of repo' rows
unfolding delete_rows
rows_of-delete-le repo repo' pr [] = omega arith
rows_of-delete-le repo repo' pr (r ∷ rest) = ground (arith, rows_of-delete-le repo repo' pr rest)

-- A deletion that meets a row leaves fewer of its repository.
pub rows_of-delete-lt :
    (repo : String) (pr : ℕ) (rows : List LandingRow)
    → any (is_row repo pr) rows ≡ true
    → rows_of repo (delete_rows repo pr rows) < rows_of repo rows
unfolding delete_rows
rows_of-delete-lt repo pr [] h = cc
rows_of-delete-lt repo pr (r ∷ rest) h =
    ground (arith, rows_of-delete-le repo repo pr rest, rows_of-delete-lt repo pr rest)

pub All-delete {κ} :
    (P : LandingRow → Type κ) (repo : String) (pr : ℕ) (rows : List LandingRow)
    → All P rows
    → All P (delete_rows repo pr rows)
unfolding delete_rows
All-delete P repo pr [] h = tt
All-delete P repo pr (r ∷ rest) h = elim (Bool-cases (is_row repo pr r)) [
  | inl e ↦ rw e (All-delete P repo pr rest h.1)
  | inr e ↦ rw e (h.0, All-delete P repo pr rest h.1)
]

pub All-update {κ} :
    (P : LandingRow → Type κ) (now : ℕ) (repo : String) (pr : ℕ) (status : LandingStatus)
    (sha : String) (attempt : ℕ) (rows : List LandingRow)
    → ((r : LandingRow)
        → P r
        → P (record r { status = status; head_sha = sha; attempt = attempt; updated_at = now }))
    → All P rows
    → All P (update_rows now repo pr status sha attempt rows)
unfolding update_rows
All-update P now repo pr status sha attempt [] f h = tt
All-update P now repo pr status sha attempt (r ∷ rest) f h = elim (Bool-cases (is_row repo pr r)) [
  | inl e ↦ rw e (f r h.0, All-update P now repo pr status sha attempt rest f h.1)
  | inr e ↦ rw e (h.0, All-update P now repo pr status sha attempt rest f h.1)
]
