-- ===== src/Database/Laws.antt =====
-- The rules of round trips: what a success says of the statement, and a connection with no faults.
use gopher_agent_platform.Prelude.{
  ◌≡◌, ◌⊎◌, Option, none, some, List, [], ◌∷◌, arith, Bool, false, ◌==◌, ◌||◌,
}
use gopher_agent_platform.Errors.{
  sentinel, is, no_rows, Sentinel, code, deadline_exceeded, canceled,
}
use gopher_agent_platform.Exec.{Result, ok, err}
use gopher_agent_platform.Database.{
  World, Fault, DriverErr, healthy, lost_before, Statement, query_row, driver_err,
}

module _ {ℓ} {A : Type ℓ} (m : Statement A) (w : World) where
  -- A success is the server's own answer, and the database is as the server left it.
  pub query_row-ok :
      (a : A)
      → (query_row m w).0 ≡ ok a
      → ((m w.db).0 ≡ ok (some a)) × ((query_row m w).1.db ≡ (m w.db).1)
  unfolding query_row
  query_row-ok a h = ground arith

  -- The statement was carried out, or nothing was.
  pub query_row-db : ((query_row m w).1.db ≡ (m w.db).1) ⊎ ((query_row m w).1.db ≡ w.db)
  unfolding query_row
  query_row-db = ground arith

-- The answer of a connection that works.
abbrev pub answered {ℓ} : {A : Type ℓ} → Result (Option A) → Result A
answered (ok none) = err (sentinel no_rows)
answered (ok (some a)) = ok a
answered (err e) = err e

module _ {ℓ} {A : Type ℓ} (m : Statement A) (w : World) where
  -- With no fault to come, a query gives the server's answer and no fault is left.
  pub query_row_healthy :
      w.faults ≡ []
      → ((query_row m w).0 ≡ answered (m w.db).0)
        × ((query_row m w).1.db ≡ (m w.db).1)
        × ((query_row m w).1.faults ≡ [])
  unfolding query_row
  query_row_healthy h = ground arith

-- What a driver reports by itself matches no sentinel but those of an ended context.
abbrev pub by_context : Sentinel → Bool
by_context s = code s == code deadline_exceeded || code s == code canceled

pub driver_err-is-not :
    (d : DriverErr) (s : Sentinel) → by_context s ≡ false → is (driver_err d) s ≡ false
unfolding is
driver_err-is-not d s h = ground arith

-- Where the server has a row to give, a query gives it, or reports the driver's own error.
pub query_row-some {ℓ} :
    {A : Type ℓ} (m : Statement A) (w : World) (a : A)
    → (m w.db).0 ≡ ok (some a)
    → ((query_row m w).0 ≡ ok a) ⊎ ((d : DriverErr) × ((query_row m w).0 ≡ err (driver_err d)))
unfolding query_row
query_row-some m w a h = ground arith

-- A round trip that fails before the server acts changes nothing but the faults to come.
pub query_row_lost {ℓ} :
    {A : Type ℓ} (m : Statement A) (w : World) (d : DriverErr) (fs : List Fault)
    → w.faults ≡ lost_before d ∷ fs
    → query_row m w ≡ (err (driver_err d), record w { faults = fs })
unfolding query_row
query_row_lost m w d fs h = ground arith

-- A round trip that works, with faults after it.
pub query_row-answered {ℓ} :
    {A : Type ℓ} (m : Statement A) (w : World) (fs : List Fault)
    → w.faults ≡ healthy ∷ fs
    → query_row m w ≡ (answered (m w.db).0, record w { db = (m w.db).1; faults = fs })
unfolding query_row
query_row-answered m w fs h = ground arith
