-- ===== src/Manager/Steps.antt =====
-- The interleavings of Create, Remove and restartPairing (internal/gateway/manager.go). The manager's
-- lock is held for one step at a time, so that other calls run between the check and the INSERT of
-- Create, between its INSERT and its entry in the map, and between the two halves of Remove.
use wa_gateway.Base.{
  ℕ, suc, ◌-◌, ◌<◌, String, true, false, ◌==◌, ◌≡◌, List, [], ◌∷◌, ◌++◌, if◌then◌else◌, delete,
}
use wa_gateway.Manager.{SessionRow, ManagerState, row_known, new_row, register, is_live, delete_row}

-- the manager, and for each name how many calls of Create have passed the check, have inserted the
-- row, how many of Remove have taken the session off the map, and how many could not delete its row
pub record World : Type 0 where
  pub manager : ManagerState
  pub checked : String → ℕ
  pub inserted : String → ℕ
  pub taken : String → ℕ
  pub stranded : String → ℕ

abbrev pub plus : String → (String → ℕ) → String → ℕ
plus name f k = if name == k then suc (f k) else f k

abbrev pub minus : String → (String → ℕ) → String → ℕ
minus name f k = if name == k then f k - 1 else f k

abbrev pub with_rows : List SessionRow → ManagerState → ManagerState
with_rows rows st = record st { rows = rows }

pub data Step : World → World → Type 0 where
  check :
      (w : World) (name : String)
      → (name == "") ≡ false
      → is_live name w.manager.sessions ≡ false
      → Step w (record w { checked = plus name w.checked })
  insert_goes :
      (w : World) (name owner : String)
      → 0 < w.checked name
      → row_known name w.manager.rows ≡ false
      → Step w (record w {
        manager = with_rows (w.manager.rows ++ new_row name owner ∷ []) w.manager;
        checked = minus name w.checked;
        inserted = plus name w.inserted;
      })
  insert_fails :
      (w : World) (name : String)
      → 0 < w.checked name
      → Step w (record w { checked = minus name w.checked })
  enter :
      (w : World) (name : String)
      → 0 < w.inserted name
      → Step w (record w { manager = register name w.manager; inserted = minus name w.inserted })
  take_off :
      (w : World) (name : String)
      → is_live name w.manager.sessions ≡ true
      → Step w (record w {
        manager = record w.manager { sessions = delete name w.manager.sessions };
        taken = plus name w.taken;
      })
  delete_goes :
      (w : World) (name : String)
      → 0 < w.taken name
      → Step w (record w {
        manager = with_rows (delete_row name w.manager.rows) w.manager;
        taken = minus name w.taken;
      })
  delete_fails :
      (w : World) (name : String)
      → 0 < w.taken name
      → Step w (record w { taken = minus name w.taken; stranded = plus name w.stranded })
  replace :
      (w : World) (name : String)
      → is_live name w.manager.sessions ≡ true
      → Step w (record w { manager = register name w.manager })

pub data Reach : World → World → Type 0 where
  here : (w : World) → Reach w w
  after : (u v w : World) → Reach u v → Step v w → Reach u w
