-- ===== src/Manager/Alone.antt =====
-- Create and Remove (internal/gateway/manager.go), each run without another call in
-- between, as runs of the steps.
use wa_gateway.Base.{
  ℕ, String, Bool, true, false, ◌==◌, ◌≡◌, refl, arith, eq_refl, [], ◌∷◌, ◌++◌, delete, ◌<◌,
}
use wa_gateway.Retention.{Tables, PurgeAnswers}
use wa_gateway.Manager.{create, remove, register, is_live, row_known, new_row, delete_row}
use wa_gateway.Manager.Steps.{
  World, Reach, here, after, check, insert_goes, enter, take_off, delete_goes, plus, minus,
  with_rows,
}

plus_positive : (name : String) (f : String → ℕ) → 0 < plus name f name
plus_positive name f = ground (arith, eq_refl name)

module _ (w : World) (name : String) where
  -- what Create leaves when nothing stands in its way
  abbrev created_world : String → World
  created_world owner = record w {
    manager = register name (with_rows (w.manager.rows ++ new_row name owner ∷ []) w.manager);
    checked = minus name (plus name w.checked);
    inserted = minus name (plus name w.inserted);
  }

  create_goes :
      (starts : Bool) (owner : String)
      → (name == "") ≡ false
      → is_live name w.manager.sessions ≡ false
      → row_known name w.manager.rows ≡ false
      → (create true starts name owner w.manager).1 ≡ (created_world owner).manager
  unfolding create
  create_goes starts owner n l r = rw (n, l, r) refl

  pub create-Reach :
      (starts : Bool) (owner : String)
      → (name == "") ≡ false
      → is_live name w.manager.sessions ≡ false
      → row_known name w.manager.rows ≡ false
      → Reach w (created_world owner)
        × ((create true starts name owner w.manager).1 ≡ (created_world owner).manager)
  create-Reach starts owner n l r = (
    after w _ (created_world owner)
        (after w _ _ (after w w _ (here w) (check w name n l))
          (insert_goes _ name owner (plus_positive name w.checked) r))
        (enter _ name (plus_positive name w.inserted)),
    create_goes starts owner n l r,
  )

  -- what Remove leaves when the row is deleted
  abbrev removed_world : World
  removed_world = record w {
    manager =
        with_rows (delete_row name w.manager.rows)
          (record w.manager { sessions = delete name w.manager.sessions });
    taken = minus name (plus name w.taken);
  }

  remove_goes :
      (answers : PurgeAnswers) (enabled : Bool) (tables : Tables)
      → is_live name w.manager.sessions ≡ true
      → (remove true answers enabled name w.manager tables).1 ≡ removed_world.manager
  unfolding remove
  remove_goes answers enabled tables l = rw l refl

  pub remove-Reach :
      (answers : PurgeAnswers) (enabled : Bool) (tables : Tables)
      → is_live name w.manager.sessions ≡ true
      → Reach w removed_world
        × ((remove true answers enabled name w.manager tables).1 ≡ removed_world.manager)
  remove-Reach answers enabled tables l = (
    after w _ removed_world (after w w _ (here w) (take_off w name l))
        (delete_goes _ name (plus_positive name w.taken)),
    remove_goes answers enabled tables l,
  )
