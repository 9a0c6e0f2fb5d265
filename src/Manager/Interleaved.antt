-- ===== src/Manager/Interleaved.antt =====
-- What holds however Create, Remove and restartPairing (internal/gateway/manager.go) interleave.
use wa_gateway.Base.{
  count_if-append, ℕ, ◌+◌, ◌<◌, ◌≤◌, String, true, false, not, ◌||◌, ◌&&◌, ◌==◌, ◌≡◌, refl, arith,
  List, [], ◌∷◌, ◌++◌, eq_iff, if◌then◌else◌, Assoc, insert, delete, lookup-insert, lookup-delete,
  count_if, Bool-cases, inl, inr,
}
use wa_gateway.Manager.{
  SessionRow, LiveSession, is_named, row_known, new_row, fresh, register, is_live, delete_row,
}
use wa_gateway.Manager.Steps.{
  World, plus, minus, with_rows, Step, check, insert_goes, insert_fails, enter, take_off,
  delete_goes, delete_fails, replace, Reach, here, after,
}

abbrev pub rows_of : String → World → ℕ
rows_of name w = count_if (is_named name) w.manager.rows

abbrev pub lives : String → World → ℕ
lives name w = if is_live name w.manager.sessions then 1 else 0

-- A name has at most one row, and it has one just when its session is in the map, or between its
-- INSERT and its entry, or taken off the map with the row still there.
pub record IsConsistent (w : World) : Type 0 where
  pub unique : (name : String) → rows_of name w ≤ 1
  pub balanced :
      (name : String)
      → rows_of name w ≡ lives name w + w.inserted name + w.taken name + w.stranded name

count_if-row_known :
    (name : String) (rows : List SessionRow)
    → row_known name rows ≡ false
    → count_if (is_named name) rows ≡ 0
count_if-row_known name [] e = refl
count_if-row_known name (r ∷ rows) e =
    ground (arith, e, count_if-row_known name rows (ground (arith, e)))

count_if-delete_row :
    (name k : String) (rows : List SessionRow)
    → count_if (is_named k) (delete_row name rows)
      ≡ (if name == k then 0 else count_if (is_named k) rows)
count_if-delete_row name k [] = ground arith
count_if-delete_row name k (r ∷ rows) =
    ground
      (arith, count_if-delete_row name k rows, eq_iff name k, eq_iff r.name k, eq_iff r.name name)

is_live-insert :
    (name k : String) (s : LiveSession) (m : Assoc LiveSession)
    → is_live k (insert name s m) ≡ (name == k || is_live k m)
is_live-insert name k s m =
    rw lookup-insert (elim (Bool-cases (name == k)) [ inl e ↦ rw e refl | inr e ↦ rw e refl ])

is_live-delete :
    (name k : String) (m : Assoc LiveSession)
    → is_live k (delete name m) ≡ (not (name == k) && is_live k m)
is_live-delete name k m =
    rw lookup-delete (elim (Bool-cases (name == k)) [ inl e ↦ rw e refl | inr e ↦ rw e refl ])

module _ (w : World) (h : IsConsistent w) where
  open h use {unique, balanced}

  IsConsistent-rows_goes :
      (name owner : String)
      → 0 < w.checked name
      → row_known name w.manager.rows ≡ false
      → IsConsistent (record w {
        manager = with_rows (w.manager.rows ++ new_row name owner ∷ []) w.manager;
        checked = minus name w.checked;
        inserted = plus name w.inserted;
      })
  IsConsistent-rows_goes name owner c e = record {
    unique = λ k. ground (
      arith,
      unique k,
      count_if-append (is_named k) w.manager.rows (new_row name owner ∷ []),
      count_if-row_known name w.manager.rows e,
      eq_iff name k,
    );
    balanced = λ k. ground (
      arith,
      balanced k,
      count_if-append (is_named k) w.manager.rows (new_row name owner ∷ []),
      eq_iff name k,
    );
  }

  IsConsistent-enter :
      (name : String)
      → 0 < w.inserted name
      → IsConsistent
          (record w { manager = register name w.manager; inserted = minus name w.inserted })
  IsConsistent-enter name c = record {
    unique = unique;
    balanced = λ k. ground (
      arith,
      balanced k,
      unique k,
      eq_iff name k,
      is_live-insert name k (fresh w.manager.next) w.manager.sessions,
    );
  }

  IsConsistent-take_off :
      (name : String)
      → is_live name w.manager.sessions ≡ true
      → IsConsistent (record w {
        manager = record w.manager { sessions = delete name w.manager.sessions };
        taken = plus name w.taken;
      })
  IsConsistent-take_off name c = record {
    unique = unique;
    balanced =
        λ k. ground (arith, c, balanced k, eq_iff name k, is_live-delete name k w.manager.sessions);
  }

  IsConsistent-delete_goes :
      (name : String)
      → 0 < w.taken name
      → IsConsistent (record w {
        manager = with_rows (delete_row name w.manager.rows) w.manager;
        taken = minus name w.taken;
      })
  IsConsistent-delete_goes name c = record {
    unique = λ k. ground (arith, unique k, count_if-delete_row name k w.manager.rows);
    balanced = λ k.
        ground
          (arith, balanced k, unique k, eq_iff name k, count_if-delete_row name k w.manager.rows);
  }

  IsConsistent-replace :
      (name : String)
      → is_live name w.manager.sessions ≡ true
      → IsConsistent (record w { manager = register name w.manager })
  IsConsistent-replace name c = record {
    unique = unique;
    balanced = λ k. ground (
      arith,
      c,
      balanced k,
      eq_iff name k,
      is_live-insert name k (fresh w.manager.next) w.manager.sessions,
    );
  }

  IsConsistent-delete_fails :
      (name : String)
      → 0 < w.taken name
      → IsConsistent (record w { taken = minus name w.taken; stranded = plus name w.stranded })
  IsConsistent-delete_fails name c = record {
    unique = unique;
    balanced = λ k. ground (arith, balanced k, eq_iff name k);
  }

IsConsistent-Step : (v w : World) → Step v w → IsConsistent v → IsConsistent w
IsConsistent-Step v w (check u name n l) h = record { unique = h.unique; balanced = h.balanced }
IsConsistent-Step v w (insert_goes u name owner c e) h = IsConsistent-rows_goes u h name owner c e
IsConsistent-Step v w (insert_fails u name c) h = record {
  unique = h.unique;
  balanced = h.balanced;
}
IsConsistent-Step v w (enter u name c) h = IsConsistent-enter u h name c
IsConsistent-Step v w (take_off u name c) h = IsConsistent-take_off u h name c
IsConsistent-Step v w (delete_goes u name c) h = IsConsistent-delete_goes u h name c
IsConsistent-Step v w (delete_fails u name c) h = IsConsistent-delete_fails u h name c
IsConsistent-Step v w (replace u name c) h = IsConsistent-replace u h name c

-- However calls of Create and Remove and restarted pairings interleave, from a consistent state only
-- consistent ones are reached: a name never has two rows, and it has one exactly when its session is
-- in the map, or a Create is about to enter it, or a Remove has still to delete it or failed to.
pub IsConsistent-Reach : (v w : World) → Reach v w → IsConsistent v → IsConsistent w
IsConsistent-Reach v w (here u) h = h
IsConsistent-Reach v w (after t u x r s) h = IsConsistent-Step u x s (IsConsistent-Reach t u r h)
