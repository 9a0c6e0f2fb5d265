-- ===== src/Keys/Reloaded.antt =====
-- What the cache holds after a reload, and what that means for the secrets of created, rotated
-- and deleted keys.
use wa_gateway.Base.{
  String, ◌==◌, List, [], ◌∷◌, Option, none, some, ◌≡◌, refl, arith, if◌then◌else◌, Assoc, lookup,
  insert, lookup-insert,
}
use wa_gateway.Keys.{KeyState}
use wa_gateway.Keys.Store.{KeyRow, row_key, carried, reload_rows}

abbrev or_row : Option KeyRow → Option KeyRow → Option KeyRow
or_row none o = o
or_row (some r) o = some r

-- The row that a hash finds: the last one, as `reload` reads them in order.
unfoldable pub last_hash : String → List KeyRow → Option KeyRow
last_hash h [] = none
last_hash h (r ∷ rows) = or_row (last_hash h rows) (if r.key_hash == h then some r else none)

-- the state that a reload gives to the row that was found
abbrev pub read_state : Assoc KeyState → Option KeyRow → Option KeyState → Option KeyState
read_state cache none fallback = fallback
read_state cache (some r) fallback = some (carried (lookup r.key_hash cache) (row_key r))

pub lookup-reload_rows :
    (h : String) (cache : Assoc KeyState) (rows : List KeyRow) (next : Assoc KeyState)
    → lookup h (reload_rows cache rows next) ≡ read_state cache (last_hash h rows) (lookup h next)
unfolding reload_rows last_hash
lookup-reload_rows h cache [] next = refl
lookup-reload_rows h cache (r ∷ rows) next =
    rw
      (
        lookup-reload_rows h cache rows
            (insert r.key_hash (carried (lookup r.key_hash cache) (row_key r)) next),
        lookup-insert,
      )
      (ground arith)
