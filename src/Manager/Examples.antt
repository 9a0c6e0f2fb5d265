-- ===== src/Manager/Examples.antt =====
-- The theorem on the interleavings of the manager at a concrete run.
use wa_gateway.Base.{refl, arith, String, ℕ, [], ◌∷◌, lookup}
use wa_gateway.Manager.{ManagerState, new_row}
use wa_gateway.Manager.Steps.{World, Reach, check, insert_goes, here, after, plus, minus}
use wa_gateway.Manager.Interleaved.{IsConsistent, IsConsistent-Reach}

abbrev empty_manager : ManagerState
empty_manager = record { rows = []; sessions = []; next = 0 }

abbrev nobody : String → ℕ
nobody name = 0

abbrev idle : World
idle = record {
  manager = empty_manager;
  checked = nobody;
  inserted = nobody;
  taken = nobody;
  stranded = nobody;
}

idle-IsConsistent : IsConsistent idle
unfolding lookup
idle-IsConsistent = record { unique = λ k. omega arith; balanced = λ k. refl }

abbrev shop_checked : World
shop_checked = record idle { checked = plus "shop" nobody }

abbrev shop_inserted : World
shop_inserted = record shop_checked {
  manager = record empty_manager { rows = new_row "shop" "k1" ∷ [] };
  checked = minus "shop" (plus "shop" nobody);
  inserted = plus "shop" nobody;
}

shop_inserted-Reach : Reach idle shop_inserted
unfolding lookup
shop_inserted-Reach =
    after idle shop_checked shop_inserted
      (after idle idle shop_checked (here idle) (check idle "shop" refl refl))
      (insert_goes shop_checked "shop" "k1" (omega arith) refl)

IsConsistent-Reach_example : IsConsistent shop_inserted
IsConsistent-Reach_example =
    IsConsistent-Reach idle shop_inserted shop_inserted-Reach idle-IsConsistent
