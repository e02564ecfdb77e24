-- ===== src/Json/Lists.antt =====
-- A list of dictionaries as a value.
use qsol_fed.Base.{List, [], ◌∷◌}
use qsol_fed.Json.{Items, Fields, dict, nil, cons}

abbrev pub as_items : List Fields → Items
as_items [] = nil
as_items (report ∷ reports) = cons (dict report) (as_items reports)
