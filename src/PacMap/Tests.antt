-- ===== src/PacMap/Tests.antt =====
-- A map with the slot of a dial in it.
use telephony_call_manager_m.Prelude.{[], ◌∷◌}
use telephony_call_manager_m.Prelude.Int.{pos}
use telephony_call_manager_m.Types.{Bytes, bytes_eq}
use telephony_call_manager_m.PacMap.{PacMap, int_entry, put}
use telephony_call_manager_m.PacMap.Laws.{IsPut, put-IsPut}

abbrev slot : Bytes
slot = 115 ∷ []

abbrev dial_type : Bytes
dial_type = 100 ∷ []

abbrev extras : PacMap
extras = (slot, int_entry (pos 1)) ∷ []

put-IsPut_example :
    IsPut dial_type (int_entry (pos 0)) extras (put dial_type (int_entry (pos 0)) extras)
put-IsPut_example = put-IsPut dial_type (int_entry (pos 0)) extras
