-- ===== src/Examples/Buffers.antt =====
-- A buffer of three characters whose publications return, or of which one raises.
use smart_class_agent.Common.{◌≡◌, refl, true, false, List, [], ◌∷◌, ◌++◌, join, arith}
use smart_class_agent.Tokens.{new_buffer}
use smart_class_agent.Tokens.Delivery.{Event, added, fired, run, all_taken, buffer_loses_nothing}
use smart_class_agent.Tokens.Bounds.{IsSound, buffer_bounded}

abbrev events : List Event
events = added (97 ∷ 98 ∷ []) true ∷ added (99 ∷ []) true ∷ added (100 ∷ []) true ∷ fired true ∷ []

abbrev failing : List Event
failing = added (97 ∷ 98 ∷ []) true ∷ added (99 ∷ 100 ∷ []) false ∷ added (101 ∷ []) true ∷ []

buffer_loses_nothing_example :
    join (run failing (new_buffer 3)).published ++ join (run failing (new_buffer 3)).fragments
    ≡ all_taken failing (new_buffer 3)
buffer_loses_nothing_example = buffer_loses_nothing 3 failing

buffer_bounded_example : IsSound 3 (run events (new_buffer 3))
buffer_bounded_example = buffer_bounded 3 (omega arith) events (refl, (refl, (refl, (refl, tt))))
