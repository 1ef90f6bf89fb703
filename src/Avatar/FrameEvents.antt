-- ===== src/Avatar/FrameEvents.antt =====
-- frame/webapp/core/avatar.ts: the callbacks of frame events, and the messages of their channel.
use frame_oldbackend_public.Prelude.{
  ℕ, String, none, some, List, [], ◌∷◌, ◌++◌, map, nat_eq, if◌then◌else◌,
}
use frame_oldbackend_public.Prelude.Maps.{Map, lookup, insert, erase}
use frame_oldbackend_public.Types.{Json}
use frame_oldbackend_public.Avatar.State.{event_handled, Avatar, perform}

-- A callback is a number, its identity.
unfoldable pub set_frame_events_handler : String → ℕ → Avatar → Avatar
unfolding lookup insert
set_frame_events_handler event_name func a = record a {
  frame_events_handler =
      insert event_name
        (elim (lookup event_name a.frame_events_handler) [
          | none ↦ func ∷ []
          | some funcs ↦ funcs ++ (func ∷ [])
        ])
        a.frame_events_handler;
}

-- `splice` at the first index of the callback
unfoldable pub without_first : ℕ → List ℕ → List ℕ
without_first func [] = []
without_first func (f ∷ funcs) = if nat_eq f func then funcs else f ∷ without_first func funcs

-- The entry is deleted with its last callback.
abbrev pub store_funcs : String → List ℕ → Map (List ℕ) → Map (List ℕ)
unfolding insert erase
store_funcs event_name [] m = erase event_name m
store_funcs event_name (f ∷ funcs) m = insert event_name (f ∷ funcs) m

unfoldable pub remove_frame_events_handler : String → ℕ → Avatar → Avatar
unfolding lookup without_first insert erase
remove_frame_events_handler event_name func a = elim (lookup event_name a.frame_events_handler) [
  | none ↦ a
  | some funcs ↦ record a {
    frame_events_handler = store_funcs event_name (without_first func funcs) a.frame_events_handler;
  }
]

-- A message arrives: the callbacks of its type are called in order.
unfoldable pub on_frame_event : String → Json → Avatar → Avatar
unfolding lookup
on_frame_event type message a = elim (lookup type a.frame_events_handler) [
  | none ↦ a
  | some funcs ↦ perform (map (λ f. event_handled f message) funcs) a
]
