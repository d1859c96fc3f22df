-- ===== src/Events/Bus/Refinement.antt =====
-- The bus against an emitter that keeps one list of listeners.
use package.a2a_js.Prelude.{
  String, Bool, true, false, List, [], ◌∷◌, ◌++◌, map, ◌≡◌, refl, ap, sym, map-append,
}
use package.a2a_js.Events.Bus.{
  Channel, new_channel, add_listener, remove_listener, remove_all_listeners, dispatch,
}
use package.a2a_js.Events.Bus.Registrations.{Entry, entry_of, entries, remove_last}
use package.a2a_js.Events.Bus.Invariant.{
  IsConsistent, new_channel-IsConsistent, add_listener-IsConsistent,
}
use package.a2a_js.Events.Bus.Steps.{Shows, remove_listener-Shows}
use package.a2a_js.Events.Bus.Calls.{kept_entries, dispatch-Shows, remove_all_listeners-Shows}

-- What a caller does to the bus.
pub data BusCall : Type 0 where
  on : String → BusCall
  once : String → BusCall
  off : String → BusCall
  publish : BusCall
  remove_all : BusCall

-- The listeners called, in order, and the bus afterwards.
unfoldable pub bus_call : BusCall → Channel → List String × Channel
unfolding add_listener remove_listener dispatch remove_all_listeners
bus_call (on l) ch = ([], add_listener false l ch)
bus_call (once l) ch = ([], add_listener true l ch)
bus_call (off l) ch = ([], remove_listener l ch)
bus_call publish ch = dispatch ch
bus_call remove_all ch = ([], remove_all_listeners ch)

-- The emitter: its listeners, each with whether it is for one call.
unfoldable pub emitter_call : BusCall → List Entry → List String × List Entry
emitter_call (on l) es = ([], es ++ (l, false) ∷ [])
emitter_call (once l) es = ([], es ++ (l, true) ∷ [])
emitter_call (off l) es = ([], remove_last l es)
emitter_call publish es = (map (λ e. e.0) es, kept_entries es)
emitter_call remove_all es = ([], [])

-- The calls that a list of operations makes, operation by operation.
unfoldable pub bus_calls : List BusCall → Channel → List (List String)
unfolding bus_call
bus_calls [] ch = []
bus_calls (c ∷ cs) ch = (bus_call c ch).0 ∷ bus_calls cs (bus_call c ch).1

unfoldable pub emitter_calls : List BusCall → List Entry → List (List String)
unfolding emitter_call
emitter_calls [] es = []
emitter_calls (c ∷ cs) es = (emitter_call c es).0 ∷ emitter_calls cs (emitter_call c es).1

added :
    (single : Bool) (l : String) (ch : Channel)
    → entries (add_listener single l ch).registered ≡ entries ch.registered ++ (l, single) ∷ []
unfolding add_listener
added single l ch =
    map-append entry_of ch.registered
      (record { wrapper = ch.next_wrapper; listener = l; once = single } ∷ [])

-- One operation: the same calls, and again the entries of the emitter.
bus_call-Shows :
    (c : BusCall) (ch : Channel)
    → IsConsistent ch
    → ((bus_call c ch).0 ≡ (emitter_call c (entries ch.registered)).0)
      × Shows (bus_call c ch).1 (emitter_call c (entries ch.registered)).1
unfolding bus_call emitter_call
bus_call-Shows (on l) ch h = (refl, (add_listener-IsConsistent false l ch h, added false l ch))
bus_call-Shows (once l) ch h = (refl, (add_listener-IsConsistent true l ch h, added true l ch))
bus_call-Shows (off l) ch h = (refl, remove_listener-Shows l ch h)
bus_call-Shows publish ch h = dispatch-Shows ch h
bus_call-Shows remove_all ch h = (refl, remove_all_listeners-Shows ch h)

bus_calls_from :
    (cs : List BusCall) (ch : Channel)
    → IsConsistent ch
    → bus_calls cs ch ≡ emitter_calls cs (entries ch.registered)
unfolding bus_calls emitter_calls
bus_calls_from [] ch h = refl
bus_calls_from (c ∷ cs) ch h =
    let (calls, (consistent, shown)) = bus_call-Shows c ch h in
    let rest = bus_calls_from cs (bus_call c ch).1 consistent in
    rw (calls, sym shown) (ap (λ later. (emitter_call c (entries ch.registered)).0 ∷ later) rest)

-- Every list of registrations, removals and publications on a new bus calls the listeners that an
-- emitter calls which keeps one list of them: in the order of registration, once each per
-- registration, a listener for one call only the first time, and a removed one no more, where
-- removing takes the last registration of the listener.
pub bus_calls-emitter_calls : (cs : List BusCall) → bus_calls cs new_channel ≡ emitter_calls cs []
unfolding new_channel
bus_calls-emitter_calls cs = bus_calls_from cs new_channel new_channel-IsConsistent
