-- ===== src/Events/Bus/Examples.antt =====
-- A subscriber that wants executions of one workspace, and one that wants everything.
use xforgebox.Base.{
  ◌≡◌, refl, String, none, some, List, [], ◌∷◌, map, arith, length, string_eq, option_eq, nat_eq,
}
use xforgebox.Models.{ForgeEvent}
use xforgebox.Events.Bus.{
  EventBus, Subscription, Filter, subscribe, publish, offer, matches, wants_event,
}
use xforgebox.Events.Bus.Laws.{publish_all, offer_all, offer_all_fills, IsFilled, wanted}

abbrev event : String → ForgeEvent
event ws = record { kind = "execution.started"; workspace_id = some ws; execution_id = none }

abbrev picky : Filter
picky = record {
  kinds = some ("execution.started" ∷ []);
  workspace_id = some "ws_1";
  execution_id = none;
}

abbrev everything : Filter
everything = record { kinds = none; workspace_id = none; execution_id = none }

abbrev stream : List ForgeEvent
stream = event "ws_1" ∷ event "ws_2" ∷ event "ws_1" ∷ []

abbrev small_bus : EventBus
small_bus = subscribe everything (subscribe picky (record { subs = []; queue_size = 2 }))

-- The one misses an event that the other has no room for.
received : map (λ s. length s.queue) (publish_all stream small_bus).subs ≡ 2 ∷ 2 ∷ []
unfolding publish_all publish offer subscribe matches wants_event string_eq option_eq nat_eq
    offer_all
received = refl

missed : map (λ s. s.lost) (publish_all stream small_bus).subs ≡ 0 ∷ 1 ∷ []
unfolding publish_all publish offer subscribe matches wants_event string_eq option_eq nat_eq
    offer_all
missed = refl

abbrev listener : Subscription
listener = record { queue = []; predicate = some (matches picky); lost = 0 }

offer_all_fills_example : IsFilled 2 listener (wanted listener stream) (offer_all 2 stream listener)
offer_all_fills_example = offer_all_fills 2 stream listener (omega arith) (omega arith)
