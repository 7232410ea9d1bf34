-- ===== src/Events/Bus.antt =====
-- src/forge/events/bus.py. A subscription is known by its place; its queue's head is the oldest
-- event. `next_event` is one `await sub.queue.get()` that finds an event.
pub mod Laws
mod Examples
use xforgebox.Base.{
  ℕ, zero, suc, ◌+◌, String, Bool, true, false, not, ◌&&◌, ◌||◌, Option, none, some, List, [], ◌∷◌,
  ◌++◌, map, ltb, length, if◌then◌else◌, ◌==◌, contains, string_eq, option_eq, nat_eq,
}
use xforgebox.Models.{ForgeEvent}

-- The arguments of `subscribe`.
pub record Filter : Type 0 where
  pub kinds : Option (List String)
  pub workspace_id : Option String
  pub execution_id : Option String

-- `_match`
unfoldable pub matches : Filter → ForgeEvent → Bool
matches f ev =
    (elim f.kinds [ none ↦ true | some ks ↦ contains ks ev.kind ])
    && (elim f.workspace_id [ none ↦ true | some w ↦ ev.workspace_id == some w ])
    && (elim f.execution_id [ none ↦ true | some x ↦ ev.execution_id == some x ])

-- `_Subscription`; `none` is no predicate.
pub record Subscription : Type 0 where
  pub queue : List ForgeEvent
  pub predicate : Option (ForgeEvent → Bool)
  pub lost : ℕ

pub record EventBus : Type 0 where
  pub subs : List Subscription
  pub queue_size : ℕ

unfoldable pub wants_event : Subscription → ForgeEvent → Bool
wants_event sub ev = elim sub.predicate [ none ↦ true | some p ↦ p ev ]

-- `put_nowait` on an `asyncio.Queue`: with a `maxsize` of 0 it has no bound.
unfoldable pub offer : ℕ → ForgeEvent → Subscription → Subscription
unfolding wants_event
offer size ev sub =
    if not (wants_event sub ev)
    then sub
    else if size == 0 || ltb (length sub.queue) size
    then record sub { queue = sub.queue ++ ev ∷ [] }
    else record sub { lost = sub.lost + 1 }

unfoldable pub publish : ForgeEvent → EventBus → EventBus
unfolding offer
publish ev bus = record bus { subs = map (offer bus.queue_size ev) bus.subs }

-- The start of the generator, and its end: the subscription at a place is removed.
unfoldable pub subscribe : Filter → EventBus → EventBus
unfolding matches
subscribe f bus = record bus {
  subs = bus.subs ++ record { queue = []; predicate = some (matches f); lost = 0 } ∷ [];
}

unfoldable pub remove_at : ℕ → List Subscription → List Subscription
remove_at i [] = []
remove_at zero (s ∷ ss) = ss
remove_at (suc i) (s ∷ ss) = s ∷ remove_at i ss

unfoldable pub unsubscribe : ℕ → EventBus → EventBus
unfolding remove_at
unsubscribe i bus = record bus { subs = remove_at i bus.subs }

-- The oldest event of a subscription, taken from its queue.
unfoldable pub next_event : Subscription → Option (ForgeEvent × Subscription)
next_event sub = elim sub.queue [ [] ↦ none | ev ∷ rest ↦ some (ev, record sub { queue = rest }) ]
