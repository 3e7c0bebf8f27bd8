-- ===== src/Queue/OwnerSlots/Tests.antt =====
-- Three callers, two slots, and leases of a hundred milliseconds.
use docsmint.Prelude.{◌≤◌, ◌≡◌, refl, List, [], ◌∷◌, arith, length, keep}
use docsmint.Queue.OwnerSlots.{
  is_live, visible, put, acquire_lease, release_lease, acquires, releases, request, Event, nobody,
  history,
}
use docsmint.Queue.OwnerSlots.Limit.{history-few}

abbrev events : List Event
events =
    record { at = 10; request = acquires 1 }
    ∷ record { at = 20; request = acquires 2 }
    ∷ record { at = 30; request = acquires 3 }
    ∷ record { at = 40; request = releases 1 }
    ∷ record { at = 50; request = acquires 3 }
    ∷ []

test-holders :
    (history 2 100 events nobody).held
    ≡ record { id = 2; expires = 120 } ∷ record { id = 3; expires = 150 } ∷ []
unfolding history request acquire_lease release_lease visible put nobody
test-holders = refl

history-few_example :
    (length (keep (is_live 60) (history 2 100 events nobody).held) ≤ 2)
    × (keep (is_live 60) (visible 60 (history 2 100 events nobody).slots)
        ≡ keep (is_live 60) (history 2 100 events nobody).held)
history-few_example =
    history-few 2 100 50 events
      (omega arith, (omega arith, (omega arith, (omega arith, (omega arith, omega arith))))) 60
      (omega arith)
