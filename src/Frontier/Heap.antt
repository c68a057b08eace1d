-- ===== src/Frontier/Heap.antt =====
-- app/services/frontier.py: the two heaps of a host, as `heapq` shows them: the head is the least
-- item by the tuples' order, and a push keeps the list in that order.
use clusy_crawler.Base.{
  Bool, true, false, ◌&&◌, ◌||◌, List, [], ◌∷◌, ltb, ◌==◌, if◌then◌else◌, text_ltb, ltb_ℤ,
}
use clusy_crawler.Frontier.Types.{WaitingHeapItem, ReadyHeapItem}

-- (ready_at, order, generation, url)
unfoldable pub waiting_before : WaitingHeapItem → WaitingHeapItem → Bool
waiting_before a b =
    ltb a.ready_at b.ready_at
    || ((a.ready_at == b.ready_at)
        && (ltb a.order b.order
            || ((a.order == b.order)
                && (ltb a.generation b.generation
                    || ((a.generation == b.generation) && text_ltb a.url b.url)))))

-- (-priority, order, generation, url)
unfoldable pub ready_before : ReadyHeapItem → ReadyHeapItem → Bool
ready_before a b =
    ltb_ℤ b.priority a.priority
    || (not_less a b
        && (ltb a.order b.order
            || ((a.order == b.order)
                && (ltb a.generation b.generation
                    || ((a.generation == b.generation) && text_ltb a.url b.url)))))
  where
    not_less : ReadyHeapItem → ReadyHeapItem → Bool
    not_less c d = if ltb_ℤ c.priority d.priority then false else true

-- heapq.heappush
module _ {A : Type 0} (before : A → A → Bool) where
  unfoldable pub heappush : A → List A → List A
  heappush a [] = a ∷ []
  heappush a (b ∷ h) = if before b a then b ∷ heappush a h else a ∷ b ∷ h

unfoldable pub push_waiting : WaitingHeapItem → List WaitingHeapItem → List WaitingHeapItem
unfolding waiting_before heappush
push_waiting = heappush waiting_before

unfoldable pub push_ready : ReadyHeapItem → List ReadyHeapItem → List ReadyHeapItem
unfolding ready_before heappush
push_ready = heappush ready_before
