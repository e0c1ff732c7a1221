-- ===== src/OptionalQueue.antt =====
-- tg2sip/queue.h: the mutex-protected queue between the threads. Each call holds the mutex, so a
-- use of the queue by several threads is a sequence of calls.
pub mod Fifo
mod Tests
use tg2sip_webrtc.Prelude.{List, [], ◌∷◌, ◌++◌, Option, none, some}

abbrev pub OptionalQueue {ℓ} : Type ℓ → Type ℓ
OptionalQueue T = List (Option T)

module _ {ℓ} {T : Type ℓ} where
  unfoldable pub emplace : Option T → OptionalQueue T → OptionalQueue T
  emplace value q = q ++ value ∷ []

  -- `std::nullopt` of an empty queue.
  unfoldable pub pop : OptionalQueue T → Option T × OptionalQueue T
  pop [] = (none, [])
  pop (value ∷ q) = (value, q)
