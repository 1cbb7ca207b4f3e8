-- ===== src/Publisher.antt =====
-- shim/publisher.go: the publisher that forwards the events of a shim to containerd, and tries again.
pub mod Delivery
mod Examples
use systemd_runtime.Common.{ℕ, ◌+◌, List, [], ◌∷◌, ◌++◌, Option, none, some, ltb, if◌then◌else◌}

abbrev pub queue_size : ℕ
queue_size = 2048

abbrev pub max_requeue : ℕ
max_requeue = 5

-- `item`
pub record Item : Type 0 where
  pub event : ℕ
  pub count : ℕ

-- `ttrpc.ErrClosed`, and other errors.
pub data PublishError : Type 0 where
  closed : PublishError
  other : ℕ → PublishError

-- The answers to the calls of one `forwardRequest`, in their order.
pub record Answers : Type 0 where
  pub service_err : Option PublishError
  pub forward_err : Option PublishError
  pub reconnect_err : Option PublishError
  pub new_service_err : Option PublishError
  pub second_err : Option PublishError

-- `delayed` has the items of the goroutines of `queue`. `delivered`, `dropped` and `published` record what
-- was forwarded, given up, and asked for.
pub record Publisher : Type 0 where
  pub delayed : List Item
  pub requeue : List Item
  pub delivered : List ℕ
  pub dropped : List Item
  pub published : List ℕ

abbrev pub new_publisher : Publisher
new_publisher = record { delayed = []; requeue = []; delivered = []; dropped = []; published = [] }

-- `forwardRequest` behind `Reconnect`.
abbrev pub forward_again : Answers → Option PublishError
forward_again a = elim a.new_service_err [ some e ↦ some e | none ↦ a.second_err ]

abbrev pub reconnected : Answers → Option PublishError
reconnected a = elim a.reconnect_err [ some e ↦ some e | none ↦ forward_again a ]

-- `forwardRequest` behind its first attempt.
abbrev pub after_first : Answers → Option PublishError → Option PublishError
after_first a none = none
after_first a (some closed) = reconnected a
after_first a (some (other e)) = some (other e)

-- `forwardRequest`
unfoldable pub forward_request : Answers → Option PublishError
forward_request a = after_first a (elim a.service_err [ some e ↦ some e | none ↦ a.forward_err ])

-- `queue`
abbrev pub queue : Publisher → Item → Publisher
queue p i = record p { delayed = record i { count = i.count + 1 } ∷ p.delayed }

-- An item is forwarded, or queued.
abbrev pub forwarded : Publisher → Item → Option PublishError → Publisher
forwarded p i none = record p { delivered = i.event ∷ p.delivered }
forwarded p i (some e) = queue p i

-- `Publish`, given that the event has a namespace and can be marshalled: its error.
unfoldable pub publish : Publisher → (event : ℕ) → Answers → Publisher × Option PublishError
unfolding forward_request
publish p event a =
    let i : Item = record { event = event; count = 0 } in
    (
      forwarded (record p { published = event ∷ p.published }) i (forward_request a),
      forward_request a,
    )

-- One round of `processQueue`, with the item that it received.
unfoldable pub process_item : Publisher → Item → Answers → Publisher
unfolding forward_request
process_item p i a =
    if ltb max_requeue i.count
    then record p { dropped = i ∷ p.dropped }
    else forwarded p i (forward_request a)
