-- ===== src/Workqueue.antt =====
-- workqueue/sys_wq.c: an interrupt handler that queues a work item when the key ESC is pressed.
mod Laws
mod Tests
use uio_linux_sample.Prelude.{
  ℕ, ◌+◌, Bool, true, false, not, Option, none, some, List, [], ◌∷◌, ◌==◌, if◌then◌else◌,
}

-- MY_DEV_ID
abbrev pub my_dev_id : ℕ
my_dev_id = 1226

-- Whether the handler is registered, whether the work item is queued, and how often it has run.
pub record State : Type 0 where
  pub registered : Bool
  pub queued : Bool
  pub runs : ℕ

abbrev pub at_load : State
at_load = record { registered = false; queued = false; runs = 0 }

unfoldable pub myirq_init : Bool → State → Bool × State
myirq_init request_irq s =
    if not request_irq then (false, s) else (true, record s { registered = true })

unfoldable pub myirq_exit : State → State
myirq_exit s = record s { registered = false }

-- INIT_WORK; `none` is an item that is on the list of the work queue while its links are written.
unfoldable pub init_work : State → Option State
init_work s = if s.queued then none else some s

unfoldable pub schedule_work : State → State
schedule_work s = record s { queued = true }

unfoldable pub myirq_handler : ℕ → ℕ → State → Option State
myirq_handler devid key_code s =
    if not (my_dev_id == devid)
    then some s
    else if key_code == 1
    then elim (init_work s) [ none ↦ none | some t ↦ some (schedule_work t) ]
    else some s

-- The work queue takes the item and calls mywork_handler.
unfoldable pub mywork_handler : State → State
mywork_handler s = if s.queued then record s { queued = false; runs = s.runs + 1 } else s
