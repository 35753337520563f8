-- ===== src/Lib.antt =====
-- The verification library of the event venue's assistant: the booking side of app/, the inbox and
-- the outbox of messages, the cases that people take over, the queue of notifications, the assisted
-- review of receipts and the states of a conversation. The program is a FastAPI service over
-- PostgreSQL. A customer writes on WhatsApp, a job per message drives the assistant, which opens
-- reservations and takes receipts; a person accepts or rejects each receipt, and the staff is told.
-- A person may take a conversation over, answer in it and give it back.
--
-- Parts and files:
--   Common/        shared names, lists, texts, and calls that raise (Raise).
--   Rows/          the rows: app/reservation/models.py, app/payment/models.py, app/plan/models.py,
--                  app/audit/models.py, app/handoff/models.py, app/config/settings.py; Json: a value of a
--                  JSON column; Table reads and writes one row by its key.
--   Reservation/   Transition: app/reservation/service.py. Availability and Window:
--                  app/reservation/availability.py. Booking and Deposit: app/reservation/booking.py.
--                  Settlement: app/reservation/settlement.py. Store: the rows that a transaction reads and
--                  writes. Invariant and Keeping: what the rows satisfy between transactions.
--                  System: any sequence of transactions.
--   Notifications/ Staff: app/notifications/service.py. Queue: app/notifications/queue.py and the row's
--                  part of app/notifications/statuses.py.
--   Channel/       Inbox: app/channel/inbox.py and the row of app/channel/models.py. Outbox/: Row (the rows
--                  of app/channel/models.py), Eligibility, Admission and Context (app/channel/delivery.py),
--                  Claim, Settle, Process and Round (app/channel/worker.py); Steps, Life, Moves, Dependency, Batch, Settles,
--                  Writes and Once carry the proofs of Round, Reach, Claims, Period, Flight, Permits, Finish and Stale.
--   Admin/         Ownership: app/admin/ownership.py. Takeover: create_handoff of app/handoff/service.py, and
--                  the requests of app/admin/routes.py that take, reassign and return a case. Direct: those
--                  that take a conversation without a case, and that write a person's message.
--   Payment/       Receipt: evaluate_receipt of app/payment/review.py.
--   Conversation   app/conversation/service.py, app/conversation/states.py and the validators of
--                  app/conversation/models.py.
--   Scheduling/    Availability: app/scheduling/availability.py.
--   Orchestrator/  SlotFilling: app/orchestrator/slot_filling.py.
--   Tests/         concrete runs.
--
-- How they interact: a request and a link write reservations and receipts and enqueue notices
-- (Notifications.Staff) in the same transaction; a settlement asks Availability again before it
-- confirms. A write of a conversation's state or of its assistant's switch draws a new automation
-- epoch when it pauses or resumes the assistant; a message of the outbox carries the epoch it was
-- written in, and Eligibility compares the two at the moment of sending. The takeovers of Admin make
-- those writes, and a person's message carries its own proof, an audit event, so it outlives them.
-- An operation of the database is a function from the rows to the rows: a call that raises aborts the
-- caller's transaction, so it returns an error and no rows. The advisory and row locks make the
-- transactions of the booking side, and those of one conversation, follow one another; those of the
-- inbox, of the outbox and of the queue interleave between transactions, which the step relations of
-- Channel/Inbox/Reach and Channel/Outbox/Reach leave free.
--
-- Numbers are natural. A point in time is a number of microseconds on the Bogotá clock, a UUID a
-- number, except an automation epoch, which is its text; an amount is whole pesos; a subtraction of
-- the source that is cut at zero is the natural one. A time of which an interval is subtracted is
-- taken to lie after the start of the calendar. A score of confidence, a float of [0, 1], is the
-- number that its bits spell. The order of a table stands for the order of its ids and of its times
-- of creation, where a query asks for one. Loops are structural over the rows that a query returns,
-- so no fuel is needed.
--
-- Parameters: Unicode tables (casefold, normalization, character classes), the digest that hashes a
-- conversation's context, the rows that other transactions have locked, the tokens, epochs and ids
-- that are drawn, the answers of the message provider, of the media service and of the calendar,
-- the normalization of an event type, what the routing and
-- the orchestrator made of a turn, and the query that a caller of claim_batch brings.
--
-- Left out: request ids and the serial ids and times of audit rows; the rendering of a notice's
-- parameters; the text of a case's summary; the calendar's synchronization; the provider's client and
-- the endless loops of the workers; the booking of visits; the other routes of administration; the
-- dialogue and the language model.
pub mod Common
pub mod Rows
pub mod Reservation
pub mod Notifications
pub mod Conversation
pub mod Channel
pub mod Payment
pub mod Admin
pub mod Orchestrator
pub mod Scheduling
pub mod Tests
