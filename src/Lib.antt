-- ===== src/Lib.antt =====
-- issuebot: a worker that takes GitHub issues by their labels, runs a coding agent on each, and moves
-- the labels. This library models the decisions of that worker and proves what they promise.
--
-- The parts, by their paths from src/issuebot/ of the repository, and the files that model them:
--   config/settings.py           Config: the label names
--   github/models.py             GitHub/Models: the records of issues, steps and approval evidence
--   github/state.py              GitHub/State: the transitions of the state labels (Machine)
--                                and what a closed issue comes to (Outcomes)
--   github/errors.py, adapter.py GitHub/Adapter: errors as values, and the adapter's methods that the
--                                modelled code calls, as a record with a record of laws
--   events/types.py, bus.py      Events, Events/Bus: the events, and the bus with its sinks
--   agent/verdict.py             Agent/Verdict: the shapes of a verdict; Agent/Json, Agent/Checks and
--                                Agent/Verdict/Parse: its parsers
--   agent/accounts.py            Agent/Accounts: `AccountRegistry`, which account a workspace belongs to
--   orchestrator/admission.py    Orchestrator/Admission: the ledger (`Ledger`), with one function for
--                                each method and `step` for a call of any of them, and the gate (`admit`)
--   orchestrator/approval.py     Orchestrator/Approval: `assess`, `assess_authorship`, `assess_triage`
--   orchestrator/state.py        Orchestrator/Runtime: the order of candidates, the back-off, snapshots
--   orchestrator/auto_triage.py  Orchestrator/AutoTriage: `settle` and `skip_reason`
--   orchestrator/triage.py       Orchestrator/Triage for the texts and the order of a parent's steps;
--                                Orchestrator/Filing for `apply_verdict`
--   orchestrator/parent_review.py Orchestrator/ParentReview: when a review is due, its texts, and
--                                `apply_parent_review`
--   orchestrator/actions.py      Orchestrator/Actions: the notes (Notes), the claim and the escapes (Escapes),
--                                the hand-backs (HandBack), the conflict bounce (Conflict), the closing
--                                of an issue (Finish) and the assessments (Assessing)
--   orchestrator/orchestrator.py Orchestrator/Holds: why nothing is claimed, with the probes, the outage,
--                                the usage limit and what the snapshot shows; Orchestrator/Worker: the
--                                tables of runs and retries, with refusals, approvals, dispatch, retries,
--                                exits, the refresh of running issues, the sweep of candidates and the
--                                shutdown
--   orchestrator/stamps.py       Orchestrator/Stamps: `utc_stamp`
--
-- The gate reads an issue's entry of the ledger; the ledger is told of every run, of its cost and of how
-- it ended. Before a run the approval rules read the label events and the edits of the issue. A triage
-- run ends in a verdict, which `apply_verdict` files through the adapter and announces on the bus. The
-- runtime helpers order the candidates of a tick and turn two snapshots of an issue into events. The
-- worker asks the gate, the approval rules and the account pool before each run, claims the issue by the
-- actions, and at the end of a run schedules a retry, escapes to a human or closes the issue.
--
-- How state is modelled: the ledger is passed from call to call, its table in the order of insertion,
-- with the evicted entries listed; the adapter acts on a world that is a parameter, and a method returns
-- a value or an error together with the world that it leaves, so that what a failed call has already
-- done stays done. The methods of the orchestrator are such programs on the worker's state beside that
-- world (Worker/Effects); Worker/Reached lets their steps follow one another in any order. The monotonic
-- clock is in milliseconds, and a method reads the clocks once. A time is the number of microseconds
-- since the year 1. A cost is of a type `F` with the operations of `float` that the source uses
-- (Prelude/Float), of which no law is assumed; the tests take whole cents. Every loop is a recursion
-- on the list or text that it walks; only the digits of a number take fuel, one round more than the
-- number, which has fewer digits than that. Python's integers are unbounded; those that may be
-- negative (slots, turns) are ℤ of Prelude/Int.
--
-- Bounds: `lower`, `casefold` and `isidentifier` are those of ASCII text, and the text of a float is made
-- by the parameter `fixed2`.
--
-- Not modelled: processes, files, SQL, HTTP, HTML and the command line; of the orchestrator the asyncio
-- loop, the reload of the workflow, the triage track with the exits of its runs (a parameter of the exit
-- of a run) and the wait for the next tick; the parsing of what `gh` prints; the scrubber, which is a
-- parameter, and the text and the modes of files. Log lines are left out everywhere.
pub mod Prelude
pub mod Config
pub mod GitHub
pub mod Events
pub mod Agent
pub mod Orchestrator
pub mod Tests
