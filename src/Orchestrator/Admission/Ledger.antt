-- ===== src/Orchestrator/Admission/Ledger.antt =====
-- `IssueLedger` and `Ledger` of orchestrator/admission.py. A method returns the new ledger, beside
-- its result where it has one. `evicted` lists the calls of `on_evict`, the first one first.
pub mod Bounds
pub mod Reads
pub mod Chain
use issuebot.Prelude.{
  ℕ, suc, ◌+◌, ◌-◌, min, max, String, Option, none, some, List, [], ◌∷◌, ◌++◌, Bool, true, false,
  not, ◌&&◌, ◌==◌, ltb, leb, str_eq, length, if◌then◌else◌,
}
use issuebot.Prelude.Int.{ℤ, max_zero}
use issuebot.Prelude.Float.{Float}
use issuebot.Prelude.Sort.{sort}
use issuebot.Prelude.Dict.{Dict, lookup, remove, set}
use issuebot.GitHub.Models.{Instant}

pub record IssueLedger (F : Type 0) : Type 0 where
  pub failures : ℕ
  pub runs : ℕ
  pub turns : ℕ
  pub cost_usd : F
  pub last_run_at : Option Instant
  pub reported_refusal : Option String
  pub escalated : Bool
  pub escaped : Bool

pub record Ledger (F : Type 0) : Type 0 where
  pub entries : Dict (IssueLedger F)
  pub limit : ℕ
  pub evicted : Dict (IssueLedger F)

abbrev pub ledger_limit : ℕ
ledger_limit = 1024

-- What a chain read from before this process may contribute: one short of the ceiling.
unfoldable pub seeded_chain : ℕ → ℕ → ℕ
seeded_chain failures max_attempts = min failures (max (max_attempts - 1) 0)

module _ {F : Type 0} where
  unfoldable pub attempt : IssueLedger F → ℕ
  attempt e = e.failures + 1

  -- `entry.last_run_at or _EPOCH`, where `_EPOCH` is `datetime.min`
  unfoldable pub last_run : IssueLedger F → Instant
  last_run e = elim e.last_run_at [ none ↦ 0 | some at ↦ at ]

  -- The loop of `_trim`: the entries that stay, and those dropped from the front.
  unfoldable pub trim_entries :
      ℕ → Dict (IssueLedger F) → Dict (IssueLedger F) × Dict (IssueLedger F)
  trim_entries limit [] = ([], [])
  trim_entries limit (item ∷ rest) =
      let (kept, dropped) = trim_entries limit rest in
      if ltb limit (length (item ∷ rest)) then (kept, item ∷ dropped) else (item ∷ rest, [])

  unfoldable pub trim : Ledger F → Ledger F
  trim l =
      let (kept, dropped) = trim_entries l.limit l.entries in
      record l { entries = kept; evicted = l.evicted ++ dropped }

  unfoldable pub put : Ledger F → String → IssueLedger F → Ledger F
  unfolding trim
  put l identifier entry =
      trim (record l { entries = remove l.entries identifier ++ (identifier, entry) ∷ [] })

  -- `self._entries[identifier] = entry` for a known identifier
  unfoldable pub write : Ledger F → String → IssueLedger F → Ledger F
  write l identifier entry = record l { entries = set l.entries identifier entry }

  unfoldable pub forget : Ledger F → String → Ledger F
  forget l identifier = record l { entries = remove l.entries identifier }

  seeded_order : (String × IssueLedger F) → (String × IssueLedger F) → Bool
  unfolding last_run
  seeded_order a b = leb (last_run a.1) (last_run b.1)

  -- `Ledger.__init__`
  unfoldable pub init : Dict (IssueLedger F) → ℕ → Ledger F
  unfolding seeded_order trim
  init entries limit =
      trim (record { entries = sort seeded_order entries; limit = max limit 1; evicted = [] })

-- `reported_refusal is None`, and `reported_refusal == reason`
is_none : Option String → Bool
is_none none = true
is_none (some _) = false

reports : Option String → String → Bool
reports none reason = false
reports (some last) reason = str_eq last reason

module _ {F : Type 0} ⦃f : Float F⦄ where
  unfoldable pub empty_ledger : IssueLedger F
  empty_ledger = record {
    failures = 0;
    runs = 0;
    turns = 0;
    cost_usd = f.zero_f;
    last_run_at = none;
    reported_refusal = none;
    escalated = false;
    escaped = false;
  }

  -- `self._entries.get(identifier, EMPTY_LEDGER)`
  unfoldable pub get : Ledger F → String → IssueLedger F
  unfolding empty_ledger
  get l identifier = elim (lookup l.entries identifier) [ none ↦ empty_ledger | some e ↦ e ]

  unfoldable pub dispatched : Ledger F → String → Instant → Ledger F
  unfolding get
  dispatched l identifier at =
      let current = get l identifier in
      put l identifier (record current {
        runs = current.runs + 1;
        last_run_at = some at;
        reported_refusal = none;
        escalated = false;
        escaped = false;
      })

  unfoldable pub spent : Ledger F → String → ℤ → F → Ledger F
  unfolding get
  spent l identifier turns cost_usd =
      let current = get l identifier in
      put l identifier (record current {
        turns = current.turns + max_zero turns;
        cost_usd = f.round (f.add current.cost_usd (f.maximum cost_usd f.zero_f)) 6;
      })

  unfoldable pub failed : Ledger F → String → Ledger F
  unfolding get
  failed l identifier =
      let current = get l identifier in
      put l identifier (record current { failures = current.failures + 1 })

  unfoldable pub cleared : Ledger F → String → Ledger F
  unfolding get is_none
  cleared l identifier =
      let current = get l identifier in
      if current.failures == 0 && is_none current.reported_refusal
      then l
      else put l identifier (record current { failures = 0; reported_refusal = none })

  unfoldable pub observed : Ledger F → String → ℕ → ℕ → Ledger F
  unfolding get seeded_chain
  observed l identifier attempt_seen max_attempts =
      let current = get l identifier in
      let failures = seeded_chain (attempt_seen - 1) max_attempts in
      if leb failures current.failures
      then l
      else put l identifier (record current { failures = failures })

  -- The ledger, and whether the refusal is news.
  unfoldable pub refused : Ledger F → String → String → Ledger F × Bool
  unfolding reports write
  refused l identifier reason = elim (lookup l.entries identifier) [
    | none ↦ (l, false)
    | some current ↦
        if reports current.reported_refusal reason
        then (l, false)
        else (write l identifier (record current { reported_refusal = some reason }), true)
  ]

  unfoldable pub mark_escaped : Ledger F → String → Ledger F
  unfolding write
  mark_escaped l identifier = elim (lookup l.entries identifier) [
    | none ↦ l
    | some current ↦
        if not current.escaped then write l identifier (record current { escaped = true }) else l
  ]

  unfoldable pub escalate : Ledger F → String → Ledger F × Bool
  unfolding write
  escalate l identifier = elim (lookup l.entries identifier) [
    | none ↦ (l, true)
    | some current ↦
        if current.escalated
        then (l, false)
        else (write l identifier (record current { escalated = true }), true)
  ]

-- A call of a method that changes the ledger.
pub data Call (F : Type 0) : Type 0 where
  dispatched_at : String → Instant → Call F
  spent_on : String → ℤ → F → Call F
  failed_on : String → Call F
  cleared_on : String → Call F
  observed_on : String → ℕ → ℕ → Call F
  refused_on : String → String → Call F
  mark_escaped_on : String → Call F
  escalate_on : String → Call F
  forget_on : String → Call F

module _ {F : Type 0} ⦃f : Float F⦄ where
  unfoldable pub step : Ledger F → Call F → Ledger F
  step l (dispatched_at i at) = dispatched l i at
  step l (spent_on i turns cost) = spent l i turns cost
  step l (failed_on i) = failed l i
  step l (cleared_on i) = cleared l i
  step l (observed_on i seen max_attempts) = observed l i seen max_attempts
  step l (refused_on i reason) = (refused l i reason).0
  step l (mark_escaped_on i) = mark_escaped l i
  step l (escalate_on i) = (escalate l i).0
  step l (forget_on i) = forget l i

  unfoldable pub run : Ledger F → List (Call F) → Ledger F
  unfolding step
  run l [] = l
  run l (c ∷ cs) = run (step l c) cs
