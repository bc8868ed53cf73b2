-- ===== src/Deploy/UnitEvents.antt =====
-- services/ui/src/features/deploy/unit-events.ts. A message is its template and the values in it; a
-- commit is cut to eight characters there.
pub mod Transitions
mod Tests
use classg.Prelude.{
  ℕ, ◌+◌, ◌-◌, String, Bool, true, false, Option, none, some, List, [], ◌∷◌, ◌++◌, if◌then◌else◌,
  not, ltb, opt_eq, truthy, get_or_else, length, get_elem?,
}
use classg.Logs.Store.{LogLevel}

pub record DeploymentStatus : Type 0 where
  pub configured : Bool
  pub commit : Option String
  pub commit_subject : Option String
  pub last_result : Option String
  pub last_reason : Option String
  pub last_deploy_ok : Option Bool

pub record WatchdogStatus : Type 0 where
  pub configured : Bool
  pub actions_taken : ℕ
  pub needs_hands : Option String
  pub log : Option (List String)

pub data UnitMessage : Type 0 where
  deploy_started : (from : Option String) → UnitMessage
  deployed : (commit : String) (subject : Option String) (ok : Option Bool) → UnitMessage
  rebuilt deploy_failed : (reason : Option String) → UnitMessage
  repaired : (made : ℕ) (last_line : Option String) → UnitMessage
  given_up : (needs : String) → UnitMessage

pub record UnitEvent : Type 0 where
  pub level : LogLevel
  pub message : UnitMessage

pub record UnitMemo : Type 0 where
  pub deploy_result : Option String
  pub deploy_commit : Option String
  pub watchdog_actions : Option ℕ
  pub needs_hands : Option String

abbrev pub new_memo : UnitMemo
new_memo = record {
  deploy_result = none;
  deploy_commit = none;
  watchdog_actions = none;
  needs_hands = none;
}

-- What one reading leaves: the events and the memo.
pub record Reading : Type 0 where
  pub events : List UnitEvent
  pub memo : UnitMemo

abbrev pub same_text : Option String → Option String → Bool
same_text none none = true
same_text none (some b) = false
same_text (some a) b = opt_eq b a

abbrev event : LogLevel → UnitMessage → List UnitEvent
event level message = record { level = level; message = message } ∷ []

-- The `switch` on the result; `commit` is that of the memo before.
pub result_events : Option String → DeploymentStatus → List UnitEvent
result_events commit s =
    if opt_eq s.last_result "deploying"
    then event LogLevel.info (deploy_started commit)
    else if opt_eq s.last_result "deployed"
    then event LogLevel.info (deployed (get_or_else s.commit "") s.commit_subject s.last_deploy_ok)
    else if opt_eq s.last_result "rebuilt"
    then event LogLevel.info (rebuilt s.last_reason)
    else if opt_eq s.last_result "failed"
    then event LogLevel.error (deploy_failed s.last_reason)
    else []

abbrev changed_events : UnitMemo → DeploymentStatus → List UnitEvent
changed_events previous s = elim previous.deploy_result [
  | none ↦ []
  | some result ↦
      if same_text s.last_result (some result) then [] else result_events previous.deploy_commit s
]

pub deployment_events : UnitMemo → Option DeploymentStatus → Reading
deployment_events previous none = record { events = []; memo = previous }
deployment_events previous (some s) =
    if not s.configured then record { events = []; memo = previous } else record {
      events = changed_events previous s;
      memo = record previous { deploy_result = s.last_result; deploy_commit = s.commit };
    }

abbrev last_line : Option (List String) → Option String
last_line none = none
last_line (some ls) = get_elem? ls (length ls - 1)

pub repair_events : ℕ → WatchdogStatus → List UnitEvent
repair_events before s =
    if ltb before s.actions_taken
    then event LogLevel.warn (repaired (s.actions_taken - before) (last_line s.log))
    else []

pub given_up_events : Option String → WatchdogStatus → List UnitEvent
given_up_events before s =
    if truthy s.needs_hands
    then (if same_text s.needs_hands before
        then []
        else event LogLevel.error (given_up (get_or_else s.needs_hands "")))
    else []

abbrev pub watchdog_changes : UnitMemo → WatchdogStatus → List UnitEvent
watchdog_changes previous s = elim previous.watchdog_actions [
  | none ↦ []
  | some before ↦ repair_events before s ++ given_up_events previous.needs_hands s
]

pub watchdog_events : UnitMemo → Option WatchdogStatus → Reading
watchdog_events previous none = record { events = []; memo = previous }
watchdog_events previous (some s) =
    if not s.configured then record { events = []; memo = previous } else record {
      events = watchdog_changes previous s;
      memo = record previous {
        watchdog_actions = some s.actions_taken;
        needs_hands = s.needs_hands;
      };
    }
