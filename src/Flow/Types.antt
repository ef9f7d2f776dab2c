-- ===== src/Flow/Types.antt =====
-- The data of internal/flow: steps, flows, what a step leaves behind, and a run's status.
use jardin.Base.{ℕ, String, Bool, Option, List}
use jardin.Base.Dict.{Dict}
use jardin.Base.Int.{ℤ}

-- The constants of flow.go, run.go and schedule.go.
abbrev pub max_timeout : ℕ
max_timeout = 3600

abbrev pub max_value_bytes : ℕ
max_value_bytes = 65536

abbrev pub max_total_value_bytes : ℕ
max_total_value_bytes = 262144

abbrev pub token_env_var : String
token_env_var = "MYCELIUM_TOKEN"

abbrev pub default_parallel : ℕ
default_parallel = 4

-- `depends_on` is none where the file does not give the key: Go's nil slice, which the code tells
-- from an empty one. `with` is kept as its list of keys with rendered values.
pub record Step : Type 0 where
  pub name : String
  pub run : String
  pub env : Dict String String
  pub needs : Dict String String
  pub depends_on : Option (List String)
  pub ephemeral : Bool
  pub secret : List String
  pub type : String
  pub with : Dict String String
  pub timeout : ℤ
  pub allow_failure : Bool

pub record Flow : Type 0 where
  pub name : String
  pub steps : List Step

pub record Output : Type 0 where
  pub stdout : String
  pub stderr : String
  pub exit_code : ℤ
  pub stdout_cut : Bool
  pub stderr_cut : Bool
  pub ephemeral : Bool
  pub secrets : List String

-- The fields that the scheduler writes or reads; `started_at` is none for the zero time.
pub record StepResult : Type 0 where
  pub name : String
  pub exit_code : ℤ
  pub stderr : String
  pub timed_out : Bool
  pub not_started : Bool
  pub skipped : Bool
  pub started_at : Option ℕ

pub data Status : Type 0 where
  ok failed unresolved timeout : Status

-- statusRank
unfoldable pub status_rank : Status → ℕ
status_rank ok = 0
status_rank failed = 1
status_rank unresolved = 2
status_rank timeout = 3
