-- ===== src/Runner/Calls.antt =====
-- What the runner asks of Hangar and of its own host, and the jobs that it gets.
use relops_bootstrap.Prelude.{ℕ, Bool, Option, List, Text}
use relops_bootstrap.Traces.Actions.{Act}

-- `Config`; an `int` is whether it is negative, and its absolute value.
pub record Config : Type 0 where
  pub api : Text
  pub token : Text
  pub poll : Bool × ℕ
  pub client_cert : Text
  pub client_key : Text
  pub max_concurrent : ℕ
  pub unquarantine : Bool
  pub runner_id : Text

-- `job["params"]`, by the keys that are read; a key that is missing is empty or false.
pub record Params : Type 0 where
  pub until : Text
  pub info : Text
  pub dry_run : Bool
  pub unquarantine : Bool
  pub branch : Text
  pub min_os : Text
  pub puppet_only : Bool

-- A job as Hangar sends it. An action that is missing or null is empty.
pub record Job : Type 0 where
  pub id : ℕ
  pub short : Text
  pub action : Text
  pub params : Params

-- The POST requests to Hangar.
pub data Request : Type 0 where
  reset : Request
  claim : Request
  event : ℕ → Text → Request
  complete : ℕ → Bool → Text → Request

-- The decoded body: of `claim`, of `reset`, another one, or one that is not JSON.
pub data Body : Type 0 where
  claimed : Option Job → Body
  orphans : List ℕ → Body
  other_body : Body
  malformed : Body

-- An answer with its status; an `httpx.HTTPError`, or any other exception, with its text.
pub data Answer : Type 0 where
  answered : ℕ → Body → Answer
  unreachable : Text → Answer
  broken : Text → Answer

-- The child process: no such file; any other exception of `Popen`; the lines that were read before
-- its output was no longer UTF-8, with the text of that exception; or the lines that it printed and its
-- return code (negative, with the signal's number, when a signal ended it).
pub data Child : Type 0 where
  not_found : Child
  refused : Text → Child
  garbled : List Text → Text → Child
  ran : List Text → Bool → ℕ → Child

pub data Event : Type 0 where
  posted : Request → Answer → Event
  spawned : List Text → Child → Event
  slept : ℕ → Event

abbrev pub Log : Type 0
Log = List Event

-- An exception with its text.
pub data Failure : Type 0 where
  http_error : Text → Failure
  value_error : Text → Failure
  other_error : Text → Failure

pub record Site : Type 0 where
  pub config : Config
  -- the path of `reprovision` beside the interpreter, and whether it exists
  pub sibling : Text
  pub has_sibling : Bool
  pub post : Log → Request → Answer
  pub popen : Log → List Text → Child
  -- `repr`, the text of an `HTTPStatusError`, and that of a `JSONDecodeError`
  pub repr : Text → Text
  pub status_text : ℕ → Text
  pub decode_text : Text

abbrev pub Task : Type 0 → Type 0
Task A = Act Site Event Failure A

unfoldable pub failure_text : Failure → Text
failure_text (http_error s) = s
failure_text (value_error s) = s
failure_text (other_error s) = s
