-- ===== src/Messages/Execution.antt =====
-- relay/messages/execution.go
pub mod Names
mod Tests
use go_relay.Base.{
  ℕ, ◌≡◌, Bool, true, false, Option, none, some, List, [], ◌∷◌, Text, lit, Table, Outcome, ok, err,
  panic, ◌>>=◌, get_elem?, split_n,
}
use go_relay.Messages.Value.{Value}

pub record ChatUser : Type 0 where
  pub id : Value
  pub handle : Text
  pub provider : Text

pub record CogUser : Type 0 where
  pub id : Text
  pub email : Text
  pub first_name : Text
  pub last_name : Text
  pub username : Text

pub record ChatRoom : Type 0 where
  pub name : Text

pub record ExecutionRequest : Type 0 where
  pub options : Table Value
  pub args : List Value
  pub cog_env : Value
  pub invocation_id : Text
  pub invocation_step : Text
  pub command : Text
  pub reply_to : Text
  pub requestor : ChatUser
  pub user : CogUser
  pub room : ChatRoom
  pub service_token : Text
  pub services_root : Text
  pub bundle_name : Text
  pub command_name : Text
  pub pipeline_id : Text

-- The body of a response: absent, lines of text, or decoded JSON.
pub data Body : Type 0 where
  no_body : Body
  body_lines : List Text → Body
  json_body : Value → Body

pub record ExecutionResponse : Type 0 where
  pub room : Text
  pub bundle : Text
  pub status : Text
  pub status_message : Text
  pub template : Text
  pub body : Body
  pub is_json : Bool
  pub aborted : Bool

-- &ExecutionResponse{}
abbrev pub empty_response : ExecutionResponse
empty_response = record {
  room = [];
  bundle = [];
  status = [];
  status_message = [];
  template = [];
  body = no_body;
  is_json = false;
  aborted = false;
}

-- parts[i]
abbrev pub index : List Text → ℕ → Outcome Text
index parts i = elim (get_elem? parts i) [ none ↦ panic | some p ↦ ok p ]

unfoldable pub parse_parts : List Text → List Text → ExecutionRequest → Outcome ExecutionRequest
parse_parts command_parts pipeline_parts er = do
  bundle ← index command_parts 0
  command ← index command_parts 1
  pipeline ← index pipeline_parts 3
  ok (record er { bundle_name = bundle; command_name = command; pipeline_id = pipeline })

unfoldable pub parse : ExecutionRequest → Outcome ExecutionRequest
unfolding parse_parts
parse er = parse_parts (split_n 2 b':' er.command) (split_n 5 b'/' er.reply_to) er
