-- ===== src/Ivr/Providers.antt =====
-- internal/application/ivr: the interfaces that the handlers call, and the parts of Go's standard
-- library that they use. Their code is elsewhere: a record holds one implementation, which acts on
-- the state A behind it; scores are of a type F of machine floats.
use ccc.Prelude.{ℕ, String, Bool, Option, List, Result}
use ccc.Prelude.Int.{ℤ}
use ccc.Flow.Graph.{FlowGraph}
use ccc.Ivr.Variables.{Variables}

-- The texts that handlers send to FreeSWITCH, with what Sprintf puts in.
pub data EslCommand : Type 0 where
  uuid_transfer : (uuid caller_id number : String) (timeout : ℤ) → EslCommand
  collect_digits :
      (uuid : String) (min max retries timeout_ms : ℤ) (term prompt fail : String) → EslCommand
  collect_rating : (uuid prompt : String) (max : ℤ) → EslCommand
  offer_callback : (uuid confirm reject : String) → EslCommand
  uuid_record : (uuid : String) (call : ℕ) (seconds : ℤ) → EslCommand

-- Where a call is sent: a text, with its prefix apart.
pub data Destination : Type 0 where
  callcenter user external plain : String → Destination

-- What is played: a file, or a text to be spoken.
pub data Audio : Type 0 where
  file say : String → Audio

-- The file of a recording: the one that is configured, or the one named after tenant and call.
pub data Storage : Type 0 where
  configured : String → Storage
  by_call : (tenant call : ℕ) → Storage

-- The methods of *esl.Client; an error is its text.
pub record Esl (A : Type 0) : Type 0 where
  pub play_audio : String → Audio → A → Option String × A
  pub hangup_call : String → A → A
  pub transfer_call : String → Destination → A → Option String × A
  pub send_command : EslCommand → A → Result String String × A
  pub start_recording : String → Storage → A → Option String × A

pub record HttpRequest : Type 0 where
  pub method : String
  pub url : String
  pub headers : List (String × String)
  pub body : String
  pub timeout : ℤ

-- An interface that is nil is none. `http` gives the status and the first 64 KB of the body, none for
-- an error.
pub record Providers (A F : Type 0) : Type 0 where
  pub esl : Option (Esl A)
  pub asr : Option (ℕ → A → Result String String × A)
  pub acd : Option (ℕ → ℤ → ℤ → A → Option String × A)
  pub context : Option (ℕ → Variables → A → A)
  pub queue : Option (ℤ → A → Result String ℤ × A)
  pub sentiment : Option (String → A → Result String F × A)
  pub nlu : Option (String → A → Result String (String × F) × A)
  pub crm : Option (ℕ → String → A → Result String (String × String) × A)
  pub flow_loader : Option (ℤ → A → Option FlowGraph × A)
  pub http : HttpRequest → A → Option (ℤ × String) × A

-- strconv, strings, net/url, net/http, encoding/json and the operators of float64. A text that
-- ParseInt refuses comes with false; `json_object` prints the values of an object; `parse_url` gives
-- the scheme and the host in lower case; `format_trimmed` is the text of a float with two digits
-- after the point, less its last zeros; the two paths are what Sprintf makes of the numbers.
pub record Library (F : Type 0) : Type 0 where
  pub parse_int : String → ℤ × Bool
  pub itoa : ℤ → String
  pub replace_all : String → String → String → String
  pub sms_payload : String → String → List (String × String) → String
  pub http_status : ℤ → String
  pub parse_url : String → Option (String × String)
  pub voicemail_path : (tenant call : ℕ) → String
  pub asr_path : ℕ → String
  pub canonical_header : String → String
  pub new_request_fails : String → String → Bool
  pub trim_prefix : String → String → String
  pub json_object : String → Option (List (String × String))
  pub float_le : F → F → Bool
  pub float_lt : F → F → Bool
  pub negate : F → F
  pub is_zero : F → Bool
  pub half : F
  pub point_six : F
  pub zero : F
  pub format_2 : F → String
  pub format_trimmed : F → String
