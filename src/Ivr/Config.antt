-- ===== src/Ivr/Config.antt =====
-- internal/application/ivr: the settings of a node, one record for each Go struct. `Json` stands for
-- parseConfig: it gives the struct that json.Unmarshal leaves, and none where an error is looked at.
use ccc.Prelude.{String, Bool, Option, List}
use ccc.Prelude.Int.{ℤ}

pub record PlayConfig : Type 0 where
  pub audio_file : String
  pub tts_text : String

pub record TransferAgentConfig : Type 0 where
  pub skill_group_id : String
  pub routing_strategy : String
  pub queue_priority : ℤ
  pub queue_music_id : String

pub record TransferExternalConfig : Type 0 where
  pub number : String
  pub caller_id : String
  pub timeout_sec : ℤ

pub record BlindTransferConfig : Type 0 where
  pub target : String
  pub target_type : String

pub record CallbackConfig : Type 0 where
  pub prompt_audio_id : String
  pub confirm_key : String
  pub reject_key : String
  pub callback_number : String

pub record CollectDtmfConfig : Type 0 where
  pub min_digits : ℤ
  pub max_digits : ℤ
  pub timeout_sec : ℤ
  pub term_char : String
  pub retry_count : ℤ
  pub prompt_audio_id : String
  pub fail_audio_id : String

pub record VoicemailConfig : Type 0 where
  pub beep_file : String
  pub storage_path : String

pub record CsatConfig : Type 0 where
  pub prompt_audio_id : String
  pub max_rating : ℤ

pub record AsrConfig : Type 0 where
  pub timeout_ms : ℤ

pub record BranchCondition : Type 0 where
  pub name : String
  pub variable : String
  pub operator : String
  pub expected : String

pub record FunctionConfig : Type 0 where
  pub url : String
  pub method : String
  pub headers : List (String × String)
  pub body : String
  pub timeout_sec : ℤ
  pub output_var : String

pub record JsonMapping : Type 0 where
  pub json_path : String
  pub target_variable : String

pub record JsonParserConfig : Type 0 where
  pub source_variable : String
  pub mappings : List JsonMapping

pub record SmsConfig : Type 0 where
  pub to : String
  pub template_code : String
  pub template_params : List (String × String)
  pub api_endpoint : String

pub record SubFlowConfig : Type 0 where
  pub flow_id : String
  pub input_vars : List (String × String)
  pub output_vars : List String

pub record DigitalEmployeeConfig : Type 0 where
  pub digital_employee_id : String
  pub scene_id : String
  pub max_turns : ℤ
  pub transfer_on_failure : Bool

pub record SentimentConfig (F : Type 0) : Type 0 where
  pub negative_threshold : F
  pub source_var : String

pub record Json (F : Type 0) : Type 0 where
  pub start : String → List (String × String)
  pub play : String → PlayConfig
  pub assignments : String → List (String × String)
  pub hangup : String → String
  pub transfer_agent : String → TransferAgentConfig
  pub transfer_external : String → TransferExternalConfig
  pub blind_transfer : String → BlindTransferConfig
  pub callback : String → CallbackConfig
  pub collect_dtmf : String → CollectDtmfConfig
  pub voicemail : String → VoicemailConfig
  pub csat : String → CsatConfig
  pub asr : String → AsrConfig
  pub branch : String → List BranchCondition
  pub function : String → FunctionConfig
  pub http_request : String → FunctionConfig
  pub json_parser : String → JsonParserConfig
  pub sms : String → SmsConfig
  pub sub_flow : String → SubFlowConfig
  pub digital_employee : String → DigitalEmployeeConfig
  pub nlu : String → F
  pub queue_position : String → Option String
  pub sentiment_gate : String → Option (SentimentConfig F)
