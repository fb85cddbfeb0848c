-- ===== src/Ivr/Integration.antt =====
-- internal/application/ivr/nodes_integration.go and node_nlu.go: the handlers that call other
-- systems, all but the sub flow's (Ivr/Engine).
use ccc.Prelude.{
  String, Bool, true, false, not, ◌&&◌, ◌||◌, none, some, List, [], ◌∷◌, ltb, if◌then◌else◌,
  is_empty, ok, err,
}
use Prim.Native.String.{◌++◌, len}
use ccc.Prelude.Int.{ℤ, pos, ltb_ℤ}
use ccc.Flow.Names.{same_text}
use ccc.Ivr.Variables.{Variables, lookup, get, set}
use ccc.Ivr.Session.{Session, Handler, assign}
use ccc.Ivr.Providers.{Providers, Library}
use ccc.Ivr.Config.{JsonMapping, Json}
use ccc.Ivr.Basic.{leave}
use ccc.Ivr.Routing.{text_or, int_or}
use ccc.Ivr.Conditions.{has_prefix}

abbrev pub has_entry : String → List (String × String) → Bool
has_entry x m = elim (lookup x m) [ none ↦ false | some _ ↦ true ]

module _ {F : Type 0} (lib : Library F) where
  -- interpolateVars
  unfoldable pub interpolate : String → Variables → String
  interpolate s [] = s
  interpolate s ((k, v) ∷ vars) = interpolate (lib.replace_all s ("${" ++ k ++ "}") v) vars

  unfoldable pub interpolate_all : Variables → List (String × String) → List (String × String)
  unfolding interpolate
  interpolate_all vars [] = []
  interpolate_all vars ((k, v) ∷ es) = (k, interpolate v vars) ∷ interpolate_all vars es

  -- `req.Header.Set(k, ...)` for each header.
  unfoldable pub headers_of :
      List (String × String) → List (String × String) → List (String × String)
  unfolding set
  headers_of [] hs = hs
  headers_of ((k, v) ∷ es) hs = headers_of es (set (lib.canonical_header k) v hs)

  -- The hosts that validateURL refuses.
  unfoldable pub is_private : String → Bool
  unfolding has_prefix
  is_private host =
      same_text host "localhost"
      || same_text host "127.0.0.1"
      || same_text host "::1"
      || has_prefix host "10."
      || has_prefix host "192.168."
      || has_prefix host "169.254."
      || (has_prefix host "172." && ltb 4 (len host))

  unfoldable pub validate_url : String → Bool
  unfolding is_private
  validate_url raw = elim (lib.parse_url raw) [
    | none ↦ false
    | some (scheme, host) ↦
        (same_text scheme "http" || same_text scheme "https") && not (is_private host)
  ]

  -- The headers of a function's request name the type of its body.
  unfoldable pub with_content_type : List (String × String) → List (String × String)
  unfolding get set
  with_content_type hs =
      if is_empty (get "Content-Type" hs) then set "Content-Type" "application/json" hs else hs

abbrev pub is_success : ℤ → Bool
is_success status = not (ltb_ℤ status (pos 200)) && ltb_ℤ status (pos 300)

unfoldable pub assign_named : String → String → Session → Session
unfolding assign
assign_named x v s = if is_empty x then s else assign x v s

module _ {A F : Type 0} (p : Providers A F) (lib : Library F) (json : Json F) where
  unfoldable pub function_handler : Handler A
  unfolding assign_named interpolate interpolate_all headers_of with_content_type validate_url
  function_handler n s a =
      let c = json.function n.config in
      let failed = assign_named c.output_var "" s in
      let url = interpolate lib c.url s.variables in
      let method = text_or "POST" c.method in
      if is_empty c.url
      then leave "error" s a
      else (if lib.new_request_fails method url || not (validate_url lib url)
          then leave "error" failed a
          else (let (r, b) =
                p.http
                  (record {
                    method = method;
                    url = url;
                    headers =
                        with_content_type lib
                          (headers_of lib (interpolate_all lib s.variables c.headers) []);
                    body = interpolate lib c.body s.variables;
                    timeout = int_or (pos 10) c.timeout_sec;
                  })
                  a in
              elim r [
                | none ↦ leave "error" failed b
                | some (status, body) ↦
                    leave (if is_success status then "success" else "error")
                      (assign_named c.output_var body s) b
              ]))

  unfoldable pub http_request_handler : Handler A
  unfolding assign assign_named interpolate interpolate_all headers_of validate_url
  http_request_handler n s a =
      let c = json.http_request n.config in
      let url = interpolate lib c.url s.variables in
      let method = text_or "GET" c.method in
      if is_empty c.url
      then leave "error" s a
      else (if lib.new_request_fails method url || not (validate_url lib url)
          then leave "error" s a
          else (let (r, b) =
                p.http
                  (record {
                    method = method;
                    url = url;
                    headers = headers_of lib (interpolate_all lib s.variables c.headers) [];
                    body = interpolate lib c.body s.variables;
                    timeout = int_or (pos 10) c.timeout_sec;
                  })
                  a in
              elim r [
                | none ↦ leave "error" s b
                | some (status, body) ↦
                    leave (if is_success status then "success" else "error")
                      (assign "http_status_code" (lib.itoa status)
                        (assign_named c.output_var body s))
                      b
              ]))

  -- Each mapping writes its variable, with the empty text for a field that is not there.
  unfoldable pub apply_mappings : List JsonMapping → List (String × String) → Session → Session
  unfolding assign get
  apply_mappings [] fields s = s
  apply_mappings (m ∷ ms) fields s =
      apply_mappings ms fields
        (assign m.target_variable (get (lib.trim_prefix m.json_path "$.") fields) s)

  unfoldable pub json_parser_handler : Handler A
  unfolding get apply_mappings
  json_parser_handler n s a =
      let c = json.json_parser n.config in
      let source = get c.source_variable s.variables in
      if is_empty source then leave "error" s a else elim (lib.json_object source) [
        | none ↦ leave "error" s a
        | some fields ↦ leave "success" (apply_mappings c.mappings fields s) a
      ]

  unfoldable pub sms_handler : Handler A
  unfolding assign get interpolate_all validate_url
  sms_handler n s a =
      let c = json.sms n.config in
      let to = text_or (get "caller_number" s.variables) c.to in
      let params = interpolate_all lib s.variables c.template_params in
      let sent = assign "sms_sent" "true" s in
      if is_empty c.api_endpoint
      then leave "success" sent a
      else (if lib.new_request_fails "POST" c.api_endpoint || not (validate_url lib c.api_endpoint)
          then leave "error" s a
          else (let (r, b) =
                p.http
                  (record {
                    method = "POST";
                    url = c.api_endpoint;
                    headers = ("Content-Type", "application/json") ∷ [];
                    body = lib.sms_payload to c.template_code params;
                    timeout = pos 10;
                  })
                  a in
              elim r [ none ↦ leave "error" s b | some _ ↦ leave "success" sent b ]))

  unfoldable pub digital_employee_handler : Handler A
  unfolding assign
  digital_employee_handler n s a =
      let c = json.digital_employee n.config in
      let named =
        assign "digital_employee_scene" c.scene_id
          (assign "digital_employee_id" c.digital_employee_id s) in
      let bounded =
        if ltb_ℤ (pos 0) c.max_turns
        then assign "digital_employee_max_turns" (lib.itoa c.max_turns) named
        else named in
      leave "success"
        (if c.transfer_on_failure
          then assign "digital_employee_transfer_on_failure" "true" bounded
          else bounded)
        a

  unfoldable pub nlu_handler : Handler A
  unfolding assign get
  nlu_handler n s a =
      let text = get "asr_result" s.variables in
      if is_empty text then leave "fallback" s a else elim p.nlu [
        | none ↦ leave "fallback" s a
        | some classify ↦
            let (r, b) = classify text a in
            elim r [
              | err e ↦ leave "fallback" s b
              | ok (intent, confidence) ↦
                  let low = json.nlu n.config in
                  let least = if lib.float_le low lib.zero then lib.point_six else low in
                  if lib.float_lt confidence least
                  then leave "fallback" s b
                  else leave (if has_entry intent n.exits then intent else "default")
                      (assign "nlu_confidence" (lib.format_trimmed confidence)
                        (assign "nlu_intent" intent s))
                      b
            ]
      ]
