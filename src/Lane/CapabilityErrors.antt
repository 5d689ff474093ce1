-- ===== src/Lane/CapabilityErrors.antt =====
-- packages/o-lane/src/errors/capability-errors.ts: the errors of a capability. The stack trace, the
-- error behind one and the additional data of the context are left out; a cycle is the text that it is
-- printed as.
pub mod Inference
mod Tests
use olane.Common.{
  Bool, true, false, ◌||◌, List, [], ◌∷◌, ◌++◌, Option, none, some, Text, codes, includes,
  if◌then◌else◌,
}

pub data ErrorType : Type 0 where
  not_found unauthorized forbidden : ErrorType
  invalid_config missing_parameter invalid_parameter : ErrorType
  tool_error timeout network_error : ErrorType
  invalid_state resource_exhausted : ErrorType
  unknown : ErrorType

pub record Context : Type 0 where
  pub cycle : Option Text
  pub capability_type : Option Text
  pub tool_address : Option Text
  pub method : Option Text
  pub intent : Option Text

pub record CapabilityError : Type 0 where
  pub type : ErrorType
  pub message : Text
  pub context : Context

unfoldable pub get_error_type_label : ErrorType → Text
get_error_type_label not_found = codes "Resource Not Found"
get_error_type_label unauthorized = codes "Unauthorized"
get_error_type_label forbidden = codes "Forbidden"
get_error_type_label invalid_config = codes "Invalid Configuration"
get_error_type_label missing_parameter = codes "Missing Parameter"
get_error_type_label invalid_parameter = codes "Invalid Parameter"
get_error_type_label tool_error = codes "Tool Execution Error"
get_error_type_label timeout = codes "Timeout"
get_error_type_label network_error = codes "Network Error"
get_error_type_label invalid_state = codes "Invalid State"
get_error_type_label resource_exhausted = codes "Resource Exhausted"
get_error_type_label unknown = codes "Unknown Error"

unfoldable pub get_remediation : ErrorType → Option Text
get_remediation not_found =
    some (
      codes "Verify the tool address exists and is accessible. Use search to find available tools.")
get_remediation unauthorized =
    some (codes "Check that you have the necessary permissions to access this resource.")
get_remediation forbidden = none
get_remediation invalid_config =
    some (codes "Review the configuration parameters and ensure they match the required format.")
get_remediation missing_parameter = some (
    codes
      "Provide all required parameters. Use the tool's handshake to see parameter requirements.")
get_remediation invalid_parameter =
    some (codes "Check that parameter values match the expected types and constraints.")
get_remediation tool_error =
    some (codes "Review the tool's error message and adjust your request accordingly.")
get_remediation timeout =
    some
      (codes "The operation took too long. Try simplifying the request or increasing the timeout.")
get_remediation network_error = some (codes "Check your network connection and try again.")
get_remediation invalid_state = none
get_remediation resource_exhausted =
    some (codes "You may have hit a rate limit or resource quota. Try again later.")
get_remediation unknown = none

-- A line break and `\n\n`.
abbrev pub line : Text
line = 10 ∷ []

-- A part that is only there with a text that is not empty.
abbrev pub line_of : Text → Option Text → Text
line_of title none = []
line_of title (some []) = []
line_of title (some (c ∷ s)) = line ++ (title ++ c ∷ s)

-- A cycle is printed whatever its number is.
abbrev pub cycle_line : Option Text → Text
cycle_line none = []
cycle_line (some n) = line ++ (line ++ (codes "Occurred in Cycle " ++ n))

abbrev pub suggestion : Option Text → Text
suggestion none = []
suggestion (some s) = line ++ (line ++ (codes "Suggestion: " ++ s))

unfoldable pub to_human_readable : CapabilityError → Text
to_human_readable e =
    get_error_type_label e.type
    ++ (codes ": "
        ++ (e.message
            ++ (cycle_line e.context.cycle
                ++ (line_of (codes "Capability: ") e.context.capability_type
                    ++ (line_of (codes "Tool: ") e.context.tool_address
                        ++ (line_of (codes "Method: ") e.context.method
                            ++ suggestion (get_remediation e.type)))))))

unfoldable pub infer_type : Text → ErrorType
infer_type message =
    if includes (codes "not found") message || includes (codes "404") message
    then not_found
    else if includes (codes "unauthorized") message || includes (codes "401") message
    then unauthorized
    else if includes (codes "forbidden") message || includes (codes "403") message
    then forbidden
    else if includes (codes "timeout") message
    then timeout
    else if includes (codes "network") message || includes (codes "ECONNREFUSED") message
    then network_error
    else if includes (codes "parameter") message || includes (codes "config") message
    then invalid_config
    else unknown

-- What was thrown: an error of this kind, or anything else by its `message` and its `String`.
pub data Thrown : Type 0 where
  capability : CapabilityError → Thrown
  other : Option Text → Text → Thrown

abbrev pub message_or : Option Text → Text → Text
message_or none s = s
message_or (some []) s = s
message_or (some (c ∷ m)) s = c ∷ m

unfoldable pub from : Thrown → Context → CapabilityError
from (capability e) context = e
from (other m s) context =
    let message = message_or m s in
    record { type = infer_type message; message = message; context = context }
