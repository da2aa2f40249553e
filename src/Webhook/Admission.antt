-- ===== src/Webhook/Admission.antt =====
-- internal/webhook/admission.go: what both admission endpoints do around their handlers.
use gopher_cni.Prelude.{ℕ, Bool, true, false, Option, none, some, List, [], if◌then◌else◌}
use gopher_cni.Go.Text.{Text, codes, text_eq, is_empty}
use gopher_cni.Kubernetes.{Pod}
use gopher_cni.Webhook.Types.{ValidationError, PatchOperation, should_inject}

-- admissionv1.AdmissionRequest; the object is raw JSON.
pub record AdmissionRequest : Type 0 where
  pub uid : Text
  pub kind : Text
  pub namespace : Text
  pub object : Text

-- metav1.StatusCause: of a missing value, or one for each validation error.
pub data StatusCause : Type 0 where
  value_required : Text → StatusCause
  value_invalid : ValidationError → StatusCause

-- What the message of a refusal is formatted from.
pub data StatusMessage : Type 0 where
  unmarshal_failed missing_annotation patches_failed marshal_failed : StatusMessage
  validation_failed : List ValidationError → StatusMessage

-- metav1.Status with status "Failure"
pub record Status : Type 0 where
  pub message : StatusMessage
  pub code : ℕ
  pub causes : List StatusCause

-- admissionv1.AdmissionResponse; where there is a patch its type is JSONPatch.
pub record AdmissionResponse : Type 0 where
  pub uid : Text
  pub allowed : Bool
  pub result : Option Status
  pub patch : Option Text

abbrev pub allow : AdmissionResponse
allow = record { uid = codes ""; allowed = true; result = none; patch = none }

abbrev pub allow_with : Text → AdmissionResponse
allow_with patch = record { uid = codes ""; allowed = true; result = none; patch = some patch }

abbrev pub deny : StatusMessage → ℕ → List StatusCause → AdmissionResponse
deny message code causes = record {
  uid = codes "";
  allowed = false;
  result = some (record { message = message; code = code; causes = causes });
  patch = none;
}

-- encoding/json and the API machinery's deserializer, on the types that the program gives them.
-- A decoded review may hold no request.
pub record Codec : Type 0 where
  pub decode_pod : Text → Option Pod
  pub encode_patches : List PatchOperation → Option Text
  pub decode_review : Text → Option (Option AdmissionRequest)
  pub encode_review : AdmissionResponse → Option Text

-- The pod to go on with, or the response to return at once.
pub data Prepared : Type 0 where
  process : Pod → Prepared
  early : AdmissionResponse → Prepared

-- pod.Namespace, where the object names none
abbrev pub in_namespace : Text → Pod → Pod
in_namespace namespace pod =
    if is_empty pod.namespace then record pod { namespace = namespace } else pod

unfoldable pub injectable : Pod → Prepared
injectable pod = if should_inject pod then process pod else early allow

unfoldable pub decoded : Text → Option Pod → Prepared
unfolding injectable
decoded namespace none = early (deny unmarshal_failed 400 [])
decoded namespace (some pod) = injectable (in_namespace namespace pod)

-- preparePod
unfoldable pub prepare_pod : Codec → AdmissionRequest → Prepared
unfolding decoded
prepare_pod codec req =
    if text_eq req.kind (codes "Pod")
    then decoded req.namespace (codec.decode_pod req.object)
    else early allow

-- An HTTP request: its body, unless there is none or reading it fails, and its Content-Type.
pub record HttpRequest : Type 0 where
  pub body : Option Text
  pub content_type : Text

-- What is written back: an error with its code, or a body with status 200.
pub data HttpResponse : Type 0 where
  http_error : ℕ → HttpResponse
  http_ok : Text → HttpResponse

unfoldable pub encoded : Option Text → HttpResponse
encoded none = http_error 500
encoded (some body) = http_ok body

unfoldable pub answer :
    Codec → (AdmissionRequest → AdmissionResponse) → Option (Option AdmissionRequest) → HttpResponse
unfolding encoded
answer codec handler none = http_error 400
answer codec handler (some none) = http_error 400
answer codec handler (some (some req)) =
    encoded (codec.encode_review (record (handler req) { uid = req.uid }))

abbrev pub read_body : Option Text → Text
read_body none = []
read_body (some body) = body

-- serveAdmission
unfoldable pub serve_admission :
    Codec → (AdmissionRequest → AdmissionResponse) → HttpRequest → HttpResponse
unfolding answer
serve_admission codec handler r =
    let body = read_body r.body in
    if is_empty body
    then http_error 400
    else if text_eq r.content_type (codes "application/json")
    then answer codec handler (codec.decode_review body)
    else http_error 415
