-- ===== src/Kube/Admission.antt =====
-- Admission requests and responses, and the decoding of the objects that requests carry.
use appuio_cloud_agent.Base.{ℤ, ℕ, String, Bool, true, false, List, [], Dict}
use appuio_cloud_agent.Kube.Errors.{Message, Error, Result}

pub record UserInfo : Type 0 where
  pub username : String
  pub groups : List String

pub record Request : Type 0 where
  pub user_info : UserInfo
  pub group : String
  pub kind : String
  pub namespace : String
  pub name : String
  pub operation : String
  -- the raw bytes of `Object` and `OldObject`
  pub object : String
  pub old_object : String

-- `Decode` reads the object of a request, `DecodeRaw` raw bytes.
pub record Decoder (A : Type 0) : Type 0 where
  pub decode : Request → Result A
  pub decode_raw : String → Result A

-- The value of a JSON patch operation.
pub data Value : Type 0 where
  string : String → Value
  int : ℤ → Value
  string_map : Dict String → Value

pub record Operation : Type 0 where
  pub operation : String
  pub path : String
  pub value : Value

-- One constructor for each call that builds a response: `admission.Allowed`, `Denied`, `Errored`
-- (with its HTTP status) and `Patched`.
pub data Response : Type 0 where
  allowed : Message → Response
  denied : Message → Response
  errored : ℕ → Error → Response
  patched : Message → List Operation → Response

-- The field `Allowed` of the response.
abbrev pub is_allowed : Response → Bool
is_allowed (allowed _) = true
is_allowed (denied _) = false
is_allowed (errored _ _) = false
is_allowed (patched _ _) = true

-- The JSON patch that goes with the response.
abbrev pub patches : Response → List Operation
patches (patched _ ops) = ops
patches _ = []
