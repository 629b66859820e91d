-- ===== src/Api/Ingresses.antt =====
-- The records of the Ingress of Kubernetes, with the fields that the code reads.
use controller_powered_by_di.Base.{ℕ, String, Bool, Option, List}

pub record IngressServiceBackend : Type 0 where
  pub name : String
  pub port_name : String
  pub port_number : ℕ

pub data PathType : Type 0 where
  exact prefix implementation_specific : PathType
  other : String → PathType

pub record HttpIngressPath : Type 0 where
  pub path : String
  pub path_type : Option PathType
  pub service : Option IngressServiceBackend

pub record IngressRule : Type 0 where
  pub host : String
  pub http : Option (List HttpIngressPath)

pub record IngressTls : Type 0 where
  pub hosts : List String
  pub secret_name : String

-- A nil map is the empty list. The default backend is given by its service, which may be nil.
pub record Ingress : Type 0 where
  pub name : String
  pub namespace : String
  pub uid : String
  pub annotations : List (String × String)
  pub labels : List (String × String)
  pub deleted : Bool
  pub class_name : Option String
  pub default_backend : Option (Option IngressServiceBackend)
  pub rules : List IngressRule
  pub tls : List IngressTls
