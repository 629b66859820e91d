-- ===== src/Api/Refs.antt =====
-- References between objects, grants, and conditions.
use controller_powered_by_di.Base.{ℕ, String, Option, List}

pub record NamespacedName : Type 0 where
  pub namespace : String
  pub name : String

pub record GroupVersionKind : Type 0 where
  pub group : String
  pub version : String
  pub kind : String

pub record ParentReference : Type 0 where
  pub group : Option String
  pub kind : Option String
  pub namespace : Option String
  pub name : String
  pub section_name : Option String
  pub port : Option ℕ

pub record BackendObjectReference : Type 0 where
  pub group : Option String
  pub kind : Option String
  pub name : String
  pub namespace : Option String
  pub port : Option ℕ

pub record BackendRef : Type 0 where
  pub ref : BackendObjectReference
  pub open ref use *
  pub weight : Option ℕ

pub record SecretObjectReference : Type 0 where
  pub group : Option String
  pub kind : Option String
  pub name : String
  pub namespace : Option String

pub record ReferenceGrantFrom : Type 0 where
  pub group : String
  pub kind : String
  pub namespace : String

pub record ReferenceGrantTo : Type 0 where
  pub group : String
  pub kind : String
  pub name : Option String

pub record ReferenceGrant : Type 0 where
  pub namespace : String
  pub from : List ReferenceGrantFrom
  pub to : List ReferenceGrantTo

pub record Condition : Type 0 where
  pub kind : String
  pub status : String
  pub reason : String
  pub message : String
  pub observed_generation : ℕ
  pub last_transition_time : ℕ

pub record RouteParentStatus : Type 0 where
  pub parent_ref : ParentReference
  pub controller_name : String
  pub conditions : List Condition
