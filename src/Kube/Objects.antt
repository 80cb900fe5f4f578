-- ===== src/Kube/Objects.antt =====
-- The objects of the cluster, by the fields that the agent reads.
use appuio_cloud_agent.Base.{ℤ, String, Bool, List, [], Dict}
use appuio_cloud_agent.Kube.Errors.{Error}

pub record Namespace : Type 0 where
  pub name : String
  pub labels : Dict String
  pub annotations : Dict String
  pub deleting : Bool

-- OpenShift's `User` and `Group`.
pub record User : Type 0 where
  pub annotations : Dict String

pub record Group : Type 0 where
  pub users : List String

pub record Subject : Type 0 where
  pub kind : String
  pub namespace : String
  pub name : String

pub record ClusterRoleBinding : Type 0 where
  pub role_kind : String
  pub role_name : String
  pub subjects : List Subject

pub record ConfigMap : Type 0 where
  pub entries : Dict String

-- `.spec.upstreamSpec.namespaceCount` of a `ZoneUsageProfile`.
pub record ZoneUsageProfile : Type 0 where
  pub namespace_count : ℤ

-- What `unstructured.NestedStringMap` and `NestedString` return: the value, nothing, or an error
-- where the field has another type.
pub data Found {ℓ} (A : Type ℓ) : Type ℓ where
  found : A → Found A
  missing : Found A
  mistyped : Error → Found A

-- An `unstructured.Unstructured`, by what its accessors return. The paths are lists of field names.
pub record Unstructured : Type 0 where
  pub kind : String
  pub annotations : Dict String
  pub labels : Dict String
  pub nested_string_map : List String → Found (Dict String)
  pub nested_string : List String → Found String

-- The zero value.
abbrev pub empty_object : Unstructured
empty_object = record {
  kind = "";
  annotations = [];
  labels = [];
  nested_string_map = λ _. missing;
  nested_string = λ _. missing;
}
