-- ===== src/Webhooks/Samples.antt =====
-- A small cluster and requests to it, for the tests.
use appuio_cloud_agent.Base.{String, Bool, false, [], ◌∷◌, none, pos, ◌==◌}
use appuio_cloud_agent.Kube.{
  not_found, ok, err, Request, Reader, Decoder, Namespace, Unstructured, missing,
}
use appuio_cloud_agent.Skipper.Skip.{Skipper}

abbrev pub request : String → String → String → Request
request user kind name = record {
  user_info = record { username = user; groups = [] };
  group = "";
  kind = kind;
  namespace = "ci";
  name = name;
  operation = "CREATE";
  object = "{}";
  old_object = "";
}

-- The namespace of a service account, and the one existing namespace of its organization.
abbrev pub ci : Namespace
ci = record {
  name = "ci";
  labels = ("appuio.io/organization", "acme") ∷ [];
  annotations = ("deadline", "60") ∷ [];
  deleting = false;
}

-- Jane's default organization is acme, of which she is a member.
abbrev pub reader : Reader
reader = record {
  get_namespace = λ _. ok ci;
  get_user = λ _. ok (record { annotations = ("default-organization", "acme") ∷ [] });
  get_group = λ _. ok (record { users = "joe" ∷ "jane" ∷ [] });
  get_config_map = λ name _. err (not_found name);
  get_zone_usage_profile = λ _. ok (record { namespace_count = pos 2 });
  list_namespaces = λ _ _. ok (ci ∷ []);
  list_cluster_role_bindings = ok [];
}

abbrev pub always : {A : Type 0} → A → Decoder A
always a = record { decode = λ _. ok a; decode_raw = λ _. ok a }

-- An object without labels and annotations.
abbrev pub bare : String → Unstructured
bare kind = record {
  kind = kind;
  annotations = [];
  labels = [];
  nested_string_map = λ _. missing;
  nested_string = λ _. missing;
}

abbrev pub no_skip : Skipper
no_skip _ = (false, none)

-- In place of `wildcard.Match`: no wildcards.
abbrev pub exact : String → String → Bool
exact pattern s = pattern == s
