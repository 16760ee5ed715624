-- ===== src/Adapter/Rest/Reads.antt =====
-- The calls that read objects touch the world by one request each.
use provisioning_api.Base.{String, [], ◌<>◌, ◌≡◌, arith}
use provisioning_api.Adapter.Rest.{Http, list_params, get_object_types, list_objects, get_object}

module _ {S : Type 0} (http : Http S) (base_url : String) (s : S) where
  pub get_object_world : (url : String) → (get_object http base_url url s).1 ≡ (http.get url [] s).1
  unfolding get_object
  get_object_world url = ground arith

  pub list_objects_world :
      (object_type : String)
      → (list_objects http base_url object_type s).1
        ≡ (http.get (base_url <> object_type <> "/") list_params s).1
  unfolding list_objects
  list_objects_world object_type = ground arith

  pub get_object_types_world : (get_object_types http base_url s).1 ≡ (http.get base_url [] s).1
  unfolding get_object_types
  get_object_types_world = ground arith
