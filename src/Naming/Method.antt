-- ===== src/Naming/Method.antt =====
-- The HTTP methods of src/specmcp/core/model.py and normalize.py.
use specmcp.Prelude.{String, List, [], ◌∷◌}

pub data HttpMethod : Type 0 where
  get put post patch delete head options : HttpMethod

-- The methods that are looked up in a path item, in order.
abbrev pub http_methods : List HttpMethod
http_methods = get ∷ put ∷ post ∷ patch ∷ delete ∷ head ∷ options ∷ []

-- The key of a path item, in lower case.
abbrev pub method_key : HttpMethod → String
method_key get = "get"
method_key put = "put"
method_key post = "post"
method_key patch = "patch"
method_key delete = "delete"
method_key head = "head"
method_key options = "options"

-- method.upper()
abbrev pub method_name : HttpMethod → String
method_name get = "GET"
method_name put = "PUT"
method_name post = "POST"
method_name patch = "PATCH"
method_name delete = "DELETE"
method_name head = "HEAD"
method_name options = "OPTIONS"
