-- ===== src/Tests/Names.antt =====
-- Examples of operation names.
use specmcp.Prelude.{◌≡◌, refl, some, [], ◌∷◌}
use specmcp.Prelude.Digits.{show}
use specmcp.Naming.{derive_operation_id, resolve_collisions}
use specmcp.Naming.Method.{HttpMethod}
use specmcp.Naming.Unique.{get_elem?, resolve_collisions_lem}

derive_test : derive_operation_id HttpMethod.get "/users/{userId}/posts" ≡ "get_users_userId_posts"
unfolding derive_operation_id
derive_test = refl

resolve_test :
    resolve_collisions ("list" ∷ "get" ∷ "list" ∷ "list" ∷ [])
    ≡ "list" ∷ "get" ∷ "list_2" ∷ "list_3" ∷ []
unfolding resolve_collisions show
resolve_test = refl

resolve_collisions_lem_example :
    get_elem? (resolve_collisions ("a" ∷ "b" ∷ "a" ∷ "c" ∷ [])) 2 ≡ some "a_2"
unfolding show
resolve_collisions_lem_example = resolve_collisions_lem ("a" ∷ "b" ∷ []) "a" ("c" ∷ [])
