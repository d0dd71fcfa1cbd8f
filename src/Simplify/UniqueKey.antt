-- ===== src/Simplify/UniqueKey.antt =====
-- `_unique_key` of core/simplify.py.
pub mod Fresh
use Prim.Native.String.{◌++◌}
use specmcp.Prelude.{ℕ, zero, suc, ◌+◌, String, Bool, List, if◌then◌else◌, elem, length}
use specmcp.Prelude.Suffix.{suffixed}

-- `while f"{candidate}_{i}" in existing: i += 1`; the fuel is one more than the number of keys.
first_free : ℕ → List String → String → ℕ → ℕ
first_free zero existing candidate i = i
first_free (suc fuel) existing candidate i =
    let later = first_free fuel existing candidate (i + 1) in
    if elem (suffixed candidate i) existing then later else i

unfoldable pub unique_key : String → List String → String → String
unfolding first_free suffixed
unique_key name existing suffix =
    let candidate = name ++ suffix in
    if elem name existing
    then (if elem candidate existing
        then suffixed candidate (first_free (suc (length existing)) existing candidate 2)
        else candidate)
    else name
