-- ===== src/Dbformat/Tests.antt =====
-- Runs on internal keys.
use mini_leveldb.Prelude.{◌≡◌, ◌⊎◌, ◌↔◌, true, some, [], codes, arith}
use mini_leveldb.Dbformat.{
  type_value, type_deletion, append_internal_key, parse_internal_key, internal_key_less,
}
use mini_leveldb.Dbformat.Keys.{Newer, parse-append_internal_key, internal_key_less_iff}
use mini_leveldb.Slice.Order.{Below}

parse-append_internal_key_example :
    parse_internal_key (append_internal_key [] (codes "key") 300 type_value)
    ≡ some (record { user_key = codes "key"; sequence = 300; type = 1 })
parse-append_internal_key_example =
    parse-append_internal_key (codes "key") 300 type_value (omega arith)

internal_key_less_iff_example :
    (internal_key_less
        (append_internal_key [] (codes "a") 300 type_value)
        (append_internal_key [] (codes "a") 7 type_deletion)
      ≡ true)
    ↔ (Below (codes "a") (codes "a")
        ⊎ ((codes "a" ≡ codes "a") × Newer 300 type_value 7 type_deletion))
internal_key_less_iff_example =
    internal_key_less_iff (codes "a") (codes "a") 300 7 type_value type_deletion (omega arith)
      (omega arith)
