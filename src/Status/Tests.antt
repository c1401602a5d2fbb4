-- ===== src/Status/Tests.antt =====
-- Runs of the status texts.
use mini_leveldb.Prelude.{◌≡◌, refl, codes}
use mini_leveldb.Status.{not_found, make, to_string}

two_messages : to_string (make not_found (codes "key") (codes "a")) ≡ codes "NotFound: key: a"
unfolding make to_string
two_messages = refl
