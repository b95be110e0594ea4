-- ===== src/Kv/Key.antt =====
-- storage/kv/kv.go: the keys of a bucket.
use nanomdm.Common.{String, List, [], ◌∷◌, ◌^^◌}

abbrev pub key_sep : String
key_sep = "."

-- strings.Join(s, keySep)
abbrev pub join : List String → String
join [] = ""
join (x ∷ []) = x
join (x ∷ y ∷ r) = x ^^ (key_sep ^^ join (y ∷ r))
