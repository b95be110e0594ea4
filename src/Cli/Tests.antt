-- ===== src/Cli/Tests.antt =====
-- Flags for two storages, one of them with options.
use nanomdm.Common.{String, ◌≡◌, refl, inr, List, [], ◌∷◌, ◌++◌, ◌^^◌}
use nanomdm.Common.Fault.{ok}
use nanomdm.Cli.{
  Storage, SqlOption, Backends, split_options, parse, set_up, delete_commands, conn_max_lifetime,
  conn_max_idle_time,
}
use nanomdm.Cli.Rows.{expected, parse-rows}

-- what a storage was made of, as a text
abbrev shown : List (SqlOption String) → String
shown [] = ""
shown (delete_commands ∷ opts) = " delete" ^^ shown opts
shown (conn_max_lifetime d ∷ opts) = " lifetime " ^^ (d ^^ shown opts)
shown (conn_max_idle_time d ∷ opts) = " idle " ^^ (d ^^ shown opts)

abbrev backends : Backends String (List String)
backends = record {
  file = λ path. ok (("file " ^^ path) ∷ []);
  mysql = λ dsn opts. ok (("mysql " ^^ (dsn ^^ shown opts)) ∷ []);
  pgsql = λ dsn opts. ok (("pgsql " ^^ (dsn ^^ shown opts)) ∷ []);
  inmem = "inmem" ∷ [];
  diskv = λ path. ("diskv " ^^ path) ∷ [];
  allmulti = joined;
  parse_duration = λ text. ok text;
  quoted = λ text. text;
  in_order = λ m. m;
}
  where
    joined : List (List String) → List String
    joined [] = []
    joined (l ∷ ls) = l ++ joined ls

abbrev two : Storage
two = record {
  storage = "inmem" ∷ "mysql" ∷ [];
  dsn = "" ∷ "db" ∷ [];
  options = "" ∷ "conn_max_lifetime=5m,delete=1" ∷ [];
}

are_split : split_options "a=1,b,c=x=y" ≡ ("a", "1") ∷ ("b", "") ∷ ("c", "x=y") ∷ []
unfolding split_options
are_split = refl

parsed :
    (parse backends two ≡ ok ("inmem" ∷ "mysql db lifetime 5m delete" ∷ []))
    × (parse backends (record { storage = []; dsn = []; options = [] }) ≡ ok ("diskv dbkv" ∷ []))
unfolding parse set_up
parsed = (refl, refl)

parse-rows_example :
    parse backends two
    ≡ expected backends (("inmem", "", "") ∷ ("mysql", "db", "conn_max_lifetime=5m,delete=1") ∷ [])
parse-rows_example = parse-rows backends two refl (inr refl)
